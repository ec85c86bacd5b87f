-- ===== src/Protocol.antt =====
-- src/protocol.rs: the fixed-size wire messages and their decoders. A buffer is a list of bytes.
pub mod Bytes
pub mod Encode
pub mod RoundTrip
pub mod Refusals
use velocity_match.Common.{
  ℕ, zero, suc, ◌+◌, ◌-◌, ◌*◌, ◌/◌, ◌%◌, ◌^◌, ℤ, pos, negsuc, Option, none, some, Result, ok, err,
  ok_or, ltb, ◌==◌, if◌then◌else◌, List, [], ◌∷◌, ◌++◌, length, drop, replicate,
}
use velocity_match.Common.Run.{◌>>=◌}
use velocity_match.Order.{Side, bid, ask, Order}
use velocity_match.Matching.{Fill}

abbrev pub msg_new_order : ℕ
msg_new_order = 1

abbrev pub msg_cancel_order : ℕ
msg_cancel_order = 2

abbrev pub msg_execution_report : ℕ
msg_execution_report = 3

abbrev pub new_order_size : ℕ
new_order_size = 40

abbrev pub cancel_order_size : ℕ
cancel_order_size = 16

abbrev pub execution_report_size : ℕ
execution_report_size = 48

pub data EngineCommand : Type 0 where
  new_order : Order → EngineCommand
  cancel_order : (order_id : ℕ) → EngineCommand

pub record ExecutionReport : Type 0 where
  pub seq_num : ℕ
  pub taker_order_id : ℕ
  pub maker_order_id : ℕ
  pub price : ℤ
  pub quantity : ℕ
  pub timestamp : ℕ

pub data ProtocolError : Type 0 where
  buffer_too_short : ProtocolError
  unknown_message_type : ℕ → ProtocolError
  invalid_side : ℕ → ProtocolError
  zero_quantity : ProtocolError

abbrev pub Buffer : Type 0
Buffer = List ℕ

-- `to_le_bytes` of a number of `n` bytes.
abbrev pub to_le : ℕ → ℕ → Buffer
to_le zero x = []
to_le (suc n) x = x % 256 ∷ to_le n (x / 256)

abbrev pub from_le : Buffer → ℕ
from_le [] = 0
from_le (b ∷ bs) = b + 256 * from_le bs

-- The 64 bits of an `i64`, in two's complement.
abbrev pub bits_of : ℤ → ℕ
bits_of (pos n) = n
bits_of (negsuc n) = 2 ^ 64 - 1 - n

abbrev pub i64_of : ℕ → ℤ
i64_of x = if ltb x (2 ^ 63) then pos x else negsuc (2 ^ 64 - 1 - x)

-- `buf.get(offset..offset + n)`
abbrev pub slice : (offset n : ℕ) → Buffer → Option Buffer
slice zero zero bs = some []
slice zero (suc n) [] = none
slice zero (suc n) (b ∷ bs) = elim (slice zero n bs) [ none ↦ none | some xs ↦ some (b ∷ xs) ]
slice (suc o) n [] = none
slice (suc o) n (b ∷ bs) = slice o n bs

-- `buf.get_mut(offset..offset + xs.len())` and `copy_from_slice`
abbrev pub splice : (offset : ℕ) → (xs buf : Buffer) → Option Buffer
splice zero [] bs = some bs
splice zero (x ∷ xs) [] = none
splice zero (x ∷ xs) (b ∷ bs) = elim (splice zero xs bs) [ none ↦ none | some ys ↦ some (x ∷ ys) ]
splice (suc o) xs [] = none
splice (suc o) xs (b ∷ bs) = elim (splice o xs bs) [ none ↦ none | some ys ↦ some (b ∷ ys) ]

abbrev pub Read : Type 0 → Type 0
Read A = Result ProtocolError A

-- `read_u8`, `read_u32` and `read_u64` are those of 1, 4 and 8 bytes.
abbrev pub read_le : ℕ → Buffer → (offset : ℕ) → Read ℕ
read_le n buf offset = do bytes ← ok_or (slice offset n buf) buffer_too_short; ok (from_le bytes)

abbrev pub read_i64 : Buffer → (offset : ℕ) → Read ℤ
read_i64 buf offset = do
  bytes ← ok_or (slice offset 8 buf) buffer_too_short
  ok (i64_of (from_le bytes))

abbrev pub decode_side : ℕ → Read Side
decode_side value =
    if value == 0 then ok bid else (if value == 1 then ok ask else err (invalid_side value))

unfoldable pub decode_new_order : Buffer → Read Order
decode_new_order buf = if ltb (length buf) new_order_size then err buffer_too_short else (do
  side_byte ← read_le 1 buf 1
  side ← decode_side side_byte
  order_id ← read_le 8 buf 8
  trader_id ← read_le 8 buf 16
  price ← read_i64 buf 24
  quantity ← read_le 8 buf 32
  if quantity == 0
      then err zero_quantity
      else ok (record {
        id = order_id;
        trader_id = trader_id;
        side = side;
        price = price;
        quantity = quantity;
        timestamp = 0;
      }))

unfoldable pub decode_cancel_order : Buffer → Read ℕ
decode_cancel_order buf =
    if ltb (length buf) cancel_order_size then err buffer_too_short else read_le 8 buf 8

unfoldable pub decode_message : Buffer → Read EngineCommand
unfolding decode_new_order decode_cancel_order
decode_message buf = do
  msg_type ← read_le 1 buf 0
  if msg_type == msg_new_order
      then (do order ← decode_new_order buf; ok (new_order order))
      else (if msg_type == msg_cancel_order
          then (do order_id ← decode_cancel_order buf; ok (cancel_order order_id))
          else err (unknown_message_type msg_type))

unfoldable pub message_size : ℕ → Read ℕ
message_size msg_type =
    if msg_type == msg_new_order
    then ok new_order_size
    else (if msg_type == msg_cancel_order
        then ok cancel_order_size
        else err (unknown_message_type msg_type))

unfoldable pub decode_execution_report : Buffer → Read ExecutionReport
decode_execution_report buf =
    if ltb (length buf) execution_report_size then err buffer_too_short else (do
      seq_num ← read_le 4 buf 4
      taker_order_id ← read_le 8 buf 8
      maker_order_id ← read_le 8 buf 16
      price ← read_i64 buf 24
      quantity ← read_le 8 buf 32
      timestamp ← read_le 8 buf 40
      ok (record {
        seq_num = seq_num;
        taker_order_id = taker_order_id;
        maker_order_id = maker_order_id;
        price = price;
        quantity = quantity;
        timestamp = timestamp;
      }))
