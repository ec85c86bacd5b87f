-- ===== src/Protocol/Encode.antt =====
-- src/protocol.rs: the encoders. A writer returns its result with the buffer that it leaves, also
-- where it fails; `b₁ ← w` names the buffer that the writer `w` leaves.
use velocity_match.Common.{
  ℕ, ℤ, none, some, Result, ok, err, ltb, if◌then◌else◌, ◌++◌, length, drop, replicate,
}
use velocity_match.Common.Run.Buffered.{◌>>=◌}
use velocity_match.Order.{Side, bid, ask, Order}
use velocity_match.Matching.{Fill}
use velocity_match.Protocol.{
  Buffer, ProtocolError, buffer_too_short, splice, to_le, bits_of, msg_new_order, msg_cancel_order,
  msg_execution_report, new_order_size, cancel_order_size, execution_report_size,
}

-- A writer's result, and the buffer.
abbrev pub Written : Type 0 → Type 0
Written A = Result ProtocolError A × Buffer

abbrev write_bytes : Buffer → (offset : ℕ) → Buffer → Written (Unit {0})
write_bytes buf offset xs = elim (splice offset xs buf) [
  | none ↦ (err buffer_too_short, buf)
  | some left ↦ (ok tt, left)
]

-- `write_u8`, `write_u32` and `write_u64` are those of 1, 4 and 8 bytes.
abbrev pub write_le : ℕ → Buffer → (offset value : ℕ) → Written (Unit {0})
write_le n buf offset value = write_bytes buf offset (to_le n value)

abbrev pub write_i64 : Buffer → (offset : ℕ) → ℤ → Written (Unit {0})
write_i64 buf offset value = write_bytes buf offset (to_le 8 (bits_of value))

abbrev pub encode_side : Side → ℕ
encode_side bid = 0
encode_side ask = 1

-- `buf[..n].fill(0)`
abbrev pub cleared : ℕ → Buffer → Buffer
cleared n buf = replicate n 0 ++ drop n buf

unfoldable pub encode_new_order : Buffer → Order → Written ℕ
encode_new_order buf order =
    if ltb (length buf) new_order_size then (err buffer_too_short, buf) else (do
      b₁ ← write_le 1 (cleared new_order_size buf) 0 msg_new_order
      b₂ ← write_le 1 b₁ 1 (encode_side order.side)
      b₃ ← write_le 8 b₂ 8 order.id
      b₄ ← write_le 8 b₃ 16 order.trader_id
      b₅ ← write_i64 b₄ 24 order.price
      b₆ ← write_le 8 b₅ 32 order.quantity
      (ok new_order_size, b₆))

unfoldable pub encode_cancel_order : Buffer → (order_id : ℕ) → Written ℕ
encode_cancel_order buf order_id =
    if ltb (length buf) cancel_order_size then (err buffer_too_short, buf) else (do
      b₁ ← write_le 1 (cleared cancel_order_size buf) 0 msg_cancel_order
      b₂ ← write_le 8 b₁ 8 order_id
      (ok cancel_order_size, b₂))

unfoldable pub encode_execution_report : Buffer → (seq_num : ℕ) → Fill → (timestamp : ℕ) → Written ℕ
encode_execution_report buf seq_num fill timestamp =
    if ltb (length buf) execution_report_size then (err buffer_too_short, buf) else (do
      b₁ ← write_le 1 (cleared execution_report_size buf) 0 msg_execution_report
      b₂ ← write_le 4 b₁ 4 seq_num
      b₃ ← write_le 8 b₂ 8 fill.taker_order_id
      b₄ ← write_le 8 b₃ 16 fill.maker_order_id
      b₅ ← write_i64 b₄ 24 fill.price
      b₆ ← write_le 8 b₅ 32 fill.quantity
      b₇ ← write_le 8 b₆ 40 timestamp
      (ok execution_report_size, b₇))
