-- ===== src/Wal/Log.antt =====
-- What the bytes of a log stand for: a list of commands, and the bytes behind their records.
use velocity_match.Common.{
  ℕ, ◌+◌, ◌≤◌, ◌<◌, ◌^◌, ◌≡◌, refl, ok, List, [], ◌∷◌, ◌++◌, length, drop, arith, ap, ◌∙◌, sym,
  append_assoc, All, replicate, replicate_sum,
}
use velocity_match.Protocol.{Buffer, EngineCommand, new_order, cancel_order, to_le, decode_message}
use velocity_match.Protocol.RoundTrip.{
  FitsWire, length-drop_add, new_image, cancel_image, encode_new_order-image,
  encode_cancel_order-image, decode-new_image, decode-cancel_image,
}
use velocity_match.Wal.{Platform, Wal, file_of, encode, align_up}

-- A command that a record can hold.
abbrev pub Fits : EngineCommand → Type 0
Fits (new_order order) = FitsWire order
Fits (cancel_order order_id) = order_id < 2 ^ 64

-- A record does not keep an order's timestamp.
abbrev pub stored : EngineCommand → EngineCommand
stored (new_order order) = new_order (record order { timestamp = 0 })
stored (cancel_order order_id) = cancel_order order_id

abbrev pub payload : EngineCommand → Buffer
payload (new_order order) = new_image order []
payload (cancel_order order_id) = cancel_image order_id []

abbrev pub payload_size : EngineCommand → ℕ
payload_size (new_order order) = 40
payload_size (cancel_order order_id) = 16

pub length-payload : (c : EngineCommand) → length (payload c) ≡ payload_size c
length-payload (new_order order) = refl
length-payload (cancel_order order_id) = refl

pub decode-payload : (c : EngineCommand) → Fits c → decode_message (payload c) ≡ ok (stored c)
decode-payload (new_order order) fits = decode-new_image order [] fits
decode-payload (cancel_order order_id) fits = decode-cancel_image order_id [] fits

-- Encoding puts the payload at the front of the buffer.
pub record IsEncoded (buf : Buffer) (c : EngineCommand) : Type 0 where
  pub left : Buffer
  pub rest : Buffer
  pub done : encode buf c ≡ (ok (payload_size c), left)
  pub front : left ≡ payload c ++ rest
  pub same_length : length left ≡ length buf

pub encode-IsEncoded : (buf : Buffer) (c : EngineCommand) → 40 ≤ length buf → IsEncoded buf c
unfolding encode
encode-IsEncoded buf (new_order order) long = record {
  left = new_image order buf;
  rest = drop 40 buf;
  done = encode_new_order-image buf order long;
  front = refl;
  same_length = omega (arith, length-drop_add 40 buf long);
}
encode-IsEncoded buf (cancel_order order_id) long = record {
  left = cancel_image order_id buf;
  rest = drop 16 buf;
  done = encode_cancel_order-image buf order_id (omega arith);
  front = refl;
  same_length = omega (arith, length-drop_add 16 buf (omega arith));
}

module _ (os : Platform) where
  abbrev pub record_bytes : EngineCommand → Buffer
  record_bytes c = to_le 4 (payload_size c) ++ (to_le 4 (os.crc32 (payload c)) ++ payload c)

  abbrev pub logged : List EngineCommand → Buffer
  logged [] = []
  logged (c ∷ cs) = record_bytes c ++ logged cs

abbrev pub record_size : EngineCommand → ℕ
record_size c = align_up (8 + payload_size c)

pub record_size_exact : (c : EngineCommand) → record_size c ≡ 8 + payload_size c
record_size_exact (new_order order) = refl
record_size_exact (cancel_order order_id) = refl

pub length-record_bytes :
    (os : Platform) (c : EngineCommand) → length (record_bytes os c) ≡ record_size c
length-record_bytes os (new_order order) = refl
length-record_bytes os (cancel_order order_id) = refl

-- The log `w` holds the records of `cs`, and `tail` behind them.
pub record IsLog (os : Platform) (w : Wal) (cs : List EngineCommand) (tail : Buffer) : Type 0 where
  pub bytes : w.mmap ≡ logged os cs ++ tail
  pub pos : w.write_pos ≡ length (logged os cs)
  pub size : w.mapped_size ≡ length w.mmap
  pub buf : length w.encode_buf ≡ 40
  pub count : w.record_count ≡ length cs
  pub fits : All Fits cs

pub logged-append :
    (os : Platform) (cs ds : List EngineCommand)
    → logged os (cs ++ ds) ≡ logged os cs ++ logged os ds
logged-append os [] ds = refl
logged-append os (c ∷ cs) ds =
    ap (λ l. record_bytes os c ++ l) (logged-append os cs ds)
    ∙ sym (append_assoc (record_bytes os c) (logged os cs) (logged os ds))

-- The file of a log with zeros behind its records.
pub file_of-zeros :
    (w : Wal) (xs : Buffer) (z : ℕ)
    → w.mmap ≡ xs ++ replicate z 0
    → file_of w ≡ xs ++ replicate (z + w.zeros_behind) 0
file_of-zeros w xs z e =
    ap (λ l. l ++ replicate w.zeros_behind 0) e
    ∙ append_assoc xs (replicate z 0) (replicate w.zeros_behind 0)
    ∙ ap (λ l. xs ++ l) (replicate_sum z w.zeros_behind 0)
