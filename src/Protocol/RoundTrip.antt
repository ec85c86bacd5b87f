-- ===== src/Protocol/RoundTrip.antt =====
-- Each encoder against the decoder of its message.
use velocity_match.Common.{
  ℕ, zero, suc, ◌+◌, ◌%◌, ◌^◌, ◌<◌, ◌≤◌, ◌≡◌, refl, ℤ, IsI64, arith, ap, ◌∙◌, ok, length, drop, [],
  ◌∷◌, ◌++◌, ==_ne, le→ltb,
}
use velocity_match.Common.Run.{◌>>=◌}
use velocity_match.Order.{Side, bid, ask, Order}
use velocity_match.Matching.{Fill}
use velocity_match.Protocol.{
  Buffer, to_le, from_le, bits_of, i64_of, new_order_size, cancel_order_size, execution_report_size,
  new_order, cancel_order, ExecutionReport, EngineCommand, Read, decode_side, decode_new_order,
  decode_cancel_order, decode_message, decode_execution_report,
}
use velocity_match.Protocol.Encode.{
  Written, encode_side, encode_new_order, encode_cancel_order, encode_execution_report,
}
use velocity_match.Protocol.Bytes.{from_le-to_le, i64_of-bits_of, bits_of-bound}

-- What an encoder leaves: a message of `size` bytes that decodes to `message`, and then the bytes
-- that were there.
pub record Encoded (M : Type 0) (run : Written ℕ) (decode : Buffer → Read M) (size : ℕ)
    (buf : Buffer) (message : M) : Type 0 where
  pub buffer : Buffer
  pub done : run ≡ (ok size, buffer)
  pub decoded : decode buffer ≡ ok message
  pub same_length : length buffer ≡ length buf
  pub rest_kept : drop size buffer ≡ drop size buf

pub length-drop_add : (n : ℕ) (buf : Buffer) → n ≤ length buf → n + length (drop n buf) ≡ length buf
length-drop_add zero buf h = omega arith
length-drop_add (suc n) [] h = absurd (omega arith)
length-drop_add (suc n) (b ∷ bs) h = omega (arith, length-drop_add n bs (omega arith))

read_u64 : (x : ℕ) → x < 2 ^ 64 → from_le (to_le 8 x) ≡ x
read_u64 x h = from_le-to_le 8 x (omega arith)

read_price : (z : ℤ) → IsI64 z → i64_of (from_le (to_le 8 (bits_of z))) ≡ z
read_price z h = ap i64_of (read_u64 (bits_of z) (bits_of-bound z h)) ∙ i64_of-bits_of z h

abbrev pub cancel_image : ℕ → Buffer → Buffer
cancel_image id buf = 2 ∷ 0 ∷ 0 ∷ 0 ∷ 0 ∷ 0 ∷ 0 ∷ 0 ∷ (to_le 8 id ++ drop cancel_order_size buf)

pub encode_cancel_order-image :
    (buf : Buffer) (id : ℕ)
    → cancel_order_size ≤ length buf
    → encode_cancel_order buf id ≡ (ok cancel_order_size, cancel_image id buf)
unfolding encode_cancel_order
encode_cancel_order-image buf id long = rw (encode_cancel_order, le→ltb (length buf) 16 long) refl

pub decode-cancel_image :
    (id : ℕ) (buf : Buffer)
    → id < 2 ^ 64
    → decode_message (cancel_image id buf) ≡ ok (cancel_order id)
unfolding decode_message decode_cancel_order
decode-cancel_image id buf fits =
    rw (le→ltb (length (cancel_image id buf)) 16 (omega arith))
      (ap (λ n. ok (cancel_order n)) (read_u64 id fits))

-- In a buffer of at least 16 bytes, whatever it held, a cancellation of a 64-bit id is encoded in
-- the first 16, and the buffer decodes to that cancellation. The rest of it is kept.
pub encode_cancel_order-Encoded :
    (buf : Buffer) (id : ℕ)
    → cancel_order_size ≤ length buf
    → id < 2 ^ 64
    → Encoded EngineCommand
        (encode_cancel_order buf id)
        decode_message
        cancel_order_size
        buf
        (cancel_order id)
encode_cancel_order-Encoded buf id long fits = record {
  buffer = cancel_image id buf;
  done = encode_cancel_order-image buf id long;
  decoded = decode-cancel_image id buf fits;
  same_length = omega (arith, length-drop_add 16 buf long);
  rest_kept = refl;
}

-- The fields of an order that a message can hold.
pub record FitsWire (o : Order) : Type 0 where
  pub id : o.id < 2 ^ 64
  pub trader_id : o.trader_id < 2 ^ 64
  pub price : IsI64 o.price
  pub positive : 0 < o.quantity
  pub quantity : o.quantity < 2 ^ 64

abbrev pub new_image : Order → Buffer → Buffer
new_image o buf =
    1
    ∷ (encode_side o.side % 256)
    ∷ 0
    ∷ 0
    ∷ 0
    ∷ 0
    ∷ 0
    ∷ 0
    ∷ (to_le 8 o.id
        ++ (to_le 8 o.trader_id
            ++ (to_le 8 (bits_of o.price) ++ (to_le 8 o.quantity ++ drop new_order_size buf))))

side_back : (s : Side) → decode_side (from_le (to_le 1 (encode_side s))) ≡ ok s
side_back bid = refl
side_back ask = refl

pub encode_new_order-image :
    (buf : Buffer) (o : Order)
    → new_order_size ≤ length buf
    → encode_new_order buf o ≡ (ok new_order_size, new_image o buf)
unfolding encode_new_order
encode_new_order-image buf o long = rw (encode_new_order, le→ltb (length buf) 40 long) refl

pub decode-new_image :
    (o : Order) (buf : Buffer)
    → FitsWire o
    → decode_message (new_image o buf) ≡ ok (new_order (record o { timestamp = 0 }))
unfolding decode_message decode_new_order
decode-new_image o buf fits = rw (le→ltb (length (new_image o buf)) 40 (omega arith)) (
    rw (side_back o.side, ◌>>=◌)
      (rw (read_u64 o.id fits.id) (
        rw (read_u64 o.trader_id fits.trader_id) (
          rw (read_price o.price fits.price) (
            rw (read_u64 o.quantity fits.quantity)
              (rw (==_ne o.quantity 0 (omega (arith, fits.positive)), ◌>>=◌) refl))))))

-- In a buffer of at least 40 bytes, whatever it held, an order whose fields fit is encoded in the
-- first 40, and the buffer decodes to that order with timestamp 0. The rest of it is kept.
pub encode_new_order-Encoded :
    (buf : Buffer) (o : Order)
    → new_order_size ≤ length buf
    → FitsWire o
    → Encoded EngineCommand
        (encode_new_order buf o)
        decode_message
        new_order_size
        buf
        (new_order (record o { timestamp = 0 }))
encode_new_order-Encoded buf o long fits = record {
  buffer = new_image o buf;
  done = encode_new_order-image buf o long;
  decoded = decode-new_image o buf fits;
  same_length = omega (arith, length-drop_add 40 buf long);
  rest_kept = refl;
}

abbrev report_image : ℕ → Fill → ℕ → Buffer → Buffer
report_image seq_num f timestamp buf =
    3
    ∷ 0
    ∷ 0
    ∷ 0
    ∷ (to_le 4 seq_num
        ++ (to_le 8 f.taker_order_id
            ++ (to_le 8 f.maker_order_id
                ++ (to_le 8 (bits_of f.price)
                    ++ (to_le 8 f.quantity
                        ++ (to_le 8 timestamp ++ drop execution_report_size buf))))))

-- The fields of a fill that a report can hold.
pub record FitsReport (f : Fill) : Type 0 where
  pub taker_order_id : f.taker_order_id < 2 ^ 64
  pub maker_order_id : f.maker_order_id < 2 ^ 64
  pub price : IsI64 f.price
  pub quantity : f.quantity < 2 ^ 64

abbrev pub report_of : ℕ → Fill → ℕ → ExecutionReport
report_of seq_num f timestamp = record {
  seq_num = seq_num;
  taker_order_id = f.taker_order_id;
  maker_order_id = f.maker_order_id;
  price = f.price;
  quantity = f.quantity;
  timestamp = timestamp;
}

-- In a buffer of at least 48 bytes, whatever it held, the report of a fill whose fields fit is
-- encoded in the first 48, and the buffer decodes to that report. The rest of it is kept.
pub encode_execution_report-Encoded :
    (buf : Buffer) (seq_num : ℕ) (f : Fill) (timestamp : ℕ)
    → execution_report_size ≤ length buf
    → seq_num < 2 ^ 32
    → FitsReport f
    → timestamp < 2 ^ 64
    → Encoded ExecutionReport
        (encode_execution_report buf seq_num f timestamp)
        decode_execution_report
        execution_report_size
        buf
        (report_of seq_num f timestamp)
unfolding encode_execution_report decode_execution_report
encode_execution_report-Encoded buf seq_num f timestamp long small fits late = record {
  buffer = report_image seq_num f timestamp buf;
  done = rw (encode_execution_report, le→ltb (length buf) 48 long) refl;
  decoded = rw (le→ltb (length (report_image seq_num f timestamp buf)) 48 (omega arith)) (
      rw (from_le-to_le 4 seq_num (omega arith)) (
        rw (read_u64 f.taker_order_id fits.taker_order_id) (
          rw (read_u64 f.maker_order_id fits.maker_order_id) (
            rw (read_price f.price fits.price)
              (rw (read_u64 f.quantity fits.quantity) (rw (read_u64 timestamp late) refl))))));
  same_length = omega (arith, length-drop_add 48 buf long);
  rest_kept = refl;
}
