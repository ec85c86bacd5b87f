-- ===== src/Examples/Protocol.antt =====
-- The wire messages at concrete inputs: each theorem applied to a short buffer.
use velocity_match.Common.{pos, negsuc, ◌≡◌, refl, false, ok, arith, ◌∷◌, ◌++◌, replicate}
use velocity_match.Order.{ask, Order}
use velocity_match.Matching.{Fill}
use velocity_match.Protocol.{
  Buffer, new_order_size, execution_report_size, EngineCommand, new_order, cancel_order,
  ExecutionReport, decode_message, decode_new_order, decode_cancel_order, decode_execution_report,
}
use velocity_match.Protocol.Encode.{encode_new_order, encode_execution_report}
use velocity_match.Protocol.RoundTrip.{
  Encoded, FitsWire, FitsReport, report_of, encode_new_order-Encoded,
  encode_execution_report-Encoded,
}
use velocity_match.Protocol.Refusals.{
  IsRead, IsAccepted, decode_new_order-IsRead, decode_message-IsAccepted,
}

abbrev used : Buffer
used = replicate 50 7

abbrev sell : Order
sell = record {
  id = 300;
  trader_id = 7;
  side = ask;
  price = negsuc 4;
  quantity = 10;
  timestamp = 9;
}

abbrev sold : Fill
sold = record {
  taker_order_id = 2;
  maker_order_id = 1;
  price = pos 100;
  quantity = 4;
  maker_fully_filled = false;
}

sell-FitsWire : FitsWire sell
sell-FitsWire = record {
  id = omega arith;
  trader_id = omega arith;
  price = (omega arith, omega arith);
  positive = omega arith;
  quantity = omega arith;
}

sold-FitsReport : FitsReport sold
sold-FitsReport = record {
  taker_order_id = omega arith;
  maker_order_id = omega arith;
  price = (omega arith, omega arith);
  quantity = omega arith;
}

encode_new_order-Encoded_example :
    Encoded EngineCommand
      (encode_new_order used sell)
      decode_message
      new_order_size
      used
      (new_order (record sell { timestamp = 0 }))
encode_new_order-Encoded_example = encode_new_order-Encoded used sell (omega arith) sell-FitsWire

encode_execution_report-Encoded_example :
    Encoded ExecutionReport
      (encode_execution_report used 3 sold 77)
      decode_execution_report
      execution_report_size
      used
      (report_of 3 sold 77)
encode_execution_report-Encoded_example =
    encode_execution_report-Encoded used 3 sold 77 (omega arith) (omega arith) sold-FitsReport
      (omega arith)

abbrev cancel_bytes : Buffer
cancel_bytes = 2 ∷ (replicate 7 0 ++ (5 ∷ replicate 7 0))

-- A new order with 1 in each field.
abbrev order_bytes : Buffer
order_bytes =
    1
    ∷ 1
    ∷ (replicate 6 0
        ++ (1
            ∷ (replicate 7 0
                ++ (1 ∷ (replicate 7 0 ++ (1 ∷ (replicate 7 0 ++ (1 ∷ replicate 7 0))))))))

abbrev ones : Order
ones = record { id = 1; trader_id = 1; side = ask; price = pos 1; quantity = 1; timestamp = 0 }

cancel_run : decode_message cancel_bytes ≡ ok (cancel_order 5)
unfolding decode_message decode_cancel_order
cancel_run = refl

order_run : decode_new_order order_bytes ≡ ok ones
unfolding decode_new_order
order_run = refl

decode_message-IsAccepted_example : IsAccepted cancel_bytes
decode_message-IsAccepted_example =
    decode_message-IsAccepted cancel_bytes (cancel_order 5) cancel_run

decode_new_order-IsRead_example : IsRead order_bytes ones
decode_new_order-IsRead_example = decode_new_order-IsRead order_bytes ones order_run
