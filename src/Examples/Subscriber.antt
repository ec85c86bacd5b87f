-- ===== src/Examples/Subscriber.antt =====
-- A subscriber that misses the first of two reports.
use velocity_match.Common.{pos, ◌≡◌, refl, ok, List, [], ◌∷◌, ◌++◌, replicate, arith, false}
use velocity_match.Protocol.{Buffer, decode_execution_report}
use velocity_match.Protocol.RoundTrip.{report_of}
use velocity_match.Matching.{Fill}
use velocity_match.Gateway.Sent.{Trade, Sends, nothing_sent, one_sent}
use velocity_match.Subscriber.{received, Line, gap, report, listen, new}
use velocity_match.Subscriber.Losses.{Arrives, at_end, loses, arrives, listen-Arrives}

abbrev fill : Fill
fill = record {
  taker_order_id = 2;
  maker_order_id = 1;
  price = pos 100;
  quantity = 4;
  maker_fully_filled = false;
}

-- The packet of the fill with the number 2.
abbrev buf : Buffer
buf =
    (3 ∷ 0 ∷ 0 ∷ 0 ∷ 2 ∷ 0 ∷ 0 ∷ 0 ∷ 2 ∷ replicate 7 0)
    ++ ((1 ∷ replicate 7 0)
        ++ ((100 ∷ replicate 7 0) ++ ((4 ∷ replicate 7 0) ++ (9 ∷ replicate 7 0))))

buf_decodes : decode_execution_report buf ≡ ok (report_of 2 fill 9)
unfolding decode_execution_report
buf_decodes = refl

abbrev lines : List Line
lines = gap 1 2 1 ∷ report (report_of 2 fill 9) ∷ []

abbrev trades : List Trade
trades = (9, fill) ∷ (9, fill) ∷ []

-- The packet of the first trade.
abbrev first : Buffer
first =
    (3 ∷ 0 ∷ 0 ∷ 0 ∷ 1 ∷ 0 ∷ 0 ∷ 0 ∷ 2 ∷ replicate 7 0)
    ++ ((1 ∷ replicate 7 0)
        ++ ((100 ∷ replicate 7 0) ++ ((4 ∷ replicate 7 0) ++ (9 ∷ replicate 7 0))))

first_decodes : decode_execution_report first ≡ ok (report_of 1 fill 9)
unfolding decode_execution_report
first_decodes = refl

both_sent : Sends 0 trades (first ∷ buf ∷ [])
both_sent = one_sent refl first_decodes (one_sent refl buf_decodes nothing_sent)

one_lost : Arrives 1 0 0 trades (first ∷ buf ∷ []) (received buf ∷ []) lines
one_lost = loses (arrives at_end)

listen-Arrives_example : listen new (received buf ∷ []) ≡ lines
listen-Arrives_example =
    listen-Arrives trades (first ∷ buf ∷ []) (received buf ∷ []) lines both_sent one_lost
      (omega arith)
