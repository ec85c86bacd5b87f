-- ===== src/Gateway/Reports.antt =====
-- `report_fills`: the packets that the fills of one order lead to.
use velocity_match.Common.{
  ℕ, ◌+◌, ◌%◌, ◌^◌, ◌<◌, ◌≡◌, refl, List, [], ◌∷◌, ◌++◌, length, All, ok, err, arith, ap, ◌∙◌, sym,
  append-nil, append_assoc,
}
use velocity_match.Protocol.{Buffer, decode_execution_report}
use velocity_match.Protocol.Encode.{Written, encode_execution_report}
use velocity_match.Protocol.RoundTrip.{FitsReport, report_of, encode_execution_report-Encoded}
use velocity_match.Matching.{Fill}
use velocity_match.Gateway.{Matcher, send_report, report_fills}

-- The sequence number after `n`.
abbrev pub successor : ℕ → ℕ
successor n = (n + 1) % 2 ^ 32

-- Packets that report the fills in order, with the numbers after `seq`.
pub data Reports (timestamp : ℕ) : ℕ → List Fill → List Buffer → Type 0 where
  none_left : (seq : ℕ) → Reports timestamp seq [] []
  packet :
      (seq : ℕ) (fill : Fill) (fills : List Fill) (buf : Buffer) (packets : List Buffer)
      → length buf ≡ 48
      → decode_execution_report buf ≡ ok (report_of (successor seq) fill timestamp)
      → Reports timestamp (successor seq) fills packets
      → Reports timestamp seq (fill ∷ fills) (buf ∷ packets)

-- The sequence number after some fills.
abbrev pub number_after : ℕ → List Fill → ℕ
number_after seq [] = seq
number_after seq (_ ∷ fills) = number_after (successor seq) fills

-- What the reports leave: the new packets behind the others, the last sequence number, a buffer of
-- the same length, and nothing else changed.
pub record Reported (m : Matcher) (timestamp : ℕ) (fills : List Fill) (after : Matcher)
    : Type 0 where
  pub sent : List Buffer
  pub reports : Reports timestamp m.seq_num fills sent
  pub packets : after.packets ≡ m.packets ++ sent
  pub seq_num : after.seq_num ≡ number_after m.seq_num fills
  pub report_buf : length after.report_buf ≡ 48
  pub engine : after.engine ≡ m.engine
  pub wal : after.wal ≡ m.wal

-- With a report buffer of 48 bytes, fills whose fields fit and a 64-bit timestamp, each fill gets
-- one packet of 48 bytes, in the order of the fills; the packets decode to the fills with
-- consecutive sequence numbers, which wrap at 2^32. The engine and the log stay as they are.
pub report_fills-Reported :
    (m : Matcher) (timestamp : ℕ) (fills : List Fill)
    → length m.report_buf ≡ 48
    → All FitsReport fills
    → timestamp < 2 ^ 64
    → Reported m timestamp fills (report_fills m timestamp fills)
unfolding report_fills
report_fills-Reported m timestamp [] long fits late = record {
  sent = [];
  reports = none_left m.seq_num;
  packets = sym (append-nil m.packets);
  seq_num = refl;
  report_buf = long;
  engine = refl;
  wal = refl;
}
report_fills-Reported m timestamp (fill ∷ fills) long fits late =
    let seq = successor m.seq_num in
    let e =
      encode_execution_report-Encoded m.report_buf seq fill timestamp (omega (arith, long))
        (omega arith) fits.0 late in
    let m₁ = record m {
      seq_num = seq;
      report_buf = e.buffer;
      packets = m.packets ++ (e.buffer ∷ []);
    } in
    let r = report_fills-Reported m₁ timestamp fills (e.same_length ∙ long) fits.1 late in
    let step : report_fills m timestamp (fill ∷ fills) ≡ report_fills m₁ timestamp fills =
      ap (λ w. report_fills (send_report m seq w) timestamp fills) e.done in
    record {
      sent = e.buffer ∷ r.sent;
      reports =
          packet m.seq_num fill fills e.buffer r.sent (e.same_length ∙ long) e.decoded r.reports;
      packets =
          ap (λ x. x.packets) step ∙ r.packets ∙ append_assoc m.packets (e.buffer ∷ []) r.sent;
      seq_num = ap (λ x. x.seq_num) step ∙ r.seq_num;
      report_buf = ap (λ x. length x.report_buf) step ∙ r.report_buf;
      engine = ap (λ x. x.engine) step ∙ r.engine;
      wal = ap (λ x. x.wal) step ∙ r.wal;
    }

send-engine : (m : Matcher) (seq : ℕ) (w : Written ℕ) → (send_report m seq w).engine ≡ m.engine
send-engine m seq (ok n, buf) = refl
send-engine m seq (err e, buf) = refl

send-wal : (m : Matcher) (seq : ℕ) (w : Written ℕ) → (send_report m seq w).wal ≡ m.wal
send-wal m seq (ok n, buf) = refl
send-wal m seq (err e, buf) = refl

-- The reports of any fills touch neither the engine nor the log.
pub report_fills-engine :
    (m : Matcher) (timestamp : ℕ) (fills : List Fill)
    → (report_fills m timestamp fills).engine ≡ m.engine
unfolding report_fills
report_fills-engine m timestamp [] = refl
report_fills-engine m timestamp (fill ∷ fills) =
    report_fills-engine
      (send_report m (successor m.seq_num)
        (encode_execution_report m.report_buf (successor m.seq_num) fill timestamp))
      timestamp fills
    ∙ send-engine m (successor m.seq_num)
        (encode_execution_report m.report_buf (successor m.seq_num) fill timestamp)

pub report_fills-wal :
    (m : Matcher) (timestamp : ℕ) (fills : List Fill) → (report_fills m timestamp fills).wal ≡ m.wal
unfolding report_fills
report_fills-wal m timestamp [] = refl
report_fills-wal m timestamp (fill ∷ fills) =
    report_fills-wal
      (send_report m (successor m.seq_num)
        (encode_execution_report m.report_buf (successor m.seq_num) fill timestamp))
      timestamp fills
    ∙ send-wal m (successor m.seq_num)
        (encode_execution_report m.report_buf (successor m.seq_num) fill timestamp)
