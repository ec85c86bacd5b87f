-- ===== src/Gateway/Sent.antt =====
-- The packets of a whole run of `matching_loop`.
use velocity_match.Common.{
  ℕ, ◌^◌, ◌<◌, ◌≡◌, refl, Option, none, some, Result, ok, err, List, [], ◌∷◌, ◌++◌, length, All, ap,
  ◌∙◌, sym, subst, append-nil, append_assoc,
}
use velocity_match.Common.Run.Panic.{◌>>=◌}
use velocity_match.Common.Run.After.{After, leaves, After-then}
use velocity_match.Protocol.{
  Buffer, EngineCommand, new_order, cancel_order, decode_execution_report,
}
use velocity_match.Protocol.RoundTrip.{report_of, FitsReport}
use velocity_match.Matching.{Fill, MatchingError, AddOrderResult, MatchingEngine, add_order}
use velocity_match.Matching.Small.{IsFit, fills_of, add_order-Fitted, cancel_order-StillFit}
use velocity_match.Wal.{Platform}
use velocity_match.Wal.Log.{Fits}
use velocity_match.Gateway.{Matcher, log_command, report_result, process_command}
use velocity_match.Gateway.Reports.{
  successor, Reports, none_left, packet, number_after, report_fills-Reported,
}
use velocity_match.Recovery.{replay_command}
use velocity_match.Gateway.Process.{report_result-engine}

-- A fill of an answer, with the timestamp of the order that led to it.
abbrev pub Trade : Type 0
Trade = ℕ × Fill

abbrev pub last_number : (seq : ℕ) → List Trade → ℕ
last_number seq [] = seq
last_number seq (_ ∷ trades) = last_number (successor seq) trades

-- Packets that report such fills in order, with the numbers after `seq`.
pub data Sends : ℕ → List Trade → List Buffer → Type 0 where
  nothing_sent : {seq : ℕ} → Sends seq [] []
  one_sent :
      {seq timestamp : ℕ} {fill : Fill} {trades : List Trade} {buf : Buffer} {packets : List Buffer}
      → length buf ≡ 48
      → decode_execution_report buf ≡ ok (report_of (successor seq) fill timestamp)
      → Sends (successor seq) trades packets
      → Sends seq ((timestamp, fill) ∷ trades) (buf ∷ packets)

abbrev pub at_time : (timestamp : ℕ) → List Fill → List Trade
at_time timestamp [] = []
at_time timestamp (fill ∷ fills) = (timestamp, fill) ∷ at_time timestamp fills

-- The fills in the answer to one order, and in the answers to all commands, as they go through the
-- engine. The answer to an order that is refused has none, also where the order traded before that.
abbrev pub answered :
    (timestamp : ℕ) → Option (Result MatchingError AddOrderResult × MatchingEngine) → List Trade
answered timestamp none = []
answered timestamp (some (answer, engine)) = at_time timestamp (fills_of answer)

abbrev pub answered_by_one : MatchingEngine → EngineCommand → List Trade
answered_by_one engine (new_order order) = answered order.timestamp (add_order engine order)
answered_by_one engine (cancel_order id) = []

Sends-Reports :
    {timestamp seq : ℕ} {fills : List Fill} {packets : List Buffer}
    → Reports timestamp seq fills packets
    → Sends seq (at_time timestamp fills) packets
Sends-Reports (none_left seq) = nothing_sent
Sends-Reports (packet seq fill fills buf packets whole decoded r) =
    one_sent whole decoded (Sends-Reports r)

abbrev pub answered_by_all : MatchingEngine → List EngineCommand → List Trade
answered_by_all engine [] = []
answered_by_all engine (c ∷ cs) =
    answered_by_one engine c
    ++ elim (replay_command engine c) [ none ↦ [] | some after ↦ answered_by_all after cs ]

last_number-at_time :
    (timestamp seq : ℕ) (fills : List Fill)
    → last_number seq (at_time timestamp fills) ≡ number_after seq fills
last_number-at_time timestamp seq [] = refl
last_number-at_time timestamp seq (fill ∷ fills) =
    last_number-at_time timestamp (successor seq) fills

last_number-append :
    (seq : ℕ) (xs ys : List Trade)
    → last_number seq (xs ++ ys) ≡ last_number (last_number seq xs) ys
last_number-append seq [] ys = refl
last_number-append seq (x ∷ xs) ys = last_number-append (successor seq) xs ys

Sends-append :
    {seq : ℕ} {xs ys : List Trade} {ps qs : List Buffer}
    → Sends seq xs ps
    → Sends (last_number seq xs) ys qs
    → Sends seq (xs ++ ys) (ps ++ qs)
Sends-append nothing_sent r = r
Sends-append (one_sent whole decoded s) r = one_sent whole decoded (Sends-append s r)

-- From the number `seq` and the packets so far, these fills are reported.
pub record Progress (seq : ℕ) (packets : List Buffer) (trades : List Trade) (after : Matcher)
    : Type 0 where
  pub sent : List Buffer
  pub sends : Sends seq trades sent
  pub packets_are : after.packets ≡ packets ++ sent
  pub seq_num : after.seq_num ≡ last_number seq trades
  pub report_buf : length after.report_buf ≡ 48
  pub fit : IsFit after.engine

-- A 64-bit timestamp.
abbrev pub IsTimely : EngineCommand → Type 0
IsTimely (new_order order) = order.timestamp < 2 ^ 64
IsTimely (cancel_order id) = Unit

report_result-Progress :
    (m : Matcher) (timestamp : ℕ) (answer : Result MatchingError AddOrderResult)
    → length m.report_buf ≡ 48
    → IsFit m.engine
    → All FitsReport (fills_of answer)
    → timestamp < 2 ^ 64
    → Progress m.seq_num m.packets
        (at_time timestamp (fills_of answer))
        (report_result m timestamp answer)
report_result-Progress m timestamp (err e) long fit fits late = record {
  sent = [];
  sends = nothing_sent;
  packets_are = sym (append-nil m.packets);
  seq_num = refl;
  report_buf = long;
  fit = fit;
}
report_result-Progress m timestamp (ok result) long fit fits late =
    let r = report_fills-Reported m timestamp result.fills long fits late in
    record {
      sent = r.sent;
      sends = Sends-Reports r.reports;
      packets_are = r.packets;
      seq_num = r.seq_num ∙ sym (last_number-at_time timestamp m.seq_num result.fills);
      report_buf = r.report_buf;
      fit = subst IsFit (sym r.engine) fit;
    }

pub process_command-Progress :
    (os : Platform) (m : Matcher) (c : EngineCommand)
    → length m.report_buf ≡ 48
    → IsFit m.engine
    → Fits c
    → IsTimely c
    → After
        (λ after.
          Progress m.seq_num m.packets (answered_by_one m.engine c) after
          × (replay_command m.engine c ≡ some after.engine))
        (process_command os m c)
unfolding process_command replay_command
process_command-Progress os m (new_order order) long fit fits late =
    let f =
      add_order-Fitted m.engine order fit (fits.id, fits.price, fits.quantity) fits.positive in
    After-then (log_command os m.wal (new_order order)) λ wal.
      let m₁ : Matcher = record m { wal = wal; engine = f.engine } in
      rw (f.done, ◌>>=◌)
        (leaves (
          report_result-Progress m₁ order.timestamp f.answer long f.fit f.fills late,
          ap (λ e. some e) (sym (report_result-engine m₁ order.timestamp f.answer)),
        ))
process_command-Progress os m (cancel_order id) long fit fits late =
    let f = cancel_order-StillFit m.engine id fit in
    After-then (log_command os m.wal (cancel_order id)) λ wal.
      rw (f.done, ◌>>=◌)
        (leaves (
          record {
            sent = [];
            sends = nothing_sent;
            packets_are = sym (append-nil m.packets);
            seq_num = refl;
            report_buf = long;
            fit = f.fit;
          },
          refl,
        ))

-- Two parts of a run.
pub join :
    {seq : ℕ} {packets : List Buffer} {xs ys : List Trade} {m after : Matcher}
    → Progress seq packets xs m
    → Progress m.seq_num m.packets ys after
    → Progress seq packets (xs ++ ys) after
join {seq} {packets} {xs} {ys} a b = record {
  sent = a.sent ++ b.sent;
  sends = Sends-append a.sends (subst (λ n. Sends n ys b.sent) a.seq_num b.sends);
  packets_are =
      b.packets_are ∙ ap (λ l. l ++ b.sent) a.packets_are ∙ append_assoc packets a.sent b.sent;
  seq_num = b.seq_num ∙ ap (λ n. last_number n ys) a.seq_num ∙ sym (last_number-append seq xs ys);
  report_buf = b.report_buf;
  fit = b.fit;
}
