-- ===== src/Subscriber/Losses.antt =====
-- Reports of which some are lost on the way, and the gaps that the subscriber announces.
use velocity_match.Common.{
  ℕ, zero, suc, ◌+◌, ◌-◌, ◌%◌, ◌^◌, ◌<◌, ◌≡◌, refl, false, Bool-cases, inl, inr, ok, err, ltb, ◌==◌,
  ==_iff, le→ltb, List, [], ◌∷◌, ◌++◌, length, take, drop, arith, ap, ap₂, ◌∙◌, sym, append-nil,
  append_assoc,
}
use velocity_match.Protocol.{
  Buffer, ExecutionReport, decode_execution_report, execution_report_size,
}
use velocity_match.Protocol.RoundTrip.{report_of}
use velocity_match.Matching.{Fill}
use velocity_match.Gateway.Reports.{successor}
use velocity_match.Gateway.Sent.{Trade, Sends, nothing_sent, one_sent}
use velocity_match.Subscriber.{
  Reception, received, new, decode_error, Line, gap, report, Subscriber, gap_lines, print_report,
  handle, listen,
}

-- The announcement of `lost` reports.
abbrev pub announced : (lost expected got : ℕ) → List Line
announced zero expected got = []
announced (suc lost) expected got = gap expected got (suc lost) ∷ []

-- Of the packets that report some trades, with the numbers after `seq`, some arrive, in order, and
-- the others are lost; the lines that say so. `lost` counts those lost since the last that arrived,
-- behind which `expected` comes.
pub data Arrives
    : (expected lost seq : ℕ)
      → List Trade
      → (packets : List Buffer) → List Reception
      → List Line
      → Type 0 where
  at_end : {expected lost seq : ℕ} → Arrives expected lost seq [] [] [] []
  loses :
      {expected lost seq : ℕ} {trade : Trade} {trades : List Trade} {buf : Buffer}
      {packets : List Buffer} {rs : List Reception} {lines : List Line}
      → Arrives expected (suc lost) (successor seq) trades packets rs lines
      → Arrives expected lost seq (trade ∷ trades) (buf ∷ packets) rs lines
  arrives :
      {expected lost seq timestamp : ℕ} {fill : Fill} {trades : List Trade} {buf : Buffer}
      {packets : List Buffer} {rs : List Reception} {lines : List Line}
      → Arrives (successor (successor seq)) 0 (successor seq) trades packets rs lines
      → Arrives expected lost seq ((timestamp, fill) ∷ trades) (buf ∷ packets) (received buf ∷ rs) (
          announced lost expected (successor seq)
          ++ (report (report_of (successor seq) fill timestamp) ∷ lines))

gap_lines-announced :
    (expected lost got : ℕ)
    → expected < 2 ^ 32
    → lost < 2 ^ 32
    → (expected + lost) % 2 ^ 32 ≡ got
    → gap_lines expected got ≡ announced lost expected got
unfolding gap_lines
gap_lines-announced expected zero got small few e =
    rw ((==_iff got expected).1 (omega (arith, small, e))) refl
gap_lines-announced expected (suc lost) got small few e = elim (Bool-cases (got == expected)) [
  | inl same ↦ absurd (clash ((==_iff got expected).0 same))
  | inr differ ↦ rw (gap_lines, differ) (ap (λ n. gap expected got n ∷ []) missing)
]
  where
    clash : got ≡ expected → ⊥
    clash same = omega (arith, small, few, e, same)

    missing : (got + 2 ^ 32 - expected) % 2 ^ 32 ≡ suc lost
    missing = omega (arith, small, few, e)

take_whole : (n : ℕ) (bs : Buffer) → length bs ≡ n → take n bs ≡ bs
take_whole zero [] e = refl
take_whole zero (b ∷ bs) e = absurd (omega (arith, e))
take_whole (suc n) [] e = refl
take_whole (suc n) (b ∷ bs) e = ap (λ l. b ∷ l) (take_whole n bs (omega (arith, e)))

drop_all : (n : ℕ) (bs : Buffer) → length bs ≡ n → drop n bs ≡ []
drop_all zero [] e = refl
drop_all zero (b ∷ bs) e = absurd (omega (arith, e))
drop_all (suc n) [] e = refl
drop_all (suc n) (b ∷ bs) e = drop_all n bs (omega (arith, e))

-- A datagram of 48 bytes replaces the whole buffer.
handle-whole :
    (s : Subscriber) (buf : Buffer) (r : ExecutionReport)
    → length s.buf ≡ 48
    → length buf ≡ 48
    → decode_execution_report buf ≡ ok r
    → handle s (received buf) ≡ print_report (record s { buf = buf }) r
unfolding handle
handle-whole s buf r long whole decoded =
    rw (handle, short)
      (ap
          (λ b. elim (decode_execution_report b) [
            | err e ↦ (decode_error e ∷ [], record s { buf = b })
            | ok x ↦ print_report (record s { buf = b }) x
          ])
          filled
        ∙ rw decoded refl)
  where
    filled : take 48 buf ++ drop (length (take 48 buf)) s.buf ≡ buf
    filled =
        rw (take_whole 48 buf whole)
          (rw (drop_all (length buf) s.buf (long ∙ sym whole)) (append-nil buf))

    short : ltb (length (take 48 buf)) execution_report_size ≡ false
    short = rw (take_whole 48 buf whole) (le→ltb (length buf) 48 (omega (arith, whole)))

-- The subscriber has a whole buffer, and expects a number; of the reports behind the last that
-- arrived, `lost` were lost, and the next has the number after `seq`.
listen-arrives :
    (s : Subscriber) {expected lost seq : ℕ} {trades : List Trade} {packets : List Buffer}
    {rs : List Reception} {lines : List Line}
    → Arrives expected lost seq trades packets rs lines
    → Sends seq trades packets
    → length s.buf ≡ 48
    → s.expected_seq ≡ expected
    → expected < 2 ^ 32
    → lost + length trades < 2 ^ 32
    → (expected + lost) % 2 ^ 32 ≡ successor seq
    → listen s rs ≡ lines
unfolding listen
listen-arrives s at_end nothing_sent long at small few e = refl
listen-arrives s (loses {expected} {lost} {seq} a) (one_sent whole decoded sends) long at small few
      e =
    listen-arrives s a sends long at small (omega (arith, few)) (omega (arith, e))
listen-arrives s
      (arrives {expected} {lost} {seq} {timestamp} {fill} {trades} {buf} {packets} {rs} {lines} a)
      (one_sent whole decoded sends) long at small few e =
    let r = report_of (successor seq) fill timestamp in
    let next : Subscriber = record { buf = buf; expected_seq = successor (successor seq) } in
    let rest : listen next rs ≡ lines =
      listen-arrives next a sends whole refl (omega arith) (omega (arith, few)) (omega arith) in
    let first : gap_lines s.expected_seq (successor seq) ≡ announced lost expected (successor seq) =
      ap (λ n. gap_lines n (successor seq)) at
      ∙ gap_lines-announced expected lost (successor seq) small (omega (arith, few)) e in
    ap (λ (x : List Line × Subscriber). x.0 ++ listen x.1 rs)
      (handle-whole s buf r long whole decoded)
    ∙ ap₂ (λ l m. (l ++ (report r ∷ [])) ++ m) first rest
    ∙ append_assoc (announced lost expected (successor seq)) (report r ∷ []) lines

-- The packets of a new gateway report some trades, fewer than 2^32, and some of the packets are lost
-- on the way to a new subscriber, which gets the others in order: it prints each report that
-- arrives, in order, before it the right number of those lost since the last one, if there are any,
-- and nothing else.
pub listen-Arrives :
    (trades : List Trade) (packets : List Buffer) (rs : List Reception) (lines : List Line)
    → Sends 0 trades packets
    → Arrives 1 0 0 trades packets rs lines
    → length trades < 2 ^ 32
    → listen new rs ≡ lines
listen-Arrives trades packets rs lines sends a few =
    listen-arrives new a sends refl refl (omega arith) (omega (arith, few)) (omega arith)
