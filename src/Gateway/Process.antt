-- ===== src/Gateway/Process.antt =====
-- `process_command`: the log first, then the engine, which stays sound.
use velocity_match.Common.{
  ℕ, ◌+◌, ◌-◌, ◌≡◌, refl, inl, inr, Option, none, some, Result, ok, err, List, [], ◌∷◌, ◌++◌, drop,
  replicate, ap, ◌∙◌, sym, subst,
}
use velocity_match.Common.Run.Panic.{◌>>=◌}
use velocity_match.Protocol.{Buffer, EngineCommand, new_order, cancel_order}
use velocity_match.Matching.{MatchingEngine, MatchingError, AddOrderResult}
use velocity_match.Wal.{Platform, Wal}
use velocity_match.Wal.Log.{Fits, record_size, IsLog}
use velocity_match.Wal.Reopen.{Works}
use velocity_match.Wal.Room.{OsFails}
use velocity_match.Wal.Append.{append-cases}
use velocity_match.Wal.Bytes.{drop-replicate, replicate-append}
use velocity_match.Recovery.{replay_command}
use velocity_match.Recovery.Sound.{IsSound, add_order-Returns, cancel_order-Returns}
use velocity_match.Gateway.{Matcher, log_command, report_result, process_command}
use velocity_match.Gateway.Reports.{report_fills-engine, report_fills-wal}

-- What the log comes to: one record more, over the first bytes of what was behind the others, in a
-- file that may have grown; or the same records, where the operating system fails.
pub data Logged (os : Platform) (cs : List EngineCommand) (tail : Buffer) (c : EngineCommand)
    (wal : Wal) : Type 0 where
  kept :
      (grown : ℕ)
      → IsLog os wal (cs ++ (c ∷ [])) (drop (record_size c) (tail ++ replicate grown 0))
      → Logged os cs tail c wal
  lost : (code : ℕ) → OsFails os code → IsLog os wal cs tail → Logged os cs tail c wal

record LogRan (os : Platform) (cs : List EngineCommand) (tail : Buffer) (c : EngineCommand)
    (run : Option (Option Wal)) : Type 0 where
  wal : Wal
  done : run ≡ some (some wal)
  log : Logged os cs tail c wal

log_command-LogRan :
    (os : Platform) (w : Wal) (cs : List EngineCommand) (tail : Buffer) (c : EngineCommand)
    → IsLog os w cs tail
    → Fits c
    → LogRan os cs tail c (log_command os (some w) c)
unfolding log_command
log_command-LogRan os w cs tail c is fits = elim (append-cases os w cs tail c is fits) [
  | inl a ↦ record {
    wal = a.wal;
    done = rw (log_command, a.done, ◌>>=◌) refl;
    log = kept a.grown (subst (IsLog os a.wal (cs ++ (c ∷ []))) a.left_is a.log);
  }
  | inr r ↦ record {
    wal = r.wal;
    done = rw (log_command, r.done, ◌>>=◌) refl;
    log = lost r.code r.why r.log;
  }
]

-- A command that was processed.
pub record Processed (os : Platform) (engine : MatchingEngine) (cs : List EngineCommand)
    (tail : Buffer) (c : EngineCommand) (run : Option Matcher) : Type 0 where
  pub after : Matcher
  pub wal : Wal
  pub done : run ≡ some after
  pub has_wal : after.wal ≡ some wal
  pub log : Logged os cs tail c wal
  pub sound : IsSound after.engine
  pub played : replay_command engine c ≡ some after.engine

pub report_result-engine :
    (m : Matcher) (timestamp : ℕ) (r : Result MatchingError AddOrderResult)
    → (report_result m timestamp r).engine ≡ m.engine
report_result-engine m timestamp (ok result) = report_fills-engine m timestamp result.fills
report_result-engine m timestamp (err e) = refl

pub report_result-wal :
    (m : Matcher) (timestamp : ℕ) (r : Result MatchingError AddOrderResult)
    → (report_result m timestamp r).wal ≡ m.wal
report_result-wal m timestamp (ok result) = report_fills-wal m timestamp result.fills
report_result-wal m timestamp (err e) = refl

-- With a sound engine and a log, the processing of a command that fits a record returns. The log has
-- the command behind the others, unless the operating system failed to make room for it, and then
-- the log is as it was, and the command is matched without being in it. In both cases the engine
-- comes to what a replay of the command makes of it, and stays sound.
pub process_command-Processed :
    (os : Platform) (m : Matcher) (w : Wal) (cs : List EngineCommand) (tail : Buffer)
    (c : EngineCommand)
    → m.wal ≡ some w
    → IsLog os w cs tail
    → IsSound m.engine
    → Fits c
    → Processed os m.engine cs tail c (process_command os m c)
unfolding process_command replay_command
process_command-Processed os m w cs tail (new_order order) has is sound fits =
    let l = log_command-LogRan os w cs tail (new_order order) is fits in
    let r = add_order-Returns m.engine order sound fits in
    let m₁ = record m { wal = some l.wal; engine = r.engine } in
    record {
      after = report_result m₁ order.timestamp r.answer;
      wal = l.wal;
      done =
          rw (process_command, ap (λ o. log_command os o (new_order order)) has ∙ l.done, ◌>>=◌)
            (rw (r.done, ◌>>=◌) refl);
      has_wal = report_result-wal m₁ order.timestamp r.answer;
      log = l.log;
      sound = subst IsSound (sym (report_result-engine m₁ order.timestamp r.answer)) r.sound;
      played =
          rw (replay_command, r.done, ◌>>=◌)
            (ap (λ e. some e) (sym (report_result-engine m₁ order.timestamp r.answer)));
    }
process_command-Processed os m w cs tail (cancel_order id) has is sound fits =
    let l = log_command-LogRan os w cs tail (cancel_order id) is fits in
    let r = cancel_order-Returns m.engine id sound in
    record {
      after = record m { wal = some l.wal; engine = r.engine };
      wal = l.wal;
      done =
          rw (process_command, ap (λ o. log_command os o (cancel_order id)) has ∙ l.done, ◌>>=◌)
            (rw (r.done, ◌>>=◌) refl);
      has_wal = refl;
      log = l.log;
      sound = r.sound;
      played = rw (replay_command, r.done, ◌>>=◌) refl;
    }

-- A command was processed, and the log holds `cs`, with zeros behind the records.
pub record Durable (os : Platform) (engine : MatchingEngine) (c : EngineCommand)
    (cs : List EngineCommand) (run : Option Matcher) : Type 0 where
  pub after : Matcher
  pub wal : Wal
  pub zeros_left : ℕ
  pub done : run ≡ some after
  pub has_wal : after.wal ≡ some wal
  pub log : IsLog os wal cs (replicate zeros_left 0)
  pub sound : IsSound after.engine
  pub played : replay_command engine c ≡ some after.engine

fails_not : (os : Platform) → Works os → (code : ℕ) → OsFails os code → ⊥
fails_not os works code (n, inl e) = none_some (sym (works.sets n) ∙ e)
  where
    none_some : {x : ℕ} → ◌≡◌ {A = Option ℕ} none (some x) → ⊥
    none_some h = cc
fails_not os works code (n, inr e) = none_some (sym (works.maps n) ∙ e)
  where
    none_some : {x : ℕ} → ◌≡◌ {A = Option ℕ} none (some x) → ⊥
    none_some h = cc

module _ (os : Platform) (works : Works os) where
  pub one-Durable :
      (engine : MatchingEngine) (z : ℕ) (cs : List EngineCommand) (c : EngineCommand)
      (run : Option Matcher)
      → Processed os engine cs (replicate z 0) c run
      → Durable os engine c (cs ++ (c ∷ [])) run
  one-Durable engine z cs c run p = of_log p.log
    where
      of_log : Logged os cs (replicate z 0) c p.wal → Durable os engine c (cs ++ (c ∷ [])) run
      of_log (kept grown is) = record {
        after = p.after;
        wal = p.wal;
        zeros_left = z + grown - record_size c;
        done = p.done;
        has_wal = p.has_wal;
        sound = p.sound;
        played = p.played;
        log =
            subst (IsLog os p.wal (cs ++ (c ∷ [])))
              (ap (λ l. drop (record_size c) l) (replicate-append z grown 0)
                ∙ drop-replicate (record_size c) (z + grown) 0)
              is;
      }
      of_log (lost code fails is) = absurd (fails_not os works code fails)
