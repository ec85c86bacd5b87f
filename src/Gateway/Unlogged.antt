-- ===== src/Gateway/Unlogged.antt =====
-- `matching_loop` without a log: where no data directory is configured, or a recovery failed.
use velocity_match.Common.{
  ℕ, ◌+◌, ◌%◌, ◌^◌, ◌≡◌, refl, true, false, Option, none, some, List, [], ◌∷◌, All, ap, ◌∙◌, sym,
  subst,
}
use velocity_match.Common.Run.Panic.{◌>>=◌}
use velocity_match.Protocol.{EngineCommand, new_order, cancel_order}
use velocity_match.Matching.{MatchingEngine}
use velocity_match.Snapshot.{Library, File}
use velocity_match.Wal.{Platform}
use velocity_match.Wal.Log.{Fits}
use velocity_match.Recovery.{replay_command}
use velocity_match.Recovery.Replay.{replay_all}
use velocity_match.Recovery.Sound.{IsSound, add_order-Returns, cancel_order-Returns}
use velocity_match.Gateway.{
  Matcher, Loop, Poll, got, nothing, log_command, report_result, process_command, maybe_snapshot,
  drain, matching_loop,
}
use velocity_match.Gateway.Process.{report_result-engine, report_result-wal}
use velocity_match.Gateway.Running.{taken, drained}

-- A command was processed, and there is still no log.
record Unlogged (engine : MatchingEngine) (c : EngineCommand) (run : Option Matcher) : Type 0 where
  after : Matcher
  done : run ≡ some after
  no_wal : after.wal ≡ none
  sound : IsSound after.engine
  played : replay_command engine c ≡ some after.engine

process_command-Unlogged :
    (os : Platform) (m : Matcher) (c : EngineCommand)
    → m.wal ≡ none
    → IsSound m.engine
    → Fits c
    → Unlogged m.engine c (process_command os m c)
unfolding process_command replay_command log_command
process_command-Unlogged os m (new_order order) bare sound fits =
    let r = add_order-Returns m.engine order sound fits in
    let m₁ = record m { wal = none; engine = r.engine } in
    record {
      after = report_result m₁ order.timestamp r.answer;
      done =
          rw (process_command, ap (λ o. log_command os o (new_order order)) bare, ◌>>=◌)
            (rw (r.done, ◌>>=◌) refl);
      no_wal = report_result-wal m₁ order.timestamp r.answer;
      sound = subst IsSound (sym (report_result-engine m₁ order.timestamp r.answer)) r.sound;
      played =
          rw (replay_command, r.done, ◌>>=◌)
            (ap (λ e. some e) (sym (report_result-engine m₁ order.timestamp r.answer)));
    }
process_command-Unlogged os m (cancel_order id) bare sound fits =
    let r = cancel_order-Returns m.engine id sound in
    record {
      after = record m { wal = none; engine = r.engine };
      done =
          rw (process_command, ap (λ o. log_command os o (cancel_order id)) bare, ◌>>=◌)
            (rw (r.done, ◌>>=◌) refl);
      no_wal = refl;
      sound = r.sound;
      played = rw (replay_command, r.done, ◌>>=◌) refl;
    }

-- A loop that ran without a log, and whose engine went through `ds`.
pub record Played (engine : MatchingEngine) (ds : List EngineCommand) (run : Option Loop)
    : Type 0 where
  pub after : Loop
  pub done : run ≡ some after
  pub no_wal : after.matcher.wal ≡ none
  pub sound : IsSound after.matcher.engine
  pub played : replay_all engine ds ≡ some after.matcher.engine

more :
    (engine engine₁ : MatchingEngine) (c : EngineCommand) (ds : List EngineCommand)
    {run run' : Option Loop}
    → replay_command engine c ≡ some engine₁
    → Played engine₁ ds run'
    → run ≡ run'
    → Played engine (c ∷ ds) run
unfolding replay_all
more engine engine₁ c ds step r e = record {
  after = r.after;
  done = e ∙ r.done;
  no_wal = r.no_wal;
  sound = r.sound;
  played = rw (replay_all, step, ◌>>=◌) r.played;
}

here :
    (l : Loop)
    → l.matcher.wal ≡ none
    → IsSound l.matcher.engine
    → Played l.matcher.engine [] (some l)
unfolding replay_all
here l bare sound = record { after = l; done = refl; no_wal = bare; sound = sound; played = refl }

drain-Played :
    (os : Platform) (l : Loop) (polls : List Poll)
    → l.matcher.wal ≡ none
    → IsSound l.matcher.engine
    → All Fits (drained polls)
    → Played l.matcher.engine (drained polls) (drain os l polls)
unfolding drain
drain-Played os l [] bare sound fits = here l bare sound
drain-Played os l (nothing _ ∷ polls) bare sound fits = here l bare sound
drain-Played os l (got cmd ∷ polls) bare sound fits =
    let p = process_command-Unlogged os l.matcher cmd bare sound fits.0 in
    more l.matcher.engine p.after.engine cmd (drained polls) p.played
      (drain-Played os (record l { matcher = p.after }) polls p.no_wal p.sound fits.1)
      (rw (drain, p.done, ◌>>=◌) refl)

-- Without a log no snapshot is taken.
no_snapshot :
    (lib : Library) (interval : ℕ) (l : Loop) (dir : Option (List File))
    → maybe_snapshot lib interval l none dir ≡ some l
no_snapshot lib interval l dir = refl

-- Without a log and from a sound engine, the matching loop returns, if the commands that it takes
-- fit the wire: its engine is sound and comes to what these commands make of it, in order, and there
-- is still no log.
pub matching_loop-Played :
    (os : Platform) (lib : Library) (interval : ℕ) (l : Loop) (polls : List Poll)
    → l.matcher.wal ≡ none
    → IsSound l.matcher.engine
    → All Fits (taken polls)
    → Played l.matcher.engine (taken polls) (matching_loop os lib interval l polls)
unfolding matching_loop
matching_loop-Played os lib interval l [] bare sound fits = here l bare sound
matching_loop-Played os lib interval l (nothing false ∷ polls) bare sound fits =
    matching_loop-Played os lib interval l polls bare sound fits
matching_loop-Played os lib interval l (nothing true ∷ polls) bare sound fits =
    drain-Played os l polls bare sound fits
matching_loop-Played os lib interval l (got cmd ∷ polls) bare sound fits =
    let p = process_command-Unlogged os l.matcher cmd bare sound fits.0 in
    let l₁ : Loop = record l {
      matcher = p.after;
      cmds_since_snapshot = (l.cmds_since_snapshot + 1) % 2 ^ 64;
    } in
    let kept : maybe_snapshot lib interval l₁ p.after.wal l.snapshot_dir ≡ some l₁ =
      ap (λ w. maybe_snapshot lib interval l₁ w l.snapshot_dir) p.no_wal
      ∙ no_snapshot lib interval l₁ l.snapshot_dir in
    more l.matcher.engine p.after.engine cmd (taken polls) p.played
      (matching_loop-Played os lib interval l₁ polls p.no_wal p.sound fits.1)
      (rw (matching_loop, p.done, ◌>>=◌) (rw (kept, ◌>>=◌) refl))
