-- ===== src/Gateway/Crash.antt =====
-- A crash of the matching loop: what a recovery makes of the bytes of its log.
use velocity_match.Common.{
  ℕ, ◌+◌, ◌≤◌, ◌≡◌, refl, some, List, [], ◌∷◌, ◌++◌, length, drop, map, zero, suc, length-append,
  ok, replicate, All, arith, ap, ◌∙◌, subst, sym, Option,
}
use velocity_match.Common.Run.Panic.{◌>>=◌}
use velocity_match.Protocol.{EngineCommand}
use velocity_match.Matching.{MatchingEngine}
use velocity_match.Snapshot.{Library}
use velocity_match.Wal.{Platform, Wal, file_of}
use velocity_match.Wal.Log.{Fits, stored, logged, IsLog, file_of-zeros}
use velocity_match.Wal.Read.{IsCrc}
use velocity_match.Wal.Reopen.{Works}
use velocity_match.Recovery.{Recovered, recover_log}
use velocity_match.Recovery.Replay.{replay_all, replayed, recover_log-Recovers}
use velocity_match.Recovery.Sound.{IsSound}
use velocity_match.Recovery.Twins.{AreTwins, replay_all-ReturnTwins, replay_all-append}
use velocity_match.Gateway.{Loop, Poll, matching_loop}
use velocity_match.Gateway.Running.{taken, matching_loop-Ran}

-- The log's commands behind the first `start` lead `base`, the engine that a recovery starts from,
-- to a twin of `engine`.
pub record Follows (base : MatchingEngine) (start : ℕ) (cs : List EngineCommand)
    (engine : MatchingEngine) : Type 0 where
  pub seen : start ≤ length cs
  pub engine' : MatchingEngine
  pub done : replay_all base (map stored (drop start cs)) ≡ some engine'
  pub twins : AreTwins engine engine'

-- A recovery that returns a twin of `engine` and the log of `cs`.
pub record Restores (os : Platform) (engine : MatchingEngine) (cs : List EngineCommand)
    (run : Recovered) : Type 0 where
  pub engine' : MatchingEngine
  pub wal : Wal
  pub zeros_left : ℕ
  pub done : run ≡ some (ok (engine', wal))
  pub twins : AreTwins engine engine'
  pub log : IsLog os wal cs (replicate zeros_left 0)

-- The loop ran, and a recovery from the bytes of its log restores its engine.
pub record Survives (os : Platform) (base : MatchingEngine) (start : ℕ) (cs : List EngineCommand)
    (run : Option Loop) : Type 0 where
  pub after : Loop
  pub wal : Wal
  pub done : run ≡ some after
  pub has_wal : after.matcher.wal ≡ some wal
  pub sound : IsSound after.matcher.engine
  pub restores : Restores os after.matcher.engine cs (recover_log os (file_of wal) (base, start))

drop-append :
    (n : ℕ) (cs ds : List EngineCommand) → n ≤ length cs → drop n (cs ++ ds) ≡ drop n cs ++ ds
drop-append zero cs ds h = refl
drop-append (suc n) [] ds h = absurd (omega arith)
drop-append (suc n) (c ∷ cs) ds h = drop-append n cs ds (omega arith)

map-append : (cs ds : List EngineCommand) → map stored (cs ++ ds) ≡ map stored cs ++ map stored ds
map-append [] ds = refl
map-append (c ∷ cs) ds = ap (λ l. stored c ∷ l) (map-append cs ds)

-- A log that goes on leads on to a twin of the engine that its commands lead to.
pub goes_on-Follows :
    (base : MatchingEngine) (start : ℕ) (cs ds : List EngineCommand) (engine after : MatchingEngine)
    → Follows base start cs engine
    → All Fits ds
    → replay_all engine ds ≡ some after
    → Follows base start (cs ++ ds) after
goes_on-Follows base start cs ds engine after f fits played =
    let r = replay_all-ReturnTwins engine f.engine' ds f.twins fits in
    record {
      seen = omega (arith, f.seen, length-append cs ds);
      engine' = r.engine';
      done =
          ap (λ l. replay_all base l)
            (ap (λ l. map stored l) (drop-append start cs ds f.seen)
              ∙ map-append (drop start cs) ds)
          ∙ replay_all-append base (map stored (drop start cs)) (map stored ds) f.engine' f.done
          ∙ r.done';
      twins = subst (λ x. AreTwins x r.engine') (the_same (sym r.done ∙ played)) r.twins;
    }
  where
    the_same : {x : MatchingEngine} → some x ≡ some after → x ≡ after
    the_same e = cc

-- From a sound engine, and a log with zeros behind its records that leads to a twin of this engine,
-- and with an operating system that fails no call, the matching loop returns, if the commands that
-- it takes fit a record: those that the ring gives it up to the shutdown, and then up to the first
-- time that the ring is empty, or as far as the calls of `pop` go. A recovery from the bytes of the
-- log that this leaves returns the log and a twin of the loop's engine: the same orders in the same
-- queues, but for their timestamps.
pub matching_loop-Survives :
    (os : Platform) (crc : IsCrc os) (works : Works os) (lib : Library) (interval : ℕ) (l : Loop)
    (w : Wal) (z : ℕ) (cs : List EngineCommand) (polls : List Poll) (base : MatchingEngine)
    (start : ℕ)
    → l.matcher.wal ≡ some w
    → IsLog os w cs (replicate z 0)
    → IsSound l.matcher.engine
    → Follows base start cs l.matcher.engine
    → All Fits (taken polls)
    → Survives os base start (cs ++ taken polls) (matching_loop os lib interval l polls)
matching_loop-Survives os crc works lib interval l w z cs polls base start has is sound follows
      fits =
    let d = matching_loop-Ran os works lib interval l w z cs polls has is sound fits in
    let f =
      goes_on-Follows base start cs (taken polls) l.matcher.engine d.after.matcher.engine follows
        fits d.played in
    let r =
      recover_log-Recovers os crc works (cs ++ taken polls) d.log.fits
        (d.zeros_left + d.wal.zeros_behind) base start in
    record {
      after = d.after;
      wal = d.wal;
      done = d.done;
      has_wal = d.has_wal;
      sound = d.sound;
      restores = record {
        engine' = f.engine';
        wal = r.wal;
        zeros_left = r.zeros_left;
        done =
            ap (λ file. recover_log os file (base, start))
              (file_of-zeros d.wal (logged os (cs ++ taken polls)) d.zeros_left d.log.bytes)
            ∙ r.done
            ∙ rw (replayed, f.done, ◌>>=◌) refl;
        twins = f.twins;
        log = r.log;
      };
    }
