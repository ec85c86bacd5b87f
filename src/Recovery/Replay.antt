-- ===== src/Recovery/Replay.antt =====
-- The loop of `recover` over a log: the commands behind the snapshot, replayed in order.
use velocity_match.Common.{
  ℕ, zero, suc, ◌+◌, ◌%◌, ◌^◌, ◌-◌, ◌≤◌, ◌<◌, ◌≡◌, refl, inl, inr, Option, some, Option-cases, ok,
  List, [], ◌∷◌, ◌++◌, length, drop, map, replicate, arith, ap, ◌∙◌, length-append, length-drop,
  All,
}
use velocity_match.Common.Run.Panic.{◌>>=◌}
use velocity_match.Protocol.{EngineCommand}
use velocity_match.Matching.{MatchingEngine}
use velocity_match.Wal.{Platform, Wal, WalIterator, default_initial_size, open_wal, iter_from}
use velocity_match.Wal.Log.{Fits, stored, record_bytes, length-record_bytes, logged, IsLog}
use velocity_match.Wal.Read.{IsCrc}
use velocity_match.Wal.Reopen.{size_bounds, Works, open_with_size-Opened}
use velocity_match.Wal.Iterate.{At, ended, item, next-NextIs, iter_from-At}
use velocity_match.Recovery.{Recovered, replay_command, replay_loop, recover_log}

-- The commands applied to an engine one after the other; `none` is a panic of the engine.
unfoldable pub replay_all : MatchingEngine → List EngineCommand → Option MatchingEngine
replay_all engine [] = some engine
replay_all engine (c ∷ cs) = do engine₁ ← replay_command engine c; replay_all engine₁ cs

-- What a recovery gives that replays `cs`.
abbrev pub replayed : MatchingEngine → List EngineCommand → Wal → Recovered
replayed engine cs wal = do engine₁ ← replay_all engine cs; some (ok (engine₁, wal))

logged_longer : (os : Platform) (cs : List EngineCommand) → length cs ≤ length (logged os cs)
logged_longer os [] = omega arith
logged_longer os (c ∷ cs) = omega (
  arith,
  logged_longer os cs,
  length-append (record_bytes os c) (logged os cs),
  length-record_bytes os c,
  (size_bounds c).0,
)

module _ (os : Platform) (crc : IsCrc os) where
  enough :
      (it : WalIterator) (done todo : List EngineCommand)
      → At os it done todo
      → length todo < length it.mmap + 1
  enough it done todo at = omega (
    arith,
    ap length at.bytes,
    length-append (logged os done) (logged os todo ++ at.tail),
    length-append (logged os todo) at.tail,
    logged_longer os todo,
  )

  -- The loop from an iterator within a log replays the commands that the iterator does not skip.
  replay_loop-replayed :
      (fuel : ℕ) (it : WalIterator) (done todo : List EngineCommand) (wal : Wal)
      (engine : MatchingEngine) (count : ℕ)
      → At os it done todo
      → length (drop (it.start_record - length done) todo) < fuel
      → replay_loop os fuel it wal engine count
        ≡ replayed engine (map stored (drop (it.start_record - length done) todo)) wal
  unfolding replay_loop replay_all
  replay_loop-replayed zero it done todo wal engine count at fuel_left = absurd (omega arith)
  replay_loop-replayed (suc f) it done todo wal engine count at fuel_left =
      elim (next-NextIs os crc (length it.mmap + 1) it done todo at (enough it done todo at)) [
        | ended it' none_left run ↦ rw (replay_loop, run, ◌>>=◌) (rw none_left refl)
        | item it' before c rest first past same run at' ↦
            rw (replay_loop, run, ◌>>=◌)
              (rw first (elim (Option-cases (replay_command engine (stored c))) [
                | inl panics ↦ rw (panics, ◌>>=◌) refl
                | inr (engine₁, goes) ↦
                    rw (goes, ◌>>=◌)
                      (replay_loop-replayed f it' (before ++ (c ∷ [])) rest wal engine₁
                          ((count + 1) % 2 ^ 64) at'
                          (omega (
                            arith,
                            ap length (all_left it' before c rest past same),
                            ap length first,
                          ))
                        ∙ ap (λ l. replayed engine₁ (map stored l) wal)
                            (all_left it' before c rest past same))
              ]))
      ]
    where
      all_left :
          (it' : WalIterator) (before : List EngineCommand) (c : EngineCommand)
          (rest : List EngineCommand)
          → it.start_record ≤ length before
          → it'.start_record ≡ it.start_record
          → drop (it'.start_record - length (before ++ (c ∷ []))) rest ≡ rest
      all_left it' before c rest past same =
          let e : it'.start_record - length (before ++ (c ∷ [])) ≡ 0 =
            omega (arith, past, same, length-append before (c ∷ [])) in
          ap (λ n. drop n rest) e

-- A recovery from the engine of a snapshot that has seen `start` records.
pub record Recovers (os : Platform) (engine : MatchingEngine) (start : ℕ) (cs : List EngineCommand)
    (run : Recovered) : Type 0 where
  pub wal : Wal
  pub zeros_left : ℕ
  pub log : IsLog os wal cs (replicate zeros_left 0)
  pub done : run ≡ replayed engine (map stored (drop start cs)) wal

-- From a file that holds the records of some commands, with zeros or nothing behind them, a
-- recovery whose operating system fails no call replays the commands after the first `start` in
-- order, each as the log keeps it, and returns the log with all of them. It neither stops early nor
-- cuts the log, and it panics only where applying these commands does.
pub recover_log-Recovers :
    (os : Platform) (crc : IsCrc os) (works : Works os) (cs : List EngineCommand)
    (fits : All Fits cs) (n : ℕ) (engine : MatchingEngine) (start : ℕ)
    → Recovers os engine start cs (recover_log os (logged os cs ++ replicate n 0) (engine, start))
unfolding recover_log open_wal
recover_log-Recovers os crc works cs fits n engine start =
    let o =
      open_with_size-Opened os crc works cs fits (logged os cs ++ replicate n 0) n
        default_initial_size refl in
    let at = iter_from-At os o.wal cs (replicate o.zeros_left 0) start o.log in
    let whole : start - 0 ≡ start = omega arith in
    record {
      wal = o.wal;
      zeros_left = o.zeros_left;
      log = o.log;
      done =
          rw (recover_log, o.done, ◌>>=◌)
            (replay_loop-replayed os crc (length o.wal.mmap + 1) (iter_from o.wal start) [] cs o.wal
                engine start at
                (omega (
                  arith,
                  length-drop (start - 0) cs,
                  enough os crc (iter_from o.wal start) [] cs at,
                ))
              ∙ ap (λ i. replayed engine (map stored (drop i cs)) o.wal) whole);
    }
