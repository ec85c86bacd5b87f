-- ===== src/Gateway/Stored.antt =====
-- `matching_loop` with its snapshots, and the recovery from the data directory that it leaves.
use velocity_match.Common.{
  ℕ, ◌+◌, ◌%◌, ◌^◌, ◌<◌, ◌≡◌, refl, true, false, Option, some, List, [], ◌∷◌, ◌++◌, length,
  length-append, replicate, All, arith, ap, ap₂, ◌∙◌, sym, subst, subst₂, append-nil, append_assoc,
}
use velocity_match.Common.Run.Panic.{◌>>=◌}
use velocity_match.Protocol.{EngineCommand}
use velocity_match.Matching.{MatchingEngine}
use velocity_match.Snapshot.{Library, Snapshot, File}
use velocity_match.Snapshot.Latest.{IsOlder-later, Faithful}
use velocity_match.Wal.{Platform, Wal}
use velocity_match.Wal.Log.{Fits, IsLog}
use velocity_match.Wal.Reopen.{Works}
use velocity_match.Recovery.{replay_command}
use velocity_match.Recovery.Replay.{replay_all}
use velocity_match.Recovery.Sound.{IsSound}
use velocity_match.Gateway.{
  Loop, Poll, got, nothing, process_command, maybe_snapshot, drain, matching_loop,
}
use velocity_match.Gateway.Process.{one-Durable, process_command-Processed}
use velocity_match.Gateway.Running.{taken, drained}
use velocity_match.Gateway.Crash.{goes_on-Follows}
use velocity_match.Gateway.Directory.{Backs, Stored, replay_all-capacity, maybe_snapshot-Snapped}

one_played :
    (engine after : MatchingEngine) (c : EngineCommand)
    → replay_command engine c ≡ some after
    → replay_all engine (c ∷ []) ≡ some after
unfolding replay_all
one_played engine after c e = rw (replay_all, e, ◌>>=◌) refl

-- The files still back the engine behind one more command.
step-Backs :
    (lib : Library) (capacity : ℕ) (cs : List EngineCommand) (dir : List File)
    (engine after : MatchingEngine) (c : EngineCommand)
    → Backs lib capacity cs dir engine
    → Fits c
    → replay_command engine c ≡ some after
    → Backs lib capacity (cs ++ (c ∷ [])) dir after
step-Backs lib capacity cs dir engine after c b fits e = record {
  older =
      IsOlder-later (length cs) (length (cs ++ (c ∷ []))) (omega (arith, length-append cs (c ∷ [])))
        dir b.older;
  latest = b.latest;
  loads = b.loads;
  base = b.base;
  start = b.start;
  starts = b.starts;
  sound = b.sound;
  room = b.room;
  follows =
      goes_on-Follows b.base b.start cs (c ∷ []) engine after b.follows (fits, tt)
        (one_played engine after c e);
}

module _ (os : Platform) (works : Works os) (lib : Library)
    (faithful : (snap : Snapshot) → Faithful lib snap) (capacity : ℕ) where
  here :
      (l : Loop) (w : Wal) (z : ℕ) (dir : List File) (cs : List EngineCommand)
      → l.matcher.wal ≡ some w
      → l.snapshot_dir ≡ some dir
      → IsLog os w cs (replicate z 0)
      → IsSound l.matcher.engine
      → Backs lib capacity cs dir l.matcher.engine
      → Stored os lib capacity (cs ++ []) (some l)
  here l w z dir cs has has_dir is sound b = record {
    after = l;
    wal = w;
    zeros_left = z;
    dir = dir;
    done = refl;
    has_wal = has;
    has_dir = has_dir;
    sound = sound;
    log = subst (λ c. IsLog os w c (replicate z 0)) (sym (append-nil cs)) is;
    backs = subst (λ c. Backs lib capacity c dir l.matcher.engine) (sym (append-nil cs)) b;
  }

  more :
      (cs : List EngineCommand) (c : EngineCommand) (ds : List EngineCommand)
      {run run' : Option Loop}
      → Stored os lib capacity ((cs ++ (c ∷ [])) ++ ds) run'
      → run ≡ run'
      → Stored os lib capacity (cs ++ (c ∷ ds)) run
  more cs c ds r e =
      subst₂ (λ l x. Stored os lib capacity l x) (append_assoc cs (c ∷ []) ds) (sym e) r

  drain-Stored :
      (l : Loop) (w : Wal) (z : ℕ) (dir : List File) (cs : List EngineCommand) (polls : List Poll)
      → l.matcher.wal ≡ some w
      → l.snapshot_dir ≡ some dir
      → IsLog os w cs (replicate z 0)
      → IsSound l.matcher.engine
      → Backs lib capacity cs dir l.matcher.engine
      → All Fits (drained polls)
      → Stored os lib capacity (cs ++ drained polls) (drain os l polls)
  unfolding drain
  drain-Stored l w z dir cs [] has has_dir is sound b fits =
      here l w z dir cs has has_dir is sound b
  drain-Stored l w z dir cs (nothing _ ∷ polls) has has_dir is sound b fits =
      here l w z dir cs has has_dir is sound b
  drain-Stored l w z dir cs (got cmd ∷ polls) has has_dir is sound b fits =
      let p =
        one-Durable os works l.matcher.engine z cs cmd (process_command os l.matcher cmd)
          (process_command-Processed os l.matcher w cs (replicate z 0) cmd has is sound fits.0) in
      more cs cmd (drained polls)
        (drain-Stored (record l { matcher = p.after }) p.wal p.zeros_left dir (cs ++ (cmd ∷ []))
          polls p.has_wal has_dir p.log p.sound
          (step-Backs lib capacity cs dir l.matcher.engine p.after.engine cmd b fits.0 p.played)
          fits.1)
        (rw (drain, p.done, ◌>>=◌) refl)

  -- From a sound engine in an arena of `capacity` nodes, a log of `cs` with zeros behind its records,
  -- and files of snapshots that back the engine, with an operating system that fails no call and
  -- libraries that read back every snapshot they wrote, the matching loop returns, if the commands
  -- that it takes fit a record and the log comes to fewer than 10^10 records. The log then holds
  -- them behind the others, and the files that the loop leaves, with the snapshots that it took,
  -- back its engine.
  pub matching_loop-Stored :
      (interval : ℕ) (l : Loop) (w : Wal) (z : ℕ) (dir : List File) (cs : List EngineCommand)
      (polls : List Poll)
      → l.matcher.wal ≡ some w
      → l.snapshot_dir ≡ some dir
      → IsLog os w cs (replicate z 0)
      → IsSound l.matcher.engine
      → l.matcher.engine.book.arena.capacity ≡ capacity
      → Backs lib capacity cs dir l.matcher.engine
      → All Fits (taken polls)
      → length (cs ++ taken polls) < 10 ^ 10
      → Stored os lib capacity (cs ++ taken polls) (matching_loop os lib interval l polls)
  unfolding matching_loop
  matching_loop-Stored interval l w z dir cs [] has has_dir is sound room b fits small =
      here l w z dir cs has has_dir is sound b
  matching_loop-Stored interval l w z dir cs (nothing false ∷ polls) has has_dir is sound room b
        fits small =
      matching_loop-Stored interval l w z dir cs polls has has_dir is sound room b fits small
  matching_loop-Stored interval l w z dir cs (nothing true ∷ polls) has has_dir is sound room b fits
        small =
      drain-Stored l w z dir cs polls has has_dir is sound b fits
  matching_loop-Stored interval l w z dir cs (got cmd ∷ polls) has has_dir is sound room b fits
        small =
      let p =
        one-Durable os works l.matcher.engine z cs cmd (process_command os l.matcher cmd)
          (process_command-Processed os l.matcher w cs (replicate z 0) cmd has is sound fits.0) in
      let l₁ = record l {
        matcher = p.after;
        cmds_since_snapshot = (l.cmds_since_snapshot + 1) % 2 ^ 64;
      } in
      let room₁ =
        replay_all-capacity l.matcher.engine p.after.engine (cmd ∷ [])
          (one_played l.matcher.engine p.after.engine cmd p.played)
        ∙ room in
      let k =
        maybe_snapshot-Snapped lib faithful interval capacity l₁ p.wal dir (cs ++ (cmd ∷ []))
          p.sound room₁ p.log.count
          (omega (arith, length-append cs (cmd ∷ []), length-append cs (cmd ∷ taken polls), small))
          has_dir
          (step-Backs lib capacity cs dir l.matcher.engine p.after.engine cmd b fits.0 p.played) in
      let snapped : maybe_snapshot lib interval l₁ p.after.wal l.snapshot_dir ≡ some k.after =
        ap₂ (λ x y. maybe_snapshot lib interval l₁ x y) p.has_wal has_dir ∙ k.done in
      more cs cmd (taken polls)
        (matching_loop-Stored interval k.after p.wal p.zeros_left k.dir (cs ++ (cmd ∷ [])) polls
          (ap (λ m. m.wal) k.same ∙ p.has_wal) k.has_dir p.log
          (subst (λ m. IsSound m.engine) (sym k.same) p.sound)
          (ap (λ m. m.engine.book.arena.capacity) k.same ∙ room₁)
          (subst (λ m. Backs lib capacity (cs ++ (cmd ∷ [])) k.dir m.engine) (sym k.same) k.backs)
          fits.1 (omega (arith, ap length (append_assoc cs (cmd ∷ []) (taken polls)), small)))
        (rw (matching_loop, p.done, ◌>>=◌) (rw (snapped, ◌>>=◌) refl))
