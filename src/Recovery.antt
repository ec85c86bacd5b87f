-- ===== src/Recovery.antt =====
-- src/recovery.rs: the engine from the latest snapshot and the log behind it.
pub mod Replay
pub mod Sound
pub mod Twins
pub mod Restart
use velocity_match.Common.{
  ℕ, zero, suc, ◌+◌, ◌%◌, ◌^◌, Option, none, some, Result, ok, err, List, [], ◌∷◌, length,
}
use velocity_match.Common.Run.Panic.{◌>>=◌}
use velocity_match.Protocol.{Buffer, EngineCommand, new_order, cancel_order}
use velocity_match.Matching
use velocity_match.Matching.{MatchingEngine, with_capacity, add_order}
use velocity_match.Snapshot.{Library, File, Snapshot, SnapshotError, load_latest, restore}
use velocity_match.Wal.{
  Platform, Wal, WalError, io, protocol, corruption, truncated_record, open_wal, truncate_to,
  WalIterator, Item, iter_from, next,
}

pub data RecoveryError : Type 0 where
  wal_error : WalError → RecoveryError
  snapshot_error : SnapshotError → RecoveryError

-- The result of the command is dropped.
unfoldable pub replay_command : MatchingEngine → EngineCommand → Option MatchingEngine
replay_command engine (new_order order) = do (_, engine₁) ← add_order engine order; some engine₁
replay_command engine (cancel_order order_id) = do
  (_, engine₁) ← Matching.cancel_order engine order_id
  some engine₁

abbrev pub Recovered : Type 0
Recovered = Option (Result RecoveryError (MatchingEngine × Wal))

-- The log cut at a bad record.
abbrev pub cut : MatchingEngine → Wal → (offset count : ℕ) → Recovered
cut engine wal offset count = do wal₁ ← truncate_to wal offset count; some (ok (engine, wal₁))

-- The loop over the iterator. Each round but the last moves on by a record, so one round for each
-- byte of the mapping and one more are enough, here and within `next`.
unfoldable pub replay_loop :
    Platform → ℕ → WalIterator → Wal → MatchingEngine → (count : ℕ) → Recovered
unfolding replay_command
replay_loop os zero it wal engine count = none
replay_loop os (suc fuel) it wal engine count = do
  (item, it₁) ← next os (length it.mmap + 1) it
  elim item [
    | none ↦ some (ok (engine, wal))
    | some result ↦ elim result [
      | ok numbered ↦ do
        engine₁ ← replay_command engine numbered.1
        replay_loop os fuel it₁ wal engine₁ ((count + 1) % 2 ^ 64)
      | err e ↦ elim e [
        | corruption offset ↦ cut engine wal offset count
        | truncated_record offset ↦ cut engine wal offset count
        | io code ↦ some (err (wal_error (io code)))
        | protocol e ↦ some (err (wal_error (protocol e)))
      ]
    ]
  ]

-- The engine that the recovery starts from, and the number of records that it has seen.
unfoldable pub starting_engine :
    Option Snapshot → (arena_capacity : ℕ) → Option (Result RecoveryError (MatchingEngine × ℕ))
starting_engine none arena_capacity = some (ok (with_capacity arena_capacity, 0))
starting_engine (some snap) arena_capacity = do
  restored ← restore snap arena_capacity
  elim restored [
    | ok engine ↦ some (ok (engine, snap.wal_record_count))
    | err e ↦ some (err (snapshot_error e))
  ]

-- `recover` once the engine to start from is there.
unfoldable pub recover_log : Platform → (wal_file : Buffer) → MatchingEngine × ℕ → Recovered
unfolding replay_loop
recover_log os wal_file (engine, start_record) = do
  opened ← open_wal os wal_file
  elim opened [
    | err e ↦ some (err (wal_error e))
    | ok wal ↦
        replay_loop os (length wal.mmap + 1) (iter_from wal start_record) wal engine start_record
  ]

-- `create_dir` is the error, if any, of making the data directory; `snapshots` is what the
-- directory of the snapshots holds, and `wal_file` what the file of the log holds.
unfoldable pub recover :
    Platform
    → Library
    → (create_dir : Option ℕ) (snapshots : List File) (wal_file : Buffer) (arena_capacity : ℕ)
    → Recovered
unfolding starting_engine recover_log
recover os lib create_dir snapshots wal_file arena_capacity = elim create_dir [
  | some code ↦ some (err (wal_error (io code)))
  | none ↦ elim (load_latest lib snapshots) [
    | err e ↦ some (err (snapshot_error e))
    | ok latest ↦ do
      started ← starting_engine latest arena_capacity
      elim started [ err e ↦ some (err e) | ok start ↦ recover_log os wal_file start ]
  ]
]
