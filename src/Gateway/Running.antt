-- ===== src/Gateway/Running.antt =====
-- `matching_loop`: the commands that it takes from the ring, and its snapshots.
use velocity_match.Common.{
  ℕ, ◌+◌, ◌%◌, ◌^◌, ◌≡◌, refl, inl, inr, true, false, Bool-cases, Option, none, some, List, [], ◌∷◌,
  ◌++◌, replicate, All, ap, ◌∙◌, sym, subst, append-nil, append_assoc, leb,
}
use velocity_match.Common.Run.Panic.{◌>>=◌}
use velocity_match.Protocol.{EngineCommand}
use velocity_match.Order.{bid, ask, Order}
use velocity_match.Book.{best}
use velocity_match.Book.Listing.{listed, listed_rev, all_resting_orders-IsListing}
use velocity_match.Matching.{MatchingEngine}
use velocity_match.Snapshot.{Library, Snapshot, File, capture, compute_checksum, save}
use velocity_match.Wal.{Platform, Wal}
use velocity_match.Wal.Log.{Fits, IsLog}
use velocity_match.Wal.Reopen.{Works}
use velocity_match.Recovery.{replay_command}
use velocity_match.Recovery.Replay.{replay_all}
use velocity_match.Recovery.Sound.{IsSound}
use velocity_match.Gateway.{
  Matcher, Loop, Poll, got, nothing, process_command, take_snapshot, maybe_snapshot, drain,
  matching_loop,
}
use velocity_match.Gateway.Process.{one-Durable, process_command-Processed}

-- The commands that the loop takes behind the shutdown, and all that it takes.
abbrev pub drained : List Poll → List EngineCommand
drained [] = []
drained (nothing _ ∷ polls) = []
drained (got cmd ∷ polls) = cmd ∷ drained polls

abbrev pub taken : List Poll → List EngineCommand
taken [] = []
taken (nothing false ∷ polls) = taken polls
taken (nothing true ∷ polls) = drained polls
taken (got cmd ∷ polls) = cmd ∷ taken polls

-- A loop that ran, with all of `cs` in its log, and with an engine that went through `ds`.
pub record Ran (os : Platform) (engine : MatchingEngine) (ds cs : List EngineCommand)
    (run : Option Loop) : Type 0 where
  pub after : Loop
  pub wal : Wal
  pub zeros_left : ℕ
  pub done : run ≡ some after
  pub has_wal : after.matcher.wal ≡ some wal
  pub log : IsLog os wal cs (replicate zeros_left 0)
  pub sound : IsSound after.matcher.engine
  pub played : replay_all engine ds ≡ some after.matcher.engine

-- The snapshot of an engine whose orders are `orders`.
abbrev captured : Library → MatchingEngine → ℕ → List Order → Snapshot
captured lib engine n orders = record {
  wal_record_count = n;
  orders = orders;
  best_bid = best engine.book bid;
  best_ask = best engine.book ask;
  checksum = compute_checksum lib orders;
}

-- A snapshot of a sound engine can be captured.
pub capture-returns :
    (lib : Library) (engine : MatchingEngine) (n : ℕ)
    → IsSound engine
    → (snap : Snapshot) × (capture lib engine n ≡ some snap)
unfolding capture
capture-returns lib engine n s =
    let l = all_resting_orders-IsListing engine.book s.view s.book in
    (
      captured lib engine n
          (listed (s.view.queue ask) l.asks ++ listed_rev (s.view.queue bid) l.bids),
      rw (capture, l.done, ◌>>=◌) refl,
    )

-- A snapshot, or none, leaves what the loop processes commands with.
record Kept (m : Matcher) (run : Option Loop) : Type 0 where
  after : Loop
  done : run ≡ some after
  same : after.matcher ≡ m

module _ (lib : Library) (interval : ℕ) where
  maybe_snapshot-Kept :
      (l : Loop) (wal : Option Wal) (dir : Option (List File))
      → IsSound l.matcher.engine
      → Kept l.matcher (maybe_snapshot lib interval l wal dir)
  unfolding take_snapshot
  maybe_snapshot-Kept l none dir s = record { after = l; done = refl; same = refl }
  maybe_snapshot-Kept l (some w) none s = record { after = l; done = refl; same = refl }
  maybe_snapshot-Kept l (some w) (some dir) s =
      elim (Bool-cases (leb interval l.cmds_since_snapshot)) [
        | inr early ↦ record { after = l; done = rw early refl; same = refl }
        | inl due ↦
            let c = capture-returns lib l.matcher.engine w.record_count s in
            record {
              after = record l {
                snapshot_dir = some (save lib c.0 dir).1;
                cmds_since_snapshot = 0;
              };
              done = rw due (rw (take_snapshot, c.1, ◌>>=◌) refl);
              same = refl;
            }
      ]

module _ (os : Platform) (works : Works os) where
  here :
      (l : Loop) (w : Wal) (z : ℕ) (cs : List EngineCommand)
      → l.matcher.wal ≡ some w
      → IsLog os w cs (replicate z 0)
      → IsSound l.matcher.engine
      → Ran os l.matcher.engine [] (cs ++ []) (some l)
  unfolding replay_all
  here l w z cs has is sound = record {
    after = l;
    wal = w;
    zeros_left = z;
    done = refl;
    has_wal = has;
    sound = sound;
    played = refl;
    log = subst (λ c. IsLog os w c (replicate z 0)) (sym (append-nil cs)) is;
  }

  more :
      (engine engine₁ : MatchingEngine) (cs : List EngineCommand) (c : EngineCommand)
      (ds : List EngineCommand) {run run' : Option Loop}
      → replay_command engine c ≡ some engine₁
      → Ran os engine₁ ds ((cs ++ (c ∷ [])) ++ ds) run'
      → run ≡ run'
      → Ran os engine (c ∷ ds) (cs ++ (c ∷ ds)) run
  unfolding replay_all
  more engine engine₁ cs c ds step r e = record {
    after = r.after;
    wal = r.wal;
    zeros_left = r.zeros_left;
    done = e ∙ r.done;
    has_wal = r.has_wal;
    sound = r.sound;
    played = rw (replay_all, step, ◌>>=◌) r.played;
    log =
        subst (λ l. IsLog os r.wal l (replicate r.zeros_left 0)) (append_assoc cs (c ∷ []) ds)
          r.log;
  }

  drain-Ran :
      (l : Loop) (w : Wal) (z : ℕ) (cs : List EngineCommand) (polls : List Poll)
      → l.matcher.wal ≡ some w
      → IsLog os w cs (replicate z 0)
      → IsSound l.matcher.engine
      → All Fits (drained polls)
      → Ran os l.matcher.engine (drained polls) (cs ++ drained polls) (drain os l polls)
  unfolding drain
  drain-Ran l w z cs [] has is sound fits = here l w z cs has is sound
  drain-Ran l w z cs (nothing _ ∷ polls) has is sound fits = here l w z cs has is sound
  drain-Ran l w z cs (got cmd ∷ polls) has is sound fits =
      let p =
        one-Durable os works l.matcher.engine z cs cmd (process_command os l.matcher cmd)
          (process_command-Processed os l.matcher w cs (replicate z 0) cmd has is sound fits.0) in
      let r =
        drain-Ran (record l { matcher = p.after }) p.wal p.zeros_left (cs ++ (cmd ∷ [])) polls
          p.has_wal p.log p.sound fits.1 in
      more l.matcher.engine p.after.engine cs cmd (drained polls) p.played r
        (rw (drain, p.done, ◌>>=◌) refl)

  -- With an operating system that fails no call, a sound engine and a log with zeros behind its
  -- records, the matching loop returns, whatever comes of its snapshots, if the commands that it
  -- takes fit a record: those that the ring gives it up to the shutdown, and then up to the first
  -- time that the ring is empty. The log holds them all behind the others, in order, with zeros
  -- behind them, and the engine is sound, and what a replay of them makes of it.
  pub matching_loop-Ran :
      (lib : Library) (interval : ℕ) (l : Loop) (w : Wal) (z : ℕ) (cs : List EngineCommand)
      (polls : List Poll)
      → l.matcher.wal ≡ some w
      → IsLog os w cs (replicate z 0)
      → IsSound l.matcher.engine
      → All Fits (taken polls)
      → Ran os l.matcher.engine
          (taken polls)
          (cs ++ taken polls)
          (matching_loop os lib interval l polls)
  unfolding matching_loop
  matching_loop-Ran lib interval l w z cs [] has is sound fits = here l w z cs has is sound
  matching_loop-Ran lib interval l w z cs (nothing false ∷ polls) has is sound fits =
      matching_loop-Ran lib interval l w z cs polls has is sound fits
  matching_loop-Ran lib interval l w z cs (nothing true ∷ polls) has is sound fits =
      drain-Ran l w z cs polls has is sound fits
  matching_loop-Ran lib interval l w z cs (got cmd ∷ polls) has is sound fits =
      let p =
        one-Durable os works l.matcher.engine z cs cmd (process_command os l.matcher cmd)
          (process_command-Processed os l.matcher w cs (replicate z 0) cmd has is sound fits.0) in
      let k =
        maybe_snapshot-Kept lib interval
          (record l {
            matcher = p.after;
            cmds_since_snapshot = (l.cmds_since_snapshot + 1) % 2 ^ 64;
          })
          p.after.wal l.snapshot_dir p.sound in
      let r =
        matching_loop-Ran lib interval k.after p.wal p.zeros_left (cs ++ (cmd ∷ [])) polls
          (ap (λ m. m.wal) k.same ∙ p.has_wal) p.log
          (subst (λ m. IsSound m.engine) (sym k.same) p.sound) fits.1 in
      more l.matcher.engine k.after.matcher.engine cs cmd (taken polls)
        (p.played ∙ ap (λ m. some m.engine) (sym k.same)) r
        (rw (matching_loop, p.done, ◌>>=◌) (rw (k.done, ◌>>=◌) refl))
