-- ===== src/Gateway/Directory.antt =====
-- The data directory: what `matching_loop` leaves in it, with its snapshots, backs the engine.
use velocity_match.Common.{
  ℕ, ◌^◌, ◌<◌, ◌≡◌, refl, inl, inr, Bool-cases, Option, some, ok, List, [], ◌∷◌, length, replicate,
  All, arith, ap, ◌∙◌, sym, subst, leb,
}
use velocity_match.Common.Run.Panic.{◌>>=◌}
use velocity_match.Common.Run.After.{After, leaves, After-use, After-bind}
use velocity_match.Protocol.{EngineCommand, new_order, cancel_order}
use velocity_match.Order.{bid, ask}
use velocity_match.Matching.{MatchingEngine}
use velocity_match.Matching.Capacity.{add_order-capacity, cancel_order-capacity}
use velocity_match.Matching.Twins.{faces_ne}
use velocity_match.Matching.Uncrossed.{IsUncrossed}
use velocity_match.Snapshot.{Library, Snapshot, File, capture, save, load_latest}
use velocity_match.Snapshot.Latest.{IsOlder, Faithful, save-Saved}
use velocity_match.Wal.{Platform, Wal}
use velocity_match.Wal.Log.{IsLog}
use velocity_match.Recovery.{replay_command, starting_engine}
use velocity_match.Recovery.Replay.{replay_all}
use velocity_match.Recovery.Sound.{IsSound}
use velocity_match.Recovery.Twins.{AreTwins}
use velocity_match.Recovery.Restart.{capture-Restarted}
use velocity_match.Gateway.{Matcher, Loop, take_snapshot, maybe_snapshot}
use velocity_match.Gateway.Crash.{Follows}
use velocity_match.Gateway.Resume.{snapshot-Follows}

-- The files `dir` of the snapshots back an engine behind a log of `cs`: no snapshot has seen more
-- records, and the log leads on from the latest that loads, or from an empty engine, to a twin.
pub record Backs (lib : Library) (capacity : ℕ) (cs : List EngineCommand) (dir : List File)
    (engine : MatchingEngine) : Type 0 where
  pub older : All (IsOlder (length cs)) dir
  pub latest : Option Snapshot
  pub loads : load_latest lib dir ≡ ok latest
  pub base : MatchingEngine
  pub start : ℕ
  pub starts : starting_engine latest capacity ≡ some (ok (base, start))
  pub sound : IsSound base
  pub room : base.book.arena.capacity ≡ capacity
  pub follows : Follows base start cs engine

replayed-capacity :
    (engine : MatchingEngine) (c : EngineCommand)
    → After
        (λ (x : MatchingEngine). x.book.arena.capacity ≡ engine.book.arena.capacity)
        (replay_command engine c)
unfolding replay_command
replayed-capacity engine (new_order order) =
    After-bind (add_order-capacity engine order) λ x h. leaves h
replayed-capacity engine (cancel_order id) =
    After-bind (cancel_order-capacity engine id) λ x h. leaves h

replayed_all-capacity :
    (n : ℕ) (engine : MatchingEngine) (cs : List EngineCommand)
    → engine.book.arena.capacity ≡ n
    → After (λ (x : MatchingEngine). x.book.arena.capacity ≡ n) (replay_all engine cs)
unfolding replay_all
replayed_all-capacity n engine [] h = leaves h
replayed_all-capacity n engine (c ∷ cs) h =
    After-bind (replayed-capacity engine c) λ x k. replayed_all-capacity n x cs (k ∙ h)

-- A replay keeps the number of nodes.
pub replay_all-capacity :
    (engine after : MatchingEngine) (cs : List EngineCommand)
    → replay_all engine cs ≡ some after
    → after.book.arena.capacity ≡ engine.book.arena.capacity
replay_all-capacity engine after cs e =
    After-use (replayed_all-capacity engine.book.arena.capacity engine cs refl) e

pub twin-IsSound :
    (engine engine' : MatchingEngine) (t : AreTwins engine engine')
    → IsUncrossed t.view
    → IsSound engine'
twin-IsSound engine engine' t u = record {
  view = t.view';
  book = t.book';
  uncrossed = λ pb pa nb na.
      u pb pa (faces_ne _ _ (sym (t.alike.same bid pb)) nb)
        (faces_ne _ _ (sym (t.alike.same ask pa)) na);
}

-- A loop that ran: the log holds `cs`, and the files of the snapshots back the engine.
pub record Stored (os : Platform) (lib : Library) (capacity : ℕ) (cs : List EngineCommand)
    (run : Option Loop) : Type 0 where
  pub after : Loop
  pub wal : Wal
  pub zeros_left : ℕ
  pub dir : List File
  pub done : run ≡ some after
  pub has_wal : after.matcher.wal ≡ some wal
  pub has_dir : after.snapshot_dir ≡ some dir
  pub log : IsLog os wal cs (replicate zeros_left 0)
  pub sound : IsSound after.matcher.engine
  pub backs : Backs lib capacity cs dir after.matcher.engine

-- A snapshot that is saved, or none, leaves the matcher, and files that back its engine.
pub record Snapped (lib : Library) (capacity : ℕ) (cs : List EngineCommand) (m : Matcher)
    (run : Option Loop) : Type 0 where
  pub after : Loop
  pub dir : List File
  pub done : run ≡ some after
  pub same : after.matcher ≡ m
  pub has_dir : after.snapshot_dir ≡ some dir
  pub backs : Backs lib capacity cs dir m.engine

module _ (lib : Library) (faithful : (snap : Snapshot) → Faithful lib snap)
    (interval capacity : ℕ) where
  snapshot-Backs :
      (engine : MatchingEngine) (cs : List EngineCommand) (count : ℕ) (dir : List File)
      (sound : IsSound engine)
      → engine.book.arena.capacity ≡ capacity
      → count ≡ length cs
      → length cs < 10 ^ 10
      → All (IsOlder (length cs)) dir
      → (snap : Snapshot) × (capture lib engine count ≡ some snap)
        × Backs lib capacity cs (save lib snap dir).1 engine
  unfolding starting_engine
  snapshot-Backs engine cs count dir sound room e small older =
      let r = capture-Restarted lib engine sound.view count sound.book in
      let n : r.snap.wal_record_count ≡ length cs = r.numbered ∙ e in
      let s =
        save-Saved lib r.snap dir (faithful r.snap) (omega (arith, n, small)) r.valid
          (subst (λ k. All (IsOlder k) dir) (sym n) older) in
      (
        r.snap,
        r.captured,
        record {
          older = subst (λ k. All (IsOlder k) (save lib r.snap dir).1) n s.files;
          latest = some r.snap;
          loads = s.loaded;
          base = r.engine';
          start = count;
          starts =
              ap (λ k. starting_engine (some r.snap) k) (sym room)
              ∙ rw (starting_engine, r.restored, ◌>>=◌)
                  (ap (λ k. some (ok (r.engine', k))) r.numbered);
          sound =
              twin-IsSound engine r.engine' r.twins
                (subst IsUncrossed (sym r.its_view) sound.uncrossed);
          room = r.same_capacity ∙ room;
          follows = snapshot-Follows lib engine cs sound.view count e r;
        },
      )

  pub maybe_snapshot-Snapped :
      (l : Loop) (w : Wal) (dir : List File) (cs : List EngineCommand)
      → IsSound l.matcher.engine
      → l.matcher.engine.book.arena.capacity ≡ capacity
      → w.record_count ≡ length cs
      → length cs < 10 ^ 10
      → l.snapshot_dir ≡ some dir
      → Backs lib capacity cs dir l.matcher.engine
      → Snapped lib capacity cs l.matcher (maybe_snapshot lib interval l (some w) (some dir))
  unfolding take_snapshot
  maybe_snapshot-Snapped l w dir cs sound room e small has b =
      elim (Bool-cases (leb interval l.cmds_since_snapshot)) [
        | inr early ↦ record {
          after = l;
          dir = dir;
          done = rw early refl;
          same = refl;
          has_dir = has;
          backs = b;
        }
        | inl due ↦
            let (snap, took, backs) =
              snapshot-Backs l.matcher.engine cs w.record_count dir sound room e small b.older in
            record {
              after = record l {
                snapshot_dir = some (save lib snap dir).1;
                cmds_since_snapshot = 0;
              };
              dir = (save lib snap dir).1;
              done = rw due (rw (take_snapshot, took, ◌>>=◌) refl);
              same = refl;
              has_dir = refl;
              backs = backs;
            }
      ]
