-- ===== src/Gateway/Session/Restart.antt =====
-- `run` from a data directory to the data directory that it leaves, snapshots included.
use velocity_match.Common.{
  ℕ, ◌+◌, ◌^◌, ◌<◌, ◌≡◌, refl, Bool, Option, none, some, Result, ok, List, [], ◌∷◌, ◌++◌, length,
  drop, map, replicate, All, ap, ◌∙◌, sym, subst,
}
use velocity_match.Common.Run.Panic.{◌>>=◌}
use velocity_match.Protocol.{Buffer, EngineCommand}
use velocity_match.Matching.{MatchingEngine}
use velocity_match.Ring.{System}
use velocity_match.Snapshot.{Library, Snapshot, File}
use velocity_match.Snapshot.Latest.{Faithful}
use velocity_match.Wal.{Platform, Wal, file_of}
use velocity_match.Wal.Log.{Fits, stored, logged, file_of-zeros}
use velocity_match.Wal.Read.{IsCrc}
use velocity_match.Wal.Reopen.{Works}
use velocity_match.Recovery.{Recovered, recover, recover_log}
use velocity_match.Recovery.Replay.{replayed, recover_log-Recovers}
use velocity_match.Recovery.Sound.{IsSound, replay_all-Sound, stored-Fits}
use velocity_match.Recovery.Twins.{AreTwins}
use velocity_match.Gateway.{
  GatewayError, StreamEnd, GatewayConfig, DataDir, Loop, Poll, first_loop, start,
}
use velocity_match.Gateway.Wire.{stamped, answer_of, wire, IsPartial}
use velocity_match.Gateway.Running.{taken}
use velocity_match.Gateway.Crash.{Restores}
use velocity_match.Gateway.Directory.{Backs, replay_all-capacity}
use velocity_match.Gateway.Stored.{matching_loop-Stored}
use velocity_match.Gateway.Session.{Phase, Session, Network, run, first_error}
use velocity_match.Gateway.Session.Answers.{answers}
use velocity_match.Gateway.Session.Ends.{stamped-Fits, run-done}
use velocity_match.Gateway.Session.Complete.{Session-taken}

IsSound-AreTwins : (engine : MatchingEngine) → IsSound engine → AreTwins engine engine
IsSound-AreTwins engine s = record {
  view = s.view;
  view' = s.view;
  book = s.book;
  book' = s.book;
  alike = record { same = λ side p. refl; room = refl };
}

-- A data directory that holds the log of `cs`, and snapshots that back `engine`.
pub record IsReady (os : Platform) (lib : Library) (capacity : ℕ) (cs : List EngineCommand)
    (engine : MatchingEngine) (d : DataDir) : Type 0 where
  pub made : d.create_dir ≡ none
  pub zeros_left : ℕ
  pub file : d.wal_file ≡ logged os cs ++ replicate zeros_left 0
  pub fits : All Fits cs
  pub backs : Backs lib capacity cs d.snapshots engine

-- A recovery that returns a sound twin of `engine`, which the same directory backs.
record Recovers (os : Platform) (lib : Library) (capacity : ℕ) (cs : List EngineCommand)
    (engine : MatchingEngine) (d : DataDir) (run : Recovered) : Type 0 where
  restores : Restores os engine cs run
  sound : IsSound restores.engine'
  room : restores.engine'.book.arena.capacity ≡ capacity
  backs : Backs lib capacity cs d.snapshots restores.engine'

module _ (os : Platform) (crc : IsCrc os) (works : Works os) (lib : Library) (capacity : ℕ) where
  recover-Recovers :
      (cs : List EngineCommand) (engine : MatchingEngine) (d : DataDir)
      → IsReady os lib capacity cs engine d
      → Recovers os lib capacity cs engine d
          (recover os lib d.create_dir d.snapshots d.wal_file capacity)
  unfolding recover
  recover-Recovers cs engine d h =
      let b = h.backs in
      let f = b.follows in
      let r = recover_log-Recovers os crc works cs h.fits h.zeros_left b.base b.start in
      let s =
        replay_all-Sound b.base (map stored (drop b.start cs)) b.sound
          (stored-Fits b.start cs h.fits) in
      let sound = subst IsSound (the_same (sym s.done ∙ f.done)) s.sound in
      let recovered : recover_log os d.wal_file (b.base, b.start) ≡ some (ok (f.engine', r.wal)) =
        ap (λ file. recover_log os file (b.base, b.start)) h.file
        ∙ r.done
        ∙ rw (replayed, f.done, ◌>>=◌) refl in
      record {
        restores = record {
          engine' = f.engine';
          wal = r.wal;
          zeros_left = r.zeros_left;
          done = rw (recover, h.made) (rw (b.loads) (rw (b.starts, ◌>>=◌) recovered));
          twins = f.twins;
          log = r.log;
        };
        sound = sound;
        room = replay_all-capacity b.base f.engine' (map stored (drop b.start cs)) f.done ∙ b.room;
        backs = record {
          older = b.older;
          latest = b.latest;
          loads = b.loads;
          base = b.base;
          start = b.start;
          starts = b.starts;
          sound = b.sound;
          room = b.room;
          follows = record {
            seen = f.seen;
            engine' = f.engine';
            done = f.done;
            twins = IsSound-AreTwins f.engine' sound;
          };
        };
      }
    where
      the_same : {x y : MatchingEngine} → some x ≡ some y → x ≡ y
      the_same e = cc

-- A run to its end, with the result of the client's thread and the directory that it leaves, from
-- which a recovery restores the engine.
pub record Survived (os : Platform) (lib : Library) (capacity : ℕ) (cs : List EngineCommand)
    (end : StreamEnd) (run : Option (Result GatewayError (Unit {0}) × Option Loop)) : Type 0 where
  pub after : Loop
  pub wal : Wal
  pub dir : List File
  pub done : run ≡ some (answer_of end, some after)
  pub has_wal : after.matcher.wal ≡ some wal
  pub has_dir : after.snapshot_dir ≡ some dir
  pub restores :
      Restores os after.matcher.engine cs (recover os lib none dir (file_of wal) capacity)
  pub ready :
      IsReady os lib capacity cs after.matcher.engine
        (record { create_dir = none; snapshots = dir; wal_file = file_of wal })

-- A run on a working network, an operating system that fails no call and libraries that read back
-- every snapshot they wrote, from a data directory that holds the log of `old` and snapshots that
-- back some engine: a client sends the messages of commands whose fields fit, and at most the
-- beginning of one more, the two threads go through any interleaving over the ring, from which the
-- pushes get their answers, until the matching thread ends, and the log comes to fewer than 10^10
-- records. Then `run` returns what the
-- stream's end comes to, and a recovery from the snapshots and the log that this leaves returns the
-- log of the old and the new commands, in order, and a twin of the engine at the end: the same
-- orders in the same queues, but for their timestamps. The directory is again one that a run can
-- start from.
pub run-Survived :
    (os : Platform) (crc : IsCrc os) (works : Works os) (lib : Library)
    (faithful : (snap : Snapshot) → Faithful lib snap) (net : Network) (config : GatewayConfig)
    (d : DataDir) (old : List EngineCommand) (lost : MatchingEngine) (clock : ℕ → ℕ)
    (cs : List EngineCommand) (rest : Buffer) (end : StreamEnd) {s : System EngineCommand}
    {sent received left : List EngineCommand} {shutdown : Bool} {polls : List Poll}
    → config.data_dir ≡ some d
    → IsReady os lib config.arena_capacity old lost d
    → first_error (net.udp_bind ∷ net.set_multicast_ttl ∷ net.tcp_bind ∷ net.accept ∷ []) ≡ none
    → All Fits cs
    → IsPartial rest
    → length (old ++ stamped clock 0 cs) < 10 ^ 10
    → (session : Session config.ring_capacity
        (stamped clock 0 cs)
        s
        sent
        received
        left
        shutdown
        Phase.ended
        polls)
    → Survived os lib config.arena_capacity
        (old ++ stamped clock 0 cs)
        end
        (run os lib net config clock (answers session) (wire cs ++ rest) end polls)
unfolding start
run-Survived os crc works lib faithful net config d old lost clock cs rest end {polls = polls} here
      h online fits cut small session =
    let capacity = config.arena_capacity in
    let new = stamped clock 0 cs in
    let r = recover-Recovers os crc works lib capacity old lost d h in
    let loop = first_loop r.restores.engine' (some r.restores.wal) (some d.snapshots) in
    let started : start os lib config ≡ some loop =
      rw (start, here) (rw (r.restores.done, ◌>>=◌) refl) in
    let all : taken polls ≡ new = Session-taken session refl in
    let whole : old ++ taken polls ≡ old ++ new = ap (λ l. old ++ l) all in
    let m =
      matching_loop-Stored os works lib faithful capacity config.snapshot_interval loop
        r.restores.wal r.restores.zeros_left d.snapshots old polls refl refl r.restores.log r.sound
        r.room r.backs (subst (All Fits) (sym all) (stamped-Fits clock 0 cs fits))
        (subst (λ l. length l < 10 ^ 10) (sym whole) small) in
    let ready : IsReady os lib capacity (old ++ new) m.after.matcher.engine
        (record { create_dir = none; snapshots = m.dir; wal_file = file_of m.wal }) =
      record {
        made = refl;
        zeros_left = m.zeros_left + m.wal.zeros_behind;
        file =
            file_of-zeros m.wal (logged os (old ++ taken polls)) m.zeros_left m.log.bytes
            ∙ ap (λ l. logged os l ++ replicate (m.zeros_left + m.wal.zeros_behind) 0) whole;
        fits = subst (All Fits) whole m.log.fits;
        backs = subst (λ l. Backs lib capacity l m.dir m.after.matcher.engine) whole m.backs;
      } in
    record {
      after = m.after;
      wal = m.wal;
      dir = m.dir;
      done =
          run-done os lib net config clock cs rest end loop m.after started online fits cut session
            m.done;
      has_wal = m.has_wal;
      has_dir = m.has_dir;
      restores =
          (recover-Recovers os crc works lib capacity (old ++ new) m.after.matcher.engine
            (record { create_dir = none; snapshots = m.dir; wal_file = file_of m.wal })
            ready).restores;
      ready = ready;
    }
