-- ===== src/Gateway/Session/Fresh.antt =====
-- `run` without a log: where no data directory is configured, or its recovery failed.
use velocity_match.Common.{
  ℕ, ◌≤◌, ◌≡◌, refl, ◌⊎◌, inl, inr, Bool, Option, none, some, Result, err, List, [], ◌∷◌, ◌++◌, All,
  ap, ◌∙◌, sym, subst,
}
use velocity_match.Common.Run.Panic.{◌>>=◌}
use velocity_match.Arena.{arena_null}
use velocity_match.Protocol.{Buffer, EngineCommand}
use velocity_match.Matching.{with_capacity}
use velocity_match.Ring.{System}
use velocity_match.Snapshot.{Library}
use velocity_match.Wal.{Platform}
use velocity_match.Wal.Log.{Fits}
use velocity_match.Recovery.{RecoveryError, recover}
use velocity_match.Recovery.Replay.{replay_all}
use velocity_match.Recovery.Sound.{IsSound, with_capacity-IsSound}
use velocity_match.Gateway.{
  GatewayError, StreamEnd, GatewayConfig, DataDir, Loop, Poll, first_loop, start,
}
use velocity_match.Gateway.Wire.{stamped, answer_of, wire, IsPartial}
use velocity_match.Gateway.Running.{taken}
use velocity_match.Gateway.Unlogged.{matching_loop-Played}
use velocity_match.Gateway.Session.{Phase, Session, Network, run, first_error}
use velocity_match.Gateway.Session.Complete.{Session-taken}
use velocity_match.Gateway.Session.Answers.{answers}
use velocity_match.Gateway.Session.Ends.{stamped-Fits, run-done}

-- No data directory is configured, or the recovery from it returns an error.
abbrev pub StartsFresh : Platform → Library → GatewayConfig → Type 0
StartsFresh os lib config =
    (config.data_dir ≡ none)
    ⊎ ((d : DataDir) × (e : RecoveryError) × (config.data_dir ≡ some d)
        × (recover os lib d.create_dir d.snapshots d.wal_file config.arena_capacity ≡ some (err e)))

pub start-fresh :
    (os : Platform) (lib : Library) (config : GatewayConfig)
    → StartsFresh os lib config
    → start os lib config ≡ some (first_loop (with_capacity config.arena_capacity) none none)
unfolding start
start-fresh os lib config (inl nowhere) = rw (start, nowhere) refl
start-fresh os lib config (inr (d, e, here, fails)) = rw (start, here) (rw (fails, ◌>>=◌) refl)

-- A run to its end, with the result of the client's thread, whose engine went through `cs`.
pub record Finished (capacity : ℕ) (cs : List EngineCommand) (end : StreamEnd)
    (run : Option (Result GatewayError (Unit {0}) × Option Loop)) : Type 0 where
  pub after : Loop
  pub done : run ≡ some (answer_of end, some after)
  pub no_wal : after.matcher.wal ≡ none
  pub sound : IsSound after.matcher.engine
  pub played : replay_all (with_capacity capacity) cs ≡ some after.matcher.engine

-- A run on a working network, without a data directory or with one from which the recovery returns
-- an error: a client sends the messages of commands whose fields fit, and at most the beginning of
-- one more, and the two threads go through any interleaving over the ring, from which the pushes
-- get their answers, until the matching thread ends. Then `run` returns what the stream's end comes
-- to, and the engine at the end is sound, and what the client's commands, with their timestamps,
-- make of an empty engine, in order. Nothing is logged.
pub run-Finished :
    (os : Platform) (lib : Library) (net : Network) (config : GatewayConfig) (clock : ℕ → ℕ)
    (cs : List EngineCommand) (rest : Buffer) (end : StreamEnd) {s : System EngineCommand}
    {sent received left : List EngineCommand} {shutdown : Bool} {polls : List Poll}
    → StartsFresh os lib config
    → config.arena_capacity ≤ arena_null
    → first_error (net.udp_bind ∷ net.set_multicast_ttl ∷ net.tcp_bind ∷ net.accept ∷ []) ≡ none
    → All Fits cs
    → IsPartial rest
    → (session : Session config.ring_capacity
        (stamped clock 0 cs)
        s
        sent
        received
        left
        shutdown
        Phase.ended
        polls)
    → Finished config.arena_capacity
        (stamped clock 0 cs)
        end
        (run os lib net config clock (answers session) (wire cs ++ rest) end polls)
run-Finished os lib net config clock cs rest end {polls = polls} fresh room online fits cut
      session =
    let capacity = config.arena_capacity in
    let new = stamped clock 0 cs in
    let all : taken polls ≡ new = Session-taken session refl in
    let m =
      matching_loop-Played os lib config.snapshot_interval
        (first_loop (with_capacity capacity) none none) polls refl
        (with_capacity-IsSound capacity room)
        (subst (All Fits) (sym all) (stamped-Fits clock 0 cs fits)) in
    record {
      after = m.after;
      done =
          run-done os lib net config clock cs rest end
            (first_loop (with_capacity capacity) none none) m.after
            (start-fresh os lib config fresh) online fits cut session m.done;
      no_wal = m.no_wal;
      sound = m.sound;
      played = ap (λ l. replay_all (with_capacity capacity) l) (sym all) ∙ m.played;
    }
