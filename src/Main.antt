-- ===== src/Main.antt =====
-- src/main.rs: `main`, a run of the gateway with the default configuration. What it prints is left
-- out.
use velocity_match.Common.{
  ℕ, ◌≡◌, refl, inl, Bool, Option, none, Result, List, [], ◌∷◌, ◌++◌, All, arith,
}
use velocity_match.Protocol.{Buffer, EngineCommand}
use velocity_match.Ring.{System}
use velocity_match.Snapshot.{Library}
use velocity_match.Wal.{Platform}
use velocity_match.Wal.Log.{Fits}
use velocity_match.Gateway.{GatewayError, StreamEnd, Loop, Poll, default_config}
use velocity_match.Gateway.Wire.{stamped, wire, IsPartial}
use velocity_match.Gateway.Session.{Phase, Session, Network, run, first_error}
use velocity_match.Gateway.Session.Answers.{answers}
use velocity_match.Gateway.Session.Fresh.{Finished, run-Finished}

unfoldable pub main :
    Platform
    → Library
    → Network
    → (clock : ℕ → ℕ) → (answers : List Bool) (stream : Buffer) → StreamEnd
    → (polls : List Poll) → Option (Result GatewayError (Unit {0}) × Option Loop)
unfolding run
main os lib net clock answers stream end polls =
    run os lib net default_config clock answers stream end polls

-- The program on a working network, with a client that sends the messages of commands whose fields
-- fit, and at most the beginning of one more, in any interleaving of its threads over the ring until
-- the matching thread ends: it returns what the stream's end comes to, and the engine at the end is
-- what the client's commands make of an empty engine, in order. Nothing is logged.
pub main-Finished :
    (os : Platform) (lib : Library) (net : Network) (clock : ℕ → ℕ) (cs : List EngineCommand)
    (rest : Buffer) (end : StreamEnd) {s : System EngineCommand}
    {sent received left : List EngineCommand} {shutdown : Bool} {polls : List Poll}
    → first_error (net.udp_bind ∷ net.set_multicast_ttl ∷ net.tcp_bind ∷ net.accept ∷ []) ≡ none
    → All Fits cs
    → IsPartial rest
    → (session : Session default_config.ring_capacity
        (stamped clock 0 cs)
        s
        sent
        received
        left
        shutdown
        Phase.ended
        polls)
    → Finished default_config.arena_capacity
        (stamped clock 0 cs)
        end
        (main os lib net clock (answers session) (wire cs ++ rest) end polls)
unfolding main
main-Finished os lib net clock cs rest end online fits cut session =
    run-Finished os lib net default_config clock cs rest end (inl refl) (omega arith) online fits
      cut session
