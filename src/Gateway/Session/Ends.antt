-- ===== src/Gateway/Session/Ends.antt =====
-- What the client's thread hands over and comes to.
use velocity_match.Common.{
  ℕ, suc, ◌+◌, ◌≤◌, ◌≡◌, refl, Bool, none, some, List, [], ◌∷◌, ◌++◌, length, All, ap, subst,
}
use velocity_match.Common.Run.Panic.{◌>>=◌}
use velocity_match.Protocol.{Buffer, EngineCommand, new_order, cancel_order}
use velocity_match.Ring.{System}
use velocity_match.Snapshot.{Library}
use velocity_match.Wal.{Platform}
use velocity_match.Wal.Log.{Fits}
use velocity_match.Gateway.{StreamEnd, GatewayConfig, Loop, Poll, start, matching_loop}
use velocity_match.Gateway.Pushing.{takes}
use velocity_match.Gateway.Wire.{stamped, answer_of, wire, IsPartial}
use velocity_match.Gateway.Client.{handle_client-wire}
use velocity_match.Gateway.Session.{Phase, Session, Network, run_threads, run, first_error}
use velocity_match.Gateway.Session.Complete.{Session-made}
use velocity_match.Gateway.Session.Answers.{answers, Session-takes}

pub stamped-Fits :
    (clock : ℕ → ℕ) (n : ℕ) (cs : List EngineCommand) → All Fits cs → All Fits (stamped clock n cs)
stamped-Fits clock n [] a = tt
stamped-Fits clock n (new_order o ∷ cs) (f, a) = (
  record {
    id = f.id;
    trader_id = f.trader_id;
    price = f.price;
    positive = f.positive;
    quantity = f.quantity;
  },
  stamped-Fits clock (n + 1) cs a,
)
stamped-Fits clock n (cancel_order id ∷ cs) (f, a) = (f, stamped-Fits clock (n + 1) cs a)

length-stamped :
    (clock : ℕ → ℕ) (n : ℕ) (cs : List EngineCommand) → length (stamped clock n cs) ≡ length cs
length-stamped clock n [] = refl
length-stamped clock n (new_order o ∷ cs) = ap suc (length-stamped clock (n + 1) cs)
length-stamped clock n (cancel_order id ∷ cs) = ap suc (length-stamped clock (n + 1) cs)

-- `run` returns, if the matching loop does.
pub run-done :
    (os : Platform) (lib : Library) (net : Network) (config : GatewayConfig) (clock : ℕ → ℕ)
    (cs : List EngineCommand) (rest : Buffer) (end : StreamEnd) (loop after : Loop)
    {s : System EngineCommand} {sent received left : List EngineCommand} {shutdown : Bool}
    {polls : List Poll}
    → start os lib config ≡ some loop
    → first_error (net.udp_bind ∷ net.set_multicast_ttl ∷ net.tcp_bind ∷ net.accept ∷ []) ≡ none
    → All Fits cs
    → IsPartial rest
    → (session : Session config.ring_capacity
        (stamped clock 0 cs)
        s
        sent
        received
        left
        shutdown
        Phase.ended
        polls)
    → matching_loop os lib config.snapshot_interval loop polls ≡ some after
    → run os lib net config clock (answers session) (wire cs ++ rest) end polls
      ≡ some (answer_of end, some after)
unfolding run run_threads
run-done os lib net config clock cs rest end loop after started online fits cut session ran =
    rw (run, (Session-made session).1, ◌>>=◌)
      (rw (started, ◌>>=◌)
        (rw online (
          rw
            (
              run_threads,
              handle_client-wire clock end (answers session) cs rest fits cut (
                  subst (λ n. n ≤ takes (answers session)) (length-stamped clock 0 cs)
                    (Session-takes session)),
              ◌>>=◌,
            )
            (rw (ran, ◌>>=◌) refl))))
