-- ===== src/Gateway/Session/Market.antt =====
-- `run` from the bytes of a client to the packets of the reports.
use velocity_match.Common.{
  ℕ, ◌+◌, ◌^◌, ◌≤◌, ◌<◌, ◌≡◌, refl, Bool, Option, none, some, Result, List, [], ◌∷◌, ◌++◌, All, sym,
  subst, subst₂,
}
use velocity_match.Common.Run.After.{After-use}
use velocity_match.Arena.{arena_null}
use velocity_match.Book.Start.{empty_view, with_capacity-IsBook}
use velocity_match.Protocol.{Buffer, EngineCommand, new_order, cancel_order}
use velocity_match.Matching.{with_capacity}
use velocity_match.Matching.Small.{IsFit}
use velocity_match.Ring.{System}
use velocity_match.Snapshot.{Library}
use velocity_match.Wal.{Platform}
use velocity_match.Wal.Log.{Fits}
use velocity_match.Recovery.Sound.{with_capacity-IsSound}
use velocity_match.Gateway.{GatewayError, StreamEnd, GatewayConfig, Loop, Poll, first_loop}
use velocity_match.Gateway.Wire.{stamped, answer_of, wire, IsPartial}
use velocity_match.Gateway.Running.{taken}
use velocity_match.Gateway.Unlogged.{matching_loop-Played}
use velocity_match.Gateway.Sent.{Sends, answered_by_all, IsTimely}
use velocity_match.Gateway.Packets.{matching_loop-Progress}
use velocity_match.Gateway.Session.{Phase, Session, Network, run, first_error}
use velocity_match.Gateway.Session.Complete.{Session-taken}
use velocity_match.Gateway.Session.Answers.{answers}
use velocity_match.Gateway.Session.Ends.{stamped-Fits, run-done}
use velocity_match.Gateway.Session.Fresh.{StartsFresh, start-fresh}

with_capacity-IsFit : (capacity : ℕ) → capacity ≤ arena_null → IsFit (with_capacity capacity)
unfolding with_capacity
with_capacity-IsFit capacity room = record {
  view = empty_view capacity;
  book = with_capacity-IsBook capacity room;
  small = λ s p c h. elim h [ ];
}

stamped-IsTimely :
    (clock : ℕ → ℕ) (n : ℕ) (cs : List EngineCommand)
    → ((k : ℕ) → clock k < 2 ^ 64)
    → All IsTimely (stamped clock n cs)
stamped-IsTimely clock n [] late = tt
stamped-IsTimely clock n (new_order o ∷ cs) late = (late n, stamped-IsTimely clock (n + 1) cs late)
stamped-IsTimely clock n (cancel_order id ∷ cs) late = (tt, stamped-IsTimely clock (n + 1) cs late)

-- A run to its end, whose packets report the fills in the answers to `cs` from an empty engine.
pub record Published (capacity : ℕ) (cs : List EngineCommand) (end : StreamEnd)
    (run : Option (Result GatewayError (Unit {0}) × Option Loop)) : Type 0 where
  pub after : Loop
  pub done : run ≡ some (answer_of end, some after)
  pub sends : Sends 0 (answered_by_all (with_capacity capacity) cs) after.matcher.packets

-- A run on a working network and with a 64-bit clock, without a data directory or with one from
-- which the recovery returns an error: a client sends the messages of commands whose fields fit,
-- and at most the beginning of one more, and the two threads go through any interleaving over the
-- ring, from which the pushes get their answers, until the matching thread ends. Then `run`
-- returns, and has handed one packet of 48 bytes to the socket for each fill in the results that
-- `add_order` answers to the client's orders without an error, as the commands go through an empty
-- engine, and no other packet: not for the trades of an order that is then refused. The packets
-- decode to the fills, in order, with the timestamps of the orders that came in and consecutive
-- numbers from 1 on, which wrap at 2^32.
pub run-Published :
    (os : Platform) (lib : Library) (net : Network) (config : GatewayConfig) (clock : ℕ → ℕ)
    (cs : List EngineCommand) (rest : Buffer) (end : StreamEnd) {s : System EngineCommand}
    {sent received left : List EngineCommand} {shutdown : Bool} {polls : List Poll}
    → StartsFresh os lib config
    → config.arena_capacity ≤ arena_null
    → ((k : ℕ) → clock k < 2 ^ 64)
    → first_error (net.udp_bind ∷ net.set_multicast_ttl ∷ net.tcp_bind ∷ net.accept ∷ []) ≡ none
    → All Fits cs
    → IsPartial rest
    → (session : Session config.ring_capacity
        (stamped clock 0 cs)
        s
        sent
        received
        left
        shutdown
        Phase.ended
        polls)
    → Published config.arena_capacity
        (stamped clock 0 cs)
        end
        (run os lib net config clock (answers session) (wire cs ++ rest) end polls)
run-Published os lib net config clock cs rest end {polls = polls} fresh room late online fits cut
      session =
    let engine = with_capacity config.arena_capacity in
    let loop = first_loop engine none none in
    let all : taken polls ≡ stamped clock 0 cs = Session-taken session refl in
    let its_fits = subst (All Fits) (sym all) (stamped-Fits clock 0 cs fits) in
    let m =
      matching_loop-Played os lib config.snapshot_interval loop polls refl
        (with_capacity-IsSound config.arena_capacity room) its_fits in
    let p =
      After-use
        (matching_loop-Progress os lib config.snapshot_interval polls loop refl
          (with_capacity-IsFit config.arena_capacity room) its_fits
          (subst (All IsTimely) (sym all) (stamped-IsTimely clock 0 cs late)))
        m.done in
    record {
      after = m.after;
      done =
          run-done os lib net config clock cs rest end loop m.after
            (start-fresh os lib config fresh) online fits cut session m.done;
      sends =
          subst₂ (λ l ps. Sends 0 (answered_by_all engine l) ps) all (sym p.packets_are) p.sends;
    }
