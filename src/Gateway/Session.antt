-- ===== src/Gateway/Session.antt =====
-- `run`: the thread of `handle_client`, which pushes the commands of a client, and the thread of
-- `matching_loop`, which pops them, over the ring, in any interleaving.
pub mod Pushes
pub mod Polls
pub mod Keeps
pub mod Complete
pub mod Answers
pub mod Ends
pub mod Restart
pub mod Fresh
pub mod Market
use velocity_match.Common.{
  ℕ, ◌≡◌, Bool, true, false, Option, none, some, Result, ok, err, List, [], ◌∷◌, ◌++◌,
  if◌then◌else◌,
}
use velocity_match.Protocol.{EngineCommand}
use velocity_match.Ring.{
  System, Pushing, Popping, Event, silent, pushed, full, popped, empty, ring_buffer, push_call,
  push_step, pop_call, pop_step,
}
use velocity_match.Ring.Steps.{sent_by, got_by}
use velocity_match.Common.Run.Panic.{◌>>=◌}
use velocity_match.Protocol.{Buffer}
use velocity_match.Snapshot.{Library}
use velocity_match.Wal.{Platform}
use velocity_match.Gateway.{
  Poll, got, nothing, GatewayError, io, StreamEnd, handle_client, GatewayConfig, Loop, start,
  matching_loop,
}

-- Where the matching thread stands: in its loop, between an empty `pop` and the load of the flag, in
-- the loop behind the shutdown, or at its end.
pub data Phase : Type 0 where
  looping checking draining ended : Phase

-- What is left to push: a command stays until the ring has taken it.
abbrev pub left_by : Event EngineCommand → List EngineCommand → List EngineCommand
left_by (pushed v) [] = []
left_by (pushed v) (_ ∷ cmds) = cmds
left_by silent cmds = cmds
left_by (full v) cmds = cmds
left_by (popped v) cmds = cmds
left_by empty cmds = cmds

-- Where an event of `pop` leads.
abbrev pub after_pop : Event EngineCommand → Phase → Phase
after_pop empty looping = checking
after_pop empty checking = checking
after_pop empty draining = ended
after_pop empty ended = ended
after_pop silent phase = phase
after_pop (full v) phase = phase
after_pop (pushed v) phase = phase
after_pop (popped v) phase = phase

-- The polls that the loop has made of an event: an empty `pop` counts when the flag is loaded.
abbrev pub polled : Event EngineCommand → Phase → List Poll
polled (popped v) phase = got v ∷ []
polled empty draining = nothing true ∷ []
polled empty looping = []
polled empty checking = []
polled empty ended = []
polled silent phase = []
polled (full v) phase = []
polled (pushed v) phase = []

-- The flag's value decides between the two loops.
abbrev pub after_check : (shutdown : Bool) → Phase
after_check true = draining
after_check false = looping

-- A loop of the matching thread calls `pop`, and goes on with the call.
pub data Pops : Phase → Type 0 where
  in_loop : Pops looping
  in_drain : Pops draining

-- The states that the threads lead to from a new ring: the ring, the commands sent and received,
-- those left to push, the flag, the phase, and the polls of the matching loop. `commands` is what
-- the client sends.
pub data Session (capacity : ℕ) (commands : List EngineCommand)
    : System EngineCommand
      → (sent received left : List EngineCommand) → (shutdown : Bool) → Phase
      → List Poll
      → Type 0 where
  begin :
      {s : System EngineCommand}
      → ring_buffer capacity ≡ some s
      → Session capacity commands s [] [] commands false looping []
  call :
      {s : System EngineCommand} {sent received left : List EngineCommand} {shutdown : Bool}
      {phase : Phase} {polls : List Poll} (cmd : EngineCommand) (cmds : List EngineCommand)
      → Session capacity commands s sent received left shutdown phase polls
      → left ≡ cmd ∷ cmds
      → s.pushing ≡ Pushing.idle
      → Session capacity commands (push_call cmd s) sent received left shutdown phase polls
  push :
      {s t : System EngineCommand} {sent received left : List EngineCommand} {shutdown : Bool}
      {phase : Phase} {polls : List Poll} {e : Event EngineCommand}
      → Session capacity commands s sent received left shutdown phase polls
      → push_step s.pushing s ≡ (t, e)
      → Session capacity commands t
          (sent ++ sent_by e)
          received
          (left_by e left)
          shutdown
          phase
          polls
  shut :
      {s : System EngineCommand} {sent received left : List EngineCommand} {shutdown : Bool}
      {phase : Phase} {polls : List Poll}
      → Session capacity commands s sent received left shutdown phase polls
      → left ≡ []
      → s.pushing ≡ Pushing.idle
      → Session capacity commands s sent received left true phase polls
  ask :
      {s : System EngineCommand} {sent received left : List EngineCommand} {shutdown : Bool}
      {phase : Phase} {polls : List Poll}
      → Session capacity commands s sent received left shutdown phase polls
      → Pops phase
      → s.popping ≡ Popping.idle
      → Session capacity commands (pop_call s) sent received left shutdown phase polls
  pop :
      {s t : System EngineCommand} {sent received left : List EngineCommand} {shutdown : Bool}
      {phase : Phase} {polls : List Poll} {e : Event EngineCommand}
      → Session capacity commands s sent received left shutdown phase polls
      → Pops phase
      → pop_step s.popping s ≡ some (t, e)
      → Session capacity commands t sent
          (received ++ got_by e)
          left
          shutdown
          (after_pop e phase)
          (polls ++ polled e phase)
  check :
      {s : System EngineCommand} {sent received left : List EngineCommand} {shutdown : Bool}
      {phase : Phase} {polls : List Poll}
      → Session capacity commands s sent received left shutdown phase polls
      → phase ≡ checking
      → Session capacity commands s sent received left shutdown
          (after_check shutdown)
          (polls ++ (nothing shutdown ∷ []))

-- The calls of `run` on the network, with the error of each, if it fails.
pub record Network : Type 0 where
  pub udp_bind : Option ℕ
  pub set_multicast_ttl : Option ℕ
  pub tcp_bind : Option ℕ
  pub accept : Option ℕ

-- The first of some calls that fails.
abbrev pub first_error : List (Option ℕ) → Option ℕ
first_error [] = none
first_error (some code ∷ calls) = some code
first_error (none ∷ calls) = first_error calls

-- Both threads, to their end: the client's, which handles the bytes `stream` and their end, with the
-- ring's `answers` to its pushes, and the matching thread, whose polls are `polls`.
unfoldable pub run_threads :
    Platform
    → Library
    → GatewayConfig
    → Loop
    → (clock : ℕ → ℕ) → (answers : List Bool) (stream : Buffer) → StreamEnd
    → (polls : List Poll) → Option (Result GatewayError (Unit {0}) × Option Loop)
run_threads os lib config loop clock answers stream end polls = do
  handled ← handle_client clock answers stream end
  left ← matching_loop os lib config.snapshot_interval loop polls
  some (handled.result, some left)

-- `run` to its end, with what the matching thread leaves. Where a call on the network fails, `run`
-- returns its error, whether the matching thread has begun or not. `none` is a panic, such as the
-- failed assertion of a ring capacity that is no power of two, or a push that still waits for the
-- ring when the answers end.
unfoldable pub run :
    Platform
    → Library
    → Network
    → GatewayConfig
    → (clock : ℕ → ℕ) → (answers : List Bool) (stream : Buffer) → StreamEnd
    → (polls : List Poll) → Option (Result GatewayError (Unit {0}) × Option Loop)
unfolding run_threads
run os lib net config clock answers stream end polls = do
  ring ← ring_buffer {A = EngineCommand} config.ring_capacity
  loop ← start os lib config
  elim (first_error (net.udp_bind ∷ net.set_multicast_ttl ∷ net.tcp_bind ∷ net.accept ∷ [])) [
    | some code ↦ some (err (io code), none)
    | none ↦ run_threads os lib config loop clock answers stream end polls
  ]
