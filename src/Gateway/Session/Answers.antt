-- ===== src/Gateway/Session/Answers.antt =====
-- What the ring answers to the client's pushes in a session: it takes every command.
use velocity_match.Common.{
  ℕ, ◌≤◌, ◌≡◌, refl, Bool, true, false, List, [], ◌∷◌, ◌++◌, length, arith, ap, length-append,
}
use velocity_match.Protocol.{EngineCommand}
use velocity_match.Ring.{System, Event, silent, pushed, full, popped, empty}
use velocity_match.Ring.Steps.{sent_by}
use velocity_match.Ring.Fifo.{Reach-IsQueue}
use velocity_match.Gateway.{Poll}
use velocity_match.Gateway.Pushing.{takes, takes-append}
use velocity_match.Gateway.Session.{Phase, ended, Session, begin, call, push, shut, ask, pop, check}
use velocity_match.Gateway.Session.Complete.{Session-IsSession}

-- The answer of a call of `push` that an event ends.
abbrev pub answered_by : Event EngineCommand → List Bool
answered_by (pushed v) = true ∷ []
answered_by (full v) = false ∷ []
answered_by silent = []
answered_by (popped v) = []
answered_by empty = []

-- The answers to the calls of `push` in a session, in order.
abbrev pub answers :
    {capacity : ℕ} {commands : List EngineCommand} {s : System EngineCommand}
    {sent received left : List EngineCommand} {shutdown : Bool} {phase : Phase} {polls : List Poll}
    → Session capacity commands s sent received left shutdown phase polls
    → List Bool
answers (begin made) = []
answers (call cmd cmds r e idle) = answers r
answers (push {e = e} r run) = answers r ++ answered_by e
answers (shut r e idle) = answers r
answers (ask r p idle) = answers r
answers (pop r p run) = answers r
answers (check r at) = answers r

takes-answered_by : (e : Event EngineCommand) → takes (answered_by e) ≡ length (sent_by e)
takes-answered_by (pushed v) = refl
takes-answered_by (full v) = refl
takes-answered_by silent = refl
takes-answered_by (popped v) = refl
takes-answered_by empty = refl

-- An answer for each command that was sent takes it.
takes-answers :
    {capacity : ℕ} {commands : List EngineCommand} {s : System EngineCommand}
    {sent received left : List EngineCommand} {shutdown : Bool} {phase : Phase} {polls : List Poll}
    (session : Session capacity commands s sent received left shutdown phase polls)
    → takes (answers session) ≡ length sent
takes-answers (begin made) = refl
takes-answers (call cmd cmds r e idle) = takes-answers r
takes-answers (push {sent = sent} {e = e} r run) = omega (
  arith,
  takes-append (answers r) (answered_by e),
  takes-answers r,
  takes-answered_by e,
  length-append sent (sent_by e),
)
takes-answers (shut r e idle) = takes-answers r
takes-answers (ask r p idle) = takes-answers r
takes-answers (pop r p run) = takes-answers r
takes-answers (check r at) = takes-answers r

-- At the end of the matching thread, the ring has taken all commands.
pub Session-takes :
    {capacity : ℕ} {commands : List EngineCommand} {s : System EngineCommand}
    {sent received left : List EngineCommand} {shutdown : Bool} {polls : List Poll}
    (session : Session capacity commands s sent received left shutdown ended polls)
    → length commands ≤ takes (answers session)
Session-takes {capacity} {commands} {sent = sent} {received = received} session =
    let i = Session-IsSession session in
    let q = Reach-IsQueue capacity i.reach in
    omega (
      arith,
      takes-answers session,
      ap length i.knows.0,
      ap length q.in_order,
      length-append received q.queue,
    )
