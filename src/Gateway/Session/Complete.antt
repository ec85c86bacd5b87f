-- ===== src/Gateway/Session/Complete.antt =====
-- No command is lost, made up or reordered between the client and the end of the matching loop.
use velocity_match.Common.{
  ℕ, ◌≡◌, refl, Bool, some, List, [], ◌∷◌, ◌++◌, append-nil, append_assoc, ap, ◌∙◌, sym, subst,
  subst₂,
}
use velocity_match.Protocol.{EngineCommand}
use velocity_match.Ring.{System, Event, ring_buffer, push_call, pop_call}
use velocity_match.Ring.Steps.{
  Reach, start, later, Step, call_push, move_push, call_pop, move_pop, sent_by, got_by,
}
use velocity_match.Ring.Fifo.{Reach-refusals}
use velocity_match.Gateway.{Poll}
use velocity_match.Gateway.Running.{taken}
use velocity_match.Gateway.Session.{
  Phase, ended, left_by, Session, begin, call, push, shut, ask, pop, check,
}
use velocity_match.Gateway.Session.Pushes.{Holds, Sends, push_step-Sends, push_call-Holds}
use velocity_match.Gateway.Session.Polls.{Knows, IsSession, pop-Knows, check-Knows, shut-Knows}
use velocity_match.Gateway.Session.Keeps.{
  rests, ring_idle, KeepsPush, pop_step-KeepsPush, pop_call-pushing,
}

pub Session-IsSession :
    {capacity : ℕ} {commands : List EngineCommand} {s : System EngineCommand}
    {sent received left : List EngineCommand} {shutdown : Bool} {phase : Phase} {polls : List Poll}
    → Session capacity commands s sent received left shutdown phase polls
    → IsSession capacity commands s sent received left shutdown phase polls
Session-IsSession {capacity} (begin made) = record {
  reach = start made;
  order = refl;
  holds = rw (ring_idle capacity made) tt;
  closed = λ h. cc;
  knows = λ rest. refl;
}
Session-IsSession {capacity} {commands}
      (call {s} {sent} {received} {left} {shutdown} cmd cmds r e idle) =
    let i = Session-IsSession r in
    record {
      reach =
          subst₂ (λ a b. Reach capacity (push_call cmd s) a b) (append-nil sent)
            (append-nil received) (later i.reach (call_push cmd idle));
      order = i.order;
      holds = push_call-Holds cmd s left cmds e;
      closed = λ h.
          absurd
            (let bad : ◌≡◌ {A = List EngineCommand} (cmd ∷ cmds) [] = sym e ∙ (i.closed h).0 in cc);
      knows = i.knows;
    }
Session-IsSession {capacity} {commands}
      (push {s} {t} {sent} {received} {left} {shutdown} {phase} {polls} {e} r run) =
    let i = Session-IsSession r in
    let m : Sends t e left =
      subst (λ (x : System EngineCommand × Event EngineCommand). Sends x.0 x.1 left) run
        (push_step-Sends s.pushing s left refl i.holds) in
    record {
      reach =
          subst (λ b. Reach capacity t (sent ++ sent_by e) b)
            (ap (λ l. received ++ l) m.none_got ∙ append-nil received)
            (later i.reach (move_push run));
      order =
          append_assoc sent (sent_by e) (left_by e left) ∙ ap (λ l. sent ++ l) m.order ∙ i.order;
      holds = m.holds;
      closed = λ h.
          let at = rests (i.closed h).1 run in
          (
            ap (λ (x : System EngineCommand × Event EngineCommand). left_by x.1 left) (sym at)
                ∙ (i.closed h).0,
            ap (λ (x : System EngineCommand × Event EngineCommand). x.0.pushing) (sym at)
                ∙ (i.closed h).1,
          );
      knows = i.knows;
    }
Session-IsSession {capacity} {commands}
      (shut {s} {sent} {received} {left} {shutdown} {phase} {polls} r none_left idle) =
    let i = Session-IsSession r in
    record {
      reach = i.reach;
      order = i.order;
      holds = i.holds;
      closed = λ h. (none_left, idle);
      knows = shut-Knows phase commands received shutdown polls i.knows;
    }
Session-IsSession {capacity} {commands} (ask {s} {sent} {received} r p idle) =
    let i = Session-IsSession r in
    record {
      reach =
          subst₂ (λ a b. Reach capacity (pop_call s) a b) (append-nil sent) (append-nil received)
            (later i.reach (call_pop idle));
      order = i.order;
      holds = rw (pop_call-pushing s) i.holds;
      closed = λ h. ((i.closed h).0, pop_call-pushing s ∙ (i.closed h).1);
      knows = i.knows;
    }
Session-IsSession {capacity} {commands}
      (pop {s} {t} {sent} {received} {left} {shutdown} {phase} {polls} {e} r p run) =
    let i = Session-IsSession r in
    let k : KeepsPush s (some (t, e)) = subst (KeepsPush s) run (pop_step-KeepsPush s.popping s) in
    record {
      reach =
          subst (λ a. Reach capacity t a (received ++ got_by e))
            (ap (λ l. sent ++ l) k.1 ∙ append-nil sent) (later i.reach (move_pop run));
      order = i.order;
      holds = subst (λ x. Holds x left) (sym k.0) i.holds;
      closed = λ h. ((i.closed h).0, k.0 ∙ (i.closed h).1);
      knows = pop-Knows commands received shutdown polls e phase p i.knows λ none_there h.
          sym (
            (Reach-refusals capacity i.reach).1 (subst (λ x. Step s x t) none_there (move_pop run)))
          ∙ sym (append-nil sent)
          ∙ ap (λ l. sent ++ l) (sym (i.closed h).0)
          ∙ i.order;
    }
Session-IsSession {capacity} {commands}
      (check {s} {sent} {received} {left} {shutdown} {phase} {polls} r at) =
    let i = Session-IsSession r in
    record {
      reach = i.reach;
      order = i.order;
      holds = i.holds;
      closed = i.closed;
      knows =
          check-Knows commands received shutdown polls
            (subst (λ x. Knows x commands received shutdown polls) at i.knows);
    }

-- In every interleaving of a client's thread and the matching thread over a new ring, once the
-- matching thread has ended, it has taken exactly the commands that the client had to push, each
-- once and in order.
pub Session-taken :
    {capacity : ℕ} {commands : List EngineCommand} {s : System EngineCommand}
    {sent received left : List EngineCommand} {shutdown : Bool} {phase : Phase} {polls : List Poll}
    → Session capacity commands s sent received left shutdown phase polls
    → phase ≡ ended
    → taken polls ≡ commands
Session-taken {commands = commands} {received = received} {shutdown = shutdown} {polls = polls} r
      at =
    let k = subst (λ x. Knows x commands received shutdown polls) at (Session-IsSession r).knows in
    ap taken (sym (append-nil polls)) ∙ k.1 [] ∙ k.0

-- A session has a ring.
pub Session-made :
    {capacity : ℕ} {commands : List EngineCommand} {s : System EngineCommand}
    {sent received left : List EngineCommand} {shutdown : Bool} {phase : Phase} {polls : List Poll}
    → Session capacity commands s sent received left shutdown phase polls
    → (ring : System EngineCommand) × (ring_buffer capacity ≡ some ring)
Session-made (begin {s} made) = (s, made)
Session-made (call cmd cmds r e idle) = Session-made r
Session-made (push r run) = Session-made r
Session-made (shut r e idle) = Session-made r
Session-made (ask r p idle) = Session-made r
Session-made (pop r p run) = Session-made r
Session-made (check r at) = Session-made r
