-- ===== src/Gateway/Session/Pushes.antt =====
-- The steps of `push` in a session: what they take off the commands that are left.
use velocity_match.Common.{◌≡◌, refl, List, [], ◌∷◌, ◌++◌, ap, ◌∙◌, sym, Bool-cases, inl, inr}
use velocity_match.Protocol.{EngineCommand}
use velocity_match.Ring.{
  System, Pushing, Event, pushed, push_call, push_step, is_full, reload, write, publish,
}
use velocity_match.Ring.Steps.{sent_by, got_by}
use velocity_match.Gateway.Session.{left_by}

-- A call of `push` that is under way holds the first command that is left.
abbrev pub Holds : Pushing EngineCommand → List EngineCommand → Type 0
Holds Pushing.idle left = Unit
Holds (reload v) left = (cmds : List EngineCommand) × (left ≡ v ∷ cmds)
Holds (write v) left = (cmds : List EngineCommand) × (left ≡ v ∷ cmds)
Holds (publish v) left = (cmds : List EngineCommand) × (left ≡ v ∷ cmds)

-- A step of `push` takes the command that it has sent off what is left.
pub record Sends (t : System EngineCommand) (e : Event EngineCommand) (left : List EngineCommand)
    : Type 0 where
  pub holds : Holds t.pushing (left_by e left)
  pub order : sent_by e ++ left_by e left ≡ left
  pub none_got : got_by e ≡ []

pub push_step-Sends :
    (p : Pushing EngineCommand) (s : System EngineCommand) (left : List EngineCommand)
    → s.pushing ≡ p
    → Holds p left
    → Sends (push_step p s).0 (push_step p s).1 left
unfolding push_step
push_step-Sends Pushing.idle s left at h = record {
  holds = rw at tt;
  order = refl;
  none_got = refl;
}
push_step-Sends (reload v) s left at h =
    elim (Bool-cases (is_full s.inner (record s.producer { cached_tail = s.inner.tail }))) [
      | inl is ↦ rw is (record { holds = tt; order = refl; none_got = refl })
      | inr room ↦ rw room (record { holds = h; order = refl; none_got = refl })
    ]
push_step-Sends (write v) s left at h = record { holds = h; order = refl; none_got = refl }
push_step-Sends (publish v) s left at (cmds, e) = record {
  holds = tt;
  order = ap (λ l. v ∷ left_by (pushed v) l) e ∙ sym e;
  none_got = refl;
}

pub push_call-Holds :
    (v : EngineCommand) (s : System EngineCommand) (left cmds : List EngineCommand)
    → left ≡ v ∷ cmds
    → Holds (push_call v s).pushing left
unfolding push_call
push_call-Holds v s left cmds e = elim (Bool-cases (is_full s.inner s.producer)) [
  | inl is ↦ rw is (cmds, e)
  | inr room ↦ rw room (cmds, e)
]
