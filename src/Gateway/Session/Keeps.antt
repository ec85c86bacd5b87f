-- ===== src/Gateway/Session/Keeps.antt =====
-- The steps of a session that leave the call of `push` alone.
use velocity_match.Common.{
  ℕ, ◌≡◌, refl, Option, none, some, [], ◌&&◌, ◌==◌, bit_and, ltb, Option-cases, ap, ◌∙◌, sym,
  Bool-cases, inl, inr,
}
use velocity_match.Common.Run.Panic.{◌>>=◌}
use velocity_match.Protocol.{EngineCommand}
use velocity_match.Ring.{
  System, Pushing, Popping, Event, silent, ring_buffer, push_step, pop_call, pop_step,
  is_power_of_two,
}
use velocity_match.Ring.Steps.{sent_by}

-- A step of `push` at rest changes nothing.
pub rests :
    {s t : System EngineCommand} {e : Event EngineCommand}
    → s.pushing ≡ Pushing.idle
    → push_step s.pushing s ≡ (t, e)
    → ◌≡◌ {A = System EngineCommand × Event EngineCommand} (s, silent) (t, e)
unfolding push_step
rests {s} idle run = ap (λ p. push_step p s) (sym idle) ∙ run

pub ring_idle :
    (capacity : ℕ) {s : System EngineCommand}
    → ring_buffer capacity ≡ some s
    → s.pushing ≡ Pushing.idle
unfolding ring_buffer
ring_idle capacity {s} made = elim (Bool-cases (ltb 0 capacity && is_power_of_two capacity)) [
  | inl on ↦ ap pushing_of (sym (rw on at made))
  | inr off ↦ absurd (never (rw off at made))
]
  where
    pushing_of : Option (System EngineCommand) → Pushing EngineCommand
    pushing_of none = Pushing.idle
    pushing_of (some t) = t.pushing

    never : ◌≡◌ {A = Option (System EngineCommand)} none (some s) → ⊥
    never e = cc

-- A step of `pop` sends nothing and leaves the call of `push` alone.
abbrev pub KeepsPush :
    System EngineCommand → Option (System EngineCommand × Event EngineCommand) → Type 0
KeepsPush s none = Unit
KeepsPush s (some (t, e)) = (t.pushing ≡ s.pushing) × (sent_by e ≡ [])

pub pop_step-KeepsPush :
    (p : Popping EngineCommand) (s : System EngineCommand) → KeepsPush s (pop_step p s)
unfolding pop_step
pop_step-KeepsPush Popping.idle s = (refl, refl)
pop_step-KeepsPush Popping.reload s = elim (Bool-cases (s.consumer.cached_tail == s.inner.head)) [
  | inl is ↦ rw is (refl, refl)
  | inr some_there ↦ rw some_there (refl, refl)
]
pop_step-KeepsPush Popping.read s =
    elim (Option-cases (s.inner.buffer (bit_and s.consumer.cached_tail s.inner.mask))) [
      | inl nothing_there ↦ rw (nothing_there, ◌>>=◌) tt
      | inr (v, there) ↦ rw (there, ◌>>=◌) (refl, refl)
    ]
pop_step-KeepsPush (Popping.publish v) s = (refl, refl)

pub pop_call-pushing : (s : System EngineCommand) → (pop_call s).pushing ≡ s.pushing
unfolding pop_call
pop_call-pushing s = refl
