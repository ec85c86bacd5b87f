-- ===== src/Ring/Steps.antt =====
-- All interleavings of one producer and one consumer.
use velocity_match.Common.{ℕ, ◌≡◌, some, List, [], ◌∷◌, ◌++◌}
use velocity_match.Ring.{
  System, Pushing, Popping, Event, silent, pushed, full, popped, empty, ring_buffer, push_call,
  push_step, pop_call, pop_step,
}

module _ {A : Type 0} where
  pub data Step (s : System A) : Event A → System A → Type 0 where
    call_push : (v : A) → s.pushing ≡ Pushing.idle → Step s silent (push_call v s)
    move_push : {e : Event A} {t : System A} → push_step s.pushing s ≡ (t, e) → Step s e t
    call_pop : s.popping ≡ Popping.idle → Step s silent (pop_call s)
    move_pop : {e : Event A} {t : System A} → pop_step s.popping s ≡ some (t, e) → Step s e t

  abbrev pub sent_by : Event A → List A
  sent_by (pushed v) = v ∷ []
  sent_by silent = []
  sent_by (full v) = []
  sent_by (popped v) = []
  sent_by empty = []

  abbrev pub got_by : Event A → List A
  got_by (popped v) = v ∷ []
  got_by silent = []
  got_by (full v) = []
  got_by (pushed v) = []
  got_by empty = []

  -- The systems that a new buffer leads to, with the values sent and received so far.
  pub data Reach (capacity : ℕ) : System A → List A → List A → Type 0 where
    start : {s : System A} → ring_buffer capacity ≡ some s → Reach capacity s [] []
    later :
        {s t : System A} {sent got : List A} {e : Event A}
        → Reach capacity s sent got
        → Step s e t
        → Reach capacity t (sent ++ sent_by e) (got ++ got_by e)
