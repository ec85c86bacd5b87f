-- ===== src/Ring/Slots.antt =====
-- The slots: which one each side accesses, and what a value more makes of them.
use velocity_match.Common.{
  ℕ, zero, suc, ◌+◌, ◌-◌, ◌%◌, ◌^◌, ◌<◌, ◌≤◌, ◌≡◌, refl, ◌≢◌, some, List, [], ◌∷◌, ◌++◌, arith,
  length, get_elem?, ◌==◌, if◌then◌else◌, bit_and, sym, ◌∙◌, ap, append-nil, ==_ne, false,
}
use velocity_match.Common.Words.{mod_apart}
use native.Mathlib.Nat.{add-zero}
use native.Mathlib.Decide.{dec_lt}
use velocity_match.Ring.{System, Pushing, Popping, Event, silent, pushed, full, popped, empty}
use velocity_match.Ring.Steps.{sent_by, got_by}
use velocity_match.Ring.Inv.{Inv, placed, expected, PushKnows, PopKnows, get_elem?_snoc, slot_of}

module _ {A : Type 0} where
  pub front :
      (q ws : List A)
      → 0 < length q
      → (x : A) × (get_elem? q 0 ≡ some x) × (get_elem? (q ++ ws) 0 ≡ some x)
  front [] ws h = absurd (omega arith)
  front (x ∷ q) ws h = (x, refl, refl)

  pub front_some :
      (q : List A) (x v : A) → get_elem? q 0 ≡ some x → get_elem? (q ++ (v ∷ [])) 0 ≡ some x
  front_some [] x v h = cc
  front_some (y ∷ q) x v h = h

  pub nonempty : (q : List A) (x : A) → get_elem? q 0 ≡ some x → 0 < length q
  nonempty [] x h = cc
  nonempty (y ∷ q) x h = omega arith

  pub PopKnows-snoc :
      (pc : Popping A) (q : List A) (v : A) (got bound : ℕ)
      → PopKnows pc q got bound
      → PopKnows pc (q ++ (v ∷ [])) got bound
  PopKnows-snoc Popping.idle q v got bound h = tt
  PopKnows-snoc Popping.reload q v got bound h = tt
  PopKnows-snoc Popping.read q v got bound h = h
  PopKnows-snoc (Popping.publish x) q v got bound h = (h.0, front_some q x v h.1)

  -- The value written to the slot behind the queue is the only change.
  pub expected_snoc :
      (pc : Popping A) (q : List A) (v : A) (got bound i : ℕ)
      → PopKnows pc q got bound
      → expected pc (q ++ (v ∷ [])) i ≡ (if i == length q then some v else expected pc (q ++ []) i)
  expected_snoc Popping.idle q v got bound i h =
      get_elem?_snoc q v i
      ∙ ap (λ ws. if i == length q then some v else get_elem? ws i) (sym (append-nil q))
  expected_snoc Popping.reload q v got bound i h =
      get_elem?_snoc q v i
      ∙ ap (λ ws. if i == length q then some v else get_elem? ws i) (sym (append-nil q))
  expected_snoc Popping.read q v got bound i h =
      get_elem?_snoc q v i
      ∙ ap (λ ws. if i == length q then some v else get_elem? ws i) (sym (append-nil q))
  expected_snoc (Popping.publish x) q v got bound zero h = ground (arith, nonempty q x h.1)
  expected_snoc (Popping.publish x) q v got bound (suc i) h =
      get_elem?_snoc q v (suc i)
      ∙ ap (λ ws. if suc i == length q then some v else get_elem? ws (suc i)) (sym (append-nil q))

  -- A value that waits in its slot has room there.
  pub length-placed :
      (pc : Pushing A) (sent bound : ℕ)
      → PushKnows pc sent bound
      → sent ≤ bound
      → sent + length (placed pc) ≤ bound
  length-placed Pushing.idle sent bound h le = omega arith
  length-placed (Pushing.reload v) sent bound h le = omega arith
  length-placed (Pushing.write v) sent bound h le = omega arith
  length-placed (Pushing.publish v) sent bound h le = omega arith

-- A refusal is right: `Full` only of a full queue, `Empty` only of an empty one.
abbrev pub IsRight : {A : Type 0} → Event A → List A → (capacity : ℕ) → Type 0
IsRight (full v) q capacity = length q ≡ capacity
IsRight empty q capacity = length q ≡ 0
IsRight silent q capacity = Unit
IsRight (pushed v) q capacity = Unit
IsRight (popped v) q capacity = Unit

-- What a step does to the queue `q`: what was sent is put at its end, and what was received comes
-- from its front.
pub record After {A : Type 0} (k : ℕ) (q : List A) (e : Event A) (s : System A) : Type 0 where
  pub received : ℕ
  pub queue : List A
  pub inv : Inv k s received queue
  pub fifo : q ++ sent_by e ≡ got_by e ++ queue
  pub right : IsRight e q (2 ^ k)

module _ {A : Type 0} {k : ℕ} {s : System A} {t : ℕ} {q : List A} (inv : Inv k s t q) where
  abbrev pub cap_slot : ℕ → ℕ
  cap_slot i = (t + i) % 2 ^ k

  pub same_slot : (i j : ℕ) → i < 2 ^ k → j < 2 ^ k → i ≢ j → (cap_slot i == cap_slot j) ≡ false
  same_slot i j hi hj ne = elim (dec_lt i j) [
    | yes lt ↦ ==_ne _ _ (mod_apart (t + i) (t + j) (2 ^ k) (omega arith) (omega arith))
    | no ge ↦
        ==_ne _ _ λ e. mod_apart (t + j) (t + i) (2 ^ k) (omega (arith, ne)) (omega arith) (sym e)
  ]

  pub push_slot : bit_and s.producer.cached_head s.inner.mask ≡ cap_slot (length q)
  push_slot =
      ap (λ m. bit_and s.producer.cached_head m) inv.shape.mask_is
      ∙ ap (λ h. bit_and h (2 ^ k - 1)) (inv.cursors.own_head ∙ inv.cursors.head_is)
      ∙ slot_of k (t + length q) inv.shape.small

  pub pop_slot : bit_and s.consumer.cached_tail s.inner.mask ≡ cap_slot 0
  pop_slot =
      ap (λ m. bit_and s.consumer.cached_tail m) inv.shape.mask_is
      ∙ ap (λ h. bit_and h (2 ^ k - 1)) (inv.cursors.own_tail ∙ inv.cursors.tail_is)
      ∙ slot_of k t inv.shape.small
      ∙ ap (λ n. n % 2 ^ k) (sym (add-zero t))
