-- ===== src/Ring/Inv.antt =====
-- What holds between any two steps: the slots between the cursors hold the queue.
use velocity_match.Common.{
  ℕ, zero, suc, ◌+◌, ◌-◌, ◌%◌, ◌^◌, ◌<◌, ◌≤◌, ◌≡◌, refl, Option, none, some, List, [], ◌∷◌, ◌++◌,
  arith, length, get_elem?, ◌==◌, if◌then◌else◌, bit_and, sym, ◌∙◌, ap,
}
use velocity_match.Common.Words.{bit_and_mask, mod-mod_pow}
use velocity_match.Ring.{Producer, Consumer, System, Pushing, Popping, wrapping_sub}

pub record Shape (k capacity mask : ℕ) : Type 0 where
  pub small : k ≤ 63
  pub capacity_is : capacity ≡ 2 ^ k
  pub mask_is : mask ≡ 2 ^ k - 1

-- The cursors of a queue of `n` values after `t` others, wrapped, and what each side last saw of
-- the other's.
pub record Cursors (k head tail : ℕ) (p : Producer) (c : Consumer) (t n seen_tail seen_head : ℕ)
    : Type 0 where
  pub head_is : head ≡ (t + n) % 2 ^ 64
  pub tail_is : tail ≡ t % 2 ^ 64
  pub own_head : p.cached_head ≡ head
  pub own_tail : c.cached_tail ≡ tail
  pub room : n ≤ 2 ^ k
  pub seen_tail_is : p.cached_tail ≡ seen_tail % 2 ^ 64
  pub seen_tail_old : seen_tail ≤ t
  pub seen_tail_near : t + n ≤ seen_tail + 2 ^ k
  pub seen_head_is : c.cached_head ≡ seen_head % 2 ^ 64
  pub seen_head_new : t ≤ seen_head
  pub seen_head_old : seen_head ≤ t + n

module _ {A : Type 0} where
  -- The value that is in its slot and not yet published.
  abbrev pub placed : Pushing A → List A
  placed (Pushing.publish v) = v ∷ []
  placed Pushing.idle = []
  placed (Pushing.reload v) = []
  placed (Pushing.write v) = []

  -- What the slot at distance `i` from the tail holds; the first value may have been moved out.
  abbrev pub expected : Popping A → List A → ℕ → Option A
  expected (Popping.publish v) ws zero = none
  expected (Popping.publish v) ws (suc i) = get_elem? ws (suc i)
  expected Popping.idle ws i = get_elem? ws i
  expected Popping.reload ws i = get_elem? ws i
  expected Popping.read ws i = get_elem? ws i

  -- What a call in progress knows of the queue.
  abbrev pub PushKnows : Pushing A → (sent bound : ℕ) → Type 0
  PushKnows (Pushing.write v) sent bound = sent < bound
  PushKnows (Pushing.publish v) sent bound = sent < bound
  PushKnows Pushing.idle sent bound = Unit
  PushKnows (Pushing.reload v) sent bound = Unit

  abbrev pub PopKnows : Popping A → List A → (got bound : ℕ) → Type 0
  PopKnows Popping.read q got bound = got < bound
  PopKnows (Popping.publish v) q got bound = (got < bound) × (get_elem? q 0 ≡ some v)
  PopKnows Popping.idle q got bound = Unit
  PopKnows Popping.reload q got bound = Unit

  -- `t` counts the values received so far, and `q` is the queue of the others that were sent.
  pub record Inv (k : ℕ) (s : System A) (t : ℕ) (q : List A) : Type 0 where
    pub shape : Shape k s.inner.capacity s.inner.mask
    pub seen_tail : ℕ
    pub seen_head : ℕ
    pub cursors :
        Cursors k s.inner.head s.inner.tail s.producer s.consumer t (length q) seen_tail seen_head
    pub push_knows : PushKnows s.pushing (t + length q) (seen_tail + 2 ^ k)
    pub pop_knows : PopKnows s.popping q t seen_head
    pub slots :
        (i : ℕ)
        → i < 2 ^ k
        → s.inner.buffer ((t + i) % 2 ^ k) ≡ expected s.popping (q ++ placed s.pushing) i

  pub get_elem?_snoc :
      (q : List A) (v : A) (i : ℕ)
      → get_elem? (q ++ (v ∷ [])) i ≡ (if i == length q then some v else get_elem? q i)
  get_elem?_snoc [] v zero = refl
  get_elem?_snoc [] v (suc i) = ground arith
  get_elem?_snoc (x ∷ q) v zero = ground arith
  get_elem?_snoc (x ∷ q) v (suc i) = ground (arith, get_elem?_snoc q v i)

  pub get_elem?_beyond : (q : List A) (i : ℕ) → length q ≤ i → get_elem? q i ≡ none
  get_elem?_beyond [] i h = refl
  get_elem?_beyond (x ∷ q) zero h = absurd (omega arith)
  get_elem?_beyond (x ∷ q) (suc i) h = get_elem?_beyond q i (omega arith)

-- The difference of two wrapped cursors is that of the cursors, while it is below the modulus.
pub wrapping_sub_near :
    (a c : ℕ) → c ≤ a → a < c + 2 ^ 64 → wrapping_sub (a % 2 ^ 64) (c % 2 ^ 64) ≡ a - c
wrapping_sub_near a c le near = omega arith

-- A wrapped cursor under the mask is the cursor's remainder by the capacity.
pub slot_of : (k a : ℕ) → k ≤ 63 → bit_and (a % 2 ^ 64) (2 ^ k - 1) ≡ a % 2 ^ k
slot_of k a small =
    let e : k + (64 - k) ≡ 64 = omega arith in
    bit_and_mask (a % 2 ^ 64) k ∙ ap (λ n. a % 2 ^ n % 2 ^ k) (sym e) ∙ mod-mod_pow a k (64 - k)
