-- ===== src/Book/Place.antt =====
-- The view with one more order, and the cells of its queues.
use velocity_match.Common.{
  ℕ, ℤ, ◌≡◌, refl, ◌⊎◌, inl, inr, true, false, some, List, [], ◌∷◌, ◌++◌, arith, ◌==◌, ==_iff,
  if◌then◌else◌, Bool-cases, sym, ◌∙◌, subst, subst₂,
}
use velocity_match.Common.Map.{id_key, price_key, Map, lookup, insert}
use velocity_match.Common.Map.Laws.{lookup-insert}
use velocity_match.Order.{Side, Order}
use velocity_match.Arena.Chain.{Cells, has, has-append}
use velocity_match.Book.View.{View, In, set_queue, set_owner}
use velocity_match.Book.Cells.{Place-cases, same_place_refl, In-left, In-right, In-append}

-- The view with `order` at the end of its queue, in the node `i`.
abbrev pub with_order : View → Order → ℕ → List ℕ → View
with_order v order i rest = record {
  queue =
      set_queue v.queue order.side order.price
        (v.queue order.side order.price ++ ((i, order) ∷ []));
  free = rest;
  owner = set_owner v.owner i (some (order.side, order.price));
}

-- A cell of the queues with `order` is the new one or an old one.
pub In-with_order :
    (v : View) (order : Order) (i : ℕ) (rest : List ℕ) (s : Side) (p : ℤ) (c : ℕ × Order)
    → In c ((with_order v order i rest).queue s p)
    → ((c ≡ (i, order)) × (s ≡ order.side) × (p ≡ order.price)) ⊎ In c (v.queue s p)
In-with_order v order i rest s p c h = elim (Place-cases s p order.side order.price) [
  | inr e ↦ inr (rw e at h)
  | inl (e, es, ep) ↦
      elim (In-append c (v.queue order.side order.price) ((i, order) ∷ []) (rw e at h)) [
        | inl old ↦ inr (rw (es, ep) old)
        | inr (inl new) ↦ inl (new, es, ep)
        | inr (inr f) ↦ absurd f
      ]
]

pub In-new :
    (v : View) (order : Order) (i : ℕ) (rest : List ℕ)
    → In (i, order) ((with_order v order i rest).queue order.side order.price)
In-new v order i rest =
    rw (same_place_refl order.side order.price)
      (In-right (i, order) (v.queue order.side order.price) ((i, order) ∷ []) (inl refl))

pub In-old :
    (v : View) (order : Order) (i : ℕ) (rest : List ℕ) (s : Side) (p : ℤ) (c : ℕ × Order)
    → In c (v.queue s p)
    → In c ((with_order v order i rest).queue s p)
In-old v order i rest s p c h = elim (Place-cases s p order.side order.price) [
  | inr e ↦ rw e h
  | inl (e, es, ep) ↦
      rw e
        (In-left c (v.queue order.side order.price) _ (subst₂ (λ x y. In c (v.queue x y)) es ep h))
]

pub lookup-insert_cases :
    (id k i j : ℕ) (m : Map ℕ ℕ)
    → lookup id (insert k i m) ≡ some j
    → ((id ≡ k) × (i ≡ j)) ⊎ (lookup id m ≡ some j)
lookup-insert_cases id k i j m h = elim (Bool-cases (id == k)) [
  | inl e ↦ inl (
    (==_iff id k).0 e,
    some_injective (subst (λ c. (if c then some i else lookup id m) ≡ some j) e at_key),
  )
  | inr e ↦ inr (subst (λ c. (if c then some i else lookup id m) ≡ some j) e at_key)
]
  where
    at_key : (if id == k then some i else lookup id m) ≡ some j
    at_key = sym (lookup-insert id k i m) ∙ h

    some_injective : some i ≡ some j → i ≡ j
    some_injective e = cc

pub has-with_order :
    (v : View) (order : Order) (i : ℕ) (rest : List ℕ) (s : Side) (p : ℤ) (a : ℕ)
    → has a ((with_order v order i rest).queue s p) ≡ true
    → (((a == i) ≡ true) × (s ≡ order.side) × (p ≡ order.price)) ⊎ (has a (v.queue s p) ≡ true)
has-with_order v order i rest s p a h = elim (Place-cases s p order.side order.price) [
  | inr e ↦ inr (rw e at h)
  | inl (e, es, ep) ↦ elim (Bool-cases (a == i)) [
    | inl new ↦ inl (new, es, ep)
    | inr old ↦ inr (rw (es, ep) (earlier (v.queue order.side order.price) (rw e at h) old))
  ]
]
  where
    earlier :
        (xs : Cells) → has a (xs ++ ((i, order) ∷ [])) ≡ true → (a == i) ≡ false → has a xs ≡ true
    earlier xs h old = ground (arith, has-append a xs ((i, order) ∷ []))
