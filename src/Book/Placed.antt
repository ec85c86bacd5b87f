-- ===== src/Book/Placed.antt =====
-- The cells of the queues of some prices, and the orders of one side and price in a list.
use velocity_match.Common.{
  ℕ, ℤ, ◌≡◌, refl, inl, inr, true, false, Bool-cases, List, [], ◌∷◌, ◌++◌, ap, ◌∙◌, if◌then◌else◌,
}
use velocity_match.Common.Map.{id_key}
use velocity_match.Order.{Side, Order}
use velocity_match.Arena.Chain.{Cells}
use velocity_match.Book.View.{In, same_place}
use velocity_match.Book.Cells.{In-append}
use velocity_match.Book.Listing.{orders, listed, listed_rev, Among}

abbrev pub cells_of : (ℤ → Cells) → List ℤ → Cells
cells_of q [] = []
cells_of q (p ∷ ps) = q p ++ cells_of q ps

abbrev pub cells_rev : (ℤ → Cells) → List ℤ → Cells
cells_rev q [] = []
cells_rev q (p ∷ ps) = cells_rev q ps ++ q p

pub orders-append : (xs ys : Cells) → orders (xs ++ ys) ≡ orders xs ++ orders ys
orders-append [] ys = refl
orders-append ((i, o) ∷ xs) ys = ap (λ l. o ∷ l) (orders-append xs ys)

pub orders-cells_of : (q : ℤ → Cells) (ps : List ℤ) → orders (cells_of q ps) ≡ listed q ps
orders-cells_of q [] = refl
orders-cells_of q (p ∷ ps) =
    orders-append (q p) (cells_of q ps) ∙ ap (λ l. orders (q p) ++ l) (orders-cells_of q ps)

pub orders-cells_rev : (q : ℤ → Cells) (ps : List ℤ) → orders (cells_rev q ps) ≡ listed_rev q ps
orders-cells_rev q [] = refl
orders-cells_rev q (p ∷ ps) =
    orders-append (cells_rev q ps) (q p) ∙ ap (λ l. l ++ orders (q p)) (orders-cells_rev q ps)

-- The orders of one side and price.
abbrev pub placed : Side → ℤ → List Order → List Order
placed s p [] = []
placed s p (o ∷ os) = if same_place s p o.side o.price then o ∷ placed s p os else placed s p os

pub placed-append :
    (s : Side) (p : ℤ) (os us : List Order) → placed s p (os ++ us) ≡ placed s p os ++ placed s p us
placed-append s p [] us = refl
placed-append s p (o ∷ os) us = elim (Bool-cases (same_place s p o.side o.price)) [
  | inl at ↦ rw at (ap (λ l. o ∷ l) (placed-append s p os us))
  | inr off ↦ rw off (placed-append s p os us)
]

pub placed_all :
    (s : Side) (p : ℤ) (xs : Cells)
    → ((c : ℕ × Order) → In c xs → same_place s p c.1.side c.1.price ≡ true)
    → placed s p (orders xs) ≡ orders xs
placed_all s p [] at = refl
placed_all s p ((i, o) ∷ xs) at =
    rw (at (i, o) (inl refl)) (ap (λ l. o ∷ l) (placed_all s p xs (λ c h. at c (inr h))))

pub placed_none :
    (s : Side) (p : ℤ) (xs : Cells)
    → ((c : ℕ × Order) → In c xs → same_place s p c.1.side c.1.price ≡ false)
    → placed s p (orders xs) ≡ []
placed_none s p [] off = refl
placed_none s p ((i, o) ∷ xs) off =
    rw (off (i, o) (inl refl)) (placed_none s p xs (λ c h. off c (inr h)))

-- A cell that stands in the queue of one of some prices.
pub record Stands (q : ℤ → Cells) (ps : List ℤ) (c : ℕ × Order) : Type 0 where
  pub price : ℤ
  pub among : Among price ps
  pub within : In c (q price)

later_price :
    (q : ℤ → Cells) (p : ℤ) (ps : List ℤ) (c : ℕ × Order) → Stands q ps c → Stands q (p ∷ ps) c
later_price q p ps c s = record { price = s.price; among = inr s.among; within = s.within }

pub In-cells_of :
    (q : ℤ → Cells) (ps : List ℤ) (c : ℕ × Order) → In c (cells_of q ps) → Stands q ps c
In-cells_of q [] c h = elim h [ ]
In-cells_of q (p ∷ ps) c h = elim (In-append c (q p) (cells_of q ps) h) [
  | inl here ↦ record { price = p; among = inl refl; within = here }
  | inr there ↦ later_price q p ps c (In-cells_of q ps c there)
]

pub In-cells_rev :
    (q : ℤ → Cells) (ps : List ℤ) (c : ℕ × Order) → In c (cells_rev q ps) → Stands q ps c
In-cells_rev q [] c h = elim h [ ]
In-cells_rev q (p ∷ ps) c h = elim (In-append c (cells_rev q ps) (q p) h) [
  | inr here ↦ record { price = p; among = inl refl; within = here }
  | inl there ↦ later_price q p ps c (In-cells_rev q ps c there)
]
