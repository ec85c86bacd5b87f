-- ===== src/Book/Cells.antt =====
-- Cells of queues, places, and the places' queues after one of them is replaced.
use velocity_match.Common.{
  ℕ, ℤ, ◌≡◌, refl, ◌≢◌, ◌⊎◌, inl, inr, true, false, Option, none, some, [], ◌∷◌, ◌++◌, arith,
  eqb_ℤ_iff, ◌==◌, ==_iff, Bool-cases, ap, sym, subst,
}
use velocity_match.Order.{Side, bid, ask, Order}
use velocity_match.Arena.{Storage, PriceLevel, empty_level}
use velocity_match.Arena.Chain.{Cells, has, IsDistinct, Chain-frame, has-append}
use velocity_match.Arena.Level.{IsLevel}
use velocity_match.Book.View.{In, same_place, set_queue, Queues, IsLevelOf}

pub In-left : (c : ℕ × Order) (xs ys : Cells) → In c xs → In c (xs ++ ys)
In-left c [] ys h = elim h [ ]
In-left c (x ∷ xs) ys (inl e) = inl e
In-left c (x ∷ xs) ys (inr h) = inr (In-left c xs ys h)

pub In-right : (c : ℕ × Order) (xs ys : Cells) → In c ys → In c (xs ++ ys)
In-right c [] ys h = h
In-right c (x ∷ xs) ys h = inr (In-right c xs ys h)

pub In-append : (c : ℕ × Order) (xs ys : Cells) → In c (xs ++ ys) → In c xs ⊎ In c ys
In-append c [] ys h = inr h
In-append c (x ∷ xs) ys (inl e) = inl (inl e)
In-append c (x ∷ xs) ys (inr h) = elim (In-append c xs ys h) [ inl l ↦ inl (inr l) | inr r ↦ inr r ]

pub has-In : (c : ℕ × Order) (xs : Cells) → In c xs → has c.0 xs ≡ true
has-In c [] h = elim h [ ]
has-In c (x ∷ xs) (inl e) = ground (arith, ap (λ (d : ℕ × Order). d.0) e)
has-In c (x ∷ xs) (inr h) = ground (arith, has-In c xs h)

pub In-has : (a : ℕ) (xs : Cells) → has a xs ≡ true → (o : Order) × In (a, o) xs
In-has a [] h = cc
In-has a ((i, o) ∷ xs) h = elim (Bool-cases (a == i)) [
  | inl e ↦ (o, inl (ap (λ (j : ℕ). (j, o)) ((==_iff a i).0 e)))
  | inr e ↦ (let (u, k) = In-has a xs (rest e) in (u, inr k))
]
  where
    rest : (a == i) ≡ false → has a xs ≡ true
    rest e = ground arith

-- A cell of a queue splits it in two.
pub record Split (c : ℕ × Order) (xs : Cells) : Type 0 where
  pub before : Cells
  pub after : Cells
  pub whole : xs ≡ before ++ (c ∷ after)

pub In-Split : (c : ℕ × Order) (xs : Cells) → In c xs → Split c xs
In-Split c [] h = elim h [ ]
In-Split c (x ∷ xs) (inl e) = record { before = []; after = xs; whole = ap (λ d. d ∷ xs) (sym e) }
In-Split c (x ∷ xs) (inr h) =
    let s = In-Split c xs h in
    record { before = x ∷ s.before; after = s.after; whole = ap (λ l. x ∷ l) s.whole }

pub In-drop : (c d : ℕ × Order) (xs ys : Cells) → In c (xs ++ (d ∷ ys)) → c ≢ d → In c (xs ++ ys)
In-drop c d xs ys h ne = elim (In-append c xs (d ∷ ys) h) [
  | inl l ↦ In-left c xs ys l
  | inr (inl e) ↦ absurd (ne e)
  | inr (inr r) ↦ In-right c xs ys r
]

pub In-undrop : (c d : ℕ × Order) (xs ys : Cells) → In c (xs ++ ys) → In c (xs ++ (d ∷ ys))
In-undrop c d xs ys h = elim (In-append c xs ys h) [
  | inl l ↦ In-left c xs (d ∷ ys) l
  | inr r ↦ In-right c xs (d ∷ ys) (inr r)
]

pub snoc_ne_nil : (xs : Cells) (c : ℕ × Order) → xs ++ (c ∷ []) ≢ []
snoc_ne_nil [] c e = cc
snoc_ne_nil (x ∷ xs) c e = cc

pub has_snoc :
    (a : ℕ) (xs : Cells) (i : ℕ) (o : Order)
    → has a xs ≡ false
    → (a == i) ≡ false
    → has a (xs ++ ((i, o) ∷ [])) ≡ false
has_snoc a xs i o h e = ground (arith, has-append a xs ((i, o) ∷ []))

pub same_place_iff :
    (s : Side) (p : ℤ) (side : Side) (price : ℤ)
    → same_place s p side price ≡ true
    → (s ≡ side) × (p ≡ price)
same_place_iff bid p bid price h = (refl, (eqb_ℤ_iff p price).0 h)
same_place_iff ask p ask price h = (refl, (eqb_ℤ_iff p price).0 h)
same_place_iff bid p ask price h = cc
same_place_iff ask p bid price h = cc

pub same_place_refl : (s : Side) (p : ℤ) → same_place s p s p ≡ true
same_place_refl bid p = (eqb_ℤ_iff p p).1 refl
same_place_refl ask p = (eqb_ℤ_iff p p).1 refl

pub Place-cases :
    (s : Side) (p : ℤ) (side : Side) (price : ℤ)
    → ((same_place s p side price ≡ true) × (s ≡ side) × (p ≡ price))
      ⊎ (same_place s p side price ≡ false)
Place-cases s p side price = elim (Bool-cases (same_place s p side price)) [
  | inl e ↦ (let (es, ep) = same_place_iff s p side price e in inl (e, es, ep))
  | inr e ↦ inr e
]

pub set_queue_self :
    (q : Queues) (side : Side) (price : ℤ) (xs : Cells) → set_queue q side price xs side price ≡ xs
set_queue_self q side price xs = rw (same_place_refl side price)

pub IsLevel-frame :
    (s t : Storage) (l : PriceLevel) (xs : Cells)
    → ((a : ℕ) → has a xs ≡ true → t a ≡ s a)
    → IsLevel s l xs
    → IsLevel t l xs
IsLevel-frame s t l xs same v = record {
  head = v.head;
  tail = v.tail;
  chain = Chain-frame s t _ xs _ same v.chain;
  distinct = v.distinct;
  no_null = v.no_null;
  count = v.count;
  qty = v.qty;
}

pub IsLevelOf_frame :
    (s t : Storage) (o : Option PriceLevel) (xs : Cells)
    → ((a : ℕ) → has a xs ≡ true → t a ≡ s a)
    → IsLevelOf s o xs
    → IsLevelOf t o xs
IsLevelOf_frame s t none xs same e = e
IsLevelOf_frame s t (some l) xs same (v, ne) = (IsLevel-frame s t l xs same v, ne)

pub IsLevelOf-IsDistinct :
    (s : Storage) (o : Option PriceLevel) (xs : Cells) → IsLevelOf s o xs → IsDistinct xs
IsLevelOf-IsDistinct s none xs e = rw e tt
IsLevelOf-IsDistinct s (some l) xs (v, ne) = v.distinct

-- What `entry(price).or_insert_with(PriceLevel::new)` finds stands for the queue.
pub IsLevelOf_or_new :
    (s : Storage) (o : Option PriceLevel) (xs : Cells)
    → IsLevelOf s o xs
    → IsLevel s (elim o [ none ↦ empty_level | some l ↦ l ]) xs
IsLevelOf_or_new s none xs e = subst (IsLevel s empty_level) (sym e) (record {
  head = refl;
  tail = refl;
  chain = tt;
  distinct = tt;
  no_null = refl;
  count = refl;
  qty = refl;
})
IsLevelOf_or_new s (some l) xs (v, ne) = v
