-- ===== src/Book/Pieces.antt =====
-- The queues of one side of a book, one behind the other, as `all_resting_orders` walks them.
use velocity_match.Common.{
  ℕ, ℤ, ◌≡◌, refl, ◌⊎◌, inl, inr, Bool, true, false, List, [], ◌∷◌, ◌++◌, All, arith, ap, ap₂, ◌∙◌,
  sym, subst, append-nil, ◌<ℤ◌,
}
use velocity_match.Common.Map.{id_key}
use velocity_match.Order.{Side, ask, Order}
use velocity_match.Arena.Chain.{Cells, has, IsDistinct, has-append}
use velocity_match.Book.{OrderBook}
use velocity_match.Book.View.{View, In, IsBook, same_place}
use velocity_match.Book.Cells.{has-In, In-has, Place-cases, same_place_refl, IsLevelOf-IsDistinct}
use velocity_match.Book.Frame.{apart}
use velocity_match.Book.Listing.{orders, Ascending, Among}
use velocity_match.Book.Placed.{
  cells_of, cells_rev, orders-append, placed, placed-append, placed_all, placed_none, Stands,
  In-cells_of, In-cells_rev,
}

pub IsDistinct-join :
    (xs ys : Cells)
    → IsDistinct xs
    → IsDistinct ys
    → ((a : ℕ) → has a xs ≡ true → has a ys ≡ false)
    → IsDistinct (xs ++ ys)
IsDistinct-join [] ys d e off = e
IsDistinct-join ((i, o) ∷ xs) ys d e off = (
  ground (arith, has-append i xs ys, off i),
  IsDistinct-join xs ys d.1 e (λ a h. off a (ground arith)),
)

pub off_by : (b : Bool) → (b ≡ true → ⊥) → b ≡ false
off_by true h = absurd (h refl)
off_by false h = refl

Among-above : (x p : ℤ) (ps : List ℤ) → All (λ y. x <ℤ y) ps → Among p ps → x <ℤ p
Among-above x p [] a h = elim h [ ]
Among-above x p (y ∷ ps) a (inl e) = subst (λ z. x <ℤ z) (sym e) a.0
Among-above x p (y ∷ ps) a (inr h) = Among-above x p ps a.1 h

less_ne : (x p : ℤ) → x <ℤ p → p ≡ x → ⊥
less_ne x p h e = irrefl (subst (λ z. x <ℤ z) e h)
  where
    irrefl : x <ℤ x → ⊥
    irrefl h = omega arith

module _ {b : OrderBook} {v : View} (is : IsBook b v) where
  -- Nodes of two places are apart.
  pub no_shared :
      (s t : Side) (p : ℤ) (ps : List ℤ) (a : ℕ) (o : Order)
      → ((r : ℤ) → Among r ps → same_place s p t r ≡ false)
      → has a (v.queue s p) ≡ true
      → Stands (v.queue t) ps (a, o)
      → ⊥
  no_shared s t p ps a o off h st = never (
      sym (has-In (a, o) (v.queue t st.price) st.within)
      ∙ apart is.nodes s p t st.price a (off st.price st.among) h)
    where
      never : true ≡ false → ⊥
      never e = cc

  other_price : (s : Side) (x r : ℤ) → x <ℤ r → same_place s x s r ≡ false
  other_price s x r less = elim (Place-cases s x s r) [
    | inr off ↦ off
    | inl (_, _, e) ↦ absurd (less_ne x r less (sym e))
  ]

  queue-IsDistinct : (s : Side) (p : ℤ) → IsDistinct (v.queue s p)
  queue-IsDistinct s p = IsLevelOf-IsDistinct _ _ _ (is.level s p)

  pub cells_of-IsDistinct :
      (s : Side) (ps : List ℤ) → Ascending ps → IsDistinct (cells_of (v.queue s) ps)
  cells_of-IsDistinct s [] a = tt
  cells_of-IsDistinct s (p ∷ ps) a =
      IsDistinct-join (v.queue s p) (cells_of (v.queue s) ps) (queue-IsDistinct s p)
        (cells_of-IsDistinct s ps a.1)
        λ i h. off_by _ λ k.
          let (o, within) = In-has i (cells_of (v.queue s) ps) k in
          no_shared s s p ps i o (λ r m. other_price s p r (Among-above p r ps a.0 m)) h
            (In-cells_of (v.queue s) ps (i, o) within)

  pub cells_rev-IsDistinct :
      (s : Side) (ps : List ℤ) → Ascending ps → IsDistinct (cells_rev (v.queue s) ps)
  cells_rev-IsDistinct s [] a = tt
  cells_rev-IsDistinct s (p ∷ ps) a =
      IsDistinct-join (cells_rev (v.queue s) ps) (v.queue s p) (cells_rev-IsDistinct s ps a.1)
        (queue-IsDistinct s p)
        λ i h. off_by _ λ k.
          let (o, within) = In-has i (cells_rev (v.queue s) ps) h in
          no_shared s s p ps i o (λ r m. other_price s p r (Among-above p r ps a.0 m)) k
            (In-cells_rev (v.queue s) ps (i, o) within)

  -- A resting order's own side and price are those of its queue.
  own_place :
      (s t : Side) (p r : ℤ) (c : ℕ × Order)
      → In c (v.queue t r)
      → same_place s p c.1.side c.1.price ≡ same_place s p t r
  own_place s t p r c h =
      let k = is.nodes.cells t r c h in ap₂ (λ x y. same_place s p x y) k.side_is k.price_is

  pub placed_off :
      (s t : Side) (p : ℤ) (ps : List ℤ) (xs : Cells)
      → ((c : ℕ × Order) → In c xs → Stands (v.queue t) ps c)
      → ((r : ℤ) → Among r ps → same_place s p t r ≡ false)
      → placed s p (orders xs) ≡ []
  placed_off s t p ps xs stands off =
      placed_none s p xs
        λ c h. let st = stands c h in own_place s t p st.price c st.within ∙ off st.price st.among

  pub elsewhere :
      (s : Side) (p : ℤ) (ps : List ℤ)
      → (Among p ps → ⊥)
      → (r : ℤ) → Among r ps
      → same_place s p s r ≡ false
  elsewhere s p ps h r m = elim (Place-cases s p s r) [
    | inr off ↦ off
    | inl (_, _, e) ↦ absurd (h (subst (λ z. Among z ps) (sym e) m))
  ]

  placed_queue : (s : Side) (p : ℤ) → placed s p (orders (v.queue s p)) ≡ orders (v.queue s p)
  placed_queue s p = placed_all s p (v.queue s p) λ c h. own_place s s p p c h ∙ same_place_refl s p

  absent : (x : ℤ) (ps : List ℤ) → All (λ y. x <ℤ y) ps → Among x ps → ⊥
  absent x ps a m = less_ne x x (Among-above x x ps a m) refl

  pub placed-cells_of :
      (s : Side) (p : ℤ) (ps : List ℤ)
      → Ascending ps
      → Among p ps
      → placed s p (orders (cells_of (v.queue s) ps)) ≡ orders (v.queue s p)
  placed-cells_of s p [] a m = elim m [ ]
  placed-cells_of s p (x ∷ ps) a (inl e) =
      ap (λ l. placed s p l) (orders-append (v.queue s x) (cells_of (v.queue s) ps))
      ∙ placed-append s p (orders (v.queue s x)) (orders (cells_of (v.queue s) ps))
      ∙ ap₂ (λ l m. l ++ m) (ap (λ z. placed s p (orders (v.queue s z))) (sym e) ∙ placed_queue s p)
          (placed_off s s p ps _ (In-cells_of (v.queue s) ps)
            (elsewhere s p ps (λ m. absent x ps a.0 (subst (λ z. Among z ps) e m))))
      ∙ append-nil (orders (v.queue s p))
  placed-cells_of s p (x ∷ ps) a (inr m) =
      ap (λ l. placed s p l) (orders-append (v.queue s x) (cells_of (v.queue s) ps))
      ∙ placed-append s p (orders (v.queue s x)) (orders (cells_of (v.queue s) ps))
      ∙ ap₂ (λ l m. l ++ m) (placed_none s p (v.queue s x) (λ c h. own_place s s p x c h ∙ behind))
          (placed-cells_of s p ps a.1 m)
    where
      behind : same_place s p s x ≡ false
      behind = elim (Place-cases s p s x) [
        | inr off ↦ off
        | inl (_, _, e) ↦ absurd (less_ne x p (Among-above x p ps a.0 m) e)
      ]

  pub placed-cells_rev :
      (s : Side) (p : ℤ) (ps : List ℤ)
      → Ascending ps
      → Among p ps
      → placed s p (orders (cells_rev (v.queue s) ps)) ≡ orders (v.queue s p)
  placed-cells_rev s p [] a m = elim m [ ]
  placed-cells_rev s p (x ∷ ps) a (inl e) =
      ap (λ l. placed s p l) (orders-append (cells_rev (v.queue s) ps) (v.queue s x))
      ∙ placed-append s p (orders (cells_rev (v.queue s) ps)) (orders (v.queue s x))
      ∙ ap₂ (λ l m. l ++ m)
          (placed_off s s p ps _ (In-cells_rev (v.queue s) ps)
            (elsewhere s p ps (λ m. absent x ps a.0 (subst (λ z. Among z ps) e m))))
          (ap (λ z. placed s p (orders (v.queue s z))) (sym e) ∙ placed_queue s p)
  placed-cells_rev s p (x ∷ ps) a (inr m) =
      ap (λ l. placed s p l) (orders-append (cells_rev (v.queue s) ps) (v.queue s x))
      ∙ placed-append s p (orders (cells_rev (v.queue s) ps)) (orders (v.queue s x))
      ∙ ap₂ (λ l m. l ++ m) (placed-cells_rev s p ps a.1 m)
          (placed_none s p (v.queue s x) (λ c h. own_place s s p x c h ∙ behind))
      ∙ append-nil (orders (v.queue s p))
    where
      behind : same_place s p s x ≡ false
      behind = elim (Place-cases s p s x) [
        | inr off ↦ off
        | inl (_, _, e) ↦ absurd (less_ne x p (Among-above x p ps a.0 m) e)
      ]

  pub Among-cases : (p : ℤ) (ps : List ℤ) → Among p ps ⊎ (Among p ps → ⊥)
  Among-cases p [] = inr (λ m. m)
  Among-cases p (x ∷ ps) = elim (Place-cases ask p ask x) [
    | inl (_, _, e) ↦ inl (inl e)
    | inr off ↦ elim (Among-cases p ps) [
      | inl m ↦ inl (inr m)
      | inr none_there ↦ inr λ m. elim m [
        | inl e ↦ never (sym (same_place_refl ask p) ∙ ap (λ z. same_place ask p ask z) e ∙ off)
        | inr k ↦ none_there k
      ]
    ]
  ]
    where
      never : true ≡ false → ⊥
      never e = cc
