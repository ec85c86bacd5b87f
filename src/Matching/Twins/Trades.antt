-- ===== src/Matching/Twins/Trades.antt =====
-- On alike books, orders that look the same trade the same.
use velocity_match.Common.{
  ℕ, ℤ, ◌-◌, ◌≡◌, refl, ◌≢◌, inl, inr, Bool, true, Bool-cases, List, [], ◌∷◌, arith, ap, ap₂, ◌∙◌,
  sym, subst, ◌==◌, eq_of_parts, min, suc,
}
use velocity_match.Order.{Side, bid, ask, Order}
use velocity_match.Arena.{arena_null}
use velocity_match.Arena.Chain.{Cells, node, head_or}
use velocity_match.Book.View.{View}
use velocity_match.Book.Partial.{reduced}
use velocity_match.Matching.{Fill, fill_of, crosses, opposite}
use velocity_match.Matching.Trades.{
  Trades, exhausted, uncrossed, self_trade, trade, AsGood, Meets, filled,
}
use velocity_match.Matching.Twins.{
  face, faces, Alike, faces_nil, faces_ne, faces_front, faces_rest, set_queue-faces,
}

AsGood-antisym : (s : Side) (p q : ℤ) → AsGood s p q → AsGood s q p → p ≡ q
AsGood-antisym bid p q a b = eq_of_parts p q (omega arith)
AsGood-antisym ask p q a b = eq_of_parts p q (omega arith)

-- The fronts that two takers meet.
record SameFront (o u : Order) (ys zs : Cells) : Type 0 where
  maker : face o ≡ face u
  behind : faces ys ≡ faces zs

-- The two runs make the same fills, and leave alike books and the same rest.
pub record SameEnd (fills fills' : List Fill) (v w : View) (left left' : Order) (flag flag' : Bool)
    : Type 0 where
  pub fills_same : fills ≡ fills'
  pub alike : Alike v w
  pub left_same : face left ≡ face left'
  pub flag_same : flag ≡ flag'

module _ (v w : View) (order order' : Order) (a : Alike v w) (e : face order ≡ face order') where
  side_same : order.side ≡ order'.side
  side_same = ap (λ (x : Order). x.side) e

  Meets-SameFront :
      (o u : Order) (i j : ℕ) (ys zs : Cells)
      → Meets v order o i ys
      → Meets w order' u j zs
      → SameFront o u ys zs
  Meets-SameFront o u i j ys zs m n = record {
    maker = faces_front i j o u ys zs fronts;
    behind = faces_rest i j o u ys zs fronts;
  }
    where
      side_is : o.side ≡ u.side
      side_is = sym m.side_is ∙ ap opposite side_same ∙ n.side_is

      there : v.queue o.side u.price ≢ []
      there =
          faces_ne _ _ (sym (a.same o.side u.price ∙ ap (λ s. faces (w.queue s u.price)) side_is))
            n.best_is.there

      there' : w.queue u.side o.price ≢ []
      there' =
          faces_ne _ _ (a.same o.side o.price ∙ ap (λ s. faces (w.queue s o.price)) side_is)
            m.best_is.there

      price_is : o.price ≡ u.price
      price_is = AsGood-antisym o.side o.price u.price (m.best_is.none_better u.price there) (
          subst (λ s. AsGood s u.price o.price) (sym side_is)
            (n.best_is.none_better o.price there'))

      fronts : faces ((i, o) ∷ ys) ≡ faces ((j, u) ∷ zs)
      fronts =
          ap faces (sym m.front)
          ∙ a.same o.side o.price
          ∙ ap₂ (λ s p. faces (w.queue s p)) side_is price_is
          ∙ ap faces n.front

  -- An order that meets a front within its limit is not uncrossed on an alike book.
  not_uncrossed :
      (o : Order) (i : ℕ) (ys : Cells)
      → Meets v order o i ys
      → ((p : ℤ)
          → crosses order'.side order'.price p ≡ true
          → w.queue (opposite order'.side) p ≡ [])
      → ⊥
  not_uncrossed o i ys m h = m.best_is.there (
      faces_nil _ _
        (sym (
          a.same o.side o.price
          ∙ ap (λ s. faces (w.queue s o.price)) (sym m.side_is ∙ ap opposite side_same)))
        (h o.price (
          ap₂ (λ s p. crosses s p o.price) (sym side_same) (ap (λ (x : Order). x.price) (sym e))
          ∙ m.crossed)))

  filled-Alike :
      (o u : Order) (i j fill : ℕ) (ys zs : Cells)
      → SameFront o u ys zs
      → Alike (filled v o i fill ys) (filled w u j fill zs)
  filled-Alike o u i j fill ys zs f = elim (Bool-cases (fill == o.quantity)) [
    | inl whole ↦
        rw (whole, sym (ap (λ n. fill == n) quantity_is) ∙ whole)
          (record {
            same =
                set_queue-faces v.queue w.queue o.side u.side o.price u.price ys zs a.same side_is
                  price_is f.behind;
            room = ap suc a.room;
          })
    | inr part ↦
        rw (part, sym (ap (λ n. fill == n) quantity_is) ∙ part)
          (record {
            same =
                set_queue-faces v.queue w.queue o.side u.side o.price u.price
                  ((i, reduced o fill) ∷ ys) ((j, reduced u fill) ∷ zs) a.same side_is price_is
                  (ap₂ (λ x l. reduced x fill ∷ l) f.maker f.behind);
            room = a.room;
          })
  ]
    where
      side_is : o.side ≡ u.side
      side_is = ap (λ (x : Order). x.side) f.maker

      price_is : o.price ≡ u.price
      price_is = ap (λ (x : Order). x.price) f.maker

      quantity_is : o.quantity ≡ u.quantity
      quantity_is = ap (λ (x : Order). x.quantity) f.maker

same_fill :
    (order order' o u : Order) (d d' fill fill' : ℕ)
    → face order ≡ face order'
    → face o ≡ face u
    → fill ≡ fill'
    → fill_of order (node o arena_null d) fill (o.quantity - fill)
      ≡ fill_of order' (node u arena_null d') fill' (u.quantity - fill')
same_fill order order' o u d d' fill fill' e f n =
    ap₂ (λ a b. fill_of a (node b arena_null d) fill (b.quantity - fill)) e f
    ∙ ap (λ k. fill_of order' (node u arena_null d) k (u.quantity - k)) n

own_trader :
    (v w : View) (order order' o u : Order) (i j : ℕ) (ys zs : Cells)
    → Alike v w
    → face order ≡ face order'
    → Meets v order o i ys
    → Meets w order' u j zs
    → o.trader_id ≡ u.trader_id
own_trader v w order order' o u i j ys zs a e m m' =
    ap (λ (x : Order). x.trader_id) (Meets-SameFront v w order order' a e o u i j ys zs m m').maker

pub Alike-sym : {v w : View} → Alike v w → Alike w v
Alike-sym a = record { same = λ s p. sym (a.same s p); room = sym a.room }

pub Trades-SameEnd :
    {v w : View} {order order' : Order} {fills fills' : List Fill} {v' w' : View}
    {left left' : Order} {flag flag' : Bool}
    → Alike v w
    → face order ≡ face order'
    → Trades v order fills v' left flag
    → Trades w order' fills' w' left' flag'
    → SameEnd fills fills' v' w' left left' flag flag'
Trades-SameEnd a e (exhausted h) (exhausted k) = record {
  fills_same = refl;
  alike = a;
  left_same = e;
  flag_same = refl;
}
Trades-SameEnd a e (exhausted h) (uncrossed k) = record {
  fills_same = refl;
  alike = a;
  left_same = e;
  flag_same = refl;
}
Trades-SameEnd a e (uncrossed h) (exhausted k) = record {
  fills_same = refl;
  alike = a;
  left_same = e;
  flag_same = refl;
}
Trades-SameEnd a e (uncrossed h) (uncrossed k) = record {
  fills_same = refl;
  alike = a;
  left_same = e;
  flag_same = refl;
}
Trades-SameEnd a e (exhausted h) (self_trade o i ys ne m own) =
    absurd (ne (ap (λ x. x.quantity) (sym e) ∙ h))
Trades-SameEnd a e (exhausted h) (trade o i ys fill ne pos m other is rest) =
    absurd (ne (ap (λ x. x.quantity) (sym e) ∙ h))
Trades-SameEnd a e (self_trade o i ys ne m own) (exhausted k) =
    absurd (ne (ap (λ x. x.quantity) e ∙ k))
Trades-SameEnd a e (trade o i ys fill ne pos m other is rest) (exhausted k) =
    absurd (ne (ap (λ x. x.quantity) e ∙ k))
Trades-SameEnd {v} {w} {order} {order'} a e (uncrossed h) (self_trade o i ys ne m own) =
    absurd (not_uncrossed w v order' order (Alike-sym a) (sym e) o i ys m h)
Trades-SameEnd {v} {w} {order} {order'} a e (uncrossed h)
      (trade o i ys fill ne pos m other is rest) =
    absurd (not_uncrossed w v order' order (Alike-sym a) (sym e) o i ys m h)
Trades-SameEnd {v} {w} {order} {order'} a e (self_trade o i ys ne m own) (uncrossed k) =
    absurd (not_uncrossed v w order order' a e o i ys m k)
Trades-SameEnd {v} {w} {order} {order'} a e (trade o i ys fill ne pos m other is rest)
      (uncrossed k) =
    absurd (not_uncrossed v w order order' a e o i ys m k)
Trades-SameEnd a e (self_trade o i ys ne m own) (self_trade u j zs ne' m' own') = record {
  fills_same = refl;
  alike = a;
  left_same = e;
  flag_same = refl;
}
Trades-SameEnd {v} {w} {order} {order'} a e (self_trade o i ys ne m own)
      (trade u j zs fill ne' pos m' other is rest) =
    absurd (
      other
        (sym (own_trader v w order order' o u i j ys zs a e m m') ∙ own ∙ ap (λ x. x.trader_id) e))
Trades-SameEnd {v} {w} {order} {order'} a e (trade o i ys fill ne pos m other is rest)
      (self_trade u j zs ne' m' own') =
    absurd (
      other
        (own_trader v w order order' o u i j ys zs a e m m' ∙ own' ∙ sym (ap (λ x. x.trader_id) e)))
Trades-SameEnd {v} {w} {order} {order'} a e (trade o i ys fill ne pos m other is rest)
      (trade u j zs fill' ne' pos' m' other' is' rest') =
    let f = Meets-SameFront v w order order' a e o u i j ys zs m m' in
    let n : fill ≡ fill' =
      is ∙ ap₂ (λ x y. min x y) (ap (λ x. x.quantity) e) (ap (λ x. x.quantity) f.maker) ∙ sym is' in
    let r =
      Trades-SameEnd
        (subst (λ k. Alike (filled v o i fill ys) (filled w u j k zs)) n
          (filled-Alike v w order order' a e o u i j fill ys zs f))
        (ap₂ (λ x k. reduced x k) e n) rest rest' in
    record {
      fills_same =
          ap₂ (λ x l. x ∷ l)
            (same_fill order order' o u (head_or arena_null ys) (head_or arena_null zs) fill fill' e
              f.maker n)
            r.fills_same;
      alike = r.alike;
      left_same = r.left_same;
      flag_same = r.flag_same;
    }
