-- ===== src/Matching/Best.antt =====
-- What the cached best price says of the queues, and the order that a taker meets there.
use velocity_match.Common.{
  ℕ, ℤ, ◌<◌, ◌≡◌, refl, ◌≢◌, ◌⊎◌, inl, inr, true, false, Option, none, some, [], ◌∷◌, arith, sym,
  ◌∙◌, subst, subst₂, ltb_ℤ, ◌≤ℤ◌,
}
use velocity_match.Common.Map.{id_key, price_key, Map, lookup, IsSorted}
use velocity_match.Common.Map.Ends.{
  first_key-none, last_key-none, first_key-least, last_key-greatest, lookup-first_key,
  lookup-last_key,
}
use velocity_match.Order.{Side, bid, ask, Order}
use velocity_match.Arena.{PriceLevel, Storage}
use velocity_match.Arena.Chain.{Cells}
use velocity_match.Book.{OrderBook, best, levels, end_key}
use velocity_match.Book.View.{View, In, IsBook, IsLevelOf}
use velocity_match.Matching.{opposite, crosses}
use velocity_match.Matching.Trades.{AsGood, IsBest, Meets}

-- What the best price of a side says of its queues.
no_queue :
    (s : Storage) (o : Option PriceLevel) (xs : Cells) → o ≡ none → IsLevelOf s o xs → xs ≡ []
no_queue s none xs e at = at
no_queue s (some l) xs e at = cc

queue_there :
    (s : Storage) (o : Option PriceLevel) (xs : Cells) (l : PriceLevel)
    → o ≡ some l
    → IsLevelOf s o xs
    → xs ≢ []
queue_there s none xs l e at = cc
queue_there s (some k) xs l e at = at.1

level_there :
    (s : Storage) (o : Option PriceLevel) (xs : Cells)
    → IsLevelOf s o xs
    → xs ≢ []
    → (l : PriceLevel) × (o ≡ some l)
level_there s none xs at ne = absurd (ne at)
level_there s (some k) xs at ne = (k, refl)

end_key-none :
    (side : Side) (k : ℤ) (m : Map ℤ PriceLevel) → end_key side m ≡ none → lookup k m ≡ none
end_key-none bid k m h = last_key-none k m h
end_key-none ask k m h = first_key-none k m h

end_key-found :
    (side : Side) (k : ℤ) (m : Map ℤ PriceLevel)
    → IsSorted m
    → end_key side m ≡ some k
    → (l : PriceLevel) × (lookup k m ≡ some l)
end_key-found bid k m s h = lookup-last_key k m s h
end_key-found ask k m s h = lookup-first_key k m h

end_key-best :
    (side : Side) (k j : ℤ) (l : PriceLevel) (m : Map ℤ PriceLevel)
    → IsSorted m
    → end_key side m ≡ some k
    → lookup j m ≡ some l
    → AsGood side k j
end_key-best bid k j l m s h e = order_of (last_key-greatest k j l m s h e)
  where
    order_of : (k ≡ j) ⊎ (ltb_ℤ j k ≡ true) → j ≤ℤ k
    order_of (inl e) = rw e (omega arith)
    order_of (inr h) = ground arith
end_key-best ask k j l m s h e = order_of (first_key-least k j l m s h e)
  where
    order_of : (k ≡ j) ⊎ (ltb_ℤ k j ≡ true) → k ≤ℤ j
    order_of (inl e) = rw e (omega arith)
    order_of (inr h) = ground arith

crosses-better :
    (s : Side) (limit p p' : ℤ)
    → AsGood (opposite s) p p'
    → crosses s limit p' ≡ true
    → crosses s limit p ≡ true
crosses-better bid limit p p' g h = ground arith
crosses-better ask limit p p' g h = ground arith

pub Cells-cases : (xs : Cells) → (xs ≡ []) ⊎ ((c : ℕ × Order) × (ys : Cells) × (xs ≡ c ∷ ys))
Cells-cases [] = inl refl
Cells-cases (c ∷ ys) = inr (c, ys, refl)

cons_ne_nil : {c : ℕ × Order} {xs ys : Cells} → xs ≡ c ∷ ys → xs ≢ []
cons_ne_nil e h = cc

module _ {b : OrderBook} {v : View} (is : IsBook b v) (side : Side) where
  pub none-empty : best b side ≡ none → (p : ℤ) → v.queue side p ≡ []
  none-empty h p =
      no_queue b.arena.storage _ _ (end_key-none side p (levels b side) (sym (is.best_is side) ∙ h))
        (is.level side p)

  pub best-IsBest : (p : ℤ) → best b side ≡ some p → IsBest v side p
  best-IsBest p h =
      let e = sym (is.best_is side) ∙ h in
      let (l, found) = end_key-found side p (levels b side) (is.sorted side) e in
      record {
        there = queue_there b.arena.storage _ _ l found (is.level side p);
        none_better = λ p' ne.
            let (l', found') = level_there b.arena.storage _ _ (is.level side p') ne in
            end_key-best side p p' l' (levels b side) (is.sorted side) e found';
      }

pub nothing_crosses :
    {v : View} (order : Order) (p : ℤ)
    → IsBest v (opposite order.side) p
    → crosses order.side order.price p ≡ false
    → (p' : ℤ) → crosses order.side order.price p' ≡ true
    → v.queue (opposite order.side) p' ≡ []
nothing_crosses {v} order p best h p' h' = elim (Cells-cases (v.queue (opposite order.side) p')) [
  | inl e ↦ e
  | inr (c, ys, e) ↦ absurd (
      never (
        sym (crosses-better order.side order.price p p' (best.none_better p' (cons_ne_nil e)) h')
        ∙ h))
]
  where
    never : true ≢ false
    never e = cc

-- The best price of the other side with the order that stands first there.
pub front_of :
    {b : OrderBook} {v : View} (is : IsBook b v) (order : Order) (p : ℤ)
    → best b (opposite order.side) ≡ some p
    → crosses order.side order.price p ≡ true
    → (i : ℕ) × (o : Order) × (ys : Cells) × Meets v order o i ys × (o.price ≡ p) × (0 < o.quantity)
front_of {b} {v} is order p at crossed = elim (Cells-cases (v.queue (opposite order.side) p)) [
  | inl e ↦ absurd ((best-IsBest is (opposite order.side) p at).there e)
  | inr ((i, o), ys, e) ↦
      let k =
        is.nodes.cells (opposite order.side) p (i, o) (subst (In (i, o)) (sym e) (inl refl)) in
      (
        i,
        o,
        ys,
        record {
          side_is = sym k.side_is;
          best_is =
              subst₂ (λ x y. IsBest v x y) (sym k.side_is) (sym k.price_is)
                (best-IsBest is (opposite order.side) p at);
          front = subst₂ (λ x y. v.queue x y ≡ (i, o) ∷ ys) (sym k.side_is) (sym k.price_is) e;
          crossed = subst (λ x. crosses order.side order.price x ≡ true) (sym k.price_is) crossed;
        },
        k.price_is,
        k.positive,
      )
]
