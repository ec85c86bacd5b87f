-- ===== src/Book/Levels.antt =====
-- The level maps and the best prices under an insertion, a replaced level and a dropped level.
use velocity_match.Common.{
  ℕ, ℤ, ◌≡◌, refl, ◌⊎◌, inl, inr, true, Option, none, some, [], ◌∷◌, arith, ◌==◌, if◌then◌else◌,
  max_ℤ, min_ℤ, ltb_ℤ, eqb_ℤ_iff, sym, ◌∙◌, ap, Bool-cases, Option-cases, eqb_ℤ, ◌≢◌,
}
use velocity_match.Common.Map
use velocity_match.Common.Map.{
  ltb_ℤ_trans, price_key, id_key, Map, lookup, insert, first_key, last_key, IsSorted,
}
use velocity_match.Common.Map.Laws.{lookup-insert, lookup-remove, insert-IsSorted, remove-IsSorted}
use velocity_match.Common.Map.Ends.{
  first_key-least, last_key-greatest, first_key-none, last_key-none, lookup-last_key, above-lookup,
}
use velocity_match.Order.{Side, bid, ask}
use velocity_match.Arena.{PriceLevel, Arena}
use velocity_match.Book.{
  OrderBook, levels, best, set_levels, set_best, end_key, better, update_best_after_insert, settle,
}
use velocity_match.Book.View.{same_place}

lookup-first : (e : ℤ × PriceLevel) (m : Map ℤ PriceLevel) → lookup e.0 (e ∷ m) ≡ some e.1
unfolding lookup
lookup-first (j, w) m = ground (arith, eqb_ℤ_iff j j)

first_key-insert :
    (k : ℤ) (l : PriceLevel) (m : Map ℤ PriceLevel)
    → first_key (insert k l m) ≡ some (better ask (first_key m) k)
unfolding first_key insert
first_key-insert k l [] = refl
first_key-insert k l ((j, w) ∷ m) = ground (arith, eqb_ℤ_iff k j)

max-above : (z k : ℤ) → ltb_ℤ k z ≡ true → z ≡ max_ℤ z k
max-above z k h = ground arith

order_of_same : (k j z : ℤ) → eqb_ℤ k j ≡ true → ltb_ℤ j z ≡ true → ltb_ℤ k z ≡ true
order_of_same k j z p h = ground arith

last_key-cons :
    (k j : ℤ) (w : PriceLevel) (m : Map ℤ PriceLevel)
    → last_key m ≡ some k
    → last_key ((j, w) ∷ m) ≡ some k
unfolding last_key
last_key-cons k j w [] h = cc
last_key-cons k j w (e ∷ m) h = h

last_key-above :
    (j : ℤ) (w : PriceLevel) (e : ℤ × PriceLevel) (m : Map ℤ PriceLevel)
    → IsSorted ((j, w) ∷ e ∷ m)
    → (z : ℤ) × (last_key (e ∷ m) ≡ some z) × (ltb_ℤ j z ≡ true)
last_key-above j w e m s = elim (Option-cases (last_key (e ∷ m))) [
  | inl h ↦ absurd (not_none (sym (lookup-first e m) ∙ last_key-none e.0 (e ∷ m) h))
  | inr (z, h) ↦
      let (v, found) = lookup-last_key z (e ∷ m) s.1 h in
      (z, h, above-lookup j z v (e ∷ m) s.0 found)
]
  where
    not_none : {v : PriceLevel} → some v ≢ none
    not_none h = cc

last_key-insert :
    (k : ℤ) (l : PriceLevel) (m : Map ℤ PriceLevel)
    → IsSorted m
    → last_key (insert k l m) ≡ some (better bid (last_key m) k)
unfolding last_key insert
last_key-insert k l [] s = refl
last_key-insert k l ((j, w) ∷ []) s = ground (arith, eqb_ℤ_iff k j)
last_key-insert k l ((j, w) ∷ e ∷ m) s =
    let (z, last, above) = last_key-above j w e m s in
    elim (Bool-cases (eqb_ℤ k j)) [
      | inl p ↦ rw p (rw last (ap some (max-above z k (order_of_same k j z p above))))
      | inr p ↦ elim (Bool-cases (ltb_ℤ k j)) [
        | inl q ↦ rw (p, q) (rw last (ap some (max-above z k (ltb_ℤ_trans k j z q above))))
        | inr q ↦
            rw (p, q) (last_key-cons _ j w (insert k l (e ∷ m)) (last_key-insert k l (e ∷ m) s.1))
      ]
    ]

-- An insertion makes the best price the better of the old one and the new one.
end_key-insert :
    (side : Side) (k : ℤ) (l : PriceLevel) (m : Map ℤ PriceLevel)
    → IsSorted m
    → end_key side (insert k l m) ≡ some (better side (end_key side m) k)
end_key-insert bid k l m s = last_key-insert k l m s
end_key-insert ask k l m s = first_key-insert k l m

-- The best price stays where a level that is there is replaced.
end_key-replace :
    (side : Side) (k : ℤ) (old l : PriceLevel) (m : Map ℤ PriceLevel)
    → IsSorted m
    → lookup k m ≡ some old
    → end_key side (insert k l m) ≡ end_key side m
end_key-replace bid k old l m s h = elim (Option-cases (last_key m)) [
  | inl e ↦ absurd (some≢none (sym h ∙ last_key-none k m e))
  | inr (z, e) ↦
      last_key-insert k l m s ∙ rw e (ap some (stays (last_key-greatest z k old m s e h)))
]
  where
    some≢none : {v : PriceLevel} → some v ≢ none
    some≢none h = cc

    stays : {z : ℤ} → (z ≡ k) ⊎ (ltb_ℤ k z ≡ true) → max_ℤ z k ≡ z
    stays (inl e) = ground arith
    stays (inr e) = ground arith
end_key-replace ask k old l m s h = elim (Option-cases (first_key m)) [
  | inl e ↦ absurd (some≢none (sym h ∙ first_key-none k m e))
  | inr (z, e) ↦ first_key-insert k l m ∙ rw e (ap some (stays (first_key-least z k old m s e h)))
]
  where
    some≢none : {v : PriceLevel} → some v ≢ none
    some≢none h = cc

    stays : {z : ℤ} → (z ≡ k) ⊎ (ltb_ℤ z k ≡ true) → min_ℤ z k ≡ z
    stays (inl e) = ground arith
    stays (inr e) = ground arith

-- The maps of `b'` are those of `b` but for the level at one place, and its best prices are right.
pub record Step (b b' : OrderBook) (side : Side) (price : ℤ) (o : Option PriceLevel) : Type 0 where
  pub lookups :
      (s : Side) (p : ℤ)
      → lookup p (levels b' s) ≡ (if same_place s p side price then o else lookup p (levels b s))
  pub sorted : (s : Side) → IsSorted (levels b' s)
  pub best_is : (s : Side) → best b' s ≡ end_key s (levels b' s)

module _ (b : OrderBook) (arena : Arena) (index : Map ℕ ℕ)
    (sorted : (s : Side) → IsSorted (levels b s))
    (best_is : (s : Side) → best b s ≡ end_key s (levels b s)) where
  pub insert-Step :
      (side : Side) (price : ℤ) (l : PriceLevel)
      → Step b
          (update_best_after_insert
            (record (set_levels b side (insert price l (levels b side))) {
              arena = arena;
              order_index = index;
            })
            side
            price)
          side
          price
          (some l)
  unfolding update_best_after_insert
  insert-Step bid price l = record {
    lookups = elim [ bid ↦ λ p. lookup-insert p price l b.bids | ask ↦ λ p. refl ];
    sorted = elim [ bid ↦ insert-IsSorted price l b.bids (sorted bid) | ask ↦ sorted ask ];
    best_is = elim [
      | bid ↦ rw (best_is bid) (sym (end_key-insert bid price l b.bids (sorted bid)))
      | ask ↦ best_is ask
    ];
  }
  insert-Step ask price l = record {
    lookups = elim [ bid ↦ λ p. refl | ask ↦ λ p. lookup-insert p price l b.asks ];
    sorted = elim [ bid ↦ sorted bid | ask ↦ insert-IsSorted price l b.asks (sorted ask) ];
    best_is = elim [
      | bid ↦ best_is bid
      | ask ↦ rw (best_is ask) (sym (end_key-insert ask price l b.asks (sorted ask)))
    ];
  }

  pub store_Step :
      (side : Side) (price : ℤ) (old l : PriceLevel)
      → lookup price (levels b side) ≡ some old
      → Step b
          (set_levels
            (record b { arena = arena; order_index = index })
            side
            (insert price l (levels b side)))
          side
          price
          (some l)
  store_Step bid price old l h = record {
    lookups = elim [ bid ↦ λ p. lookup-insert p price l b.bids | ask ↦ λ p. refl ];
    sorted = elim [ bid ↦ insert-IsSorted price l b.bids (sorted bid) | ask ↦ sorted ask ];
    best_is = elim [
      | bid ↦ best_is bid ∙ sym (end_key-replace bid price old l b.bids (sorted bid) h)
      | ask ↦ best_is ask
    ];
  }
  store_Step ask price old l h = record {
    lookups = elim [ bid ↦ λ p. refl | ask ↦ λ p. lookup-insert p price l b.asks ];
    sorted = elim [ bid ↦ sorted bid | ask ↦ insert-IsSorted price l b.asks (sorted ask) ];
    best_is = elim [
      | bid ↦ best_is bid
      | ask ↦ best_is ask ∙ sym (end_key-replace ask price old l b.asks (sorted ask) h)
    ];
  }

  drop_Step :
      (side : Side) (price : ℤ)
      → Step b
          (set_best
            (set_levels
              (record b { arena = arena; order_index = index })
              side
              (Map.remove price (levels b side)))
            side
            (end_key side (Map.remove price (levels b side))))
          side
          price
          none
  drop_Step bid price = record {
    lookups = elim [ bid ↦ λ p. lookup-remove p price b.bids (sorted bid) | ask ↦ λ p. refl ];
    sorted = elim [ bid ↦ remove-IsSorted price b.bids (sorted bid) | ask ↦ sorted ask ];
    best_is = elim [ bid ↦ refl | ask ↦ best_is ask ];
  }
  drop_Step ask price = record {
    lookups = elim [ bid ↦ λ p. refl | ask ↦ λ p. lookup-remove p price b.asks (sorted ask) ];
    sorted = elim [ bid ↦ sorted bid | ask ↦ remove-IsSorted price b.asks (sorted ask) ];
    best_is = elim [ bid ↦ best_is bid | ask ↦ refl ];
  }

  pub settle-Step :
      (side : Side) (price : ℤ) (old l : PriceLevel)
      → lookup price (levels b side) ≡ some old
      → Step b
          (settle (record b { arena = arena; order_index = index }) side price l)
          side
          price
          (if l.count == 0 then none else some l)
  unfolding settle
  settle-Step bid price old l h = elim (Bool-cases (l.count == 0)) [
    | inl e ↦ rw e (drop_Step bid price)
    | inr e ↦ rw e (store_Step bid price old l h)
  ]
  settle-Step ask price old l h = elim (Bool-cases (l.count == 0)) [
    | inl e ↦ rw e (drop_Step ask price)
    | inr e ↦ rw e (store_Step ask price old l h)
  ]
