-- ===== src/Book/Partial.antt =====
-- The front order of a queue with a part of its quantity taken.
use velocity_match.Common.{
  ℕ, ℤ, ◌+◌, ◌-◌, ◌%◌, ◌^◌, ◌<◌, ◌≤◌, ◌≡◌, refl, ◌⊎◌, inl, inr, ◌∷◌, arith, sym, ◌∙◌, ap, subst,
  subst₂,
}
use velocity_match.Common.Map.{id_key, price_key, Map}
use velocity_match.Order.{Side, Order}
use velocity_match.Arena.{Storage, PriceLevel, Arena, arena_null, put}
use velocity_match.Arena.Chain.{Cells, has, node, head_or, Chain-put}
use velocity_match.Arena.Level.{IsLevel, total}
use velocity_match.Arena.Relink.{put_self}
use velocity_match.Arena.Pool.{IsPool}
use velocity_match.Book.View.{View, In, IsNodes, IsCell, Located, set_queue}
use velocity_match.Book.Cells.{same_place_refl, Place-cases}

abbrev pub reduced : Order → ℕ → Order
reduced o fill = record o { quantity = o.quantity - fill }

-- The view with the front order `o` of a queue, in the node `i`, reduced.
abbrev pub with_less : View → Order → ℕ → (fill : ℕ) → Cells → View
with_less v o i fill ys = record v {
  queue = set_queue v.queue o.side o.price ((i, reduced o fill) ∷ ys);
}

abbrev pub less : PriceLevel → ℕ → PriceLevel
less l fill = record l { qty = (l.qty + 2 ^ 64 - fill) % 2 ^ 64 }

qty-less :
    (a q f n : ℕ)
    → f ≤ q
    → q < 2 ^ 64
    → a ≡ (q + n) % 2 ^ 64
    → (a + 2 ^ 64 - f) % 2 ^ 64 ≡ (q - f + n) % 2 ^ 64
qty-less a q f n h k e = omega arith

pub reduced-IsLevel :
    (s : Storage) (l : PriceLevel) (i : ℕ) (o : Order) (ys : Cells) (fill : ℕ)
    → IsLevel s l ((i, o) ∷ ys)
    → fill ≤ o.quantity
    → o.quantity < 2 ^ 64
    → IsLevel
        (put s i (node (reduced o fill) arena_null (head_or arena_null ys)))
        (less l fill)
        ((i, reduced o fill) ∷ ys)
reduced-IsLevel s l i o ys fill v h fits = record {
  head = v.head;
  tail = v.tail;
  chain = (put_self s i _, Chain-put s i _ i ys arena_null v.distinct.0 v.chain.1);
  distinct = v.distinct;
  no_null = v.no_null;
  count = v.count;
  qty = qty-less l.qty o.quantity fill (total ys) h fits v.qty;
}

module _ {arena : Arena} {index : Map ℕ ℕ} {v : View} (n : IsNodes arena index v) (o : Order)
    (i : ℕ) (ys : Cells) (fill : ℕ) (whole : v.queue o.side o.price ≡ (i, o) ∷ ys)
    (left : fill < o.quantity) where
  its_cell : IsCell arena.capacity index o.side o.price (i, o)
  its_cell = n.cells o.side o.price (i, o) (subst (In (i, o)) (sym whole) (inl refl))

  In-less :
      (s : Side) (p : ℤ) (c : ℕ × Order)
      → In c ((with_less v o i fill ys).queue s p)
      → ((c ≡ (i, reduced o fill)) × (s ≡ o.side) × (p ≡ o.price)) ⊎ In c (v.queue s p)
  In-less s p c h = elim (Place-cases s p o.side o.price) [
    | inr e ↦ inr (rw e at h)
    | inl (e, es, ep) ↦ elim (first_or_rest (rw e at h)) [
      | inl new ↦ inl (new, es, ep)
      | inr old ↦ inr (
          subst₂ (λ x y. In c (v.queue x y)) (sym es) (sym ep) (subst (In c) (sym whole) (inr old)))
    ]
  ]
    where
      first_or_rest : In c ((i, reduced o fill) ∷ ys) → (c ≡ (i, reduced o fill)) ⊎ In c ys
      first_or_rest k = k

  has-less :
      (s : Side) (p : ℤ) (a : ℕ) → has a ((with_less v o i fill ys).queue s p) ≡ has a (v.queue s p)
  has-less s p a = elim (Place-cases s p o.side o.price) [
    | inr e ↦ rw e refl
    | inl (e, es, ep) ↦ rw e (
        subst₂ (λ x y. has a ((i, o) ∷ ys) ≡ has a (v.queue x y)) (sym es) (sym ep) (rw whole refl))
  ]

  -- A resting order is still found after the change, the front one with what is left of it.
  Located-less : (id j : ℕ) → Located v.queue id j → Located (with_less v o i fill ys).queue id j
  Located-less id j k = elim (Place-cases k.order.side k.order.price o.side o.price) [
    | inr e ↦ record { order = k.order; id_is = k.id_is; within = rw e k.within }
    | inl (e, es, ep) ↦
        elim (first_or_rest (
          subst (In (j, k.order)) whole
            (subst₂ (λ x y. In (j, k.order) (v.queue x y)) es ep k.within))) [
              | inl new ↦ record {
                order = reduced o fill;
                id_is = ap (λ (c : ℕ × Order). c.1.id) (sym new) ∙ k.id_is;
                within =
                    subst
                      (λ (m : ℕ).
                        In (m, reduced o fill) ((with_less v o i fill ys).queue o.side o.price))
                      (ap (λ (c : ℕ × Order). c.0) (sym new)) here;
              }
              | inr old ↦ record { order = k.order; id_is = k.id_is; within = rw e (inr old) }
            ]
  ]
    where
      first_or_rest :
          In (j, k.order) ((i, o) ∷ ys)
          → (◌≡◌ {A = ℕ × Order} (j, k.order) (i, o)) ⊎ In (j, k.order) ys
      first_or_rest m = m

      here : In (i, reduced o fill) ((with_less v o i fill ys).queue o.side o.price)
      here = rw (same_place_refl o.side o.price) (inl refl)

  pub IsNodes-with_less :
      (s : Storage)
      → IsPool (record arena { storage = s }) v.free
      → IsNodes (record arena { storage = s }) index (with_less v o i fill ys)
  IsNodes-with_less s pool = record {
    cells = λ t p c h. elim (In-less t p c h) [
      | inl (e, es, ep) ↦
          rw (e, es, ep)
            (record {
              side_is = refl;
              price_is = refl;
              positive = omega (arith, left);
              fits = omega (arith, left, its_cell.fits);
              below = its_cell.below;
              indexed = its_cell.indexed;
            })
      | inr old ↦ n.cells t p c old
    ];
    located = λ id j h. Located-less id j (n.located id j h);
    owned = λ t p a h. n.owned t p a (sym (has-less t p a) ∙ h);
    unowned = n.unowned;
    pool = pool;
    counted = n.counted;
    index_sorted = n.index_sorted;
  }
