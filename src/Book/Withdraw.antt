-- ===== src/Book/Withdraw.antt =====
-- What the nodes and the index are after one order leaves its queue.
use velocity_match.Common.{
  ℕ, ℤ, ◌+◌, ◌≡◌, refl, ◌≢◌, inl, inr, true, false, none, some, List, [], ◌∷◌, ◌++◌, arith, ◌==◌,
  ==_iff, ==_ne, if◌then◌else◌, Bool-cases, sym, ◌∙◌, ap, subst, subst₂,
}
use velocity_match.Common.Map
use velocity_match.Common.Map.{id_key, price_key, Map, lookup}
use velocity_match.Common.Map.Laws.{lookup-remove, length-remove, remove-IsSorted}
use velocity_match.Order.{Side, Order}
use velocity_match.Arena.{Arena}
use velocity_match.Arena.Chain.{Cells, has, IsDistinct, has-append}
use velocity_match.Arena.Pool.{IsPool, contains}
use velocity_match.Book.View.{View, In, IsNodes, set_queue, set_owner}
use velocity_match.Book.Cells.{Place-cases, has-In, In-right, In-drop, In-undrop}
use velocity_match.Book.Frame.{apart}

-- The view with the order in node `i` gone, where its queue was that of `xs`, it, and `ys`.
abbrev pub without_order : View → Order → ℕ → (xs ys : Cells) → View
without_order v o i xs ys = record {
  queue = set_queue v.queue o.side o.price (xs ++ ys);
  free = i ∷ v.free;
  owner = set_owner v.owner i none;
}

true≢false : true ≢ false
true≢false h = cc

pub has_self : (i : ℕ) (o : Order) (xs ys : Cells) → has i (xs ++ ((i, o) ∷ ys)) ≡ true
has_self i o xs ys = has-In (i, o) _ (In-right (i, o) xs ((i, o) ∷ ys) (inl refl))

-- The node that leaves a queue of distinct nodes is not in what is left.
pub not-has-drop :
    (xs : Cells) (i : ℕ) (o : Order) (ys : Cells)
    → IsDistinct (xs ++ ((i, o) ∷ ys))
    → has i (xs ++ ys) ≡ false
not-has-drop [] i o ys d = d.0
not-has-drop ((j, u) ∷ xs) i o ys d =
    ground (arith, not-has-drop xs i o ys d.1, has-append j xs ((i, o) ∷ ys))

pub ne_of_has : (a i : ℕ) (xs : Cells) → has a xs ≡ true → has i xs ≡ false → (a == i) ≡ false
ne_of_has a i xs h k = ==_ne a i λ e. true≢false (sym h ∙ ap (λ c. has c xs) e ∙ k)

pub has-undrop :
    (a : ℕ) (xs : Cells) (c : ℕ × Order) (ys : Cells)
    → has a (xs ++ ys) ≡ true
    → has a (xs ++ (c ∷ ys)) ≡ true
has-undrop a xs (i, o) ys h = ground (arith, has-append a xs ys, has-append a xs ((i, o) ∷ ys))

behind :
    (a i : ℕ) (free : List ℕ)
    → (a == i) ≡ false
    → contains a (i ∷ free) ≡ true
    → contains a free ≡ true
behind a i free e h = ground arith

module _ {arena : Arena} {index : Map ℕ ℕ} {v : View} (n : IsNodes arena index v) (o : Order)
    (i : ℕ) (xs ys : Cells) (whole : v.queue o.side o.price ≡ xs ++ ((i, o) ∷ ys))
    (distinct : IsDistinct (xs ++ ((i, o) ∷ ys))) where
  here : has i (v.queue o.side o.price) ≡ true
  here = rw whole (has_self i o xs ys)

  has_before :
      (s : Side) (p : ℤ) (a : ℕ)
      → has a ((without_order v o i xs ys).queue s p) ≡ true
      → (has a (v.queue s p) ≡ true) × ((a == i) ≡ false)
  has_before s p a h = elim (Place-cases s p o.side o.price) [
    | inr e ↦
        let old = rw e at h in
        (
          old,
          ==_ne a i λ k. true≢false (
              sym here
              ∙ ap (λ c. has c (v.queue o.side o.price)) (sym k)
              ∙ apart n s p o.side o.price a e old),
        )
    | inl (e, es, ep) ↦
        let left = rw e at h in
        (
          subst₂ (λ x y. has a (v.queue x y) ≡ true) (sym es) (sym ep)
              (rw whole (has-undrop a xs (i, o) ys left)),
          ne_of_has a i (xs ++ ys) left (not-has-drop xs i o ys distinct),
        )
  ]

  In-before :
      (s : Side) (p : ℤ) (c : ℕ × Order)
      → In c ((without_order v o i xs ys).queue s p)
      → In c (v.queue s p)
  In-before s p c h = elim (Place-cases s p o.side o.price) [
    | inr e ↦ rw e at h
    | inl (e, es, ep) ↦
        subst₂ (λ x y. In c (v.queue x y)) (sym es) (sym ep)
          (rw whole (In-undrop c (i, o) xs ys (rw e at h)))
  ]

  In-after :
      (s : Side) (p : ℤ) (c : ℕ × Order)
      → In c (v.queue s p)
      → c ≢ (i, o)
      → In c ((without_order v o i xs ys).queue s p)
  In-after s p c h ne = elim (Place-cases s p o.side o.price) [
    | inr e ↦ rw e h
    | inl (e, es, ep) ↦ rw e (
        In-drop c (i, o) xs ys (subst (In c) whole (subst₂ (λ x y. In c (v.queue x y)) es ep h)) ne)
  ]

  indexed_here : lookup o.id index ≡ some i
  indexed_here =
      (n.cells o.side o.price (i, o)
        (subst (In (i, o)) (sym whole) (In-right (i, o) xs ((i, o) ∷ ys) (inl refl)))).indexed

  lookup_left :
      (id j : ℕ)
      → lookup id (Map.remove o.id index) ≡ some j
      → ((id == o.id) ≡ false) × (lookup id index ≡ some j)
  lookup_left id j h = elim (Bool-cases (id == o.id)) [
    | inl e ↦ absurd (never (subst (λ c. (if c then none else lookup id index) ≡ some j) e at_key))
    | inr e ↦ (e, subst (λ c. (if c then none else lookup id index) ≡ some j) e at_key)
  ]
    where
      at_key : (if id == o.id then none else lookup id index) ≡ some j
      at_key = sym (lookup-remove id o.id index n.index_sorted) ∙ h

      never : none ≡ some j → ⊥
      never e = cc

  id_kept :
      (c : ℕ × Order)
      → lookup c.1.id index ≡ some c.0
      → (c.0 == i) ≡ false
      → (c.1.id == o.id) ≡ false
  id_kept c k ne = ==_ne c.1.id o.id λ e.
      true≢false (
        sym ((==_iff c.0 i).1 (same_node (sym k ∙ ap (λ d. lookup d index) e ∙ indexed_here))) ∙ ne)
    where
      same_node : some c.0 ≡ some i → c.0 ≡ i
      same_node e = cc

  other_cell :
      (id j : ℕ) (u : Order) → u.id ≡ id → (id == o.id) ≡ false → ◌≢◌ {A = ℕ × Order} (j, u) (i, o)
  other_cell id j u e ne k =
      true≢false (sym ((==_iff id o.id).1 (sym e ∙ ap (λ (c : ℕ × Order). c.1.id) k)) ∙ ne)

  -- Once the node is given back, the nodes agree with the view without the order.
  pub IsNodes-without_order :
      (arena' : Arena)
      → IsPool arena' (i ∷ v.free)
      → arena'.capacity ≡ arena.capacity
      → arena'.count + 1 ≡ arena.count
      → IsNodes arena' (Map.remove o.id index) (without_order v o i xs ys)
  IsNodes-without_order arena' pool capacity count = record {
    cells = λ s p c h.
        let k = n.cells s p c (In-before s p c h) in
        let ne = (has_before s p c.0 (has-In c _ h)).1 in
        record {
          side_is = k.side_is;
          price_is = k.price_is;
          positive = k.positive;
          fits = k.fits;
          below = rw capacity k.below;
          indexed =
              lookup-remove c.1.id o.id index n.index_sorted
              ∙ rw (id_kept c k.indexed ne) k.indexed;
        };
    located = λ id j h.
        let (ne, old) = lookup_left id j h in
        let k = n.located id j old in
        record {
          order = k.order;
          id_is = k.id_is;
          within =
              In-after k.order.side k.order.price (j, k.order) k.within
                (other_cell id j k.order k.id_is ne);
        };
    owned = λ s p a h. let (old, ne) = has_before s p a h in rw ne (n.owned s p a old);
    unowned = λ a h. elim (Bool-cases (a == i)) [
      | inl e ↦ rw e refl
      | inr e ↦ rw e (n.unowned a (behind a i v.free e h))
    ];
    pool = pool;
    counted = omega (arith, count, n.counted, length-remove o.id index i indexed_here);
    index_sorted = remove-IsSorted o.id index n.index_sorted;
  }
