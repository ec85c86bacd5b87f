-- ===== src/Book/Insert.antt =====
-- `insert_order`: what it refuses, and where it puts the order.
use velocity_match.Common.{
  ℕ, ℤ, ◌+◌, ◌^◌, ◌<◌, ◌≡◌, refl, ◌≢◌, inl, inr, true, false, none, some, List, [], ◌∷◌, ◌++◌,
  arith, ◌==◌, ==_iff, ==_ne, length, Bool-cases, sym, ◌∙◌, ap, subst, ok, err,
}
use velocity_match.Common.Map.{id_key, price_key, lookup, insert}
use velocity_match.Common.Map.Laws.{lookup-insert, length-insert_new, insert-IsSorted}
use velocity_match.Order.{Side, Order}
use velocity_match.Arena.{Arena, arena_null, push_back}
use velocity_match.Arena.Chain.{Cells, has}
use velocity_match.Arena.Level.{IsLevel, Became}
use velocity_match.Arena.Queue.{push_back-Became}
use velocity_match.Arena.Pool.{IsPool, contains, alloc-full, alloc-Allocated, Allocated}
use velocity_match.Book.{
  OrderBook, levels, level_or_new, set_levels, insert_order, update_best_after_insert,
  duplicate_order_id, arena_full,
}
use velocity_match.Book.View.{View, In, IsBook, IsNodes}
use velocity_match.Book.Cells.{
  IsLevel-frame, IsLevelOf-IsDistinct, IsLevelOf_or_new, snoc_ne_nil, has_snoc,
}
use velocity_match.Book.Levels.{insert-Step}
use velocity_match.Book.Bound.{length-le_of_distinct}
use velocity_match.Book.Frame.{
  IsPool-frame, index_below, arena-update, index-update, apart, free_apart, level_frame, IsBook_of,
}
use velocity_match.Book.Place.{
  with_order, In-with_order, In-new, In-old, lookup-insert_cases, has-with_order,
}

module _ (b : OrderBook) (order : Order) where
  pub insert-duplicate :
      (i : ℕ)
      → lookup order.id b.order_index ≡ some i
      → insert_order b order ≡ some (err (duplicate_order_id order.id), b)
  unfolding insert_order
  insert-duplicate i h = rw (h, insert_order)

  pub insert-full :
      lookup order.id b.order_index ≡ none
      → IsPool b.arena []
      → insert_order b order ≡ some (err arena_full, b)
  unfolding insert_order
  insert-full h pool = rw (h, insert_order, alloc-full b.arena order pool)

module _ (b : OrderBook) (v : View) (order : Order) (i : ℕ) (rest : List ℕ) (is : IsBook b v)
    (fresh : lookup order.id b.order_index ≡ none) (free : v.free ≡ i ∷ rest)
    (positive : 0 < order.quantity) (fits : order.quantity < 2 ^ 64) where
  IsPool-now : IsPool b.arena (i ∷ rest)
  IsPool-now = subst (λ (l : List ℕ). IsPool b.arena l) free is.nodes.pool

  i_free : contains i v.free ≡ true
  i_free = rw free (ground arith)

  other_id : (id j : ℕ) → lookup id b.order_index ≡ some j → (id == order.id) ≡ false
  other_id id j h =
      ==_ne id order.id λ e. never (sym fresh ∙ ap (λ k. lookup k b.order_index) (sym e) ∙ h)
    where
      never : none ≡ some j → ⊥
      never e = cc

  other_node : (s : Side) (p : ℤ) (a : ℕ) → has a (v.queue s p) ≡ true → (a == i) ≡ false
  other_node s p a h =
      ==_ne a i
        λ e. never (sym h ∙ ap (λ k. has k (v.queue s p)) e ∙ free_apart is.nodes s p i i_free)
    where
      never : true ≢ false
      never e = cc

  later : (a : ℕ) → contains a rest ≡ true → contains a (i ∷ rest) ≡ true
  later a h = ground arith

  not_new : (a : ℕ) → contains a rest ≡ true → (a == i) ≡ false
  not_new a h = ==_ne a i λ e. never (sym h ∙ ap (λ k. contains k rest) e ∙ IsPool-now.distinct.0)
    where
      never : true ≢ false
      never e = cc

  -- Once the node is allocated, the nodes agree with the new view.
  IsNodes-with_order :
      (arena : Arena)
      → IsPool arena rest
      → arena.capacity ≡ b.arena.capacity
      → arena.count ≡ b.arena.count + 1
      → IsNodes arena (insert order.id i b.order_index) (with_order v order i rest)
  IsNodes-with_order arena pool capacity count = record {
    cells = λ s p c h. elim (In-with_order v order i rest s p c h) [
      | inl (e, es, ep) ↦
          rw (e, es, ep)
            (record {
              side_is = refl;
              price_is = refl;
              positive = positive;
              fits = fits;
              below = rw capacity IsPool-now.below.0;
              indexed = lookup-insert order.id order.id i b.order_index ∙ ground arith;
            })
      | inr old ↦
          let k = is.nodes.cells s p c old in
          record {
            side_is = k.side_is;
            price_is = k.price_is;
            positive = k.positive;
            fits = k.fits;
            below = rw capacity k.below;
            indexed =
                lookup-insert c.1.id order.id i b.order_index
                ∙ rw (other_id c.1.id c.0 k.indexed) k.indexed;
          }
    ];
    located = λ id j h. elim (lookup-insert_cases id order.id i j b.order_index h) [
      | inl (e, ej) ↦ record {
        order = order;
        id_is = sym e;
        within =
            subst (λ n. In (n, order) ((with_order v order i rest).queue order.side order.price)) ej
              (In-new v order i rest);
      }
      | inr old ↦
          let k = is.nodes.located id j old in
          record {
            order = k.order;
            id_is = k.id_is;
            within = In-old v order i rest k.order.side k.order.price (j, k.order) k.within;
          }
    ];
    owned = λ s p a h. elim (has-with_order v order i rest s p a h) [
      | inl (e, es, ep) ↦ rw (e, es, ep) refl
      | inr old ↦ rw (other_node s p a old) (is.nodes.owned s p a old)
    ];
    unowned = λ a h. rw (not_new a h) (is.nodes.unowned a (rw free (later a h)));
    pool = pool;
    counted =
        count
        ∙ ap (λ n. n + 1) is.nodes.counted
        ∙ sym (length-insert_new order.id i b.order_index fresh);
    index_sorted = insert-IsSorted order.id i b.order_index is.nodes.index_sorted;
  }

  abbrev queue_now : Cells
  queue_now = v.queue order.side order.price

  -- The level of the order's price, or a new one, stands for the queue after the allocation.
  IsLevel-before :
      (arena : Arena)
      → ((a : ℕ) → (a == i) ≡ false → arena.storage a ≡ b.arena.storage a)
      → IsLevel arena.storage (level_or_new order.price (levels b order.side)) queue_now
  IsLevel-before arena same =
      IsLevel-frame b.arena.storage arena.storage _ queue_now
        (λ a h. same a (other_node order.side order.price a h))
        (IsLevelOf_or_new b.arena.storage (lookup order.price (levels b order.side)) queue_now
          (is.level order.side order.price))

  not_queued : has i queue_now ≡ false
  not_queued = free_apart is.nodes order.side order.price i i_free

  below : (a : ℕ) → has a ((i, order) ∷ queue_now) ≡ true → a < b.arena.capacity
  below a h = elim (Bool-cases (a == i)) [
    | inl e ↦ rw ((==_iff a i).0 e) IsPool-now.below.0
    | inr e ↦ index_below is.nodes order.side order.price a (rest_of e)
  ]
    where
      rest_of : (a == i) ≡ false → has a queue_now ≡ true
      rest_of e = ground arith

  room : length queue_now + 1 < 2 ^ 32
  room = omega (
    arith,
    length-le_of_distinct b.arena.capacity ((i, order) ∷ queue_now)
        (not_queued, IsLevelOf-IsDistinct _ _ _ (is.level order.side order.price)) below,
    IsPool-now.capacity,
  )

  -- What `insert_order` leaves.
  pub record Inserted : Type 0 where
    pub book : OrderBook
    pub done : insert_order b order ≡ some (ok tt, book)
    pub after : IsBook book (with_order v order i rest)
    pub same_capacity : book.arena.capacity ≡ b.arena.capacity

  assemble :
      (a : Allocated b.arena order i rest)
      → Became a.arena.storage
          (queue_now ++ ((i, order) ∷ []))
          (queue_now ++ ((i, order) ∷ []))
          (λ t l.
            push_back a.arena.storage (level_or_new order.price (levels b order.side)) i
            ≡ some (t, l))
      → Inserted
  unfolding insert_order
  assemble a q =
      let arena = record a.arena { storage = q.storage } in
      let index = insert order.id i b.order_index in
      let step = insert-Step b arena index is.sorted is.best_is order.side order.price q.level in
      record {
        book =
            update_best_after_insert
              (record (set_levels b order.side (insert order.price q.level (levels b order.side))) {
                arena = arena;
                order_index = index;
              })
              order.side order.price;
        done = rw (insert_order, fresh) (rw (a.done) (rw (q.done) refl));
        same_capacity =
            ap (λ x. x.capacity) (arena-update _ order.side order.price) ∙ a.same_capacity;
        after =
            IsBook_of arena index (arena-update _ order.side order.price)
              (index-update _ order.side order.price) step
              (level_frame q.storage (queue_now ++ ((i, order) ∷ [])) is step
                (q.is, snoc_ne_nil queue_now (i, order))
                (λ s p c off h.
                  q.same c (
                    has_snoc c queue_now i order (apart is.nodes s p order.side order.price c off h)
                      (other_node s p c h))
                  ∙ a.same c (other_node s p c h)))
              (IsNodes-with_order arena
                (IsPool-frame a.arena q.storage rest
                  (λ c h. q.same c (
                    has_snoc c queue_now i order
                      (free_apart is.nodes order.side order.price c (rw free (later c h)))
                      (not_new c h)))
                  a.pool)
                a.same_capacity a.counted);
      }

  -- In a book whose index does not know the order's id and that has a free node, an order of a
  -- positive 64-bit quantity is inserted: the book then stands for the view with the order at the
  -- end of the queue of its side and price, in that node.
  pub insert-Inserted : Inserted
  insert-Inserted =
      let a = alloc-Allocated b.arena order i rest IsPool-now in
      assemble a (
        push_back-Became a.arena.storage _ queue_now i order arena_null arena_null
          (IsLevel-before a.arena a.same) a.holds not_queued
          (omega (arith, IsPool-now.below.0, IsPool-now.capacity)) room)
