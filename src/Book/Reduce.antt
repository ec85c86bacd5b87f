-- ===== src/Book/Reduce.antt =====
-- `reduce_front_quantity`: a fill of a part of the oldest order of a price, and of the whole.
use velocity_match.Common.{
  ℕ, ◌+◌, ◌-◌, ◌^◌, ◌<◌, ◌≤◌, ◌≡◌, refl, ◌≢◌, true, false, some, [], ◌∷◌, arith, ◌==◌, ==_ne,
  length, sym, ◌∙◌, ap, subst, ok,
}
use velocity_match.Common.Map
use velocity_match.Common.Map.{id_key, price_key, Map, lookup, insert}
use velocity_match.Common.Map.Laws.{length-remove}
use velocity_match.Common.Run.Panic.{◌>>=◌}
use velocity_match.Order.{Order}
use velocity_match.Arena.{OrderNode, Storage, arena_null, put, modify, set_quantity, pop_front}
use velocity_match.Arena.Chain.{Cells, node, head_or}
use velocity_match.Arena.Level.{IsLevel, Became}
use velocity_match.Arena.Queue.{pop_front-Became}
use velocity_match.Arena.Relink.{modify-some, put_self, put-SameBut}
use velocity_match.Arena.Pool.{contains, Deallocated, dealloc-Deallocated}
use velocity_match.Book.{
  OrderBook, order_count, levels, set_levels, settle, reduce_front_quantity, take_from_front,
}
use velocity_match.Book.View.{View, IsBook}
use velocity_match.Book.Levels.{store_Step}
use velocity_match.Book.Frame.{
  IsPool-frame, level_frame, IsBook_of, LevelOf, arena-set_levels, index-set_levels, index-settle,
}
use velocity_match.Book.Withdraw.{without_order}
use velocity_match.Book.Cancel.{
  its_level, its_node, some_left, free_left, off_node, not_in_rest, not_in_free, its_bound, its_fit,
  its_index, short, withdrawn,
}
use velocity_match.Book.Partial.{reduced, with_less, less, reduced-IsLevel, IsNodes-with_less}
use velocity_match.Book.Peek.{head_is, reduce-take}

module _ {b : OrderBook} {v : View} (is : IsBook b v) (o : Order) (i : ℕ) (ys : Cells)
    (whole : v.queue o.side o.price ≡ (i, o) ∷ ys) (fill : ℕ) (enough : fill ≤ o.quantity) where
  abbrev it : LevelOf b o.side o.price ((i, o) ∷ ys)
  it = its_level is o i [] ys whole

  abbrev front : OrderNode
  front = node o arena_null (head_or arena_null ys)

  abbrev after_write : Storage
  after_write = put b.arena.storage i (node (reduced o fill) arena_null (head_or arena_null ys))

  written :
      modify b.arena.storage it.level.head (set_quantity (o.quantity - fill)) ≡ some after_write
  written = rw (head_is is o i ys whole) (
      modify-some b.arena.storage i (set_quantity (o.quantity - fill)) front
        (its_node is o i [] ys whole))

  level_now : IsLevel after_write (less it.level fill) ((i, reduced o fill) ∷ ys)
  level_now =
      reduced-IsLevel b.arena.storage it.level i o ys fill it.is enough (its_fit is o i [] ys whole)

  free_ne : (a : ℕ) → contains a v.free ≡ true → (a == i) ≡ false
  free_ne a h =
      ==_ne a i λ e.
        never (sym (subst (λ c. contains c v.free ≡ true) e h) ∙ not_in_free is o i [] ys whole)
    where
      never : true ≢ false
      never e = cc

  -- What a fill leaves that takes a part of the front order.
  pub record Less : Type 0 where
    pub book : OrderBook
    pub done : reduce_front_quantity b o.side o.price fill ≡ some (ok (o.quantity - fill), book)
    pub after : IsBook book (with_less v o i fill ys)
    pub counted : order_count book ≡ order_count b

  -- On a book, a fill of less than the quantity of a queue's front order answers what remains of it,
  -- leaves it at the front with that quantity, and leaves as many orders as before.
  pub reduce-Less : fill < o.quantity → Less
  unfolding take_from_front
  reduce-Less left =
      let arena = record b.arena { storage = after_write } in
      let step =
        store_Step b arena b.order_index is.sorted is.best_is o.side o.price it.level
          (less it.level fill) it.found in
      record {
        book =
            set_levels (record b { arena = arena }) o.side
              (insert o.price (less it.level fill) (levels b o.side));
        done =
            reduce-take is o i ys whole fill enough
            ∙ rw (take_from_front, written)
                (rw (==_ne (o.quantity - fill) 0 (omega (arith, left)), ◌>>=◌) refl);
        after =
            IsBook_of arena b.order_index (arena-set_levels _ o.side _)
              (index-set_levels _ o.side _) step
              (level_frame after_write ((i, reduced o fill) ∷ ys) is step (level_now, nonempty)
                (λ s p a off h.
                  put-SameBut b.arena.storage i _ a (off_node is o i [] ys whole s p a off h)))
              (IsNodes-with_less is.nodes o i ys fill whole left after_write (
                IsPool-frame b.arena after_write v.free
                  (λ a h. put-SameBut b.arena.storage i _ a (free_ne a h)) is.nodes.pool));
        counted = ap (λ m. length m) (index-set_levels _ o.side _);
      }
    where
      nonempty : (i, reduced o fill) ∷ ys ≢ []
      nonempty e = cc

  -- What a fill leaves that takes the whole of the front order.
  pub record Gone : Type 0 where
    pub book : OrderBook
    pub done : reduce_front_quantity b o.side o.price fill ≡ some (ok 0, book)
    pub after : IsBook book (without_order v o i [] ys)
    pub counted : order_count book + 1 ≡ order_count b

  pop_now :
      length ys + 1 < 2 ^ 32
      → Became after_write ys ys
          (λ t l. pop_front after_write (less it.level fill) ≡ some (some i, t, l))
  pop_now small =
      pop_front-Became after_write (less it.level fill) i (reduced o fill) ys level_now small
        (omega (arith, its_fit is o i [] ys whole))

  assemble :
      o.quantity - fill ≡ 0
      → (u : Became after_write ys ys
          (λ t l. pop_front after_write (less it.level fill) ≡ some (some i, t, l)))
      → Deallocated (record b.arena { storage = u.storage }) i v.free
      → Gone
  unfolding take_from_front
  assemble whole_fill u d = record {
    book =
        settle (record b { arena = d.arena; order_index = Map.remove o.id b.order_index }) o.side
          o.price u.level;
    done =
        reduce-take is o i ys whole fill enough
        ∙ rw (take_from_front, written)
            (rw (whole_fill, ◌>>=◌)
              (rw (rw whole_fill at u.done) (rw (head_is is o i ys whole) (rw d.done refl))));
    after =
        withdrawn is o i [] ys whole u.storage u.level u.is
          (λ a h ne. u.same a h ∙ put-SameBut b.arena.storage i _ a ne) d;
    counted =
        ap (λ m. length m + 1) (index-settle _ o.side o.price u.level)
        ∙ length-remove o.id b.order_index i (its_index is o i [] ys whole);
  }

  -- On a book, a fill of the whole quantity of a queue's front order answers 0, takes the order off
  -- its queue and out of the index, gives its node back, and leaves one order less.
  pub reduce-Gone : fill ≡ o.quantity → Gone
  reduce-Gone e =
      let u = pop_now (omega (arith, short is o i [] ys whole)) in
      assemble (omega (arith, e)) u (
        dealloc-Deallocated (record b.arena { storage = u.storage }) i _ v.free
          (IsPool-frame b.arena u.storage v.free
            (λ a h.
              u.same a (free_left is o i [] ys whole a h)
              ∙ put-SameBut b.arena.storage i _ a (free_ne a h))
            is.nodes.pool)
          (u.same i (not_in_rest is o i [] ys whole) ∙ put_self b.arena.storage i _)
          (not_in_free is o i [] ys whole) (its_bound is o i [] ys whole)
          (some_left is o i [] ys whole))
