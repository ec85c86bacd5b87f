-- ===== src/Book/Cancel.antt =====
-- `cancel_order`: what it refuses, and what it leaves.
use velocity_match.Common.{
  ℕ, ℤ, ◌^◌, ◌<◌, ◌≡◌, refl, ◌≢◌, inl, true, false, none, some, [], ◌∷◌, ◌++◌, arith, ◌==◌, ==_ne,
  length, sym, ◌∙◌, ap, subst, ok, err,
}
use velocity_match.Common.Map
use velocity_match.Common.Map.{id_key, price_key, Map, lookup}
use velocity_match.Common.Map.Laws.{length-remove}
use velocity_match.Common.Run.Panic.{◌>>=◌}
use velocity_match.Order.{Side, Order}
use velocity_match.Arena
use velocity_match.Arena.{OrderNode, Storage, PriceLevel, arena_null}
use velocity_match.Arena.Chain.{Cells, has, node, head_or, last_or, Chain-right}
use velocity_match.Arena.Level.{IsLevel, Became}
use velocity_match.Arena.Unlink.{remove-Became, has_drop}
use velocity_match.Arena.Pool.{contains, Deallocated, dealloc-Deallocated}
use velocity_match.Book.{OrderBook, settle, cancel_order, order_not_found}
use velocity_match.Book.View.{View, In, IsBook, same_place}
use velocity_match.Book.Cells.{In-right, IsLevelOf_frame}
use velocity_match.Book.Levels.{settle-Step}
use velocity_match.Book.Frame.{
  IsPool-frame, apart, not_free, free_apart, level_frame, length-queue, IsBook_of, arena-settle,
  index-settle, LevelOf, queue-LevelOf, IsLevelOf_settled,
}
use velocity_match.Book.Withdraw.{
  without_order, IsNodes-without_order, not-has-drop, has_self, ne_of_has,
}

-- An id that the index does not know is refused, and nothing changes.
pub cancel-unknown :
    (b : OrderBook) (id : ℕ)
    → lookup id b.order_index ≡ none
    → cancel_order b id ≡ some (err (order_not_found id), b)
unfolding cancel_order
cancel-unknown b id h = rw (h, cancel_order)

module _ {b : OrderBook} {v : View} (is : IsBook b v) (o : Order) (i : ℕ) (xs ys : Cells)
    (whole : v.queue o.side o.price ≡ xs ++ ((i, o) ∷ ys)) where
  middle_ne_nil : (xs : Cells) → xs ++ ((i, o) ∷ ys) ≢ []
  middle_ne_nil [] e = cc
  middle_ne_nil (x ∷ xs) e = cc

  pub its_level : LevelOf b o.side o.price (xs ++ ((i, o) ∷ ys))
  its_level = queue-LevelOf is o.side o.price _ whole (middle_ne_nil xs)

  pub its_node : b.arena.storage i ≡ some (node o (last_or arena_null xs) (head_or arena_null ys))
  its_node =
      (Chain-right b.arena.storage arena_null xs ((i, o) ∷ ys) arena_null its_level.is.chain).0

  its_place : In (i, o) (v.queue o.side o.price)
  its_place = subst (In (i, o)) (sym whole) (In-right (i, o) xs ((i, o) ∷ ys) (inl refl))

  pub some_left : 0 < b.arena.count
  some_left = omega (
    arith,
    is.nodes.counted,
    length-remove o.id b.order_index i (is.nodes.cells o.side o.price (i, o) its_place).indexed,
  )

  pub apart_left :
      (s : Side) (p : ℤ) (a : ℕ)
      → same_place s p o.side o.price ≡ false
      → has a (v.queue s p) ≡ true
      → has a (xs ++ ys) ≡ false
  apart_left s p a off h =
      has_drop a xs (i, o) ys
        (subst (λ l. has a l ≡ false) whole (apart is.nodes s p o.side o.price a off h))

  pub free_left : (a : ℕ) → contains a v.free ≡ true → has a (xs ++ ys) ≡ false
  free_left a h =
      has_drop a xs (i, o) ys
        (subst (λ l. has a l ≡ false) whole (free_apart is.nodes o.side o.price a h))

  pub off_node :
      (s : Side) (p : ℤ) (a : ℕ)
      → same_place s p o.side o.price ≡ false
      → has a (v.queue s p) ≡ true
      → (a == i) ≡ false
  off_node s p a off h = ==_ne a i λ e. true≢false (
      sym (subst (λ l. has i l ≡ true) (sym whole) (has_self i o xs ys))
      ∙ ap (λ c. has c (v.queue o.side o.price)) (sym e)
      ∙ apart is.nodes s p o.side o.price a off h)
    where
      true≢false : true ≢ false
      true≢false e = cc

  pub not_in_rest : has i (xs ++ ys) ≡ false
  not_in_rest = not-has-drop xs i o ys its_level.is.distinct

  pub not_in_free : contains i v.free ≡ false
  not_in_free =
      not_free is.nodes o.side o.price i
        (subst (λ l. has i l ≡ true) (sym whole) (has_self i o xs ys))

  pub its_bound : i < b.arena.capacity
  its_bound = (is.nodes.cells o.side o.price (i, o) its_place).below

  pub its_fit : o.quantity < 2 ^ 64
  its_fit = (is.nodes.cells o.side o.price (i, o) its_place).fits

  pub its_index : lookup o.id b.order_index ≡ some i
  its_index = (is.nodes.cells o.side o.price (i, o) its_place).indexed

  pub short : length (xs ++ ((i, o) ∷ ys)) < 2 ^ 32
  short = subst (λ (l : Cells). length l < 2 ^ 32) whole (length-queue is o.side o.price)

  -- The book after the node is unlinked and given back, whichever operation did it.
  pub withdrawn :
      (s : Storage) (l : PriceLevel)
      → IsLevel s l (xs ++ ys)
      → ((a : ℕ) → has a (xs ++ ys) ≡ false → (a == i) ≡ false → s a ≡ b.arena.storage a)
      → (d : Deallocated (record b.arena { storage = s }) i v.free)
      → IsBook
          (settle
            (record b { arena = d.arena; order_index = Map.remove o.id b.order_index })
            o.side
            o.price
            l)
          (without_order v o i xs ys)
  withdrawn s l now same d =
      let index = Map.remove o.id b.order_index in
      IsBook_of d.arena index (arena-settle _ o.side o.price l) (index-settle _ o.side o.price l)
        (settle-Step b d.arena index is.sorted is.best_is o.side o.price its_level.level l
          its_level.found)
        (level_frame d.arena.storage (xs ++ ys) is
          (settle-Step b d.arena index is.sorted is.best_is o.side o.price its_level.level l
            its_level.found)
          (IsLevelOf_frame s d.arena.storage _ (xs ++ ys)
            (λ a h. d.same a (ne_of_has a i (xs ++ ys) h not_in_rest))
            (IsLevelOf_settled s l (xs ++ ys) now))
          (λ t p a off h.
            d.same a (off_node t p a off h)
            ∙ same a (apart_left t p a off h) (off_node t p a off h)))
        (IsNodes-without_order is.nodes o i xs ys whole its_level.is.distinct d.arena d.pool
          d.same_capacity d.counted)

  -- What `cancel_order` leaves.
  pub record Cancelled : Type 0 where
    pub book : OrderBook
    pub done : cancel_order b o.id ≡ some (ok o, book)
    pub after : IsBook book (without_order v o i xs ys)

  assemble :
      (u : Became b.arena.storage
        (xs ++ ys)
        (xs ++ ys)
        (λ t l. Arena.remove b.arena.storage its_level.level i ≡ some (t, l)))
      → Deallocated (record b.arena { storage = u.storage }) i v.free
      → Cancelled
  unfolding cancel_order
  assemble u d = record {
    book =
        settle (record b { arena = d.arena; order_index = Map.remove o.id b.order_index }) o.side
          o.price u.level;
    done =
        rw (cancel_order, its_index)
          (rw its_node (rw (its_level.found, ◌>>=◌) (rw (u.done) (rw (d.done) refl))));
    after = withdrawn u.storage u.level u.is (λ a h ne. u.same a h) d;
  }

  -- On a book, cancelling an order that rests anywhere in its queue returns that order, and leaves a
  -- book that stands for the view without it, its node the first free one.
  pub cancel-Cancelled : Cancelled
  cancel-Cancelled =
      let u = remove-Became b.arena.storage its_level.level xs i o ys its_level.is short its_fit in
      assemble u (
        dealloc-Deallocated (record b.arena { storage = u.storage }) i _ v.free
          (IsPool-frame b.arena u.storage v.free (λ a h. u.same a (free_left a h)) is.nodes.pool)
          (u.same i not_in_rest ∙ its_node) not_in_free its_bound some_left)
