-- ===== src/Book/Peek.antt =====
-- The front of a queue: `peek_front`, and what `reduce_front_quantity` refuses.
use velocity_match.Common.{
  ℕ, ℤ, ◌<◌, ◌≤◌, ◌≡◌, refl, false, Option, none, some, [], ◌∷◌, arith, ◌==◌, ==_ne, lt→ltb, le→ltb,
  subst, err,
}
use velocity_match.Common.Map.{id_key, price_key, lookup}
use velocity_match.Common.Run.Panic.{◌>>=◌}
use velocity_match.Order.{Side, Order}
use velocity_match.Arena.{PriceLevel, arena_null}
use velocity_match.Arena.Chain.{Cells, node, head_or}
use velocity_match.Book.{
  OrderBook, levels, peek_front, reduce_front_quantity, take_from_front, price_level_not_found,
  fill_exceeds_quantity,
}
use velocity_match.Book.View.{View, IsBook, IsLevelOf}
use velocity_match.Book.Cancel.{its_level, its_node, its_bound}

level_of_nothing :
    (b : OrderBook) (s : Side) (p : ℤ) (o : Option PriceLevel)
    → lookup p (levels b s) ≡ o
    → IsLevelOf b.arena.storage o []
    → lookup p (levels b s) ≡ none
level_of_nothing b s p none e at = e
level_of_nothing b s p (some l) e at = absurd (at.1 refl)

no_level :
    {b : OrderBook} {v : View}
    → IsBook b v
    → (s : Side) (p : ℤ) → v.queue s p ≡ []
    → lookup p (levels b s) ≡ none
no_level {b} is s p e =
    level_of_nothing b s p _ refl (subst (IsLevelOf b.arena.storage _) e (is.level s p))

-- Where no order rests at a price, there is no front.
pub peek-nothing :
    {b : OrderBook} {v : View}
    → IsBook b v
    → (s : Side) (p : ℤ) → v.queue s p ≡ []
    → peek_front b s p ≡ some none
unfolding peek_front
peek-nothing is s p e = rw (no_level is s p e, peek_front)

pub reduce-nothing :
    {b : OrderBook} {v : View}
    → IsBook b v
    → (s : Side) (p : ℤ) (fill : ℕ) → v.queue s p ≡ []
    → reduce_front_quantity b s p fill ≡ some (err (price_level_not_found p), b)
unfolding reduce_front_quantity
reduce-nothing is s p fill e = rw (no_level is s p e, reduce_front_quantity)

module _ {b : OrderBook} {v : View} (is : IsBook b v) (o : Order) (i : ℕ) (ys : Cells)
    (whole : v.queue o.side o.price ≡ (i, o) ∷ ys) where
  pub head_is : (its_level is o i [] ys whole).level.head ≡ i
  head_is = (its_level is o i [] ys whole).is.head

  pub head_ne_null : ((its_level is o i [] ys whole).level.head == arena_null) ≡ false
  head_ne_null =
      rw head_is
        (==_ne i arena_null (omega (arith, its_bound is o i [] ys whole, is.nodes.pool.capacity)))

  -- On a book, the front of a queue that orders rest in is the node of its oldest order.
  pub peek-front :
      peek_front b o.side o.price ≡ some (some (node o arena_null (head_or arena_null ys)))
  unfolding peek_front
  peek-front =
      rw (peek_front, (its_level is o i [] ys whole).found)
        (rw head_ne_null (rw head_is (rw (its_node is o i [] ys whole) refl)))

  -- On a book, a fill larger than the front order is refused, and nothing changes.
  pub reduce-too_much :
      (fill : ℕ)
      → o.quantity < fill
      → reduce_front_quantity b o.side o.price fill
        ≡ some (err (fill_exceeds_quantity o.quantity fill), b)
  unfolding reduce_front_quantity
  reduce-too_much fill h =
      rw (reduce_front_quantity, (its_level is o i [] ys whole).found)
        (rw head_ne_null (
          rw head_is
            (rw (its_node is o i [] ys whole) (rw (lt→ltb o.quantity fill h, ◌>>=◌) refl))))

  pub reduce-take :
      (fill : ℕ)
      → fill ≤ o.quantity
      → reduce_front_quantity b o.side o.price fill
        ≡ take_from_front b o.side o.price fill
            (its_level is o i [] ys whole).level
            (node o arena_null (head_or arena_null ys))
  unfolding reduce_front_quantity
  reduce-take fill h =
      rw (reduce_front_quantity, (its_level is o i [] ys whole).found)
        (rw head_ne_null (
          rw head_is
            (rw (its_node is o i [] ys whole) (rw (le→ltb o.quantity fill h, ◌>>=◌) refl))))
