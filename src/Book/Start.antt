-- ===== src/Book/Start.antt =====
-- The book that `with_capacity` makes.
use velocity_match.Common.{ℕ, ◌≤◌, refl, none, []}
use velocity_match.Common.Map.{id_key, price_key, lookup, first_key, last_key}
use velocity_match.Order.{bid, ask}
use velocity_match.Arena
use velocity_match.Arena.{arena_null}
use velocity_match.Arena.Pool.{upto, new-IsPool}
use velocity_match.Book.{with_capacity}
use velocity_match.Book.View.{View, IsBook}

abbrev pub empty_view : ℕ → View
empty_view capacity = record { queue = λ s p. []; free = upto 0 capacity; owner = λ i. none }

-- A new book, at any capacity that a `u32` index can address, stands for the view with no order
-- and every node free.
pub with_capacity-IsBook :
    (capacity : ℕ) → capacity ≤ arena_null → IsBook (with_capacity capacity) (empty_view capacity)
unfolding with_capacity lookup first_key last_key Arena.new
with_capacity-IsBook capacity h = record {
  level = elim [ bid ↦ λ p. refl | ask ↦ λ p. refl ];
  nodes = record {
    cells = λ s p c k. absurd k;
    located = λ id i k. cc;
    owned = λ s p a k. cc;
    unowned = λ a k. refl;
    pool = new-IsPool capacity h;
    counted = refl;
    index_sorted = tt;
  };
  sorted = elim [ bid ↦ tt | ask ↦ tt ];
  best_is = elim [ bid ↦ refl | ask ↦ refl ];
}
