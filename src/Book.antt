-- ===== src/Book.antt =====
-- src/book.rs: the order book over the arena. A method returns its result with the book that it
-- leaves, also where it fails; the outer `none` is a panic (an index out of range).
pub mod View
pub mod Cells
pub mod Bound
pub mod Levels
pub mod Frame
pub mod Place
pub mod Capacity
pub mod Insert
pub mod Withdraw
pub mod Cancel
pub mod Peek
pub mod Partial
pub mod Reduce
pub mod Start
pub mod Listing
pub mod Placed
pub mod Pieces
pub mod Catalog
use velocity_match.Common.{
  ℕ, zero, suc, ◌+◌, ◌-◌, ◌%◌, ◌^◌, ℤ, Bool, true, false, Option, none, some, Result, ok, err, ltb,
  ◌==◌, if◌then◌else◌, max_ℤ, min_ℤ, List, [], ◌∷◌, ◌++◌, length,
}
use velocity_match.Common.Map
use velocity_match.Common.Map.{id_key, price_key, Map, lookup, insert, first_key, last_key}
use velocity_match.Common.Run.Panic.{◌>>=◌}
use velocity_match.Order.{Side, bid, ask, Order}
use velocity_match.Arena
use velocity_match.Arena.{
  ArenaError, OrderNode, PriceLevel, Storage, Arena, arena_null, default_capacity, empty_level,
  to_order, modify, set_quantity, alloc, dealloc, push_back, pop_front,
}

pub data BookError : Type 0 where
  duplicate_order_id : ℕ → BookError
  order_not_found : ℕ → BookError
  price_level_not_found : ℤ → BookError
  fill_exceeds_quantity : (available requested : ℕ) → BookError
  arena_full : BookError

pub record OrderBook : Type 0 where
  pub bids : Map ℤ PriceLevel
  pub asks : Map ℤ PriceLevel
  pub best_bid : Option ℤ
  pub best_ask : Option ℤ
  pub order_index : Map ℕ ℕ
  pub arena : Arena

-- A method's result and the book that it leaves.
abbrev pub Reply : Type 0 → Type 0
Reply A = Option (Result BookError A × OrderBook)

unfoldable pub with_capacity : ℕ → OrderBook
with_capacity arena_capacity = record {
  bids = [];
  asks = [];
  best_bid = none;
  best_ask = none;
  order_index = [];
  arena = Arena.new arena_capacity;
}

unfoldable pub new : OrderBook
unfolding with_capacity
new = with_capacity default_capacity

abbrev pub order_count : OrderBook → ℕ
order_count b = length b.order_index

abbrev pub levels : OrderBook → Side → Map ℤ PriceLevel
levels b bid = b.bids
levels b ask = b.asks

abbrev pub best : OrderBook → Side → Option ℤ
best b bid = b.best_bid
best b ask = b.best_ask

abbrev pub set_levels : OrderBook → Side → Map ℤ PriceLevel → OrderBook
set_levels b bid m = record b { bids = m }
set_levels b ask m = record b { asks = m }

abbrev pub set_best : OrderBook → Side → Option ℤ → OrderBook
set_best b bid p = record b { best_bid = p }
set_best b ask p = record b { best_ask = p }

-- The best price of a side's levels, from their order.
abbrev pub end_key : Side → Map ℤ PriceLevel → Option ℤ
end_key bid m = last_key m
end_key ask m = first_key m

abbrev pub better : Side → Option ℤ → ℤ → ℤ
better side none price = price
better bid (some b) price = max_ℤ b price
better ask (some a) price = min_ℤ a price

unfoldable pub update_best_after_insert : OrderBook → Side → ℤ → OrderBook
update_best_after_insert b side price = set_best b side (some (better side (best b side) price))

-- `entry(price).or_insert_with(PriceLevel::new)`
abbrev pub level_or_new : ℤ → Map ℤ PriceLevel → PriceLevel
level_or_new price m = elim (lookup price m) [ none ↦ empty_level | some l ↦ l ]

unfoldable pub insert_order : OrderBook → Order → Reply (Unit {0})
unfolding update_best_after_insert
insert_order b order = elim (lookup order.id b.order_index) [
  | some _ ↦ some (err (duplicate_order_id order.id), b)
  | none ↦ do
    (allocated, arena) ← alloc b.arena order
    elim allocated [
      | err _ ↦ some (err arena_full, record b { arena = arena })
      | ok index ↦ do
        let m = levels b order.side
        (storage, level) ← push_back arena.storage (level_or_new order.price m) index
        let b₁ = set_levels b order.side (insert order.price level m)
        let b₂ = record b₁ {
          arena = record arena { storage = storage };
          order_index = insert order.id index b.order_index;
        }
        some (ok tt, update_best_after_insert b₂ order.side order.price)
    ]
]

-- What follows the loss of an order: an empty level is dropped and the best price is read off the
-- levels that are left; any other level stays as it is now.
unfoldable pub settle : OrderBook → Side → ℤ → PriceLevel → OrderBook
settle b side price level =
    let left = Map.remove price (levels b side) in
    if level.count == 0
    then set_best (set_levels b side left) side (end_key side left)
    else set_levels b side (insert price level (levels b side))

unfoldable pub cancel_order : OrderBook → ℕ → Reply Order
unfolding settle
cancel_order b order_id = elim (lookup order_id b.order_index) [
  | none ↦ some (err (order_not_found order_id), b)
  | some index ↦ do
    let b₁ = record b { order_index = Map.remove order_id b.order_index }
    node ← b.arena.storage index
    let order = to_order node
    elim (lookup order.price (levels b order.side)) [
      | none ↦ some (err (price_level_not_found order.price), b₁)
      | some level ↦ do
        (storage, level₁) ← Arena.remove b.arena.storage level index
        arena ← dealloc (record b.arena { storage = storage }) index
        some (ok order, settle (record b₁ { arena = arena }) order.side order.price level₁)
    ]
]

unfoldable pub peek_front : OrderBook → Side → ℤ → Option (Option OrderNode)
peek_front b side price = elim (lookup price (levels b side)) [
  | none ↦ some none
  | some level ↦
      if level.head == arena_null
      then some none
      else (do node ← b.arena.storage level.head; some (some node))
]

-- The part of `reduce_front_quantity` behind its checks.
unfoldable pub take_from_front : OrderBook → Side → ℤ → ℕ → PriceLevel → OrderNode → Reply ℕ
unfolding settle
take_from_front b side price fill_qty level front = do
  let remaining = front.quantity - fill_qty
  storage ← modify b.arena.storage level.head (set_quantity remaining)
  let level₁ = record level { qty = (level.qty + 2 ^ 64 - fill_qty) % 2 ^ 64 }
  if remaining == 0
      then (do
        (_, storage₂, level₂) ← pop_front storage level₁
        arena ← dealloc (record b.arena { storage = storage₂ }) level.head
        let b₁ = record b { arena = arena; order_index = Map.remove front.id b.order_index }
        some (ok 0, settle b₁ side price level₂))
      else (let b₁ = record b { arena = record b.arena { storage = storage } } in
          some (ok remaining, set_levels b₁ side (insert price level₁ (levels b side))))

unfoldable pub reduce_front_quantity : OrderBook → Side → ℤ → ℕ → Reply ℕ
unfolding take_from_front
reduce_front_quantity b side price fill_qty = elim (lookup price (levels b side)) [
  | none ↦ some (err (price_level_not_found price), b)
  | some level ↦
      if level.head == arena_null then some (err (price_level_not_found price), b) else (do
        front ← b.arena.storage level.head
        if ltb front.quantity fill_qty
            then some (err (fill_exceeds_quantity front.quantity fill_qty), b)
            else take_from_front b side price fill_qty level front)
]

-- The walk along one level. A chain visits each node at most once, so `capacity` rounds and one
-- more are enough; `none` is a panic or a walk that goes on.
unfoldable pub walk : ℕ → Storage → ℕ → Option (List Order)
walk zero s idx = none
walk (suc fuel) s idx =
    if idx == arena_null
    then some []
    else do node ← s idx; rest ← walk fuel s node.next; some (to_order node ∷ rest)

unfoldable pub walk_levels : ℕ → Storage → Map ℤ PriceLevel → Option (List Order)
unfolding walk
walk_levels fuel s [] = some []
walk_levels fuel s ((_, level) ∷ m) = do
  here ← walk fuel s level.head
  rest ← walk_levels fuel s m
  some (here ++ rest)

-- `values().rev()`
unfoldable pub walk_levels_rev : ℕ → Storage → Map ℤ PriceLevel → Option (List Order)
unfolding walk
walk_levels_rev fuel s [] = some []
walk_levels_rev fuel s ((_, level) ∷ m) = do
  rest ← walk_levels_rev fuel s m
  here ← walk fuel s level.head
  some (rest ++ here)

-- Asks ascending price, then bids descending price; FIFO within each level.
unfoldable pub all_resting_orders : OrderBook → Option (List Order)
unfolding walk_levels walk_levels_rev
all_resting_orders b = do
  asks ← walk_levels (b.arena.capacity + 1) b.arena.storage b.asks
  bids ← walk_levels_rev (b.arena.capacity + 1) b.arena.storage b.bids
  some (asks ++ bids)
