-- ===== src/Book/View.antt =====
-- What the arena, the level maps and the index stand for: a queue of orders for each side and
-- price, the free nodes, and who owns each node.
use velocity_match.Common.{
  ℕ, ℤ, ◌^◌, ◌<◌, ◌≡◌, ◌≢◌, ◌⊎◌, Bool, true, Option, none, some, List, [], ◌∷◌, ◌&&◌, eqb_ℤ, ◌==◌,
  if◌then◌else◌, length,
}
use velocity_match.Common.Map.{id_key, price_key, Map, lookup, IsSorted}
use velocity_match.Order.{Side, same_side, Order}
use velocity_match.Arena.{Arena, Storage, PriceLevel}
use velocity_match.Arena.Chain.{Cells, has}
use velocity_match.Arena.Level.{IsLevel}
use velocity_match.Arena.Pool.{IsPool, contains}
use velocity_match.Book.{OrderBook, levels, best, end_key}

abbrev pub Queues : Type 0
Queues = Side → ℤ → Cells

-- The owner of a node in use is the side and price of its queue.
abbrev pub Owner : Type 0
Owner = ℕ → Option (Side × ℤ)

pub record View : Type 0 where
  pub queue : Queues
  pub free : List ℕ
  pub owner : Owner

abbrev pub same_place : Side → ℤ → Side → ℤ → Bool
same_place s p side price = same_side s side && eqb_ℤ p price

-- The queues with that of one side and price replaced.
abbrev pub set_queue : Queues → Side → ℤ → Cells → Queues
set_queue q side price xs s p = if same_place s p side price then xs else q s p

abbrev pub set_owner : Owner → ℕ → Option (Side × ℤ) → Owner
set_owner w i o j = if j == i then o else w j

abbrev pub In : ℕ × Order → Cells → Type 0
In c [] = ⊥
In c (x ∷ xs) = (c ≡ x) ⊎ In c xs

abbrev pub IsLevelOf : Storage → Option PriceLevel → Cells → Type 0
IsLevelOf s none xs = xs ≡ []
IsLevelOf s (some l) xs = IsLevel s l xs × (xs ≢ [])

-- A resting order stands in the queue of its side and price, and the index leads to its node.
pub record IsCell (capacity : ℕ) (index : Map ℕ ℕ) (side : Side) (price : ℤ) (c : ℕ × Order)
    : Type 0 where
  pub side_is : c.1.side ≡ side
  pub price_is : c.1.price ≡ price
  pub positive : 0 < c.1.quantity
  pub fits : c.1.quantity < 2 ^ 64
  pub below : c.0 < capacity
  pub indexed : lookup c.1.id index ≡ some c.0

-- The resting order that the index finds under an id.
pub record Located (q : Queues) (id i : ℕ) : Type 0 where
  pub order : Order
  pub id_is : order.id ≡ id
  pub within : In (i, order) (q order.side order.price)

-- The nodes, the free list and the index agree with the queues.
pub record IsNodes (arena : Arena) (index : Map ℕ ℕ) (v : View) : Type 0 where
  pub cells :
      (s : Side) (p : ℤ) (c : ℕ × Order) → In c (v.queue s p) → IsCell arena.capacity index s p c
  pub located : (id i : ℕ) → lookup id index ≡ some i → Located v.queue id i
  pub owned : (s : Side) (p : ℤ) (a : ℕ) → has a (v.queue s p) ≡ true → v.owner a ≡ some (s, p)
  pub unowned : (a : ℕ) → contains a v.free ≡ true → v.owner a ≡ none
  pub pool : IsPool arena v.free
  pub counted : arena.count ≡ length index
  pub index_sorted : IsSorted index

-- The book `b` stands for the view `v`: each queue is that of its price level, the nodes agree,
-- the maps are in order, and the cached best prices are those of the maps.
pub record IsBook (b : OrderBook) (v : View) : Type 0 where
  pub level : (s : Side) (p : ℤ) → IsLevelOf b.arena.storage (lookup p (levels b s)) (v.queue s p)
  pub nodes : IsNodes b.arena b.order_index v
  pub sorted : (s : Side) → IsSorted (levels b s)
  pub best_is : (s : Side) → best b s ≡ end_key s (levels b s)
