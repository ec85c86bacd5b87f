-- ===== src/Arena.antt =====
-- src/arena.rs: the pool of order nodes, its free list, and the doubly linked queue of a price
-- level. An index out of range of `storage` is a panic, `none`. Counters wrap as in a release
-- build.
pub mod Chain
pub mod Relink
pub mod Level
pub mod Queue
pub mod Unlink
pub mod Pool
use velocity_match.Common.{
  ℕ, zero, suc, ◌+◌, ◌-◌, ◌%◌, ◌^◌, ℤ, pos, Option, none, some, Result, ok, err, ltb, ◌==◌,
  if◌then◌else◌,
}
use velocity_match.Common.Run.Panic.{◌>>=◌}
use velocity_match.Order.{Side, bid, Order}

pub data ArenaError : Type 0 where
  full : ArenaError

abbrev pub arena_null : ℕ
arena_null = 4294967295

abbrev pub default_capacity : ℕ
default_capacity = 1048576

-- The padding bytes are left out.
pub record OrderNode : Type 0 where
  pub id : ℕ
  pub trader_id : ℕ
  pub price : ℤ
  pub quantity : ℕ
  pub timestamp : ℕ
  pub prev : ℕ
  pub next : ℕ
  pub side : Side

abbrev pub zeroed : OrderNode
zeroed = record {
  id = 0;
  trader_id = 0;
  price = pos 0;
  quantity = 0;
  timestamp = 0;
  prev = arena_null;
  next = arena_null;
  side = bid;
}

abbrev pub from_order : Order → OrderNode
from_order o = record {
  id = o.id;
  trader_id = o.trader_id;
  price = o.price;
  quantity = o.quantity;
  timestamp = o.timestamp;
  prev = arena_null;
  next = arena_null;
  side = o.side;
}

abbrev pub to_order : OrderNode → Order
to_order n = record {
  id = n.id;
  trader_id = n.trader_id;
  side = n.side;
  price = n.price;
  quantity = n.quantity;
  timestamp = n.timestamp;
}

pub record PriceLevel : Type 0 where
  pub head : ℕ
  pub tail : ℕ
  pub count : ℕ
  pub qty : ℕ

abbrev pub empty_level : PriceLevel
empty_level = record { head = arena_null; tail = arena_null; count = 0; qty = 0 }

-- `Vec<OrderNode>` as the function from an index to its node; no node is out of range.
abbrev pub Storage : Type 0
Storage = ℕ → Option OrderNode

pub record Arena : Type 0 where
  pub storage : Storage
  pub free_head : ℕ
  pub count : ℕ
  pub capacity : ℕ

-- `storage[i] = n`
abbrev pub put : Storage → ℕ → OrderNode → Storage
put s i n j = if j == i then some n else s j

abbrev pub set_next : ℕ → OrderNode → OrderNode
set_next k n = record n { next = k }

abbrev pub set_prev : ℕ → OrderNode → OrderNode
set_prev k n = record n { prev = k }

abbrev pub set_quantity : ℕ → OrderNode → OrderNode
set_quantity q n = record n { quantity = q }

-- `storage[i].field = value`, a panic where `i` is out of range
unfoldable pub modify : Storage → ℕ → (OrderNode → OrderNode) → Option Storage
modify s i f = do n ← s i; some (put s i (f n))

-- The nodes that the loop of `new` pushes: each leads to the one after it.
unfoldable pub fresh_nodes : ℕ → ℕ → Storage
fresh_nodes capacity zero = λ j. none
fresh_nodes capacity (suc i) =
    put (fresh_nodes capacity i) i
      (set_next (if ltb (i + 1) capacity then i + 1 else arena_null) zeroed)

unfoldable pub new : ℕ → Arena
unfolding fresh_nodes
new capacity = record {
  storage = fresh_nodes capacity capacity;
  free_head = if ltb 0 capacity then 0 else arena_null;
  count = 0;
  capacity = capacity;
}

unfoldable pub alloc : Arena → Order → Option (Result ArenaError ℕ × Arena)
alloc a order = if a.free_head == arena_null then some (err full, a) else do
  n ← a.storage a.free_head
  some (
    ok a.free_head,
    record a {
      storage = put a.storage a.free_head (from_order order);
      free_head = n.next;
      count = (a.count + 1) % 2 ^ 32;
    },
  )

unfoldable pub dealloc : Arena → ℕ → Option Arena
unfolding modify
dealloc a index = do
  storage ← modify a.storage index (set_next a.free_head)
  some (record a { storage = storage; free_head = index; count = (a.count + 2 ^ 32 - 1) % 2 ^ 32 })

unfoldable pub push_back : Storage → PriceLevel → ℕ → Option (Storage × PriceLevel)
unfolding modify
push_back s level index = do
  n ← s index
  (s₁, head) ←
      if level.tail == arena_null
      then (do t ← modify s index (set_prev arena_null); some (t, index))
      else (do
        t ← modify s level.tail (set_next index)
        u ← modify t index (set_prev level.tail)
        some (u, level.head))
  s₂ ← modify s₁ index (set_next arena_null)
  some (
    s₂,
    record {
      head = head;
      tail = index;
      count = (level.count + 1) % 2 ^ 32;
      qty = (level.qty + n.quantity) % 2 ^ 64;
    },
  )

unfoldable pub pop_front : Storage → PriceLevel → Option (Option ℕ × Storage × PriceLevel)
unfolding modify
pop_front s level = if level.head == arena_null then some (none, s, level) else do
  n ← s level.head
  (s₁, head, tail) ←
      if n.next == arena_null
      then some (s, arena_null, arena_null)
      else (do t ← modify s n.next (set_prev arena_null); some (t, n.next, level.tail))
  some (
    some level.head,
    s₁,
    record {
      head = head;
      tail = tail;
      count = (level.count + 2 ^ 32 - 1) % 2 ^ 32;
      qty = (level.qty + 2 ^ 64 - n.quantity) % 2 ^ 64;
    },
  )

unfoldable pub remove : Storage → PriceLevel → ℕ → Option (Storage × PriceLevel)
unfolding modify
remove s level index = do
  n ← s index
  (s₁, head) ←
      if n.prev == arena_null
      then some (s, n.next)
      else (do t ← modify s n.prev (set_next n.next); some (t, level.head))
  (s₂, tail) ←
      if n.next == arena_null
      then some (s₁, n.prev)
      else (do t ← modify s₁ n.next (set_prev n.prev); some (t, level.tail))
  some (
    s₂,
    record {
      head = head;
      tail = tail;
      count = (level.count + 2 ^ 32 - 1) % 2 ^ 32;
      qty = (level.qty + 2 ^ 64 - n.quantity) % 2 ^ 64;
    },
  )
