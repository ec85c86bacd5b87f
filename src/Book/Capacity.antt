-- ===== src/Book/Capacity.antt =====
-- No operation changes the number of nodes of the arena.
use velocity_match.Common.{
  ℕ, ℤ, ◌-◌, ◌≡◌, refl, Bool-cases, Option, Option-cases, Result, Result-cases, inl, inr, ◌∙◌, ◌==◌,
  ltb,
}
use velocity_match.Common.Map.{id_key, price_key, Map, lookup}
use velocity_match.Common.Run.After.{After, leaves, After-bind, After-then, After-if}
use velocity_match.Order.{Side, bid, ask, Order}
use velocity_match.Arena
use velocity_match.Arena.{
  ArenaError, Arena, PriceLevel, OrderNode, arena_null, set_quantity, modify, pop_front, push_back,
  alloc, dealloc, to_order,
}
use velocity_match.Book.{
  BookError, OrderBook, level_or_new, insert_order, update_best_after_insert, settle, cancel_order,
  take_from_front, reduce_front_quantity, set_levels, set_best, levels,
}

-- A reply whose book has `n` nodes.
abbrev pub HasCapacity : (A : Type 0) → ℕ → A × OrderBook → Type 0
HasCapacity A n (_, b) = b.arena.capacity ≡ n

alloc-capacity :
    (a : Arena) (o : Order)
    → After (λ (x : Result ArenaError ℕ × Arena). x.1.capacity ≡ a.capacity) (alloc a o)
unfolding alloc
alloc-capacity a o =
    After-if (a.free_head == arena_null) (leaves refl)
      (After-then (a.storage a.free_head) (λ n. leaves refl))

dealloc-capacity :
    (a : Arena) (index : ℕ) → After (λ (x : Arena). x.capacity ≡ a.capacity) (dealloc a index)
unfolding dealloc
dealloc-capacity a index =
    After-then (Arena.modify a.storage index (Arena.set_next a.free_head)) (λ s. leaves refl)

set_levels-capacity :
    (b : OrderBook) (s : Side) (m : Map ℤ PriceLevel)
    → (set_levels b s m).arena.capacity ≡ b.arena.capacity
set_levels-capacity b bid m = refl
set_levels-capacity b ask m = refl

set_best-capacity :
    (b : OrderBook) (s : Side) (p : Option ℤ) → (set_best b s p).arena.capacity ≡ b.arena.capacity
set_best-capacity b bid p = refl
set_best-capacity b ask p = refl

settle-capacity :
    (b : OrderBook) (s : Side) (p : ℤ) (l : PriceLevel)
    → (settle b s p l).arena.capacity ≡ b.arena.capacity
unfolding settle
settle-capacity b s p l = elim (Bool-cases (l.count == 0)) [
  | inl none_left ↦ rw none_left (set_best-capacity _ s _ ∙ set_levels-capacity b s _)
  | inr some_left ↦ rw some_left (set_levels-capacity b s _)
]

pub insert_order-capacity :
    (b : OrderBook) (o : Order)
    → After (HasCapacity (Result BookError (Unit {0})) b.arena.capacity) (insert_order b o)
unfolding insert_order update_best_after_insert
insert_order-capacity b o = elim (Option-cases (lookup o.id b.order_index)) [
  | inr (i, known) ↦ rw (insert_order, known) (leaves refl)
  | inl new ↦
      rw (insert_order, new)
        (After-bind (alloc-capacity b.arena o) λ x h. elim (Result-cases x.0) [
          | inr (e, full) ↦ rw full (leaves h)
          | inl (i, placed) ↦ rw placed (
              After-then (push_back x.1.storage (level_or_new o.price (levels b o.side)) i)
                λ y. leaves (set_best-capacity _ o.side _ ∙ h))
        ])
]

pub cancel_order-capacity :
    (b : OrderBook) (id : ℕ)
    → After (HasCapacity (Result BookError Order) b.arena.capacity) (cancel_order b id)
unfolding cancel_order
cancel_order-capacity b id = elim (Option-cases (lookup id b.order_index)) [
  | inl unknown ↦ rw (cancel_order, unknown) (leaves refl)
  | inr (i, known) ↦
      rw (cancel_order, known)
        (After-then (b.arena.storage i) λ node.
          elim (Option-cases (lookup node.price (levels b node.side))) [
            | inl no_level ↦ rw no_level (leaves refl)
            | inr (level, there) ↦ rw there (
                After-then (Arena.remove b.arena.storage level i) λ r.
                  After-bind (dealloc-capacity (record b.arena { storage = r.0 }) i)
                    λ a h. leaves (settle-capacity _ node.side node.price r.1 ∙ h))
          ])
]

take_from_front-capacity :
    (b : OrderBook) (s : Side) (p : ℤ) (n : ℕ) (level : PriceLevel) (front : OrderNode)
    → After
        (HasCapacity (Result BookError ℕ) b.arena.capacity)
        (take_from_front b s p n level front)
unfolding take_from_front
take_from_front-capacity b s p n level front =
    After-then (modify b.arena.storage level.head (set_quantity (front.quantity - n))) λ storage.
      After-if (front.quantity - n == 0)
        (After-then (pop_front storage _) λ popped.
          After-bind (dealloc-capacity (record b.arena { storage = popped.1 }) level.head)
            λ a h. leaves (settle-capacity _ s p popped.2 ∙ h))
        (leaves (set_levels-capacity _ s _))

pub reduce_front_quantity-capacity :
    (b : OrderBook) (s : Side) (p : ℤ) (n : ℕ)
    → After (HasCapacity (Result BookError ℕ) b.arena.capacity) (reduce_front_quantity b s p n)
unfolding reduce_front_quantity
reduce_front_quantity-capacity b s p n = elim (Option-cases (lookup p (levels b s))) [
  | inl no_level ↦ rw (reduce_front_quantity, no_level) (leaves refl)
  | inr (level, there) ↦
      rw (reduce_front_quantity, there)
        (After-if (level.head == arena_null) (leaves refl) (
          After-then (b.arena.storage level.head) λ front.
            After-if (ltb front.quantity n) (leaves refl)
              (take_from_front-capacity b s p n level front)))
]
