-- ===== src/Book/Frame.antt =====
-- What every operation shares: queues of different places and the free list have no node in
-- common, and a change at one place leaves the other levels as they are.
use velocity_match.Common.{
  ℕ, ℤ, ◌^◌, ◌<◌, ◌≡◌, refl, ◌≢◌, inl, inr, true, false, Option, none, some, List, [], ◌∷◌, arith,
  ◌==◌, ==_ne, if◌then◌else◌, length, Bool-cases, sym, ◌∙◌, subst,
}
use velocity_match.Common.Map.{id_key, price_key, Map, lookup}
use velocity_match.Order.{Side, bid, ask}
use velocity_match.Arena.{Arena, Storage, PriceLevel}
use velocity_match.Arena.Chain.{Cells, has}
use velocity_match.Arena.Level.{IsLevel}
use velocity_match.Arena.Pool.{IsPool, contains, FreeChain-frame}
use velocity_match.Book.{OrderBook, levels, set_levels, set_best, settle, update_best_after_insert}
use velocity_match.Book.View.{View, IsBook, IsNodes, IsLevelOf, same_place, set_queue}
use velocity_match.Book.Cells.{
  IsLevelOf_frame, Place-cases, same_place_refl, In-has, IsLevelOf-IsDistinct,
}
use velocity_match.Book.Levels.{Step}
use velocity_match.Book.Bound.{length-le_of_distinct}

true≢false : true ≢ false
true≢false h = cc

place_of_owner : (x y : Side × ℤ) → some x ≡ some y → same_place x.0 x.1 y.0 y.1 ≡ true
place_of_owner x y e =
    subst (λ (z : Side × ℤ). same_place x.0 x.1 z.0 z.1 ≡ true) (inner x y e)
      (same_place_refl x.0 x.1)
  where
    inner : (x y : Side × ℤ) → some x ≡ some y → x ≡ y
    inner x y e = cc

pub IsPool-frame :
    (a : Arena) (t : Storage) (free : List ℕ)
    → ((i : ℕ) → contains i free ≡ true → t i ≡ a.storage i)
    → IsPool a free
    → IsPool (record a { storage = t }) free
IsPool-frame a t free same v = record {
  chain = FreeChain-frame a.storage t a.free_head free same v.chain;
  below = v.below;
  distinct = v.distinct;
  count = v.count;
  capacity = v.capacity;
}

module _ {arena : Arena} {index : Map ℕ ℕ} {v : View} (n : IsNodes arena index v) where
  pub apart :
      (s : Side) (p : ℤ) (side : Side) (price : ℤ) (a : ℕ)
      → same_place s p side price ≡ false
      → has a (v.queue s p) ≡ true
      → has a (v.queue side price) ≡ false
  apart s p side price a off h = elim (Bool-cases (has a (v.queue side price))) [
    | inr e ↦ e
    | inl e ↦ absurd (
        true≢false (
          sym (place_of_owner (s, p) (side, price) (sym (n.owned s p a h) ∙ n.owned side price a e))
          ∙ off))
  ]

  pub free_apart :
      (s : Side) (p : ℤ) (a : ℕ) → contains a v.free ≡ true → has a (v.queue s p) ≡ false
  free_apart s p a free = elim (Bool-cases (has a (v.queue s p))) [
    | inr e ↦ e
    | inl e ↦ absurd (never (sym (n.unowned a free) ∙ n.owned s p a e))
  ]
    where
      never : {x : Side × ℤ} → none ≡ some x → ⊥
      never e = cc

  pub not_free : (s : Side) (p : ℤ) (a : ℕ) → has a (v.queue s p) ≡ true → contains a v.free ≡ false
  not_free s p a h = elim (Bool-cases (contains a v.free)) [
    | inr e ↦ e
    | inl e ↦ absurd (true≢false (sym h ∙ free_apart s p a e))
  ]

-- No queue is longer than the arena.
pub index_below :
    {arena : Arena} {index : Map ℕ ℕ} {v : View}
    → IsNodes arena index v
    → (s : Side) (p : ℤ) (a : ℕ) → has a (v.queue s p) ≡ true
    → a < arena.capacity
index_below {v} n s p a h =
    let (o, within) = In-has a (v.queue s p) h in (n.cells s p (a, o) within).below

pub length-queue :
    {b : OrderBook} {v : View} → IsBook b v → (s : Side) (p : ℤ) → length (v.queue s p) < 2 ^ 32
length-queue {b} {v} is s p = omega (
  arith,
  length-le_of_distinct b.arena.capacity (v.queue s p) (IsLevelOf-IsDistinct _ _ _ (is.level s p))
      (index_below is.nodes s p),
  is.nodes.pool.capacity,
)

-- A queue with an order in it has its level.
pub record LevelOf (b : OrderBook) (s : Side) (p : ℤ) (xs : Cells) : Type 0 where
  pub level : PriceLevel
  pub found : lookup p (levels b s) ≡ some level
  pub is : IsLevel b.arena.storage level xs

level_of :
    (b : OrderBook) (s : Side) (p : ℤ) (xs : Cells) (o : Option PriceLevel)
    → lookup p (levels b s) ≡ o
    → IsLevelOf b.arena.storage o xs
    → xs ≢ []
    → LevelOf b s p xs
level_of b s p xs none e at ne = absurd (ne at)
level_of b s p xs (some l) e (is, _) ne = record { level = l; found = e; is = is }

pub queue-LevelOf :
    {b : OrderBook} {v : View}
    → IsBook b v
    → (s : Side) (p : ℤ) (xs : Cells) → v.queue s p ≡ xs
    → xs ≢ []
    → LevelOf b s p xs
queue-LevelOf {b} is s p xs e ne =
    level_of b s p xs (lookup p (levels b s)) refl
      (subst (IsLevelOf b.arena.storage _) e (is.level s p)) ne

-- What `settle` leaves of a level: nothing of an empty one.
pub IsLevelOf_settled :
    (s : Storage) (l : PriceLevel) (xs : Cells)
    → IsLevel s l xs
    → IsLevelOf s (if l.count == 0 then none else some l) xs
IsLevelOf_settled s l [] is = rw is.count refl
IsLevelOf_settled s l (x ∷ xs) is = rw (==_ne l.count 0 (omega (arith, is.count))) (is, nonempty)
  where
    nonempty : x ∷ xs ≢ []
    nonempty e = cc

-- The levels after a change at one place that spares the nodes of all others.
pub level_frame :
    {b b' : OrderBook} {v : View} {side : Side} {price : ℤ} {o : Option PriceLevel} (t : Storage)
    (xs : Cells)
    → IsBook b v
    → Step b b' side price o
    → IsLevelOf t o xs
    → ((s : Side) (p : ℤ) (a : ℕ)
        → same_place s p side price ≡ false
        → has a (v.queue s p) ≡ true
        → t a ≡ b.arena.storage a)
    → (s : Side) (p : ℤ)
    → IsLevelOf t (lookup p (levels b' s)) (set_queue v.queue side price xs s p)
level_frame {b} {v} {side} {price} t xs is step at same s p = elim (Place-cases s p side price) [
  | inl (e, _, _) ↦ rw (step.lookups s p, e) at
  | inr e ↦
      rw (step.lookups s p, e)
        (IsLevelOf_frame b.arena.storage t _ _ (λ a h. same s p a e h) (is.level s p))
]

-- The parts that changing the maps and the best prices leaves alone.
pub arena-set_levels :
    (b : OrderBook) (s : Side) (m : Map ℤ PriceLevel) → (set_levels b s m).arena ≡ b.arena
arena-set_levels b bid m = refl
arena-set_levels b ask m = refl

pub index-set_levels :
    (b : OrderBook) (s : Side) (m : Map ℤ PriceLevel)
    → (set_levels b s m).order_index ≡ b.order_index
index-set_levels b bid m = refl
index-set_levels b ask m = refl

pub arena-set_best : (b : OrderBook) (s : Side) (p : Option ℤ) → (set_best b s p).arena ≡ b.arena
arena-set_best b bid p = refl
arena-set_best b ask p = refl

pub index-set_best :
    (b : OrderBook) (s : Side) (p : Option ℤ) → (set_best b s p).order_index ≡ b.order_index
index-set_best b bid p = refl
index-set_best b ask p = refl

pub arena-settle :
    (b : OrderBook) (s : Side) (p : ℤ) (l : PriceLevel) → (settle b s p l).arena ≡ b.arena
unfolding settle
arena-settle b bid p l = ground arith
arena-settle b ask p l = ground arith

pub index-settle :
    (b : OrderBook) (s : Side) (p : ℤ) (l : PriceLevel)
    → (settle b s p l).order_index ≡ b.order_index
unfolding settle
index-settle b bid p l = ground arith
index-settle b ask p l = ground arith

pub arena-update :
    (b : OrderBook) (s : Side) (p : ℤ) → (update_best_after_insert b s p).arena ≡ b.arena
unfolding update_best_after_insert
arena-update b s p = arena-set_best b s _

pub index-update :
    (b : OrderBook) (s : Side) (p : ℤ)
    → (update_best_after_insert b s p).order_index ≡ b.order_index
unfolding update_best_after_insert
index-update b s p = index-set_best b s _

-- A book from its parts.
pub IsBook_of :
    {b b' : OrderBook} {v' : View} {side : Side} {price : ℤ} {o : Option PriceLevel} (arena : Arena)
    (index : Map ℕ ℕ)
    → b'.arena ≡ arena
    → b'.order_index ≡ index
    → Step b b' side price o
    → ((s : Side) (p : ℤ) → IsLevelOf arena.storage (lookup p (levels b' s)) (v'.queue s p))
    → IsNodes arena index v'
    → IsBook b' v'
IsBook_of {b'} {v'} arena index ea ei step level nodes = record {
  level = λ s p.
      subst (λ (x : Arena). IsLevelOf x.storage (lookup p (levels b' s)) (v'.queue s p)) (sym ea)
        (level s p);
  nodes =
      subst (λ (x : Arena). IsNodes x b'.order_index v') (sym ea)
        (subst (λ (x : Map ℕ ℕ). IsNodes arena x v') (sym ei) nodes);
  sorted = step.sorted;
  best_is = step.best_is;
}
