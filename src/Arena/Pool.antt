-- ===== src/Arena/Pool.antt =====
-- The free list under `new`, `alloc` and `dealloc`.
use velocity_match.Common.{
  ℕ, zero, suc, ◌∙◌, ◌+◌, ◌-◌, ◌%◌, ◌^◌, ◌<◌, ◌≤◌, ◌≡◌, refl, inl, inr, Bool, true, false, ◌||◌,
  some, List, [], ◌∷◌, arith, ◌==◌, ==_ne, ltb, ok, err, if◌then◌else◌, ap, length, Bool-cases, All,
}
use velocity_match.Order.{Order}
use velocity_match.Arena.{
  OrderNode, Storage, Arena, full, arena_null, zeroed, from_order, put, set_next, fresh_nodes, new,
  alloc, dealloc,
}
use velocity_match.Arena.Relink.{SameBut, modify-some}

abbrev pub contains : ℕ → List ℕ → Bool
contains a [] = false
contains a (i ∷ xs) = (a == i) || contains a xs

abbrev pub NoRepeat : List ℕ → Type 0
NoRepeat [] = Unit
NoRepeat (i ∷ xs) = (contains i xs ≡ false) × NoRepeat xs

-- From `h` the `next` links lead through the nodes `xs` to the end.
abbrev pub FreeChain : Storage → ℕ → List ℕ → Type 0
FreeChain s h [] = h ≡ arena_null
FreeChain s h (i ∷ xs) = (h ≡ i) × ((n : OrderNode) × (s i ≡ some n) × FreeChain s n.next xs)

-- `free` lists the free nodes; the count is that of the others.
pub record IsPool (a : Arena) (free : List ℕ) : Type 0 where
  pub chain : FreeChain a.storage a.free_head free
  pub below : All (λ i. i < a.capacity) free
  pub distinct : NoRepeat free
  pub count : a.count + length free ≡ a.capacity
  pub capacity : a.capacity ≤ arena_null

pub FreeChain-frame :
    (s t : Storage) (h : ℕ) (xs : List ℕ)
    → ((a : ℕ) → contains a xs ≡ true → t a ≡ s a)
    → FreeChain s h xs
    → FreeChain t h xs
FreeChain-frame s t h [] same c = c
FreeChain-frame s t h (i ∷ xs) same (e, (n, found, rest)) = (
  e,
  (
    n,
    same i (ground arith) ∙ found,
    FreeChain-frame s t n.next xs (λ a k. same a (ground arith)) rest,
  ),
)

pub alloc-full : (a : Arena) (o : Order) → IsPool a [] → alloc a o ≡ some (err full, a)
unfolding alloc
alloc-full a o v = rw v.chain

-- What `alloc` leaves after it hands out the node `i`.
pub record Allocated (a : Arena) (o : Order) (i : ℕ) (rest : List ℕ) : Type 0 where
  pub arena : Arena
  pub done : alloc a o ≡ some (ok i, arena)
  pub pool : IsPool arena rest
  pub holds : arena.storage i ≡ some (from_order o)
  pub same : SameBut i a.storage arena.storage
  pub same_capacity : arena.capacity ≡ a.capacity
  pub counted : arena.count ≡ a.count + 1

-- Where the free list is right and not empty, `alloc` hands out its first node with the order in it
-- and no links, counts one more, keeps the rest of the free list, and changes no other node.
pub alloc-Allocated :
    (a : Arena) (o : Order) (i : ℕ) (rest : List ℕ) → IsPool a (i ∷ rest) → Allocated a o i rest
unfolding alloc
alloc-Allocated a o i rest v =
    let (n, found, next) = v.chain.1 in
    let s = put a.storage i (from_order o) in
    record {
      arena = record a { storage = s; free_head = n.next; count = (a.count + 1) % 2 ^ 32 };
      done = rw (v.chain.0, ==_ne i arena_null (omega (arith, v.below.0, v.capacity)), found) refl;
      pool = record {
        chain = FreeChain-frame a.storage s n.next rest (λ b h. ground (arith, v.distinct)) next;
        below = v.below.1;
        distinct = v.distinct.1;
        count = omega (arith, v.count, v.capacity);
        capacity = v.capacity;
      };
      holds = ground arith;
      same = λ b h. ground arith;
      same_capacity = refl;
      counted = omega (arith, v.count, v.capacity);
    }

-- What `dealloc` leaves after it takes the node `i` back.
pub record Deallocated (a : Arena) (i : ℕ) (free : List ℕ) : Type 0 where
  pub arena : Arena
  pub done : dealloc a i ≡ some arena
  pub pool : IsPool arena (i ∷ free)
  pub same : SameBut i a.storage arena.storage
  pub same_capacity : arena.capacity ≡ a.capacity
  pub counted : arena.count + 1 ≡ a.count

-- Where the free list is right and some node is handed out, a node of the storage that is not free
-- is given back: it is then the first free one, the count is one less, and no other node changes.
pub dealloc-Deallocated :
    (a : Arena) (i : ℕ) (n : OrderNode) (free : List ℕ)
    → IsPool a free
    → a.storage i ≡ some n
    → contains i free ≡ false
    → i < a.capacity
    → 0 < a.count
    → Deallocated a i free
unfolding dealloc
dealloc-Deallocated a i n free v found out low live =
    let s = put a.storage i (set_next a.free_head n) in
    record {
      arena = record a { storage = s; free_head = i; count = (a.count + 2 ^ 32 - 1) % 2 ^ 32 };
      done = rw (modify-some a.storage i (set_next a.free_head) n found) refl;
      pool = record {
        chain = (
          refl,
          (
            set_next a.free_head n,
            ground arith,
            FreeChain-frame a.storage s a.free_head free (λ b h. ground arith) v.chain,
          ),
        );
        below = (low, v.below);
        distinct = (out, v.distinct);
        count = omega (arith, v.count, v.capacity);
        capacity = v.capacity;
      };
      same = λ b h. ground arith;
      same_capacity = refl;
      counted = omega (arith, v.count, v.capacity);
    }

-- The indices `k`, `k + 1`, up to `n` of them.
abbrev pub upto : ℕ → ℕ → List ℕ
upto k zero = []
upto k (suc n) = k ∷ upto (k + 1) n

fresh_nodes_at :
    (capacity m i : ℕ)
    → i < m
    → fresh_nodes capacity m i
      ≡ some (set_next (if ltb (i + 1) capacity then i + 1 else arena_null) zeroed)
unfolding fresh_nodes
fresh_nodes_at capacity zero i h = absurd (omega arith)
fresh_nodes_at capacity (suc m) i h = elim (Bool-cases (i == m)) [
  | inl e ↦ ground arith
  | inr e ↦ ground (arith, fresh_nodes_at capacity m i)
]

fresh_chain :
    (capacity k n : ℕ)
    → k + n ≡ capacity
    → FreeChain
        (fresh_nodes capacity capacity)
        (if ltb k capacity then k else arena_null)
        (upto k n)
fresh_chain capacity k zero e = ground arith
fresh_chain capacity k (suc n) e = (
  ground arith,
  (
    set_next (if ltb (k + 1) capacity then k + 1 else arena_null) zeroed,
    fresh_nodes_at capacity capacity k (omega arith),
    fresh_chain capacity (k + 1) n (omega arith),
  ),
)

upto_below : (m k n : ℕ) → k + n ≤ m → All (λ i. i < m) (upto k n)
upto_below m k zero h = tt
upto_below m k (suc n) h = (omega arith, upto_below m (k + 1) n (omega arith))

contains-upto : (a k n : ℕ) → a < k → contains a (upto k n) ≡ false
contains-upto a k zero h = refl
contains-upto a k (suc n) h = ground (arith, contains-upto a (k + 1) n)

upto-NoRepeat : (k n : ℕ) → NoRepeat (upto k n)
upto-NoRepeat k zero = tt
upto-NoRepeat k (suc n) = (contains-upto k (k + 1) n (omega arith), upto-NoRepeat (k + 1) n)

length-upto : (k n : ℕ) → length (upto k n) ≡ n
length-upto k zero = refl
length-upto k (suc n) = ap suc (length-upto (k + 1) n)

-- A new arena, of any capacity that a `u32` index can address, has every node on its free list, in
-- ascending order.
pub new-IsPool : (capacity : ℕ) → capacity ≤ arena_null → IsPool (new capacity) (upto 0 capacity)
unfolding new
new-IsPool capacity h = record {
  chain = fresh_chain capacity 0 capacity (omega arith);
  below = upto_below capacity 0 capacity (omega arith);
  distinct = upto-NoRepeat 0 capacity;
  count = omega (arith, length-upto 0 capacity);
  capacity = h;
}
