-- ===== src/Book/Listing.antt =====
-- `all_resting_orders` against the queues of a view.
use velocity_match.Common.{
  ℕ, zero, suc, ℤ, ◌+◌, ◌<◌, ◌≡◌, refl, ◌≢◌, ◌⊎◌, inl, inr, true, false, some, none, Option, List,
  [], ◌∷◌, ◌++◌, arith, All, length, ltb_ℤ, ◌<ℤ◌, ◌==◌, ==_ne, Bool-cases, sym,
}
use velocity_match.Common.Map.{Map, price_key, lookup, IsSorted}
use velocity_match.Common.Map.Ends.{above-lookup}
use velocity_match.Common.Run.Panic.{◌>>=◌}
use velocity_match.Order.{Side, bid, ask, Order}
use velocity_match.Arena.{Storage, PriceLevel, arena_null}
use velocity_match.Arena.Chain.{Cells, head_or, has, Chain}
use velocity_match.Arena.Level.{IsLevel}
use velocity_match.Book.{OrderBook, levels, walk, walk_levels, walk_levels_rev, all_resting_orders}
use velocity_match.Book.View.{View, IsBook, IsLevelOf}
use velocity_match.Book.Cells.{IsLevelOf-IsDistinct}
use velocity_match.Book.Bound.{length-le_of_distinct}
use velocity_match.Book.Frame.{index_below}

abbrev pub orders : Cells → List Order
orders [] = []
orders ((_, o) ∷ xs) = o ∷ orders xs

-- The queues of the prices, in their order and in the opposite one.
abbrev pub listed : (ℤ → Cells) → List ℤ → List Order
listed q [] = []
listed q (p ∷ ps) = orders (q p) ++ listed q ps

abbrev pub listed_rev : (ℤ → Cells) → List ℤ → List Order
listed_rev q [] = []
listed_rev q (p ∷ ps) = listed_rev q ps ++ orders (q p)

abbrev pub prices : Map ℤ PriceLevel → List ℤ
prices [] = []
prices ((p, _) ∷ m) = p ∷ prices m

abbrev pub Ascending : List ℤ → Type 0
Ascending [] = Unit
Ascending (p ∷ ps) = All (λ x. p <ℤ x) ps × Ascending ps

abbrev pub Among : ℤ → List ℤ → Type 0
Among p [] = ⊥
Among p (x ∷ xs) = (p ≡ x) ⊎ Among p xs

walk-orders :
    (fuel : ℕ) (s : Storage) (p : ℕ) (xs : Cells)
    → Chain s p xs arena_null
    → has arena_null xs ≡ false
    → length xs < fuel
    → walk fuel s (head_or arena_null xs) ≡ some (orders xs)
unfolding walk
walk-orders zero s p xs c h l = absurd (omega arith)
walk-orders (suc f) s p [] c h l = refl
walk-orders (suc f) s p ((i, o) ∷ xs) c h l =
    rw (==_ne i arena_null (not_null i (ground arith)))
      (rw (c.0, ◌>>=◌) (rw (walk-orders f s i xs c.1 (ground arith) (omega arith), ◌>>=◌) refl))
  where
    not_null : (i : ℕ) → (arena_null == i) ≡ false → i ≢ arena_null
    not_null i e z = ground arith

-- An entry whose level stands for the queue of its price, which the fuel is enough for.
abbrev Good : ℕ → Storage → (ℤ → Cells) → ℤ × PriceLevel → Type 0
Good fuel s q e = IsLevel s e.1 (q e.0) × (length (q e.0) < fuel)

walk-Good :
    (fuel : ℕ) (s : Storage) (q : ℤ → Cells) (p : ℤ) (l : PriceLevel)
    → Good fuel s q (p, l)
    → walk fuel s l.head ≡ some (orders (q p))
walk-Good fuel s q p l g =
    rw (g.0.head) (walk-orders fuel s arena_null (q p) g.0.chain g.0.no_null g.1)

walk_levels-listed :
    (fuel : ℕ) (s : Storage) (q : ℤ → Cells) (m : Map ℤ PriceLevel)
    → All (Good fuel s q) m
    → walk_levels fuel s m ≡ some (listed q (prices m))
unfolding walk_levels
walk_levels-listed fuel s q [] g = refl
walk_levels-listed fuel s q ((p, l) ∷ m) g =
    rw (walk-Good fuel s q p l g.0, ◌>>=◌) (rw (walk_levels-listed fuel s q m g.1, ◌>>=◌) refl)

walk_levels_rev-listed_rev :
    (fuel : ℕ) (s : Storage) (q : ℤ → Cells) (m : Map ℤ PriceLevel)
    → All (Good fuel s q) m
    → walk_levels_rev fuel s m ≡ some (listed_rev q (prices m))
unfolding walk_levels_rev
walk_levels_rev-listed_rev fuel s q [] g = refl
walk_levels_rev-listed_rev fuel s q ((p, l) ∷ m) g =
    rw (walk_levels_rev-listed_rev fuel s q m g.1, ◌>>=◌)
      (rw (walk-Good fuel s q p l g.0, ◌>>=◌) refl)

-- What holds of each entry that a lookup finds holds of all.
All-of_lookup :
    (P : ℤ × PriceLevel → Type 0) (m : Map ℤ PriceLevel)
    → IsSorted m
    → ((p : ℤ) (l : PriceLevel) → lookup p m ≡ some l → P (p, l))
    → All P m
unfolding lookup
All-of_lookup P [] s h = tt
All-of_lookup P ((k, v) ∷ m) s h = (
  h k v (ground (arith, price_key.same_iff k k)),
  All-of_lookup P m s.1 λ p l found. h p l (
      ground (
        arith,
        price_key.same_iff p k,
        price_key.before_irrefl p,
        above-lookup k p l m s.0 found,
        found,
      )),
)

prices-above :
    (k : ℤ) (m : Map ℤ PriceLevel)
    → All (λ (e : ℤ × PriceLevel). ltb_ℤ k e.0 ≡ true) m
    → All (λ x. k <ℤ x) (prices m)
prices-above k [] a = tt
prices-above k ((p, _) ∷ m) a = (ground arith, prices-above k m a.1)

prices-Ascending : (m : Map ℤ PriceLevel) → IsSorted m → Ascending (prices m)
prices-Ascending [] s = tt
prices-Ascending ((p, _) ∷ m) s = (prices-above p m s.0, prices-Ascending m s.1)

lookup-Among :
    (p : ℤ) (l : PriceLevel) (m : Map ℤ PriceLevel) → lookup p m ≡ some l → Among p (prices m)
unfolding lookup
lookup-Among p l [] h = cc
lookup-Among p l ((k, v) ∷ m) h = elim (Bool-cases (price_key.same p k)) [
  | inl e ↦ inl ((price_key.same_iff p k).0 e)
  | inr e ↦ inr (lookup-Among p l m (rw e at h))
]

module _ {b : OrderBook} {v : View} (is : IsBook b v) (side : Side) where
  short_queue : (p : ℤ) → length (v.queue side p) < b.arena.capacity + 1
  short_queue p = omega (
    arith,
    length-le_of_distinct b.arena.capacity (v.queue side p)
        (IsLevelOf-IsDistinct _ _ _ (is.level side p)) (index_below is.nodes side p),
  )

  IsLevel-found :
      (p : ℤ) (l : PriceLevel) (o : Option PriceLevel)
      → o ≡ some l
      → IsLevelOf b.arena.storage o (v.queue side p)
      → IsLevel b.arena.storage l (v.queue side p)
  IsLevel-found p l none e at = cc
  IsLevel-found p l (some k) e at = rw (sym (the_level e)) at.0
    where
      the_level : some k ≡ some l → k ≡ l
      the_level e = cc

  All-Good : All (Good (b.arena.capacity + 1) b.arena.storage (v.queue side)) (levels b side)
  All-Good =
      All-of_lookup (Good (b.arena.capacity + 1) b.arena.storage (v.queue side)) (levels b side)
        (is.sorted side) (λ p l found. (IsLevel-found p l _ found (is.level side p), short_queue p))

  nonempty-Among :
      (p : ℤ) (o : Option PriceLevel)
      → lookup p (levels b side) ≡ o
      → IsLevelOf b.arena.storage o (v.queue side p)
      → v.queue side p ≢ []
      → Among p (prices (levels b side))
  nonempty-Among p none e at ne = absurd (ne at)
  nonempty-Among p (some l) e at ne = lookup-Among p l (levels b side) e

-- The prices of the two sides, and the list that `all_resting_orders` gives.
pub record IsListing (b : OrderBook) (v : View) : Type 0 where
  pub asks : List ℤ
  pub bids : List ℤ
  pub done :
      all_resting_orders b ≡ some (listed (v.queue ask) asks ++ listed_rev (v.queue bid) bids)
  pub asks_ascending : Ascending asks
  pub bids_ascending : Ascending bids
  pub every_ask : (p : ℤ) → v.queue ask p ≢ [] → Among p asks
  pub every_bid : (p : ℤ) → v.queue bid p ≢ [] → Among p bids

-- On every book `all_resting_orders` returns, without a panic and with fuel enough: the orders of
-- the asks by ascending price, then those of the bids by descending price, each queue whole and
-- oldest first, and no price where orders rest is left out.
pub all_resting_orders-IsListing : (b : OrderBook) (v : View) → IsBook b v → IsListing b v
unfolding all_resting_orders
all_resting_orders-IsListing b v is = record {
  asks = prices b.asks;
  bids = prices b.bids;
  done =
      rw
        (
          all_resting_orders,
          walk_levels-listed (b.arena.capacity + 1) b.arena.storage (v.queue ask) b.asks
              (All-Good is ask),
        )
        (rw
          (
            walk_levels_rev-listed_rev (b.arena.capacity + 1) b.arena.storage (v.queue bid) b.bids
                (All-Good is bid),
            ◌>>=◌,
          )
          refl);
  asks_ascending = prices-Ascending b.asks (is.sorted ask);
  bids_ascending = prices-Ascending b.bids (is.sorted bid);
  every_ask = λ p ne. nonempty-Among is ask p _ refl (is.level ask p) ne;
  every_bid = λ p ne. nonempty-Among is bid p _ refl (is.level bid p) ne;
}
