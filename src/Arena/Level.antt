-- ===== src/Arena/Level.antt =====
-- When the record of a price level stands for a queue of orders.
use velocity_match.Common.{
  ℕ, ◌+◌, ◌-◌, ◌%◌, ◌^◌, ◌<◌, ◌≡◌, refl, false, [], ◌∷◌, ◌++◌, arith, ◌==◌, length,
}
use velocity_match.Order.{Order}
use velocity_match.Arena.{PriceLevel, Storage, arena_null}
use velocity_match.Arena.Chain.{Cells, head_or, last_or, has, IsDistinct, Chain, has-append}
use velocity_match.Arena.Relink.{has-last_or}

abbrev pub total : Cells → ℕ
total [] = 0
total ((_, o) ∷ xs) = o.quantity + total xs

-- The level `l` stands for the queue `xs`, oldest order first.
pub record IsLevel (s : Storage) (l : PriceLevel) (xs : Cells) : Type 0 where
  pub head : l.head ≡ head_or arena_null xs
  pub tail : l.tail ≡ last_or arena_null xs
  pub chain : Chain s arena_null xs arena_null
  pub distinct : IsDistinct xs
  pub no_null : has arena_null xs ≡ false
  pub count : l.count ≡ length xs
  pub qty : l.qty ≡ total xs % 2 ^ 64

-- What an operation leaves: a level for the queue `ys`, and only nodes of `touched` changed.
pub record Became (s : Storage) (touched ys : Cells) (Run : Storage → PriceLevel → Type 0)
    : Type 0 where
  pub storage : Storage
  pub level : PriceLevel
  pub done : Run storage level
  pub is : IsLevel storage level ys
  pub same : (a : ℕ) → has a touched ≡ false → storage a ≡ s a

pub total-append : (xs ys : Cells) → total (xs ++ ys) ≡ total xs + total ys
total-append [] ys = omega arith
total-append (x ∷ xs) ys = omega (arith, total-append xs ys)

pub IsDistinct-snoc :
    (xs : Cells) (i : ℕ) (o : Order)
    → IsDistinct xs
    → has i xs ≡ false
    → IsDistinct (xs ++ ((i, o) ∷ []))
IsDistinct-snoc [] i o d h = (refl, tt)
IsDistinct-snoc ((j, u) ∷ xs) i o d h =
    (ground (arith, has-append j xs ((i, o) ∷ [])), IsDistinct-snoc xs i o d.1 (ground arith))

pub last-ne-null :
    (p i : ℕ) (o : Order) (xs : Cells)
    → has arena_null ((i, o) ∷ xs) ≡ false
    → (last_or p ((i, o) ∷ xs) == arena_null) ≡ false
last-ne-null p i o xs h = ground (arith, has-last_or p i o xs)

pub qty-sub :
    (a q n : ℕ) → q < 2 ^ 64 → a ≡ (q + n) % 2 ^ 64 → (a + 2 ^ 64 - q) % 2 ^ 64 ≡ n % 2 ^ 64
qty-sub a q n h e = omega arith
