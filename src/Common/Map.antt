-- ===== src/Common/Map.antt =====
-- An ordered map as the list of its entries in ascending order of the keys: `BTreeMap`, and also
-- `HashMap`, whose order of iteration the program never reads.
pub mod Laws
pub mod Ends
pub mod Sizes
use Prim.Native.Nat.{ℕ}
use mathlib.Core.Path.{◌≡◌}
use mathlib.Core.Logic.{◌↔◌}
use mathlib.Core.Bool.{Bool, true, false}
use mathlib.Core.Option.{Option, none, some}
use mathlib.Core.List.{List, [], ◌∷◌}
use native.Mathlib.Omega.{arith}
use velocity_match.Common.Tests.{ltb, ◌==◌, if◌then◌else◌, ==_iff}
use velocity_match.Common.Int.{ℤ, ltb_ℤ, eqb_ℤ, eqb_ℤ_iff}
use velocity_match.Common.Lists.{All}

-- A strict total order with its tests.
pub record Key (K : Type 0) : Type 0 where
  pub same : K → K → Bool
  pub before : K → K → Bool
  pub same_iff : (a b : K) → (same a b ≡ true) ↔ (a ≡ b)
  pub before_irrefl : (a : K) → before a a ≡ false
  pub before_trans : (a b c : K) → before a b ≡ true → before b c ≡ true → before a c ≡ true
  pub before_total : (a b : K) → before a b ≡ false → before b a ≡ false → a ≡ b

pub ltb_irrefl : (a : ℕ) → ltb a a ≡ false
ltb_irrefl a = ground arith

pub ltb_trans : (a b c : ℕ) → ltb a b ≡ true → ltb b c ≡ true → ltb a c ≡ true
ltb_trans a b c p q = ground arith

pub ltb_total : (a b : ℕ) → ltb a b ≡ false → ltb b a ≡ false → a ≡ b
ltb_total a b p q = ground arith

pub ltb_ℤ_irrefl : (a : ℤ) → ltb_ℤ a a ≡ false
ltb_ℤ_irrefl a = ground arith

pub ltb_ℤ_trans : (a b c : ℤ) → ltb_ℤ a b ≡ true → ltb_ℤ b c ≡ true → ltb_ℤ a c ≡ true
ltb_ℤ_trans a b c p q = ground arith

pub ltb_ℤ_total : (a b : ℤ) → ltb_ℤ a b ≡ false → ltb_ℤ b a ≡ false → a ≡ b
ltb_ℤ_total a b p q = ground arith

instance abbrev pub id_key : Key ℕ
id_key = record {
  same = ◌==◌;
  before = ltb;
  same_iff = ==_iff;
  before_irrefl = ltb_irrefl;
  before_trans = ltb_trans;
  before_total = ltb_total;
}

instance abbrev pub price_key : Key ℤ
price_key = record {
  same = eqb_ℤ;
  before = ltb_ℤ;
  same_iff = eqb_ℤ_iff;
  before_irrefl = ltb_ℤ_irrefl;
  before_trans = ltb_ℤ_trans;
  before_total = ltb_ℤ_total;
}

abbrev pub Map : Type 0 → Type 0 → Type 0
Map K V = List (K × V)

module _ {K V : Type 0} ⦃o : Key K⦄ where
  unfoldable pub lookup : K → Map K V → Option V
  lookup k [] = none
  lookup k ((j, v) ∷ m) = if o.same k j then some v else lookup k m

  -- Inserts, or replaces the value of a key that is there.
  unfoldable pub insert : K → V → Map K V → Map K V
  insert k v [] = (k, v) ∷ []
  insert k v ((j, w) ∷ m) =
      if o.same k j
      then (k, v) ∷ m
      else (if o.before k j then (k, v) ∷ (j, w) ∷ m else (j, w) ∷ insert k v m)

  unfoldable pub remove : K → Map K V → Map K V
  remove k [] = []
  remove k ((j, w) ∷ m) = if o.same k j then m else (j, w) ∷ remove k m

  abbrev pub IsSorted : Map K V → Type 0
  IsSorted [] = Unit
  IsSorted ((k, v) ∷ m) = All (λ (e : K × V). o.before k e.0 ≡ true) m × IsSorted m

-- `keys().next()` and `keys().next_back()`.
unfoldable pub first_key : {K V : Type 0} → Map K V → Option K
first_key [] = none
first_key ((k, v) ∷ m) = some k

unfoldable pub last_key : {K V : Type 0} → Map K V → Option K
last_key [] = none
last_key ((k, v) ∷ m) = elim m [ [] ↦ some k | _ ∷ _ ↦ last_key m ]
