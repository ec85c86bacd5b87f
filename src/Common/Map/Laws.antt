-- ===== src/Common/Map/Laws.antt =====
-- Lookup after insertion and removal, the order of the keys, and the number of entries.
use Prim.Native.Nat.{◌+◌}
use mathlib.Core.Path.{◌≡◌, refl}
use mathlib.Core.Logic.{inl, inr}
use mathlib.Core.Bool.{true}
use mathlib.Core.Option.{none, some}
use mathlib.Core.List.{[], ◌∷◌}
use native.Mathlib.Omega.{arith}
use velocity_match.Common.Tests.{if◌then◌else◌, Bool-cases}
use velocity_match.Common.Lists.{All, length}
use velocity_match.Common.Map.{Key, Map, lookup, insert, remove, IsSorted}

module _ {K V : Type 0} ⦃o : Key K⦄ where
  pub lookup-insert :
      (j k : K) (v : V) (m : Map K V)
      → lookup j (insert k v m) ≡ (if o.same j k then some v else lookup j m)
  unfolding lookup insert
  lookup-insert j k v [] = refl
  lookup-insert j k v ((i, w) ∷ m) =
      ground (arith, o.same_iff j k, o.same_iff k i, o.same_iff j i, lookup-insert j k v m)

  -- A key below every key of a map is not in it.
  pub lookup-below :
      (k : K) (m : Map K V) → All (λ (e : K × V). o.before k e.0 ≡ true) m → lookup k m ≡ none
  unfolding lookup
  lookup-below k [] h = refl
  lookup-below k ((i, w) ∷ m) h =
      ground (arith, o.same_iff k i, o.before_irrefl k, lookup-below k m h.1)

  pub lookup-remove :
      (j k : K) (m : Map K V)
      → IsSorted m
      → lookup j (remove k m) ≡ (if o.same j k then none else lookup j m)
  unfolding lookup remove
  lookup-remove j k [] s = ground arith
  lookup-remove j k ((i, w) ∷ m) s = ground (
    arith,
    o.same_iff j k,
    o.same_iff k i,
    o.same_iff j i,
    lookup-remove j k m s.1,
    lookup-below i m s.0,
  )

  insert_above :
      (b k : K) (v : V) (m : Map K V)
      → o.before b k ≡ true
      → All (λ (e : K × V). o.before b e.0 ≡ true) m
      → All (λ (e : K × V). o.before b e.0 ≡ true) (insert k v m)
  unfolding insert
  insert_above b k v [] h a = (h, tt)
  insert_above b k v ((i, w) ∷ m) h a = ground (arith, insert_above b k v m h a.1)

  above_trans :
      (b k : K) (m : Map K V)
      → o.before b k ≡ true
      → All (λ (e : K × V). o.before k e.0 ≡ true) m
      → All (λ (e : K × V). o.before b e.0 ≡ true) m
  above_trans b k [] h a = tt
  above_trans b k (e ∷ m) h a = (o.before_trans b k e.0 h a.0, above_trans b k m h a.1)

  pub insert-IsSorted : (k : K) (v : V) (m : Map K V) → IsSorted m → IsSorted (insert k v m)
  unfolding insert
  insert-IsSorted k v [] s = (tt, tt)
  insert-IsSorted k v ((i, w) ∷ m) s = elim (Bool-cases (o.same k i)) [
    | inl e ↦ ground (arith, o.same_iff k i)
    | inr e ↦ elim (Bool-cases (o.before k i)) [
      | inl b ↦ ground (arith, above_trans k i m b s.0)
      | inr b ↦ ground (
        arith,
        o.same_iff k i,
        o.before_total k i b,
        insert_above i k v m,
        Bool-cases (o.before i k),
        insert-IsSorted k v m s.1,
      )
    ]
  ]

  remove_above :
      (b k : K) (m : Map K V)
      → All (λ (e : K × V). o.before b e.0 ≡ true) m
      → All (λ (e : K × V). o.before b e.0 ≡ true) (remove k m)
  unfolding remove
  remove_above b k [] a = tt
  remove_above b k ((i, w) ∷ m) a = ground (arith, remove_above b k m a.1)

  pub remove-IsSorted : (k : K) (m : Map K V) → IsSorted m → IsSorted (remove k m)
  unfolding remove
  remove-IsSorted k [] s = tt
  remove-IsSorted k ((i, w) ∷ m) s = ground (arith, remove_above i k m s.0, remove-IsSorted k m s.1)

  pub length-insert_new :
      (k : K) (v : V) (m : Map K V) → lookup k m ≡ none → length (insert k v m) ≡ length m + 1
  unfolding insert lookup
  length-insert_new k v [] h = omega arith
  length-insert_new k v ((i, w) ∷ m) h = ground (arith, length-insert_new k v m)

  pub length-remove :
      (k : K) (m : Map K V) (v : V) → lookup k m ≡ some v → length (remove k m) + 1 ≡ length m
  unfolding remove lookup
  length-remove k [] v h = cc
  length-remove k ((i, w) ∷ m) v h = ground (arith, length-remove k m v)
