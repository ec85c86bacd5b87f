-- ===== src/Common/Map/Ends.antt =====
-- The first and the last key of a map.
use mathlib.Core.Path.{◌≡◌, refl}
use mathlib.Core.Logic.{◌⊎◌, inl, inr, ◌≢◌}
use mathlib.Core.Bool.{true}
use mathlib.Core.Option.{none, some}
use mathlib.Core.List.{[], ◌∷◌}
use native.Mathlib.Omega.{arith}
use velocity_match.Common.Tests.{Bool-cases}
use velocity_match.Common.Lists.{All}
use velocity_match.Common.Map.{Key, Map, lookup, first_key, last_key, IsSorted}

module _ {K V : Type 0} ⦃o : Key K⦄ where
  pub lookup-first_key :
      (k : K) (m : Map K V) → first_key m ≡ some k → (v : V) × (lookup k m ≡ some v)
  unfolding lookup first_key
  lookup-first_key k [] h = cc
  lookup-first_key k ((i, w) ∷ m) h = (w, ground (arith, o.same_iff k i))

  pub above-lookup :
      (b k : K) (v : V) (m : Map K V)
      → All (λ (e : K × V). o.before b e.0 ≡ true) m
      → lookup k m ≡ some v
      → o.before b k ≡ true
  unfolding lookup
  above-lookup b k v [] a h = cc
  above-lookup b k v ((i, w) ∷ m) a h = ground (arith, o.same_iff k i, above-lookup b k v m a.1)

  -- Every key stands at or after the first.
  pub first_key-least :
      (f k : K) (v : V) (m : Map K V)
      → IsSorted m
      → first_key m ≡ some f
      → lookup k m ≡ some v
      → (f ≡ k) ⊎ (o.before f k ≡ true)
  unfolding lookup first_key
  first_key-least f k v [] s e h = cc
  first_key-least f k v ((i, w) ∷ m) s e h = elim (Bool-cases (o.same k i)) [
    | inl p ↦ inl (ground (arith, o.same_iff k i))
    | inr p ↦ inr (ground (arith, above-lookup i k v m s.0))
  ]

  pub first_key-none : (k : K) (m : Map K V) → first_key m ≡ none → lookup k m ≡ none
  unfolding lookup first_key
  first_key-none k [] h = refl
  first_key-none k ((i, w) ∷ m) h = cc

  pub last_key-none : (k : K) (m : Map K V) → last_key m ≡ none → lookup k m ≡ none
  unfolding lookup last_key
  last_key-none k [] h = refl
  last_key-none k ((i, w) ∷ []) h = cc
  last_key-none k ((i, w) ∷ e ∷ m) h = absurd (never e m h)
    where
      never : (e : K × V) (m : Map K V) → last_key (e ∷ m) ≢ none
      never e [] h = cc
      never e (e' ∷ m) h = never e' m h

  pub lookup-last_key :
      (k : K) (m : Map K V) → IsSorted m → last_key m ≡ some k → (v : V) × (lookup k m ≡ some v)
  unfolding lookup last_key
  lookup-last_key k [] s h = cc
  lookup-last_key k ((i, w) ∷ []) s h = (w, ground (arith, o.same_iff k i))
  lookup-last_key k ((i, w) ∷ e ∷ m) s h =
      let (v, found) = lookup-last_key k (e ∷ m) s.1 h in
      let after = above-lookup i k v (e ∷ m) s.0 found in
      (v, ground (arith, o.same_iff k i, o.before_irrefl k))

  -- Every key stands at or before the last.
  pub last_key-greatest :
      (l k : K) (v : V) (m : Map K V)
      → IsSorted m
      → last_key m ≡ some l
      → lookup k m ≡ some v
      → (l ≡ k) ⊎ (o.before k l ≡ true)
  unfolding lookup last_key
  last_key-greatest l k v [] s e h = cc
  last_key-greatest l k v ((i, w) ∷ []) s e h = inl (ground (arith, o.same_iff k i))
  last_key-greatest l k v ((i, w) ∷ x ∷ m) s e h = elim (Bool-cases (o.same k i)) [
    | inl p ↦
        let (u, found) = lookup-last_key l (x ∷ m) s.1 e in
        inr (ground (arith, o.same_iff k i, above-lookup i l u (x ∷ m) s.0 found))
    | inr p ↦ last_key-greatest l k v (x ∷ m) s.1 e (ground arith)
  ]
