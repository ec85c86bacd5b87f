-- ===== src/Common/Map/Sizes.antt =====
-- Sorted maps with the same keys are equally long.
use velocity_match.Common.Tests.{◌==◌}
use velocity_match.Common.Lists.{length}
use Prim.Native.Nat.{ℕ, ◌≤◌}
use mathlib.Core.Path.{◌≡◌, ◌∙◌}
use mathlib.Core.Bool.{false}
use mathlib.Core.Option.{some}
use mathlib.Core.List.{[], ◌∷◌}
use native.Mathlib.Omega.{arith}
use velocity_match.Common.Map.{id_key, Map, lookup, remove, IsSorted}
use velocity_match.Common.Map.Laws.{lookup-remove, length-remove, remove-IsSorted}
use velocity_match.Common.Map.Ends.{above-lookup}

-- Every key of the one is a key of the other.
abbrev pub KeysIn : Map ℕ ℕ → Map ℕ ℕ → Type 0
KeysIn m n = (k v : ℕ) → lookup k m ≡ some v → (w : ℕ) × (lookup k n ≡ some w)

pub length-KeysIn : (m n : Map ℕ ℕ) → IsSorted m → IsSorted n → KeysIn m n → length m ≤ length n
unfolding lookup
length-KeysIn [] n s t h = omega arith
length-KeysIn ((k, v) ∷ m) n s t h =
    let (w, there) = h k v (ground arith) in
    omega (
      arith,
      length-remove k n w there,
      length-KeysIn m (remove k n) s.1 (remove-IsSorted k n t) rest,
    )
  where
    rest : KeysIn m (remove k n)
    rest j u e =
        let other : (j == k) ≡ false = ground (arith, above-lookup k j u m s.0 e) in
        let (w, there) = h j u (rw other e) in (w, lookup-remove j k n t ∙ rw other there)
