-- ===== src/Book/Bound.antt =====
-- Distinct indices below a bound are no more than the bound.
use velocity_match.Common.{
  ℕ, zero, suc, ◌+◌, ◌<◌, ◌≤◌, ◌≡◌, refl, inl, inr, true, false, [], ◌∷◌, arith, ◌==◌,
  if◌then◌else◌, length, Bool-cases,
}
use velocity_match.Arena.Chain.{Cells, has, IsDistinct}
use velocity_match.Arena.Relink.{ne_of_has}

-- The list with the first cell at index `k` left out.
without : ℕ → Cells → Cells
without k [] = []
without k ((i, o) ∷ xs) = if i == k then xs else (i, o) ∷ without k xs

length-without : (k : ℕ) (xs : Cells) → length xs ≤ length (without k xs) + 1
unfolding without
length-without k [] = omega arith
length-without k ((i, o) ∷ xs) = ground (arith, length-without k xs)

has-without : (a k : ℕ) (xs : Cells) → has a xs ≡ false → has a (without k xs) ≡ false
unfolding without
has-without a k [] h = refl
has-without a k ((i, o) ∷ xs) h = ground (arith, has-without a k xs)

without-IsDistinct : (k : ℕ) (xs : Cells) → IsDistinct xs → IsDistinct (without k xs)
unfolding without
without-IsDistinct k [] d = tt
without-IsDistinct k ((i, o) ∷ xs) d =
    ground (arith, has-without i k xs, without-IsDistinct k xs d.1)

has-without_self : (k : ℕ) (xs : Cells) → IsDistinct xs → has k (without k xs) ≡ false
unfolding without
has-without_self k [] d = refl
has-without_self k ((i, o) ∷ xs) d = elim (Bool-cases (i == k)) [
  | inl e ↦ ground arith
  | inr e ↦ ground (arith, has-without_self k xs d.1)
]

has_of_without : (a k : ℕ) (xs : Cells) → has a (without k xs) ≡ true → has a xs ≡ true
unfolding without
has_of_without a k [] h = h
has_of_without a k ((i, o) ∷ xs) h = ground (arith, has_of_without a k xs)

below_without :
    (n a : ℕ) (xs : Cells)
    → IsDistinct xs
    → (has a xs ≡ true → a < suc n)
    → has a (without n xs) ≡ true
    → a < n
below_without n a xs d below h = ground (
  arith,
  below (has_of_without a n xs h),
  ne_of_has n a (without n xs) (has-without_self n xs d) h,
)

pub length-le_of_distinct :
    (n : ℕ) (xs : Cells) → IsDistinct xs → ((a : ℕ) → has a xs ≡ true → a < n) → length xs ≤ n
length-le_of_distinct zero [] d below = omega arith
length-le_of_distinct zero ((i, o) ∷ xs) d below = absurd (omega (arith, below i (ground arith)))
length-le_of_distinct (suc n) xs d below = omega (
  arith,
  length-without n xs,
  length-le_of_distinct n (without n xs) (without-IsDistinct n xs d)
      (λ a h. below_without n a xs d (below a) h),
)
