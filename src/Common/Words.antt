-- ===== src/Common/Words.antt =====
-- Masks and wrapped cursors: powers of two as bit masks and as moduli.
use Prim.Native.Nat.{
  ℕ, zero, suc, ◌+◌, ◌-◌, ◌*◌, ◌/◌, ◌%◌, ◌^◌, ◌≤◌, ◌<◌, min, digits, bit_and, bit_and-bitwise,
}
use mathlib.Core.Path.{◌≡◌, ap, sym, ◌∙◌}
use mathlib.Core.Logic.{◌≢◌}
use native.Mathlib.Omega.{arith}
use native.Mathlib.Nat.{
  pow-suc, one-le-pow, mod-add-div, mod-lt, mod-eq_of_lt, mul-add-mod_self_left, mul-le-mul_left,
  mul_assoc, mul-suc, mul-one, add-suc, add-zero, add_comm,
}
use native.Mathlib.Decide.{dec_lt}

-- One binary digit more on a remainder.
mod-double : (x p : ℕ) → 0 < p → x / 2 % p * 2 + x % 2 ≡ x % (2 * p)
mod-double x p pos =
    let q = x / 2 / p in
    let r = x / 2 % p in
    let split = mod-add-div (x / 2) p in
    let whole : x ≡ 2 * p * q + (r * 2 + x % 2) = omega (arith, split, mul_assoc 2 p q) in
    sym (
      ap (λ y. y % (2 * p)) whole
      ∙ mul-add-mod_self_left (2 * p) q (r * 2 + x % 2)
      ∙ mod-eq_of_lt (omega (arith, mod-lt (x / 2) pos)))

digits-mask : (n k a : ℕ) → a ≤ n → digits (λ b. 0) min n a (2 ^ k - 1) ≡ a % 2 ^ k
digits-mask zero k zero h = sym (mod-eq_of_lt (one-le-pow k 2 (omega arith)))
digits-mask zero k (suc a) h = absurd (omega arith)
digits-mask (suc n) k zero h = sym (mod-eq_of_lt (one-le-pow k 2 (omega arith)))
digits-mask (suc n) zero (suc a) h = omega (arith, digits-mask n zero (suc a / 2) (omega arith))
digits-mask (suc n) (suc k) (suc a) h =
    let pos = one-le-pow k 2 (omega arith) in
    let twice : 2 ^ suc k ≡ 2 * 2 ^ k = omega (arith, pow-suc 2 k) in
    let half : (2 ^ suc k - 1) / 2 ≡ 2 ^ k - 1 = omega (arith, twice, pos) in
    let odd : (2 ^ suc k - 1) % 2 ≡ 1 = omega (arith, twice, pos) in
    let rest = digits-mask n k (suc a / 2) (omega arith) in
    rw half
      (rw odd (rw rest (omega (arith, mod-double (suc a) (2 ^ k) pos, ap (λ p. suc a % p) twice))))

-- A mask of the `k` lowest bits.
pub bit_and_mask : (a k : ℕ) → bit_and a (2 ^ k - 1) ≡ a % 2 ^ k
bit_and_mask a k = simp bit_and-bitwise (digits-mask a k a (omega arith))

pow-mul : (k j : ℕ) → 2 ^ (k + j) ≡ 2 ^ k * 2 ^ j
pow-mul k zero = ap (λ n. 2 ^ n) (add-zero k) ∙ sym (mul-one (2 ^ k))
pow-mul k (suc j) =
    ap (λ n. 2 ^ n) (add-suc k j)
    ∙ pow-suc 2 (k + j)
    ∙ ap (λ n. n * 2) (pow-mul k j)
    ∙ mul_assoc (2 ^ k) (2 ^ j) 2
    ∙ ap (λ n. 2 ^ k * n) (sym (pow-suc 2 j))

-- A word wrapped first and then reduced by a smaller power of two.
pub mod-mod_pow : (x k j : ℕ) → x % 2 ^ (k + j) % 2 ^ k ≡ x % 2 ^ k
mod-mod_pow x k j =
    let c = 2 ^ k in
    let m = 2 ^ j in
    let q = x / 2 ^ (k + j) in
    let r = x % 2 ^ (k + j) in
    let whole : x ≡ c * (m * q) + r =
      sym (mod-add-div x (2 ^ (k + j)))
      ∙ add_comm r _
      ∙ ap (λ n. n * q + r) (pow-mul k j)
      ∙ ap (λ n. n + r) (mul_assoc c m q) in
    sym (ap (λ y. y % c) whole ∙ mul-add-mod_self_left c (m * q) r)

-- Distinct numbers less than the modulus apart have distinct remainders.
pub mod_apart : (a b c : ℕ) → a < b → b < a + c → a % c ≢ b % c
mod_apart a b c lt near e = elim (dec_lt (a / c) (b / c)) [
  | yes up ↦
      absurd (
        omega (arith, mod-add-div a c, mod-add-div b c, e, mul-le-mul_left c up, mul-suc c (a / c)))
  | no down ↦
      absurd (omega (arith, mod-add-div a c, mod-add-div b c, e, mul-le-mul_left c (le down)))
]
  where
    le : ¬ (a / c < b / c) → b / c ≤ a / c
    le h = omega arith
