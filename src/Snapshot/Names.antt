-- ===== src/Snapshot/Names.antt =====
-- The names of snapshot files: their order is that of the numbers of records, below 10^10.
use velocity_match.Common.{
  ℕ, zero, suc, ◌+◌, ◌/◌, ◌%◌, ◌^◌, ◌<◌, ◌≡◌, refl, inl, inr, true, false, Bool-cases, ltb, lt→ltb,
  le→ltb, ==_iff, [], ◌∷◌, ◌++◌, arith, ap, ap₂, ◌∙◌, sym, append_assoc, ◌&&◌, All, All-append,
}
use native.Mathlib.Decide.{dec_lt}
use velocity_match.Common.Utf8.{is_utf8, is_utf8-ascii}
use velocity_match.Snapshot.{
  Bytes, digits_of, width_of, decimal, filename, name_prefix, name_suffix, name_ltb, same_name,
  starts_with, ends_with,
}

-- A common beginning does not count.
name_ltb-same : (p xs ys : Bytes) → name_ltb (p ++ xs) (p ++ ys) ≡ name_ltb xs ys
name_ltb-same [] xs ys = refl
name_ltb-same (a ∷ p) xs ys = rw (le→ltb a a (omega arith)) (name_ltb-same p xs ys)

pub name_ltb_irrefl : (xs : Bytes) → name_ltb xs xs ≡ false
name_ltb_irrefl [] = refl
name_ltb_irrefl (a ∷ xs) = rw (le→ltb a a (omega arith)) (name_ltb_irrefl xs)

pub name_ltb_asym : (xs ys : Bytes) → name_ltb xs ys ≡ true → name_ltb ys xs ≡ false
name_ltb_asym [] [] h = refl
name_ltb_asym [] (b ∷ ys) h = refl
name_ltb_asym (a ∷ xs) [] h = cc
name_ltb_asym (a ∷ xs) (b ∷ ys) h = elim (Bool-cases (ltb a b)) [
  | inl less ↦ rw (le→ltb b a (ground (arith, less))) (rw less refl)
  | inr not_less ↦ elim (Bool-cases (ltb b a)) [
    | inl more ↦ absurd (let bad : false ≡ true = rw more at (rw not_less at h) in cc)
    | inr not_more ↦
        rw not_more (rw not_less (name_ltb_asym xs ys (rw not_less at (rw not_more at h))))
  ]
]

digits_less :
    (w a b : ℕ) (xs ys : Bytes)
    → a < b
    → b < 10 ^ w
    → name_ltb (digits_of w a ++ xs) (digits_of w b ++ ys) ≡ true
digits_less zero a b xs ys less small = absurd (omega arith)
digits_less (suc w) a b xs ys less small = elim (dec_lt (a / 10) (b / 10)) [
  | yes higher ↦
      regroup
      ∙ digits_less w (a / 10) (b / 10) ((a % 10 + b'0') ∷ xs) ((b % 10 + b'0') ∷ ys) higher
          (omega arith)
  | no same ↦
      let e : a / 10 ≡ b / 10 = omega arith in
      regroup
      ∙ ap
          (λ q.
            name_ltb (digits_of w q ++ ((a % 10 + b'0') ∷ xs))
              (digits_of w (b / 10) ++ ((b % 10 + b'0') ∷ ys)))
          e
      ∙ name_ltb-same (digits_of w (b / 10)) _ _
      ∙ rw (lt→ltb (a % 10 + b'0') (b % 10 + b'0') (omega arith)) refl
]
  where
    regroup :
        name_ltb (digits_of (suc w) a ++ xs) (digits_of (suc w) b ++ ys)
        ≡ name_ltb
            (digits_of w (a / 10) ++ ((a % 10 + b'0') ∷ xs))
            (digits_of w (b / 10) ++ ((b % 10 + b'0') ∷ ys))
    regroup =
        ap₂ (λ l r. name_ltb l r) (append_assoc (digits_of w (a / 10)) _ xs)
          (append_assoc (digits_of w (b / 10)) _ ys)

ten_digits : (n : ℕ) → n < 10 ^ 10 → decimal n ≡ digits_of 10 n
unfolding decimal
ten_digits n small = rw (decimal, lt→ltb n (10 ^ 10) small) refl

-- Below 10^10, the names of snapshot files are in the order of their numbers of records.
pub filename_increases : (a b : ℕ) → a < b → b < 10 ^ 10 → name_ltb (filename a) (filename b) ≡ true
unfolding filename
filename_increases a b less small =
    name_ltb-same name_prefix (decimal a ++ name_suffix) (decimal b ++ name_suffix)
    ∙ ap₂ (λ l r. name_ltb (l ++ name_suffix) (r ++ name_suffix)) (ten_digits a (omega arith))
        (ten_digits b small)
    ∙ digits_less 10 a b name_suffix name_suffix less small

pub same_name_refl : (xs : Bytes) → same_name xs xs ≡ true
same_name_refl [] = refl
same_name_refl (x ∷ xs) = rw ((==_iff x x).1 refl) (same_name_refl xs)

ends_with-append : (xs end : Bytes) → ends_with end (xs ++ end) ≡ true
ends_with-append [] [] = refl
ends_with-append [] (b ∷ end) = rw (same_name_refl (b ∷ end)) refl
ends_with-append (x ∷ xs) end = elim (Bool-cases (same_name end (x ∷ (xs ++ end)))) [
  | inl whole ↦ rw whole refl
  | inr longer ↦ rw longer (ends_with-append xs end)
]

digits_of-ascii : (w n : ℕ) → All (λ b. b < 128) (digits_of w n)
digits_of-ascii zero n = tt
digits_of-ascii (suc w) n =
    All-append (λ b. b < 128) (digits_of w (n / 10)) _ (digits_of-ascii w (n / 10))
      (omega arith, tt)

prefix_ascii : All (λ b. b < 128) name_prefix
prefix_ascii = ground arith

suffix_ascii : All (λ b. b < 128) name_suffix
suffix_ascii = ground arith

filename-ascii : (n : ℕ) → All (λ b. b < 128) (filename n)
unfolding filename decimal
filename-ascii n =
    All-append (λ b. b < 128) name_prefix _ prefix_ascii
      (All-append (λ b. b < 128) (decimal n) name_suffix (digits_of-ascii (width_of 10 10 n) n)
        suffix_ascii)

-- The name of a snapshot file is one that a reader looks for.
pub filename-found :
    (n : ℕ)
    → (is_utf8 (filename n)
        && (starts_with name_prefix (filename n) && ends_with name_suffix (filename n)))
      ≡ true
unfolding filename
filename-found n = rw (is_utf8-ascii (filename n) (filename-ascii n)) (
    ap (λ l. ends_with name_suffix l) (sym (append_assoc name_prefix (decimal n) name_suffix))
    ∙ ends_with-append (name_prefix ++ decimal n) name_suffix)
