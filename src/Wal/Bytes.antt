-- ===== src/Wal/Bytes.antt =====
-- Ranges of a list of bytes that is put together from parts.
use velocity_match.Common.{
  ℕ, zero, suc, ◌+◌, ◌-◌, ◌≤◌, ◌≡◌, refl, some, [], ◌∷◌, ◌++◌, length, drop, arith, ap, ◌∙◌,
  replicate,
}
use velocity_match.Protocol.{Buffer, slice, splice, to_le}

pub slice_whole : (xs rest : Buffer) (n : ℕ) → n ≡ length xs → slice zero n (xs ++ rest) ≡ some xs
slice_whole [] rest zero e = refl
slice_whole [] rest (suc n) e = absurd (omega arith)
slice_whole (x ∷ xs) rest zero e = absurd (omega arith)
slice_whole (x ∷ xs) rest (suc n) e = rw (slice_whole xs rest n (omega arith)) refl

-- A range of the second of two parts.
pub slice_skip :
    (p : ℕ) (first : Buffer) (o n : ℕ) (rest : Buffer)
    → p ≡ length first + o
    → slice p n (first ++ rest) ≡ slice o n rest
slice_skip p [] o n rest e = ap (λ i. slice i n rest) (omega arith)
slice_skip zero (b ∷ first) o n rest e = absurd (omega arith)
slice_skip (suc p) (b ∷ first) o n rest e = slice_skip p first o n rest (omega arith)

pub slice_at :
    (p n : ℕ) (first xs rest : Buffer)
    → p ≡ length first
    → n ≡ length xs
    → slice p n (first ++ (xs ++ rest)) ≡ some xs
slice_at p n first xs rest e f =
    slice_skip p first 0 n (xs ++ rest) (omega arith) ∙ slice_whole xs rest n f

-- A range within the bytes is there, with as many bytes as asked for.
pub slice_inside :
    (p n : ℕ) (buf : Buffer)
    → p + n ≤ length buf
    → (xs : Buffer) × (slice p n buf ≡ some xs) × (length xs ≡ n)
slice_inside zero zero buf h = ([], refl, refl)
slice_inside zero (suc n) [] h = absurd (omega arith)
slice_inside zero (suc n) (b ∷ bs) h =
    let (xs, e, l) = slice_inside zero n bs (omega arith) in (b ∷ xs, rw e refl, omega arith)
slice_inside (suc p) n [] h = absurd (omega arith)
slice_inside (suc p) n (b ∷ bs) h = slice_inside p n bs (omega arith)

splice_front :
    (zs bs : Buffer) → length zs ≤ length bs → splice zero zs bs ≡ some (zs ++ drop (length zs) bs)
splice_front [] bs h = refl
splice_front (z ∷ zs) [] h = absurd (omega arith)
splice_front (z ∷ zs) (b ∷ bs) h = rw (splice_front zs bs (omega arith)) refl

-- Bytes written behind the first part.
pub splice_at :
    (p : ℕ) (first zs rest : Buffer)
    → p ≡ length first
    → length zs ≤ length rest
    → splice p zs (first ++ rest) ≡ some (first ++ (zs ++ drop (length zs) rest))
splice_at zero [] zs rest e h = splice_front zs rest h
splice_at (suc p) [] zs rest e h = absurd (omega arith)
splice_at zero (b ∷ first) zs rest e h = absurd (omega arith)
splice_at (suc p) (b ∷ first) zs rest e h = rw (splice_at p first zs rest (omega arith) h) refl

pub drop-drop : (m n : ℕ) (xs : Buffer) → drop n (drop m xs) ≡ drop (m + n) xs
drop-drop zero n xs = let e : n ≡ 0 + n = omega arith in ap (λ i. drop i xs) e
drop-drop (suc m) n [] = nothing n (suc m + n)
  where
    nothing : (i j : ℕ) → drop {A = ℕ} i [] ≡ drop j []
    nothing zero zero = refl
    nothing zero (suc j) = refl
    nothing (suc i) zero = refl
    nothing (suc i) (suc j) = refl
drop-drop (suc m) n (x ∷ xs) =
    let e : suc (m + n) ≡ suc m + n = omega arith in drop-drop m n xs ∙ ap (λ i. drop i (x ∷ xs)) e

pub drop-replicate : (n m : ℕ) (x : ℕ) → drop n (replicate m x) ≡ replicate (m - n) x
drop-replicate zero m x = let e : m ≡ m - 0 = omega arith in ap (λ i. replicate i x) e
drop-replicate (suc n) zero x = let e : 0 ≡ 0 - suc n = omega arith in ap (λ i. replicate i x) e
drop-replicate (suc n) (suc m) x =
    let e : m - n ≡ suc m - suc n = omega arith in drop-replicate n m x ∙ ap (λ i. replicate i x) e

pub replicate-append : (m n x : ℕ) → replicate m x ++ replicate n x ≡ replicate (m + n) x
replicate-append zero n x = let e : n ≡ 0 + n = omega arith in ap (λ i. replicate i x) e
replicate-append (suc m) n x =
    let e : suc (m + n) ≡ suc m + n = omega arith in
    ap (λ l. x ∷ l) (replicate-append m n x) ∙ ap (λ i. replicate i x) e

pub length-to_le : (n x : ℕ) → length (to_le n x) ≡ n
length-to_le zero x = refl
length-to_le (suc n) x = ap suc (length-to_le n _)
