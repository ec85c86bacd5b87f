-- ===== src/Arena/Chain.antt =====
-- What the links of a price level's nodes say: the chain of a list of cells.
use velocity_match.Common.{
  ℕ, ◌≡◌, refl, Bool, true, false, ◌||◌, some, List, [], ◌∷◌, ◌++◌, arith, ◌==◌,
}
use velocity_match.Order.{Order}
use velocity_match.Arena.{OrderNode, Storage, put, from_order}

-- A cell is the index of a node and the order that it holds.
abbrev pub Cells : Type 0
Cells = List (ℕ × Order)

abbrev pub node : Order → (prev next : ℕ) → OrderNode
node o p q = record (from_order o) { prev = p; next = q }

abbrev pub head_or : ℕ → Cells → ℕ
head_or d [] = d
head_or d ((i, _) ∷ _) = i

abbrev pub last_or : ℕ → Cells → ℕ
last_or d [] = d
last_or d ((i, _) ∷ xs) = last_or i xs

abbrev pub has : ℕ → Cells → Bool
has a [] = false
has a ((i, _) ∷ xs) = (a == i) || has a xs

abbrev pub IsDistinct : Cells → Type 0
IsDistinct [] = Unit
IsDistinct ((i, _) ∷ xs) = (has i xs ≡ false) × IsDistinct xs

-- The nodes of `xs` link to one another in order; the first leads back to `p`, the last on to `q`.
abbrev pub Chain : Storage → ℕ → Cells → ℕ → Type 0
Chain s p [] q = Unit
Chain s p ((i, o) ∷ xs) q = (s i ≡ some (node o p (head_or q xs))) × Chain s i xs q

pub has-append : (a : ℕ) (xs ys : Cells) → has a (xs ++ ys) ≡ (has a xs || has a ys)
has-append a [] ys = refl
has-append a ((i, o) ∷ xs) ys = ground (arith, has-append a xs ys)

pub head_or-append : (d : ℕ) (xs ys : Cells) → head_or d (xs ++ ys) ≡ head_or (head_or d ys) xs
head_or-append d [] ys = refl
head_or-append d (x ∷ xs) ys = refl

pub last_or-append : (d : ℕ) (xs ys : Cells) → last_or d (xs ++ ys) ≡ last_or (last_or d xs) ys
last_or-append d [] ys = refl
last_or-append d ((i, o) ∷ xs) ys = last_or-append i xs ys

-- A chain survives any change that spares its own nodes.
pub Chain-frame :
    (s t : Storage) (p : ℕ) (xs : Cells) (q : ℕ)
    → ((a : ℕ) → has a xs ≡ true → t a ≡ s a)
    → Chain s p xs q
    → Chain t p xs q
Chain-frame s t p [] q same c = tt
Chain-frame s t p ((i, o) ∷ xs) q same c =
    (ground (arith, same i), Chain-frame s t i xs q (λ a h. same a (ground arith)) c.1)

pub Chain-append :
    (s : Storage) (p : ℕ) (xs ys : Cells) (q : ℕ)
    → Chain s p xs (head_or q ys)
    → Chain s (last_or p xs) ys q
    → Chain s p (xs ++ ys) q
Chain-append s p [] ys q c d = d
Chain-append s p ((i, o) ∷ xs) ys q c d =
    (ground (arith, head_or-append q xs ys), Chain-append s i xs ys q c.1 d)

pub Chain-left :
    (s : Storage) (p : ℕ) (xs ys : Cells) (q : ℕ)
    → Chain s p (xs ++ ys) q
    → Chain s p xs (head_or q ys)
Chain-left s p [] ys q c = tt
Chain-left s p ((i, o) ∷ xs) ys q c =
    (ground (arith, head_or-append q xs ys), Chain-left s i xs ys q c.1)

pub Chain-right :
    (s : Storage) (p : ℕ) (xs ys : Cells) (q : ℕ)
    → Chain s p (xs ++ ys) q
    → Chain s (last_or p xs) ys q
Chain-right s p [] ys q c = c
Chain-right s p ((i, o) ∷ xs) ys q c = Chain-right s i xs ys q c.1

pub Chain-put :
    (s : Storage) (i : ℕ) (n : OrderNode) (p : ℕ) (xs : Cells) (q : ℕ)
    → has i xs ≡ false
    → Chain s p xs q
    → Chain (put s i n) p xs q
Chain-put s i n p [] q h c = tt
Chain-put s i n p ((j, o) ∷ xs) q h c = (ground arith, Chain-put s i n j xs q (ground arith) c.1)

pub has_left : (a : ℕ) (xs ys : Cells) → has a (xs ++ ys) ≡ false → has a xs ≡ false
has_left a xs ys h = ground (arith, has-append a xs ys)

pub has_right : (a : ℕ) (xs ys : Cells) → has a (xs ++ ys) ≡ false → has a ys ≡ false
has_right a xs ys h = ground (arith, has-append a xs ys)

pub has_one : (a i : ℕ) (o : Order) → has a ((i, o) ∷ []) ≡ false → (a == i) ≡ false
has_one a i o h = ground arith
