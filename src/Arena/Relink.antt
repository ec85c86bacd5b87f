-- ===== src/Arena/Relink.antt =====
-- Writing the link at one end of a chain: what the chain is then, and that nothing else changes.
use velocity_match.Common.{ℕ, ◌≡◌, true, false, some, [], ◌∷◌, arith, ◌==◌, ap, ◌∙◌}
use velocity_match.Order.{Order}
use velocity_match.Arena.{OrderNode, Storage, put, modify, set_next, set_prev}
use velocity_match.Arena.Chain.{Cells, node, head_or, last_or, has, IsDistinct, Chain, Chain-frame}

-- `t` differs from `s` at most at `i`.
abbrev pub SameBut : ℕ → Storage → Storage → Type 0
SameBut i s t = (a : ℕ) → (a == i) ≡ false → t a ≡ s a

pub put-SameBut : (s : Storage) (i : ℕ) (n : OrderNode) → SameBut i s (put s i n)
put-SameBut s i n a h = rw h

pub put_self : (s : Storage) (i : ℕ) (n : OrderNode) → put s i n i ≡ some n
put_self s i n = ground arith

pub modify-some :
    (s : Storage) (i : ℕ) (f : OrderNode → OrderNode) (n : OrderNode)
    → s i ≡ some n
    → modify s i f ≡ some (put s i (f n))
unfolding modify
modify-some s i f n h = rw h

pub has-last_or :
    (p i : ℕ) (o : Order) (xs : Cells) → has (last_or p ((i, o) ∷ xs)) ((i, o) ∷ xs) ≡ true
has-last_or p i o [] = ground arith
has-last_or p i o ((j, u) ∷ xs) = ground (arith, has-last_or i j u xs)

pub ne_of_has : (a b : ℕ) (xs : Cells) → has a xs ≡ false → has b xs ≡ true → (a == b) ≡ false
ne_of_has a b xs h k = ground (arith, eq_has a b xs)
  where
    eq_has : (a b : ℕ) (xs : Cells) → a ≡ b → has a xs ≡ has b xs
    eq_has a b xs e = ap (λ c. has c xs) e

-- What a write at `i` leaves: the new storage and the chain in it.
pub record Relinked (s : Storage) (i : ℕ) (f : OrderNode → OrderNode) (P : Storage → Type 0)
    : Type 0 where
  pub storage : Storage
  pub done : modify s i f ≡ some storage
  pub chain : P storage
  pub same : SameBut i s storage

pub relink_first :
    (s : Storage) (p p' i : ℕ) (o : Order) (xs : Cells) (q : ℕ)
    → IsDistinct ((i, o) ∷ xs)
    → Chain s p ((i, o) ∷ xs) q
    → Relinked s i (set_prev p') (λ t. Chain t p' ((i, o) ∷ xs) q)
relink_first s p p' i o xs q d c = record {
  storage = put s i (node o p' (head_or q xs));
  done = modify-some s i (set_prev p') _ c.0;
  chain = (put_self s i _, Chain-frame s _ i xs q (λ a h. ground arith) c.1);
  same = put-SameBut s i _;
}

pub relink_last :
    (s : Storage) (p i : ℕ) (o : Order) (xs : Cells) (q q' : ℕ)
    → IsDistinct ((i, o) ∷ xs)
    → Chain s p ((i, o) ∷ xs) q
    → Relinked s (last_or i xs) (set_next q') (λ t. Chain t p ((i, o) ∷ xs) q')
relink_last s p i o [] q q' d c = record {
  storage = put s i (node o p q');
  done = modify-some s i (set_next q') _ c.0;
  chain = (put_self s i _, tt);
  same = put-SameBut s i _;
}
relink_last s p i o ((j, u) ∷ xs) q q' d c =
    let rest = relink_last s i j u xs q q' d.1 c.1 in
    record {
      storage = rest.storage;
      done = rest.done;
      chain = (
        rest.same i (ne_of_has i (last_or j xs) ((j, u) ∷ xs) d.0 (has-last_or i j u xs)) ∙ c.0,
        rest.chain,
      );
      same = rest.same;
    }
