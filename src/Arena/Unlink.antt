-- ===== src/Arena/Unlink.antt =====
-- `remove`: unlinking a node from the middle of a price level's queue.
use velocity_match.Common.{
  ℕ, sym, ◌∙◌, ◌+◌, ◌-◌, ◌%◌, ◌^◌, ◌<◌, ◌≡◌, refl, ◌≢◌, inl, inr, true, false, Option, some, [],
  ◌∷◌, ◌++◌, arith, ◌==◌, ==_ne, if◌then◌else◌, ap, length, length-append, Bool-cases,
}
use velocity_match.Common.Run.Panic.{◌>>=◌}
use velocity_match.Order.{Order}
use velocity_match.Arena.{PriceLevel, Storage, arena_null, modify, set_next, set_prev, remove}
use velocity_match.Arena.Chain.{
  Cells, head_or, last_or, has, IsDistinct, Chain, Chain-frame, Chain-append, Chain-left,
  Chain-right, has-append, head_or-append, last_or-append, has_left, has_right,
}
use velocity_match.Arena.Relink.{relink_first, relink_last, has-last_or, ne_of_has}
use velocity_match.Arena.Level.{total, IsLevel, Became, total-append, last-ne-null, qty-sub}

-- The two links that `remove` writes: the one before the node, and the one after it.
record Unlinked (s : Storage) (touched : Cells) (P : Storage → ℕ → Type 0)
    (run : Option (Storage × ℕ)) : Type 0 where
  storage : Storage
  link : ℕ
  done : run ≡ some (storage, link)
  left : P storage link
  same : (a : ℕ) → has a touched ≡ false → storage a ≡ s a

unlink_left :
    (s : Storage) (head i nxt : ℕ) (xs : Cells)
    → head ≡ head_or i xs
    → has arena_null xs ≡ false
    → IsDistinct xs
    → Chain s arena_null xs i
    → Unlinked s xs
        (λ t h. Chain t arena_null xs nxt × (h ≡ head_or nxt xs))
        (if last_or arena_null xs == arena_null
          then some (s, nxt)
          else (modify s (last_or arena_null xs) (set_next nxt) >>= λ t. some (t, head)))
unlink_left s head i nxt [] e nn d c = record {
  storage = s;
  link = nxt;
  done = refl;
  left = (tt, refl);
  same = λ a h. refl;
}
unlink_left s head i nxt ((j, u) ∷ xs) e nn d c =
    let r = relink_last s arena_null j u xs i nxt d c in
    record {
      storage = r.storage;
      link = head;
      done = rw (last-ne-null arena_null j u xs nn, r.done) refl;
      left = (r.chain, e);
      same = λ a h.
          r.same a (ne_of_has a (last_or j xs) ((j, u) ∷ xs) h (has-last_or arena_null j u xs));
    }

unlink_right :
    (s : Storage) (tail i prv : ℕ) (ys : Cells)
    → tail ≡ last_or i ys
    → has arena_null ys ≡ false
    → IsDistinct ys
    → Chain s i ys arena_null
    → Unlinked s ys
        (λ t h. Chain t prv ys arena_null × (h ≡ last_or prv ys))
        (if head_or arena_null ys == arena_null
          then some (s, prv)
          else (modify s (head_or arena_null ys) (set_prev prv) >>= λ t. some (t, tail)))
unlink_right s tail i prv [] e nn d c = record {
  storage = s;
  link = prv;
  done = refl;
  left = (tt, refl);
  same = λ a h. refl;
}
unlink_right s tail i prv ((j, u) ∷ ys) e nn d c =
    let r = relink_first s i prv j u ys arena_null d c in
    record {
      storage = r.storage;
      link = tail;
      done = rw (==_ne j arena_null (ground arith), r.done) refl;
      left = (r.chain, e);
      same = λ a h. r.same a (ground arith);
    }

pub IsDistinct-parts :
    (xs ys : Cells)
    → IsDistinct (xs ++ ys)
    → IsDistinct xs × IsDistinct ys × ((a : ℕ) → has a xs ≡ true → has a ys ≡ false)
IsDistinct-parts [] ys d = (tt, d, λ a h. cc)
IsDistinct-parts ((i, o) ∷ xs) ys d =
    let (dx, dy, apart) = IsDistinct-parts xs ys d.1 in
    (
      (has_left i xs ys d.0, dx),
      dy,
      λ a h. elim (Bool-cases (a == i)) [
        | inl e ↦ ground (arith, has_right i xs ys d.0)
        | inr e ↦ apart a (ground arith)
      ],
    )

IsDistinct-drop :
    (xs : Cells) (i : ℕ) (o : Order) (ys : Cells)
    → IsDistinct (xs ++ ((i, o) ∷ ys))
    → IsDistinct (xs ++ ys)
IsDistinct-drop [] i o ys d = d.1
IsDistinct-drop ((j, u) ∷ xs) i o ys d = (
  ground (arith, has-append j xs ((i, o) ∷ ys), has-append j xs ys),
  IsDistinct-drop xs i o ys d.1,
)

has_tail : (a i : ℕ) (o : Order) (ys : Cells) → has a ((i, o) ∷ ys) ≡ false → has a ys ≡ false
has_tail a i o ys h = ground arith

apart_sym :
    (a i : ℕ) (o : Order) (xs ys : Cells)
    → (has a xs ≡ true → has a ((i, o) ∷ ys) ≡ false)
    → has a ys ≡ true
    → has a xs ≡ false
apart_sym a i o xs ys apart h = elim (Bool-cases (has a xs)) [
  | inl e ↦ absurd (true≢false (sym h ∙ has_tail a i o ys (apart e)))
  | inr e ↦ e
]
  where
    true≢false : true ≢ false
    true≢false e = cc

pub has_drop :
    (a : ℕ) (xs : Cells) (c : ℕ × Order) (ys : Cells)
    → has a (xs ++ (c ∷ ys)) ≡ false
    → has a (xs ++ ys) ≡ false
has_drop a xs (i, o) ys h = ground (arith, has-append a xs ((i, o) ∷ ys), has-append a xs ys)

count-drop :
    (n : ℕ) (xs : Cells) (c : ℕ × Order) (ys : Cells)
    → n ≡ length (xs ++ (c ∷ ys))
    → length (xs ++ (c ∷ ys)) < 2 ^ 32
    → (n + 2 ^ 32 - 1) % 2 ^ 32 ≡ length (xs ++ ys)
count-drop n xs c ys e h = omega (arith, length-append xs (c ∷ ys), length-append xs ys)

-- Removing a node from anywhere in a level's queue leaves a level for the queue without it, and
-- changes no node outside what is left. The queue's length is below 2^32, and the quantity of the
-- order removed below 2^64.
pub remove-Became :
    (s : Storage) (l : PriceLevel) (xs : Cells) (i : ℕ) (o : Order) (ys : Cells)
    → IsLevel s l (xs ++ ((i, o) ∷ ys))
    → length (xs ++ ((i, o) ∷ ys)) < 2 ^ 32
    → o.quantity < 2 ^ 64
    → Became s (xs ++ ys) (xs ++ ys) (λ t l'. remove s l i ≡ some (t, l'))
unfolding remove
remove-Became s l xs i o ys v small fits =
    let (dx, dy, apart) = IsDistinct-parts xs ((i, o) ∷ ys) v.distinct in
    let right = Chain-right s arena_null xs ((i, o) ∷ ys) arena_null v.chain in
    let a =
      unlink_left s l.head i (head_or arena_null ys) xs
        (v.head ∙ head_or-append arena_null xs ((i, o) ∷ ys)) (has_left arena_null xs _ v.no_null)
        dx (Chain-left s arena_null xs ((i, o) ∷ ys) arena_null v.chain) in
    let b =
      unlink_right a.storage l.tail i (last_or arena_null xs) ys
        (v.tail ∙ last_or-append arena_null xs ((i, o) ∷ ys))
        (has_tail arena_null i o ys (has_right arena_null xs ((i, o) ∷ ys) v.no_null)) dy.1
        (Chain-frame s a.storage i ys arena_null
          (λ c h. a.same c (apart_sym c i o xs ys (apart c) h)) right.1) in
    record {
      storage = b.storage;
      level = record {
        head = a.link;
        tail = b.link;
        count = (l.count + 2 ^ 32 - 1) % 2 ^ 32;
        qty = (l.qty + 2 ^ 64 - o.quantity) % 2 ^ 64;
      };
      done = rw (right.0, a.done, b.done) refl;
      is = record {
        head = a.left.1 ∙ sym (head_or-append arena_null xs ys);
        tail = b.left.1 ∙ sym (last_or-append arena_null xs ys);
        chain =
            Chain-append b.storage arena_null xs ys arena_null
              (Chain-frame a.storage b.storage arena_null xs (head_or arena_null ys)
                (λ c h. b.same c (has_tail c i o ys (apart c h))) a.left.0)
              b.left.0;
        distinct = IsDistinct-drop xs i o ys v.distinct;
        no_null = has_drop arena_null xs (i, o) ys v.no_null;
        count = count-drop l.count xs (i, o) ys v.count small;
        qty = qty-sub l.qty o.quantity (total (xs ++ ys)) fits (
            v.qty
            ∙ ap (λ n. n % 2 ^ 64)
                (omega (arith, total-append xs ((i, o) ∷ ys), total-append xs ys)));
      };
      same = λ c h. b.same c (has_right c xs ys h) ∙ a.same c (has_left c xs ys h);
    }
