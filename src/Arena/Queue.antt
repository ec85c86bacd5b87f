-- ===== src/Arena/Queue.antt =====
-- The queue of a price level: `push_back` and `pop_front` on the chain of its cells.
use velocity_match.Common.{
  ℕ, sym, ◌∙◌, ◌+◌, ◌-◌, ◌%◌, ◌^◌, ◌<◌, ◌≡◌, refl, ◌≢◌, false, some, [], ◌∷◌, ◌++◌, arith, ==_ne,
  ap, length, length-append,
}
use velocity_match.Order.{Order}
use velocity_match.Arena.{PriceLevel, Storage, arena_null, put, modify, push_back, pop_front}
use velocity_match.Arena.Chain.{
  Cells, node, last_or, has, Chain-append, has-append, last_or-append, has_left, has_right, has_one,
  Chain-put,
}
use velocity_match.Arena.Relink.{
  relink_first, relink_last, put_self, put-SameBut, has-last_or, ne_of_has,
}
use velocity_match.Arena.Level.{
  total, IsLevel, Became, total-append, IsDistinct-snoc, last-ne-null, qty-sub,
}

-- Pushing a node of the storage that is not in the queue of a level, nor the null index, leaves a
-- level for the queue with the node's order at its end, and changes no node outside that queue. The
-- queue stays below 2^32 orders.
pub push_back-Became :
    (s : Storage) (l : PriceLevel) (xs : Cells) (i : ℕ) (o : Order) (p q : ℕ)
    → IsLevel s l xs
    → s i ≡ some (node o p q)
    → has i xs ≡ false
    → i ≢ arena_null
    → length xs + 1 < 2 ^ 32
    → Became s (xs ++ ((i, o) ∷ [])) (xs ++ ((i, o) ∷ [])) (λ t l'. push_back s l i ≡ some (t, l'))
unfolding push_back modify
push_back-Became s l [] i o p q v e new ne small = record {
  storage = put (put s i (node o arena_null q)) i (node o arena_null arena_null);
  level = record {
    head = i;
    tail = i;
    count = (l.count + 1) % 2 ^ 32;
    qty = (l.qty + o.quantity) % 2 ^ 64;
  };
  done = rw (e, v.tail, put_self s i (node o arena_null q)) refl;
  is = record {
    head = refl;
    tail = refl;
    chain = (put_self (put s i (node o arena_null q)) i _, tt);
    distinct = (refl, tt);
    no_null = ground arith;
    count = ground (arith, v.count);
    qty = ground (arith, v.qty);
  };
  same = λ a h. ground arith;
}
push_back-Became s l ((j, u) ∷ xs) i o p q v e new ne small =
    let r = relink_last s arena_null j u xs arena_null i v.distinct v.chain in
    let away = ne_of_has i (last_or j xs) ((j, u) ∷ xs) new (has-last_or arena_null j u xs) in
    let kept : r.storage i ≡ some (node o p q) = r.same i away ∙ e in
    let t = put r.storage i (node o (last_or j xs) q) in
    record {
      storage = put t i (node o (last_or j xs) arena_null);
      level = record {
        head = l.head;
        tail = i;
        count = (l.count + 1) % 2 ^ 32;
        qty = (l.qty + o.quantity) % 2 ^ 64;
      };
      done =
          rw
            (
              e,
              v.tail,
              last-ne-null arena_null j u xs v.no_null,
              r.done,
              kept,
              put_self r.storage i (node o (last_or j xs) q),
            )
            refl;
      is = record {
        head = v.head;
        tail = sym (last_or-append j xs ((i, o) ∷ []));
        chain =
            Chain-append _ arena_null ((j, u) ∷ xs) ((i, o) ∷ []) arena_null
              (Chain-put t i _ arena_null ((j, u) ∷ xs) i new
                (Chain-put r.storage i _ arena_null ((j, u) ∷ xs) i new r.chain))
              (put_self t i _, tt);
        distinct = IsDistinct-snoc ((j, u) ∷ xs) i o v.distinct new;
        no_null = ground (arith, has-append arena_null xs ((i, o) ∷ []));
        count = ground (arith, v.count, length-append xs ((i, o) ∷ []));
        qty = ground (arith, v.qty, total-append xs ((i, o) ∷ []));
      };
      same = λ a h.
          let off = has_one a i o (has_right a ((j, u) ∷ xs) _ h) in
          put-SameBut t i _ a off
          ∙ put-SameBut r.storage i _ a off
          ∙ r.same a (
              ne_of_has a (last_or j xs) ((j, u) ∷ xs) (has_left a ((j, u) ∷ xs) _ h)
                (has-last_or arena_null j u xs));
    }

-- Popping the front of a level's queue returns its first node, leaves a level for the rest of the
-- queue, and changes no node outside the rest. The queue's length is below 2^32, and the quantity of
-- its first order below 2^64.
pub pop_front-Became :
    (s : Storage) (l : PriceLevel) (i : ℕ) (o : Order) (xs : Cells)
    → IsLevel s l ((i, o) ∷ xs)
    → length xs + 1 < 2 ^ 32
    → o.quantity < 2 ^ 64
    → Became s xs xs (λ t l'. pop_front s l ≡ some (some i, t, l'))
unfolding pop_front modify
pop_front-Became s l i o [] v small fits = record {
  storage = s;
  level = record {
    head = arena_null;
    tail = arena_null;
    count = (l.count + 2 ^ 32 - 1) % 2 ^ 32;
    qty = (l.qty + 2 ^ 64 - o.quantity) % 2 ^ 64;
  };
  done = rw (v.head, ==_ne i arena_null (ground (arith, v.no_null)), v.chain.0) refl;
  is = record {
    head = refl;
    tail = refl;
    chain = tt;
    distinct = tt;
    no_null = refl;
    count = ground (arith, v.count);
    qty = qty-sub l.qty o.quantity 0 fits (v.qty ∙ ap (λ n. n % 2 ^ 64) (omega arith));
  };
  same = λ a h. refl;
}
pop_front-Became s l i o ((j, u) ∷ xs) v small fits =
    let r = relink_first s i arena_null j u xs arena_null v.distinct.1 v.chain.1 in
    record {
      storage = r.storage;
      level = record {
        head = j;
        tail = l.tail;
        count = (l.count + 2 ^ 32 - 1) % 2 ^ 32;
        qty = (l.qty + 2 ^ 64 - o.quantity) % 2 ^ 64;
      };
      done =
          rw
            (
              v.head,
              ==_ne i arena_null (ground (arith, v.no_null)),
              v.chain.0,
              ==_ne j arena_null (ground (arith, v.no_null)),
              r.done,
            )
            refl;
      is = record {
        head = refl;
        tail = v.tail;
        chain = r.chain;
        distinct = v.distinct.1;
        no_null = ground (arith, v.no_null);
        count = ground (arith, v.count);
        qty = qty-sub l.qty o.quantity (total ((j, u) ∷ xs)) fits v.qty;
      };
      same = λ a h. r.same a (ground arith);
    }
