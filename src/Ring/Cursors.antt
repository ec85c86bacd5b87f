-- ===== src/Ring/Cursors.antt =====
-- The numbers: what the tests of `push` and `pop` say, and the cursors after each load and store.
use velocity_match.Common.{ℕ, ◌+◌, ◌-◌, ◌^◌, ◌<◌, ◌≤◌, ◌≡◌, refl, arith, ◌==◌, true, false}
use native.Mathlib.Nat.{pow-le-pow_right}
use velocity_match.Ring.{Producer, Consumer, wrapping_sub, wrapping_add}
use velocity_match.Ring.Inv.{Cursors}

pub capacity_fits : (k : ℕ) → k ≤ 63 → 2 ^ k ≤ 2 ^ 63
capacity_fits k h = pow-le-pow_right {n = 2} (omega arith) h

module _ {k head tail : ℕ} {p : Producer} {c : Consumer} {t n st sh : ℕ} (small : k ≤ 63)
    (cs : Cursors k head tail p c t n st sh) where
  -- What the producer's test says of the queue.
  pub not_full : (wrapping_sub p.cached_head p.cached_tail == 2 ^ k) ≡ false → t + n < st + 2 ^ k
  not_full e = ground (
    arith,
    capacity_fits k small,
    cs.head_is,
    cs.own_head,
    cs.seen_tail_is,
    cs.seen_tail_old,
    cs.seen_tail_near,
  )

  pub not_empty : (c.cached_tail == c.cached_head) ≡ false → t < sh
  not_empty e =
      ground (arith, cs.tail_is, cs.own_tail, cs.seen_head_is, cs.seen_head_new, cs.seen_head_old)

  pub load_tail : Cursors k head tail (record p { cached_tail = tail }) c t n t sh
  load_tail = record {
    head_is = cs.head_is;
    tail_is = cs.tail_is;
    own_head = cs.own_head;
    own_tail = cs.own_tail;
    room = cs.room;
    seen_tail_is = cs.tail_is;
    seen_tail_old = omega arith;
    seen_tail_near = omega (arith, cs.room);
    seen_head_is = cs.seen_head_is;
    seen_head_new = cs.seen_head_new;
    seen_head_old = cs.seen_head_old;
  }

  pub load_head : Cursors k head tail p (record c { cached_head = head }) t n st (t + n)
  load_head = record {
    head_is = cs.head_is;
    tail_is = cs.tail_is;
    own_head = cs.own_head;
    own_tail = cs.own_tail;
    room = cs.room;
    seen_tail_is = cs.seen_tail_is;
    seen_tail_old = cs.seen_tail_old;
    seen_tail_near = cs.seen_tail_near;
    seen_head_is = cs.head_is;
    seen_head_new = omega arith;
    seen_head_old = omega arith;
  }

  pub store_head :
      t + n < st + 2 ^ k
      → Cursors k
          (wrapping_add p.cached_head 1)
          tail
          (record p { cached_head = wrapping_add p.cached_head 1 })
          c
          t
          (n + 1)
          st
          sh
  store_head h = record {
    head_is = omega (arith, cs.head_is, cs.own_head);
    tail_is = cs.tail_is;
    own_head = refl;
    own_tail = cs.own_tail;
    room = omega (arith, cs.seen_tail_old);
    seen_tail_is = cs.seen_tail_is;
    seen_tail_old = cs.seen_tail_old;
    seen_tail_near = omega arith;
    seen_head_is = cs.seen_head_is;
    seen_head_new = cs.seen_head_new;
    seen_head_old = omega (arith, cs.seen_head_old);
  }

  pub store_tail :
      t < sh
      → Cursors k head
          (wrapping_add c.cached_tail 1)
          p
          (record c { cached_tail = wrapping_add c.cached_tail 1 })
          (t + 1)
          (n - 1)
          st
          sh
  store_tail h = record {
    head_is = omega (arith, cs.head_is, cs.seen_head_old);
    tail_is = omega (arith, cs.tail_is, cs.own_tail);
    own_head = cs.own_head;
    own_tail = refl;
    room = omega (arith, cs.room);
    seen_tail_is = cs.seen_tail_is;
    seen_tail_old = omega (arith, cs.seen_tail_old);
    seen_tail_near = omega (arith, cs.seen_tail_near, cs.seen_head_old);
    seen_head_is = cs.seen_head_is;
    seen_head_new = omega arith;
    seen_head_old = omega (arith, cs.seen_head_old);
  }

  -- The tests against the other side's cursor as it is now.
  pub full_now : (wrapping_sub p.cached_head tail == 2 ^ k) ≡ true → n ≡ 2 ^ k
  full_now e = ground (arith, capacity_fits k small, cs.head_is, cs.own_head, cs.tail_is, cs.room)

  pub empty_now : (c.cached_tail == head) ≡ true → n ≡ 0
  empty_now e = ground (arith, capacity_fits k small, cs.head_is, cs.own_tail, cs.tail_is, cs.room)
