-- ===== src/Ring/Drop.antt =====
-- The drop of a buffer that both sides are done with.
use velocity_match.Common.{
  ℕ, zero, suc, ◌+◌, ◌-◌, ◌%◌, ◌^◌, ◌<◌, ◌≤◌, ◌≡◌, refl, some, List, [], ◌∷◌, ◌++◌, arith, length,
  get_elem?, sym, ◌∙◌, ap, append-nil, bit_and, ==_iff, ==_ne,
}
use velocity_match.Common.Run.Panic.{◌>>=◌}
use native.Mathlib.Nat.{add-zero}
use velocity_match.Ring.{
  RingBufferInner, System, Pushing, Popping, drop_loop, drop_all, wrapping_add,
}
use velocity_match.Ring.Steps.{Reach}
use velocity_match.Ring.Inv.{slot_of, expected, placed}
use velocity_match.Ring.Cursors.{capacity_fits}
use velocity_match.Ring.Fifo.{Reach-IsQueue}

module _ {A : Type 0} (k : ℕ) (small : k ≤ 63) (r : RingBufferInner A)
    (mask_is : r.mask ≡ 2 ^ k - 1) where
  drop_loop-queue :
      (fuel t : ℕ) (xs : List A)
      → r.head ≡ (t + length xs) % 2 ^ 64
      → length xs ≤ 2 ^ k
      → length xs < fuel
      → ((i : ℕ) → i < length xs → r.buffer ((t + i) % 2 ^ k) ≡ get_elem? xs i)
      → drop_loop fuel r (t % 2 ^ 64) ≡ some xs
  unfolding drop_loop
  drop_loop-queue zero t xs head_is room enough slots = absurd (omega arith)
  drop_loop-queue (suc f) t [] head_is room enough slots =
      rw ((==_iff (t % 2 ^ 64) r.head).1 (omega (arith, head_is))) refl
  drop_loop-queue (suc f) t (x ∷ xs) head_is room enough slots =
      let rest =
        drop_loop-queue f (t + 1) xs (omega (arith, head_is)) (omega arith) (omega arith)
          (λ i h. ap (λ n. r.buffer (n % 2 ^ k)) (omega arith) ∙ slots (suc i) (omega arith)) in
      rw (==_ne (t % 2 ^ 64) r.head (omega (arith, head_is, capacity_fits k small))) (
        rw (slot ∙ slots 0 (omega arith), ◌>>=◌)
          (rw (ap (λ i. drop_loop f r i) next ∙ rest, ◌>>=◌) refl))
    where
      slot : r.buffer (bit_and (t % 2 ^ 64) r.mask) ≡ r.buffer ((t + 0) % 2 ^ k)
      slot =
          ap (λ m. r.buffer (bit_and (t % 2 ^ 64) m)) mask_is
          ∙ ap (λ i. r.buffer i) (slot_of k t small ∙ ap (λ n. n % 2 ^ k) (sym (add-zero t)))

      next : wrapping_add (t % 2 ^ 64) 1 ≡ (t + 1) % 2 ^ 64
      next = omega arith

-- Where no call is in progress, dropping a reachable buffer ends, meets a value in every slot that
-- it drops, and drops exactly the values that were sent and not received, in order.
pub drop_all-rest :
    {A : Type 0} (capacity : ℕ) {s : System A} {sent got : List A}
    → Reach capacity s sent got
    → s.pushing ≡ Pushing.idle
    → s.popping ≡ Popping.idle
    → (left : List A) × (drop_all s.inner ≡ some left) × (sent ≡ got ++ left)
unfolding drop_all
drop_all-rest {A} capacity {s} r no_push no_pop =
    let w = Reach-IsQueue capacity r in
    let c = w.inv.cursors in
    (
      w.queue,
      ap (λ t. drop_loop (s.inner.capacity + 1) s.inner t) c.tail_is
          ∙ drop_loop-queue w.log_size w.inv.shape.small s.inner w.inv.shape.mask_is
              (s.inner.capacity + 1) w.received w.queue c.head_is c.room
              (omega (arith, w.inv.shape.capacity_is, c.room))
              (λ i h. at_rest w.log_size w.received w.queue w.inv.slots i (omega (arith, c.room))),
      w.in_order,
    )
  where
    at_rest :
        (k t : ℕ) (q : List A)
        → ((i : ℕ)
            → i < 2 ^ k
            → s.inner.buffer ((t + i) % 2 ^ k) ≡ expected s.popping (q ++ placed s.pushing) i)
        → (i : ℕ) → i < 2 ^ k
        → s.inner.buffer ((t + i) % 2 ^ k) ≡ get_elem? q i
    at_rest k t q slots i h =
        rw no_pop at (rw no_push at (slots i h)) ∙ ap (λ l. get_elem? l i) (append-nil q)
