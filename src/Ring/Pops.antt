-- ===== src/Ring/Pops.antt =====
-- Each access of `pop` keeps the invariant, and no read meets a slot without a value.
use velocity_match.Common.{
  ℕ, zero, suc, ◌+◌, ◌%◌, ◌^◌, ◌<◌, ◌≤◌, ◌≡◌, refl, ◌≢◌, none, some, List, [], ◌∷◌, ◌++◌, arith,
  length, get_elem?, length-append, ◌==◌, if◌then◌else◌, bit_and, sym, ◌∙◌, ap, append-nil,
  Bool-cases, inl, inr, ==_iff, subst, ℕ_discrete,
}
use velocity_match.Common.Run.Panic.{◌>>=◌}
use native.Mathlib.Nat.{add-mod_right}
use native.Mathlib.Decide.{dec_lt}
use velocity_match.Ring.{
  System, Popping, Event, silent, popped, empty, pop_call, pop_step, set_slot, wrapping_add,
}
use velocity_match.Ring.Inv.{Cursors, Inv, placed, expected, PushKnows, get_elem?_beyond}
use velocity_match.Ring.Cursors.{not_empty, load_head, store_tail, empty_now}
use velocity_match.Ring.Slots.{front, cap_slot, same_slot, pop_slot, After, length-placed}

module _ {A : Type 0} {k : ℕ} {s : System A} {t : ℕ} {q : List A} (inv : Inv k s t q) where
  pub pop_call-Inv : s.popping ≡ Popping.idle → Inv k (pop_call s) t q
  unfolding pop_call
  pop_call-Inv e = elim (Bool-cases (s.consumer.cached_tail == s.consumer.cached_head)) [
    | inl f ↦ rw f (record {
      shape = inv.shape;
      seen_tail = inv.seen_tail;
      seen_head = inv.seen_head;
      cursors = inv.cursors;
      push_knows = inv.push_knows;
      pop_knows = tt;
      slots = λ i h. rw e at (inv.slots i h);
    })
    | inr f ↦ rw f (record {
      shape = inv.shape;
      seen_tail = inv.seen_tail;
      seen_head = inv.seen_head;
      cursors = inv.cursors;
      push_knows = inv.push_knows;
      pop_knows = not_empty inv.shape.small inv.cursors f;
      slots = λ i h. rw e at (inv.slots i h);
    })
  ]

  -- What an access of `pop` comes to: never a read of a slot without a value.
  pub record Popped (pc : Popping A) : Type 0 where
    pub system : System A
    pub event : Event A
    pub done : pop_step pc s ≡ some (system, event)
    pub after : After k q event system

  pub reload_pop : s.popping ≡ Popping.reload → Popped Popping.reload
  unfolding pop_step
  reload_pop e = elim (Bool-cases (s.consumer.cached_tail == s.inner.head)) [
    | inl f ↦ record {
      system = record s {
        consumer = record s.consumer { cached_head = s.inner.head };
        popping = Popping.idle;
      };
      event = empty;
      done = rw f refl;
      after = record {
        received = t;
        queue = q;
        fifo = append-nil q;
        right = empty_now inv.shape.small inv.cursors f;
        inv = record {
          shape = inv.shape;
          seen_tail = inv.seen_tail;
          seen_head = t + length q;
          cursors = load_head inv.shape.small inv.cursors;
          push_knows = inv.push_knows;
          pop_knows = tt;
          slots = λ i h. rw e at (inv.slots i h);
        };
      };
    }
    | inr f ↦ record {
      system = record s {
        consumer = record s.consumer { cached_head = s.inner.head };
        popping = Popping.read;
      };
      event = silent;
      done = rw f refl;
      after = record {
        received = t;
        queue = q;
        fifo = append-nil q;
        right = tt;
        inv = record {
          shape = inv.shape;
          seen_tail = inv.seen_tail;
          seen_head = t + length q;
          cursors = load_head inv.shape.small inv.cursors;
          push_knows = inv.push_knows;
          pop_knows = not_empty inv.shape.small (load_head inv.shape.small inv.cursors) f;
          slots = λ i h. rw e at (inv.slots i h);
        };
      };
    }
  ]

  expected_read :
      (ws : List A) (x : A) (i : ℕ) → i ≢ 0 → expected (Popping.publish x) ws i ≡ get_elem? ws i
  expected_read ws x zero h = absurd (h refl)
  expected_read ws x (suc i) h = refl

  pub read_pop : s.popping ≡ Popping.read → Popped Popping.read
  unfolding pop_step
  read_pop e =
      let knows : t < inv.seen_head = rw e at inv.pop_knows in
      let (x, first, there) =
        front q (placed s.pushing) (omega (arith, inv.cursors.seen_head_old)) in
      record {
        system = record s {
          inner = record s.inner {
            buffer = set_slot s.inner.buffer (bit_and s.consumer.cached_tail s.inner.mask) none;
          };
          popping = Popping.publish x;
        };
        event = silent;
        done =
            rw
              (
                ap (λ i. s.inner.buffer i) (pop_slot inv)
                    ∙ old 0 (omega (arith, inv.cursors.room, inv.cursors.seen_head_old))
                    ∙ there,
                ◌>>=◌,
              )
              refl;
        after = record {
          received = t;
          queue = q;
          fifo = append-nil q;
          right = tt;
          inv = record {
            shape = inv.shape;
            seen_tail = inv.seen_tail;
            seen_head = inv.seen_head;
            cursors = inv.cursors;
            push_knows = inv.push_knows;
            pop_knows = (knows, first);
            slots = λ i h. rw (pop_slot inv) (
                taken x (omega (arith, inv.cursors.room, inv.cursors.seen_head_old)) i h
                  (ℕ_discrete i 0));
          };
        };
      }
    where
      old :
          (i : ℕ)
          → i < 2 ^ k
          → s.inner.buffer (cap_slot inv i) ≡ get_elem? (q ++ placed s.pushing) i
      old i h = rw e at (inv.slots i h)

      taken :
          (x : A)
          → 0 < 2 ^ k
          → (i : ℕ) → i < 2 ^ k
          → Dec (i ≡ 0)
          → (if cap_slot inv i == cap_slot inv 0 then none else s.inner.buffer (cap_slot inv i))
            ≡ expected (Popping.publish x) (q ++ placed s.pushing) i
      taken x pos i h (yes here) =
          rw here (rw ((==_iff (cap_slot inv 0) (cap_slot inv 0)).1 refl) refl)
      taken x pos i h (no off) =
          rw (same_slot inv i 0 h pos off)
            (old i h ∙ sym (expected_read (q ++ placed s.pushing) x i off))

  publish_from :
      (v x : A) (q' : List A)
      → s.popping ≡ Popping.publish v
      → x ∷ q' ≡ q
      → Popped (Popping.publish v)
  unfolding pop_step
  publish_from v x q' e is =
      let knows : (t < inv.seen_head) × (get_elem? q 0 ≡ some v) = rw e at inv.pop_knows in
      let first : x ≡ v = same_first (subst (λ l. get_elem? l 0 ≡ some v) (sym is) knows.1) in
      let n_is : length q' + 1 ≡ length q = omega (arith, ap length is) in
      record {
        system = record s {
          inner = record s.inner { tail = wrapping_add s.consumer.cached_tail 1 };
          consumer = record s.consumer { cached_tail = wrapping_add s.consumer.cached_tail 1 };
          popping = Popping.idle;
        };
        event = popped v;
        done = refl;
        after = record {
          received = t + 1;
          queue = q';
          right = tt;
          fifo = append-nil q ∙ sym is ∙ ap (λ y. y ∷ q') first;
          inv = record {
            shape = inv.shape;
            seen_tail = inv.seen_tail;
            seen_head = inv.seen_head;
            cursors =
                subst
                  (λ n.
                    Cursors k s.inner.head (wrapping_add s.consumer.cached_tail 1) s.producer
                      (record s.consumer { cached_tail = wrapping_add s.consumer.cached_tail 1 })
                      (t + 1) n inv.seen_tail inv.seen_head)
                  (omega (arith, n_is)) (store_tail inv.shape.small inv.cursors knows.0);
            push_knows =
                subst (λ n. PushKnows s.pushing n (inv.seen_tail + 2 ^ k)) (omega (arith, n_is))
                  inv.push_knows;
            pop_knows = tt;
            slots = λ i h. shifted n_is i h (dec_lt (i + 1) (2 ^ k));
          };
        };
      }
    where
      same_first : some x ≡ some v → x ≡ v
      same_first h = cc

      old :
          (i : ℕ)
          → i < 2 ^ k
          → s.inner.buffer (cap_slot inv i)
            ≡ expected (Popping.publish v) ((x ∷ q') ++ placed s.pushing) i
      old i h = rw (← is) at (rw e at (inv.slots i h))

      shifted :
          length q' + 1 ≡ length q
          → (i : ℕ) → i < 2 ^ k
          → Dec (i + 1 < 2 ^ k)
          → s.inner.buffer ((t + 1 + i) % 2 ^ k) ≡ get_elem? (q' ++ placed s.pushing) i
      shifted n_is i h (yes lt) =
          ap (λ n. s.inner.buffer (n % 2 ^ k)) (omega arith) ∙ old (suc i) (omega arith)
      shifted n_is i h (no ge) =
          ap s.inner.buffer (ap (λ n. n % 2 ^ k) (omega arith) ∙ add-mod_right (t + 0) (2 ^ k))
          ∙ old 0 (omega arith)
          ∙ sym (get_elem?_beyond (q' ++ placed s.pushing) i (no_more n_is ge))
        where
          no_more :
              length q' + 1 ≡ length q → ¬ (i + 1 < 2 ^ k) → length (q' ++ placed s.pushing) ≤ i
          no_more n_is ge = omega (
            arith,
            length-append q' (placed s.pushing),
            inv.cursors.seen_tail_old,
            length-placed s.pushing (t + length q) (inv.seen_tail + 2 ^ k) inv.push_knows
                inv.cursors.seen_tail_near,
          )

  pub publish_pop : (v : A) → s.popping ≡ Popping.publish v → Popped (Popping.publish v)
  publish_pop v e = let (x, q', is) = front_is q (rw e at inv.pop_knows) in publish_from v x q' e is
    where
      front_is :
          (q : List A)
          → (t < inv.seen_head) × (get_elem? q 0 ≡ some v)
          → (x : A) × (q' : List A) × (x ∷ q' ≡ q)
      front_is [] h = absurd (wrong h.1)
        where
          wrong : none ≢ some v
          wrong h = cc
      front_is (x ∷ q') h = (x, q', refl)
