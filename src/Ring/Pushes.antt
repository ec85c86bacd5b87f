-- ===== src/Ring/Pushes.antt =====
-- Each access of `push` keeps the invariant.
use velocity_match.Common.{
  ℕ, ◌+◌, ◌^◌, ◌<◌, ◌≡◌, refl, some, List, [], ◌∷◌, ◌++◌, arith, length, length-append, ◌==◌,
  if◌then◌else◌, sym, ◌∙◌, ap, append-nil, Bool-cases, inl, inr, ==_iff, ==_ne, subst, ℕ_discrete,
}
use velocity_match.Ring.{System, Pushing, push_call, push_step, is_full, wrapping_add}
use velocity_match.Ring.Inv.{Cursors, Inv, expected}
use velocity_match.Ring.Cursors.{not_full, load_tail, store_head, full_now}
use velocity_match.Ring.Slots.{PopKnows-snoc, expected_snoc, cap_slot, same_slot, push_slot, After}

module _ {A : Type 0} {k : ℕ} {s : System A} {t : ℕ} {q : List A} (inv : Inv k s t q) where
  pub push_call-Inv : (v : A) → s.pushing ≡ Pushing.idle → Inv k (push_call v s) t q
  unfolding push_call
  push_call-Inv v e = elim (Bool-cases (is_full s.inner s.producer)) [
    | inl f ↦ rw f (record {
      shape = inv.shape;
      seen_tail = inv.seen_tail;
      seen_head = inv.seen_head;
      cursors = inv.cursors;
      push_knows = tt;
      pop_knows = inv.pop_knows;
      slots = λ i h. rw e at (inv.slots i h);
    })
    | inr f ↦ rw f (record {
      shape = inv.shape;
      seen_tail = inv.seen_tail;
      seen_head = inv.seen_head;
      cursors = inv.cursors;
      push_knows = not_full inv.shape.small inv.cursors (rw (inv.shape.capacity_is) at f);
      pop_knows = inv.pop_knows;
      slots = λ i h. rw e at (inv.slots i h);
    })
  ]

  pub reload_push :
      (v : A)
      → s.pushing ≡ Pushing.reload v
      → After k q (push_step (Pushing.reload v) s).1 (push_step (Pushing.reload v) s).0
  unfolding push_step
  reload_push v e =
      elim (Bool-cases (is_full s.inner (record s.producer { cached_tail = s.inner.tail }))) [
        | inl f ↦ rw f (record {
          received = t;
          queue = q;
          fifo = append-nil q;
          right = full_now inv.shape.small inv.cursors (rw (inv.shape.capacity_is) at f);
          inv = record {
            shape = inv.shape;
            seen_tail = t;
            seen_head = inv.seen_head;
            cursors = load_tail inv.shape.small inv.cursors;
            push_knows = tt;
            pop_knows = inv.pop_knows;
            slots = λ i h. rw e at (inv.slots i h);
          };
        })
        | inr f ↦ rw f (record {
          received = t;
          queue = q;
          fifo = append-nil q;
          right = tt;
          inv = record {
            shape = inv.shape;
            seen_tail = t;
            seen_head = inv.seen_head;
            cursors = load_tail inv.shape.small inv.cursors;
            push_knows =
                not_full inv.shape.small (load_tail inv.shape.small inv.cursors)
                  (rw (inv.shape.capacity_is) at f);
            pop_knows = inv.pop_knows;
            slots = λ i h. rw e at (inv.slots i h);
          };
        })
      ]

  pub publish_push :
      (v : A)
      → s.pushing ≡ Pushing.publish v
      → After k q (push_step (Pushing.publish v) s).1 (push_step (Pushing.publish v) s).0
  unfolding push_step
  publish_push v e =
      let knows : t + length q < inv.seen_tail + 2 ^ k = rw e at inv.push_knows in
      record {
        received = t;
        queue = q ++ (v ∷ []);
        fifo = refl;
        right = tt;
        inv = record {
          shape = inv.shape;
          seen_tail = inv.seen_tail;
          seen_head = inv.seen_head;
          cursors =
              subst
                (λ n.
                  Cursors k (wrapping_add s.producer.cached_head 1) s.inner.tail
                    (record s.producer { cached_head = wrapping_add s.producer.cached_head 1 })
                    s.consumer t n inv.seen_tail inv.seen_head)
                (sym (length-append q (v ∷ []))) (store_head inv.shape.small inv.cursors knows);
          push_knows = tt;
          pop_knows = PopKnows-snoc s.popping q v t inv.seen_head inv.pop_knows;
          slots = λ i h.
              rw e at (inv.slots i h)
              ∙ ap (λ ws. expected s.popping ws i) (sym (append-nil (q ++ (v ∷ []))));
        };
      }

  pub write_push :
      (v : A)
      → s.pushing ≡ Pushing.write v
      → After k q (push_step (Pushing.write v) s).1 (push_step (Pushing.write v) s).0
  unfolding push_step
  write_push v e =
      let knows : t + length q < inv.seen_tail + 2 ^ k = rw e at inv.push_knows in
      record {
        received = t;
        queue = q;
        fifo = append-nil q;
        right = tt;
        inv = record {
          shape = inv.shape;
          seen_tail = inv.seen_tail;
          seen_head = inv.seen_head;
          cursors = inv.cursors;
          push_knows = knows;
          pop_knows = inv.pop_knows;
          slots = λ i h. rw (push_slot inv) (written knows i h (ℕ_discrete i (length q)));
        };
      }
    where
      old : (i : ℕ) → i < 2 ^ k → s.inner.buffer (cap_slot inv i) ≡ expected s.popping (q ++ []) i
      old i h = rw e at (inv.slots i h)

      written :
          t + length q < inv.seen_tail + 2 ^ k
          → (i : ℕ) → i < 2 ^ k
          → Dec (i ≡ length q)
          → (if cap_slot inv i == cap_slot inv (length q)
              then some v
              else s.inner.buffer (cap_slot inv i))
            ≡ expected s.popping (q ++ (v ∷ [])) i
      written knows i h (yes here) = rw here (
          rw ((==_iff (cap_slot inv (length q)) (cap_slot inv (length q))).1 refl) (
            sym (
              expected_snoc s.popping q v t inv.seen_head (length q) inv.pop_knows
              ∙ ap (λ b. if b then some v else expected s.popping (q ++ []) (length q))
                  ((==_iff (length q) (length q)).1 refl))))
      written knows i h (no off) =
          rw (same_slot inv i (length q) h (omega (arith, inv.cursors.seen_tail_old)) off) (
            old i h
            ∙ sym (
                expected_snoc s.popping q v t inv.seen_head i inv.pop_knows
                ∙ ap (λ b. if b then some v else expected s.popping (q ++ []) i)
                    (==_ne i (length q) off)))
