-- ===== src/Ring/Fifo.antt =====
-- The buffer as a bounded queue, in every interleaving.
use velocity_match.Common.{
  ℕ, zero, suc, ◌+◌, ◌-◌, ◌^◌, ◌≤◌, ◌≡◌, refl, ◌≢◌, inl, inr, Bool, true, false, none, some, List,
  [], ◌∷◌, ◌++◌, arith, length, length-append, ◌==◌, sym, ◌∙◌, ap, append-nil, append_assoc, subst,
  Bool-cases, ==_iff, ltb, ◌&&◌,
}
use velocity_match.Ring.{
  System, Pushing, Popping, Event, full, empty, ring_buffer, push_step, pop_step, is_power_of_two,
  is_power_of_two_below,
}
use velocity_match.Ring.Steps.{
  Step, call_push, move_push, call_pop, move_pop, Reach, start, later, sent_by, got_by,
}
use velocity_match.Ring.Inv.{Inv}
use velocity_match.Ring.Slots.{After}
use velocity_match.Ring.Pushes.{push_call-Inv, reload_push, write_push, publish_push}
use velocity_match.Ring.Pops.{pop_call-Inv, Popped, reload_pop, read_pop, publish_pop}

module _ {A : Type 0} {k : ℕ} {s : System A} {t : ℕ} {q : List A} (inv : Inv k s t q) where
  stay : {s' : System A} → Inv k s' t q → After k q Event.silent s'
  stay i = record { received = t; queue = q; inv = i; fifo = append-nil q; right = tt }

  push_step-After :
      (pc : Pushing A) → s.pushing ≡ pc → After k q (push_step pc s).1 (push_step pc s).0
  unfolding push_step
  push_step-After Pushing.idle e = stay inv
  push_step-After (Pushing.reload v) e = reload_push inv v e
  push_step-After (Pushing.write v) e = write_push inv v e
  push_step-After (Pushing.publish v) e = publish_push inv v e

  pop_step-Popped : (pc : Popping A) → s.popping ≡ pc → Popped inv pc
  unfolding pop_step
  pop_step-Popped Popping.idle e = record {
    system = s;
    event = Event.silent;
    done = refl;
    after = stay inv;
  }
  pop_step-Popped Popping.reload e = reload_pop inv e
  pop_step-Popped Popping.read e = read_pop inv e
  pop_step-Popped (Popping.publish v) e = publish_pop inv v e

  same_run :
      {s₁ s₂ : System A} {e₁ e₂ : Event A}
      → ◌≡◌ {A = System A × Event A} (s₁, e₁) (s₂, e₂)
      → After k q e₁ s₁
      → After k q e₂ s₂
  same_run e a = subst (λ (p : System A × Event A). After k q p.1 p.0) e a

  some_same : {x y : System A × Event A} → some x ≡ some y → x ≡ y
  some_same e = cc

  pub Step-After : {e : Event A} {s' : System A} → Step s e s' → After k q e s'
  Step-After (call_push v idle) = stay (push_call-Inv inv v idle)
  Step-After (move_push run) = same_run run (push_step-After s.pushing refl)
  Step-After (call_pop idle) = stay (pop_call-Inv inv idle)
  Step-After (move_pop run) =
      let p = pop_step-Popped s.popping refl in same_run (some_same (sym p.done ∙ run)) p.after

-- `is_power_of_two` finds the exponent.
power_below :
    (j n : ℕ) → j ≤ 64 → is_power_of_two_below j n ≡ true → (k : ℕ) × (k ≤ 63) × (n ≡ 2 ^ k)
unfolding is_power_of_two_below
power_below zero n h e = cc
power_below (suc j) n h e = elim (Bool-cases (n == 2 ^ j)) [
  | inl is ↦ (j, omega arith, (==_iff n (2 ^ j)).0 is)
  | inr off ↦ power_below j n (omega arith) (rw off at e)
]

is_power_of_two-pow : (n : ℕ) → is_power_of_two n ≡ true → (k : ℕ) × (k ≤ 63) × (n ≡ 2 ^ k)
unfolding is_power_of_two
is_power_of_two-pow n e = power_below 64 n (omega arith) e

and_right : (a b : Bool) → (a && b) ≡ true → b ≡ true
and_right true b h = h
and_right false b h = cc

module _ {A : Type 0} where
  -- What a reachable system looks like: the queue is what was sent and not yet received.
  pub record IsQueue (capacity : ℕ) (s : System A) (sent got : List A) : Type 0 where
    pub log_size : ℕ
    pub power : capacity ≡ 2 ^ log_size
    pub received : ℕ
    pub queue : List A
    pub inv : Inv log_size s received queue
    pub in_order : sent ≡ got ++ queue
    pub bounded : length queue ≤ capacity

  start-IsQueue :
      (capacity : ℕ) {s : System A} → ring_buffer capacity ≡ some s → IsQueue capacity s [] []
  unfolding ring_buffer
  start-IsQueue capacity {s} e = elim (Bool-cases (ltb 0 capacity && is_power_of_two capacity)) [
    | inr off ↦ absurd (never (rw off at e))
    | inl on ↦
        let (k, small, power) = is_power_of_two-pow capacity (and_right (ltb 0 capacity) _ on) in
        record {
          log_size = k;
          power = power;
          received = 0;
          queue = [];
          in_order = refl;
          bounded = omega arith;
          inv =
              subst (λ (s : System A). Inv k s 0 []) (the_same (rw on at e))
                (record {
                  shape = record {
                    small = small;
                    capacity_is = power;
                    mask_is = ap (λ n. n - 1) power;
                  };
                  seen_tail = 0;
                  seen_head = 0;
                  cursors = record {
                    head_is = refl;
                    tail_is = refl;
                    own_head = refl;
                    own_tail = refl;
                    room = omega arith;
                    seen_tail_is = refl;
                    seen_tail_old = omega arith;
                    seen_tail_near = omega arith;
                    seen_head_is = refl;
                    seen_head_new = omega arith;
                    seen_head_old = omega arith;
                  };
                  push_knows = tt;
                  pop_knows = tt;
                  slots = λ i h. refl;
                });
        }
  ]
    where
      never : none ≢ some s
      never e = cc

      the_same : {s' : System A} → some s' ≡ some s → s' ≡ s
      the_same e = cc

  -- In every interleaving of one producer and one consumer over a new buffer, the values received,
  -- then those in the buffer, are the values sent, in order; the buffer holds no more than its
  -- capacity.
  pub Reach-IsQueue :
      (capacity : ℕ) {s : System A} {sent got : List A}
      → Reach capacity s sent got
      → IsQueue capacity s sent got
  Reach-IsQueue capacity (start e) = start-IsQueue capacity e
  Reach-IsQueue capacity (later {got = got} {e = e} r step) =
      let w = Reach-IsQueue capacity r in
      let a = Step-After w.inv step in
      record {
        log_size = w.log_size;
        power = w.power;
        received = a.received;
        queue = a.queue;
        inv = a.inv;
        in_order =
            ap (λ l. l ++ sent_by e) w.in_order
            ∙ append_assoc got w.queue (sent_by e)
            ∙ ap (λ l. got ++ l) a.fifo
            ∙ sym (append_assoc got (got_by e) a.queue);
        bounded = subst (λ n. length a.queue ≤ n) (sym w.power) a.inv.cursors.room;
      }

  -- In every reachable system the next access of `pop` goes through: a read never meets a slot
  -- without a value.
  pub Reach-reads :
      (capacity : ℕ) {s : System A} {sent got : List A}
      → Reach capacity s sent got
      → pop_step s.popping s ≢ none
  Reach-reads capacity {s} r none_left =
      never (sym (pop_step-Popped (Reach-IsQueue capacity r).inv s.popping refl).done ∙ none_left)
    where
      never : {x : System A × Event A} → some x ≢ none
      never e = cc

  -- In every reachable system, `push` answers `Full` only where as many values are in the buffer as
  -- its capacity, and `pop` answers `Empty` only where every value sent was received.
  pub Reach-refusals :
      (capacity : ℕ) {s s' : System A} {sent got : List A}
      → Reach capacity s sent got
      → ((v : A) → Step s (full v) s' → length sent ≡ length got + capacity)
        × (Step s empty s' → sent ≡ got)
  Reach-refusals capacity {s} {s'} {sent} {got} r =
      let w = Reach-IsQueue capacity r in
      (
        λ v step. omega (
          arith,
          (Step-After w.inv step).right,
          w.power,
          ap length w.in_order,
          length-append got w.queue,
        ),
        λ step.
            w.in_order
            ∙ ap (λ l. got ++ l) (nil_of w.queue (Step-After w.inv step).right)
            ∙ append-nil got,
      )
    where
      nil_of : (q : List A) → length q ≡ 0 → q ≡ []
      nil_of [] h = refl
      nil_of (x ∷ q) h = absurd (omega arith)
