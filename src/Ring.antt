-- ===== src/Ring.antt =====
-- src/ring.rs: the single-producer single-consumer ring buffer. Each access to shared memory is one
-- step, and the two sides' steps interleave in any order (the accesses are taken in one order, as
-- the acquire and release pairs let each side see them).
pub mod Steps
pub mod Inv
pub mod Cursors
pub mod Slots
pub mod Pushes
pub mod Pops
pub mod Fifo
pub mod Drop
use velocity_match.Common.{
  ℕ, zero, suc, ◌+◌, ◌-◌, ◌%◌, ◌^◌, bit_and, Bool, true, false, Option, none, some, ◌==◌, ltb, ◌||◌,
  ◌&&◌, if◌then◌else◌, List, [], ◌∷◌,
}
use velocity_match.Common.Run.Panic.{◌>>=◌}

-- A slot without a value is uninitialised, or its value was moved out.
pub record RingBufferInner (A : Type 0) : Type 0 where
  pub buffer : ℕ → Option A
  pub capacity : ℕ
  pub mask : ℕ
  pub head : ℕ
  pub tail : ℕ

pub record Producer : Type 0 where
  pub cached_head : ℕ
  pub cached_tail : ℕ

pub record Consumer : Type 0 where
  pub cached_tail : ℕ
  pub cached_head : ℕ

abbrev pub wrapping_add : ℕ → ℕ → ℕ
wrapping_add a b = (a + b) % 2 ^ 64

abbrev pub wrapping_sub : ℕ → ℕ → ℕ
wrapping_sub a b = (a + 2 ^ 64 - b) % 2 ^ 64

-- Where a call of `push` stands, with the value that it holds: before the load of `tail`, the write
-- of the slot, and the store of `head`.
pub data Pushing (A : Type 0) : Type 0 where
  idle : Pushing A
  reload : A → Pushing A
  write : A → Pushing A
  publish : A → Pushing A

-- Where a call of `pop` stands: before the load of `head`, the read of the slot, and the store of
-- `tail`.
pub data Popping (A : Type 0) : Type 0 where
  idle : Popping A
  reload : Popping A
  read : Popping A
  publish : A → Popping A

pub record System (A : Type 0) : Type 0 where
  pub inner : RingBufferInner A
  pub producer : Producer
  pub consumer : Consumer
  pub pushing : Pushing A
  pub popping : Popping A

-- What a step returns to a caller.
pub data Event (A : Type 0) : Type 0 where
  silent : Event A
  pushed : A → Event A
  full : A → Event A
  popped : A → Event A
  empty : Event A

unfoldable pub is_power_of_two_below : ℕ → ℕ → Bool
is_power_of_two_below zero n = false
is_power_of_two_below (suc k) n = (n == 2 ^ k) || is_power_of_two_below k n

-- `usize::is_power_of_two`
unfoldable pub is_power_of_two : ℕ → Bool
unfolding is_power_of_two_below
is_power_of_two n = is_power_of_two_below 64 n

module _ {A : Type 0} where
  -- `ring_buffer`, with both sides at rest; `none` is a failed assertion.
  unfoldable pub ring_buffer : (capacity : ℕ) → Option (System A)
  unfolding is_power_of_two
  ring_buffer capacity =
      if ltb 0 capacity && is_power_of_two capacity
      then some (record {
        inner = record {
          buffer = λ i. none;
          capacity = capacity;
          mask = capacity - 1;
          head = 0;
          tail = 0;
        };
        producer = record { cached_head = 0; cached_tail = 0 };
        consumer = record { cached_tail = 0; cached_head = 0 };
        pushing = Pushing.idle;
        popping = Popping.idle;
      })
      else none

  -- The test of `push`, against the tail that the producer knows.
  abbrev pub is_full : RingBufferInner A → Producer → Bool
  is_full r p = wrapping_sub p.cached_head p.cached_tail == r.capacity

  abbrev pub set_slot : (ℕ → Option A) → ℕ → Option A → ℕ → Option A
  set_slot b i v j = if j == i then v else b j

  unfoldable pub push_call : A → System A → System A
  push_call v s = record s {
    pushing = if is_full s.inner s.producer then Pushing.reload v else write v;
  }

  -- The next access of a call of `push`.
  unfoldable pub push_step : Pushing A → System A → System A × Event A
  push_step idle s = (s, silent)
  push_step (reload v) s =
      let p = record s.producer { cached_tail = s.inner.tail } in
      if is_full s.inner p
      then (record s { producer = p; pushing = Pushing.idle }, full v)
      else (record s { producer = p; pushing = write v }, silent)
  push_step (write v) s =
      let i = bit_and s.producer.cached_head s.inner.mask in
      (
        record s {
          inner = record s.inner { buffer = set_slot s.inner.buffer i (some v) };
          pushing = Pushing.publish v;
        },
        silent,
      )
  push_step (publish v) s =
      let next = wrapping_add s.producer.cached_head 1 in
      (
        record s {
          inner = record s.inner { head = next };
          producer = record s.producer { cached_head = next };
          pushing = Pushing.idle;
        },
        pushed v,
      )

  unfoldable pub pop_call : System A → System A
  pop_call s = record s {
    popping = if s.consumer.cached_tail == s.consumer.cached_head then Popping.reload else read;
  }

  -- The next access of a call of `pop`; `none` is a read of a slot without a value.
  unfoldable pub pop_step : Popping A → System A → Option (System A × Event A)
  pop_step idle s = some (s, silent)
  pop_step reload s =
      let c = record s.consumer { cached_head = s.inner.head } in
      if c.cached_tail == c.cached_head
      then some (record s { consumer = c; popping = Popping.idle }, empty)
      else some (record s { consumer = c; popping = read }, silent)
  pop_step read s = do
    let i = bit_and s.consumer.cached_tail s.inner.mask
    value ← s.inner.buffer i
    some (
      record s {
        inner = record s.inner { buffer = set_slot s.inner.buffer i none };
        popping = Popping.publish value;
      },
      silent,
    )
  pop_step (publish v) s =
      let next = wrapping_add s.consumer.cached_tail 1 in
      some (
        record s {
          inner = record s.inner { tail = next };
          consumer = record s.consumer { cached_tail = next };
          popping = Popping.idle;
        },
        popped v,
      )

  -- The loop of `drop`: the values that it drops, from the slot at `i` on. `none` is a slot without
  -- a value, or fuel that ran out; each round drops a value, so one round for each slot and one more
  -- are enough.
  unfoldable pub drop_loop : ℕ → RingBufferInner A → ℕ → Option (List A)
  drop_loop zero r i = none
  drop_loop (suc fuel) r i = if i == r.head then some [] else do
    value ← r.buffer (bit_and i r.mask)
    rest ← drop_loop fuel r (wrapping_add i 1)
    some (value ∷ rest)

  unfoldable pub drop_all : RingBufferInner A → Option (List A)
  unfolding drop_loop
  drop_all r = drop_loop (r.capacity + 1) r r.tail
