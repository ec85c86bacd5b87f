-- ===== src/Matching/Restore.antt =====
-- `restore_from_orders`: orders of different ids, put into a new book without matching.
use velocity_match.Common.{
  ℕ, zero, ℤ, ◌+◌, ◌^◌, ◌≤◌, ◌<◌, ◌≡◌, refl, ◌≢◌, inl, inr, Option, none, some, Option-cases,
  Result, ok, List, [], ◌∷◌, ◌++◌, length, All, arith, ap, ap₂, ◌∙◌, sym, append-nil, append_assoc,
  suc,
}
use velocity_match.Common.Run.Panic.{◌>>=◌}
use velocity_match.Common.Map.{id_key, lookup}
use velocity_match.Order.{Side, Order}
use velocity_match.Arena
use velocity_match.Arena.{arena_null}
use velocity_match.Arena.Pool.{upto}
use velocity_match.Book
use velocity_match.Book.{OrderBook, BookError}
use velocity_match.Book.View.{View, IsBook}
use velocity_match.Book.Cells.{Place-cases}
use velocity_match.Book.Place.{with_order, In-with_order}
use velocity_match.Book.Insert.{insert-Inserted}
use velocity_match.Book.Listing.{orders}
use velocity_match.Book.Placed.{orders-append, placed}
use velocity_match.Book.Start.{empty_view, with_capacity-IsBook}
use velocity_match.Matching.{
  MatchingError, MatchingEngine, insert_all, restore_from_orders, with_capacity,
}
use velocity_match.Matching.AddOrder.{Rests}

-- Orders of positive 64-bit quantities and different ids.
abbrev pub AreNew : List Order → Type 0
AreNew [] = Unit
AreNew (o ∷ os) = (0 < o.quantity) × (o.quantity < 2 ^ 64) × All (λ u. u.id ≢ o.id) os × AreNew os

-- The book with all of `os` behind the orders of the view `v`.
pub record Filled (b : OrderBook) (v : View) (os : List Order)
    (run : Option (Result BookError OrderBook)) : Type 0 where
  pub book : OrderBook
  pub view : View
  pub done : run ≡ some (ok book)
  pub is : IsBook book view
  pub capacity : book.arena.capacity ≡ b.arena.capacity
  pub queues : (s : Side) (p : ℤ) → orders (view.queue s p) ≡ orders (v.queue s p) ++ placed s p os

unknown :
    (b : OrderBook) (v : View) (id : ℕ)
    → IsBook b v
    → (Rests v id → ⊥)
    → lookup id b.order_index ≡ none
unknown b v id is new = elim (Option-cases (lookup id b.order_index)) [
  | inl e ↦ e
  | inr (i, known) ↦ absurd (new (i, is.nodes.located id i known))
]

-- An order that rests after an insertion is the new one, or it did before.
still_new :
    (v : View) (o : Order) (i : ℕ) (free : List ℕ) (id : ℕ)
    → id ≢ o.id
    → (Rests v id → ⊥)
    → Rests (with_order v o i free) id
    → ⊥
still_new v o i free id ne new (j, at) =
    elim (In-with_order v o i free at.order.side at.order.price (j, at.order) at.within) [
      | inl (e, _, _) ↦ ne (sym at.id_is ∙ ap (λ (c : ℕ × Order). c.1.id) e)
      | inr old ↦ new (j, record { order = at.order; id_is = at.id_is; within = old })
    ]

each_still_new :
    (v : View) (o : Order) (i : ℕ) (free : List ℕ) (os : List Order)
    → All (λ u. u.id ≢ o.id) os
    → All (λ u. Rests v u.id → ⊥) os
    → All (λ u. Rests (with_order v o i free) u.id → ⊥) os
each_still_new v o i free [] ne new = tt
each_still_new v o i free (u ∷ os) ne new =
    (still_new v o i free u.id ne.0 new.0, each_still_new v o i free os ne.1 new.1)

with_order-placed :
    (v : View) (o : Order) (i : ℕ) (free : List ℕ) (os : List Order) (s : Side) (p : ℤ)
    → orders ((with_order v o i free).queue s p) ++ placed s p os
      ≡ orders (v.queue s p) ++ placed s p (o ∷ os)
with_order-placed v o i free os s p = elim (Place-cases s p o.side o.price) [
  | inr off ↦ rw off refl
  | inl (at, es, ep) ↦ rw at (
      ap (λ l. l ++ placed s p os) (orders-append (v.queue o.side o.price) ((i, o) ∷ []))
      ∙ append_assoc (orders (v.queue o.side o.price)) (o ∷ []) (placed s p os)
      ∙ ap₂ (λ a b. orders (v.queue a b) ++ (o ∷ placed s p os)) (sym es) (sym ep))
]

free_first : (l : List ℕ) → 0 < length l → (i : ℕ) × (free : List ℕ) × (l ≡ i ∷ free)
free_first [] h = absurd (omega arith)
free_first (i ∷ free) h = (i, free, refl)

insert_all-Filled :
    (b : OrderBook) (v : View) (os : List Order)
    → IsBook b v
    → AreNew os
    → All (λ o. Rests v o.id → ⊥) os
    → length os ≤ length v.free
    → Filled b v os (insert_all b os)
unfolding insert_all
insert_all-Filled b v [] is new absent room = record {
  book = b;
  view = v;
  done = refl;
  is = is;
  capacity = refl;
  queues = λ s p. sym (append-nil (orders (v.queue s p)));
}
insert_all-Filled b v (o ∷ os) is (positive, fits, ids, new) (absent, others) room =
    let (i, free, e) = free_first v.free (omega arith) in
    let a = insert-Inserted b v o i free is (unknown b v o.id is absent) e positive fits in
    let r =
      insert_all-Filled a.book (with_order v o i free) os a.after new
        (each_still_new v o i free os ids others) (omega (arith, ap length e)) in
    record {
      book = r.book;
      view = r.view;
      is = r.is;
      capacity = r.capacity ∙ a.same_capacity;
      done = rw (insert_all, a.done, ◌>>=◌) r.done;
      queues = λ s p. r.queues s p ∙ with_order-placed v o i free os s p;
    }

length-upto : (k n : ℕ) → length (upto k n) ≡ n
length-upto k zero = refl
length-upto k (suc n) = ap suc (length-upto (k + 1) n)

none_new : (capacity : ℕ) (os : List Order) → All (λ o. Rests (empty_view capacity) o.id → ⊥) os
none_new capacity [] = tt
none_new capacity (o ∷ os) = (λ r. r.1.within, none_new capacity os)

-- An engine whose book has the orders `os`, each in the queue of its side and price, in their order.
pub record Filed (os : List Order) (capacity : ℕ)
    (run : Option (Result MatchingError MatchingEngine)) : Type 0 where
  pub engine : MatchingEngine
  pub view : View
  pub done : run ≡ some (ok engine)
  pub is : IsBook engine.book view
  pub arena : engine.book.arena.capacity ≡ capacity
  pub queues : (s : Side) (p : ℤ) → orders (view.queue s p) ≡ placed s p os

-- Orders of different ids and positive 64-bit quantities, no more than the arena has nodes, are
-- restored: each stands in the queue of its side and price, and those of one queue in their order.
pub restore_from_orders-Filed :
    (os : List Order) (capacity : ℕ)
    → AreNew os
    → length os ≤ capacity
    → capacity ≤ arena_null
    → Filed os capacity (restore_from_orders os capacity)
unfolding restore_from_orders with_capacity Book.with_capacity Arena.new
restore_from_orders-Filed os capacity new room small =
    let f =
      insert_all-Filled (Book.with_capacity capacity) (empty_view capacity) os
        (with_capacity-IsBook capacity small) new (none_new capacity os)
        (omega (arith, room, length-upto 0 capacity)) in
    record {
      engine = record { book = f.book; fills_buf = [] };
      view = f.view;
      done = rw (restore_from_orders, f.done, ◌>>=◌) refl;
      is = f.is;
      arena = f.capacity;
      queues = f.queues;
    }
