-- ===== src/Matching/AddOrder.antt =====
-- `add_order` as a whole: how a call may end, and that each call ends so.
use velocity_match.Common.{
  ℕ, ◌+◌, ◌^◌, ◌<◌, ◌≡◌, refl, ◌≢◌, ◌⊎◌, inl, inr, Bool, true, false, Option, none, some, Result,
  ok, err, List, [], ◌∷◌, arith, ap, subst, sym, ◌∙◌, ==_iff, ==_ne, Option-cases, ℕ_discrete,
}
use velocity_match.Common.Map.{id_key, lookup}
use velocity_match.Order.{Order}
use velocity_match.Arena.Pool.{IsPool}
use velocity_match.Book.{OrderBook, order_count, duplicate_order_id, arena_full}
use velocity_match.Book.View.{View, IsBook, Located}
use velocity_match.Book.Place.{with_order}
use velocity_match.Book.Insert.{insert-duplicate, insert-full, insert-Inserted}
use velocity_match.Matching.{
  Fill, fully_filled, cancelled_self_trade, AddOrderResult, MatchingError, book_error,
  zero_quantity, MatchingEngine, finish, add_order, result_of, rest_status,
}
use velocity_match.Matching.Trades.{Trades}
use velocity_match.Matching.Laws.{traded-add-left, left_keeps}
use velocity_match.Matching.Loop.{match_loop-Ran}

abbrev pub Run : Type 0
Run = Option (Result MatchingError AddOrderResult × MatchingEngine)

-- An order of this id rests in the book.
abbrev pub Rests : View → ℕ → Type 0
Rests v id = (i : ℕ) × Located v.queue id i

-- How `add_order` ends after the trades that led to the view `v`: the order is cancelled at its
-- trader's own order, done, resting at the end of its price's queue, or refused a place.
pub data Ends (order left : Order) (flag : Bool) (fills : List Fill) (v : View) (run : Run)
    : Type 0 where
  cancelled :
      (e : MatchingEngine)
      → flag ≡ true
      → IsBook e.book v
      → run ≡ some (ok (result_of order.id cancelled_self_trade fills), e)
      → Ends order left flag fills v run
  done :
      (e : MatchingEngine)
      → flag ≡ false
      → left.quantity ≡ 0
      → IsBook e.book v
      → run ≡ some (ok (result_of order.id fully_filled fills), e)
      → Ends order left flag fills v run
  rested :
      (e : MatchingEngine) (i : ℕ) (free : List ℕ)
      → flag ≡ false
      → left.quantity ≢ 0
      → (Rests v order.id → ⊥)
      → v.free ≡ i ∷ free
      → IsBook e.book (with_order v left i free)
      → run ≡ some (ok (result_of order.id (rest_status fills) fills), e)
      → Ends order left flag fills v run
  duplicate :
      (e : MatchingEngine)
      → flag ≡ false
      → left.quantity ≢ 0
      → Rests v order.id
      → IsBook e.book v
      → run ≡ some (err (book_error (duplicate_order_id order.id)), e)
      → Ends order left flag fills v run
  no_room :
      (e : MatchingEngine)
      → flag ≡ false
      → left.quantity ≢ 0
      → (Rests v order.id → ⊥)
      → v.free ≡ []
      → IsBook e.book v
      → run ≡ some (err (book_error arena_full), e)
      → Ends order left flag fills v run

-- What a call of `add_order` did.
pub record Added (v : View) (order : Order) (run : Run) : Type 0 where
  pub view : View
  pub left : Order
  pub flag : Bool
  pub fills : List Fill
  pub trades : Trades v order fills view left flag
  pub ends : Ends order left flag fills view run

List-cases : (xs : List ℕ) → (xs ≡ []) ⊎ ((i : ℕ) × (r : List ℕ) × (xs ≡ i ∷ r))
List-cases [] = inl refl
List-cases (i ∷ r) = inr (i, r, refl)

module _ (order left : Order) (fills : List Fill) (b : OrderBook) (v : View) (is : IsBook b v)
    (id_is : left.id ≡ order.id) (fits : left.quantity < 2 ^ 64) where
  finish-cancelled : Ends order left true fills v (finish left true b fills)
  unfolding finish
  finish-cancelled =
      cancelled (record { book = b; fills_buf = [] }) refl is
        (ap
          (λ n.
            some (ok (result_of n cancelled_self_trade fills), record { book = b; fills_buf = [] }))
          id_is)

  finish-done : left.quantity ≡ 0 → Ends order left false fills v (finish left false b fills)
  unfolding finish
  finish-done e =
      done (record { book = b; fills_buf = [] }) refl e is
        (rw (finish, (==_iff left.quantity 0).1 e)
          (ap (λ n. some (ok (result_of n fully_filled fills), record { book = b; fills_buf = [] }))
            id_is))

  not_resting : lookup left.id b.order_index ≡ none → Rests v order.id → ⊥
  not_resting fresh (i, at) = never (
      sym fresh
      ∙ ap (λ n. lookup n b.order_index) (id_is ∙ sym at.id_is)
      ∙ (is.nodes.cells at.order.side at.order.price (i, at.order) at.within).indexed)
    where
      never : ◌≡◌ {A = Option ℕ} none (some i) → ⊥
      never e = cc

  finish-placed :
      left.quantity ≢ 0
      → lookup left.id b.order_index ≡ none
      → Ends order left false fills v (finish left false b fills)
  unfolding finish
  finish-placed ne fresh = elim (List-cases v.free) [
    | inl e ↦
        no_room (record { book = b; fills_buf = fills }) refl ne (not_resting fresh) e is
          (rw (finish, ==_ne left.quantity 0 ne)
            (rw (insert-full b left fresh (subst (λ l. IsPool b.arena l) e is.nodes.pool)) refl))
    | inr (i, free, e) ↦
        let placed = insert-Inserted b v left i free is fresh e (omega (arith, ne)) fits in
        rested (record { book = placed.book; fills_buf = [] }) i free refl ne (not_resting fresh) e
          placed.after
          (rw (finish, ==_ne left.quantity 0 ne)
            (rw placed.done (
              ap
                (λ n. some (
                  ok (result_of n (rest_status fills) fills),
                  record { book = placed.book; fills_buf = [] },
                ))
                id_is)))
  ]

  finish-rests : left.quantity ≢ 0 → Ends order left false fills v (finish left false b fills)
  unfolding finish
  finish-rests ne = elim (Option-cases (lookup left.id b.order_index)) [
    | inr (i, known) ↦
        duplicate (record { book = b; fills_buf = fills }) refl ne
          (i, subst (λ n. Located v.queue n i) id_is (is.nodes.located left.id i known)) is
          (rw (finish, ==_ne left.quantity 0 ne)
            (rw (insert-duplicate b left i known) (
              ap
                (λ n.
                  some (
                    err (book_error (duplicate_order_id n)),
                    record { book = b; fills_buf = fills },
                  ))
                id_is)))
    | inl fresh ↦ finish-placed ne fresh
  ]

finish-Ends :
    (order left : Order) (flag : Bool) (fills : List Fill) (b : OrderBook) (v : View)
    → IsBook b v
    → left.id ≡ order.id
    → left.quantity < 2 ^ 64
    → Ends order left flag fills v (finish left flag b fills)
finish-Ends order left true fills b v is id_is fits =
    finish-cancelled order left fills b v is id_is fits
finish-Ends order left false fills b v is id_is fits = elim (ℕ_discrete left.quantity 0) [
  | yes e ↦ finish-done order left fills b v is id_is fits e
  | no ne ↦ finish-rests order left fills b v is id_is fits ne
]

-- An order of quantity 0 is refused before anything else.
pub add_order-zero :
    (engine : MatchingEngine) (order : Order)
    → order.quantity ≡ 0
    → add_order engine order ≡ some (err zero_quantity, engine)
unfolding add_order
add_order-zero engine order e = rw (add_order, (==_iff order.quantity 0).1 e) refl

-- On every book, and for every order of a positive 64-bit quantity, `add_order` returns, without a
-- panic and with fuel enough. It makes the trades of the specification; then the order is
-- cancelled at its trader's own order, fully filled, resting, or refused for its id or for want
-- of a node, and the book stands for the view of that end.
pub add_order-Added :
    (engine : MatchingEngine) (v : View) (order : Order)
    → IsBook engine.book v
    → 0 < order.quantity
    → order.quantity < 2 ^ 64
    → Added v order (add_order engine order)
unfolding add_order
add_order-Added engine v order is positive fits =
    let r =
      match_loop-Ran (order_count engine.book + 1) engine.book v [] order is (omega arith)
        (λ h. omega arith) in
    record {
      view = r.view;
      left = r.left;
      flag = r.flag;
      fills = r.new_fills;
      trades = r.trades;
      ends =
          rw (add_order, ==_ne order.quantity 0 (omega (arith, positive)))
            (rw r.done (
              finish-Ends order r.left r.flag r.new_fills r.book r.view r.after
                (ap (λ (o : Order). o.id) (left_keeps r.trades))
                (omega (arith, fits, traded-add-left r.trades))));
    }
