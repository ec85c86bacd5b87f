-- ===== src/Matching/Capacity.antt =====
-- The engine keeps the number of nodes of its arena.
use velocity_match.Common.{
  ℕ, ◌+◌, ◌≡◌, refl, Bool, Bool-cases, true, false, Option-cases, Result, Result-cases, List, [],
  min, inl, inr, ◌∙◌, ◌==◌, zero, suc,
}
use velocity_match.Common.Run.After.{After, panics, leaves, After-bind, After-then, After-if}
use velocity_match.Order.{Order}
use velocity_match.Book
use velocity_match.Book.{BookError, OrderBook, best, peek_front, order_count, reduce_front_quantity}
use velocity_match.Book.Capacity
use velocity_match.Matching
use velocity_match.Book.Capacity.{insert_order-capacity, reduce_front_quantity-capacity}
use velocity_match.Matching.{
  Fill, MatchingError, AddOrderResult, MatchingEngine, LoopResult, opposite, crosses, fill_of,
  match_loop, finish, add_order,
}

abbrev LoopKeeps : ℕ → LoopResult → Type 0
LoopKeeps n (_, b, _) = b.arena.capacity ≡ n

abbrev pub EngineKeeps : (A : Type 0) → ℕ → A × MatchingEngine → Type 0
EngineKeeps A n (_, e) = e.book.arena.capacity ≡ n

match_loop-capacity :
    (fuel n : ℕ) (b : OrderBook) (fills : List Fill) (order : Order)
    → b.arena.capacity ≡ n
    → After (LoopKeeps n) (match_loop fuel b fills order)
unfolding match_loop
match_loop-capacity zero n b fills order h = panics
match_loop-capacity (suc fuel) n b fills order h =
    After-if (order.quantity == 0) (leaves h) (elim (Option-cases (best b (opposite order.side))) [
      | inl no_best ↦ rw no_best (leaves h)
      | inr (price, there) ↦ rw there (
          After-if (crosses order.side order.price price)
            (After-then (peek_front b (opposite order.side) price) λ front.
              elim (Option-cases front) [
                | inl no_front ↦ rw no_front (leaves h)
                | inr (maker, at) ↦ rw at (elim (Bool-cases (maker.trader_id == order.trader_id)) [
                  | inl own ↦ rw own (leaves h)
                  | inr other ↦ rw other (
                      After-bind
                        (reduce_front_quantity-capacity b (opposite order.side) price
                          (min order.quantity maker.quantity))
                        λ x k. elim (Result-cases x.0) [
                          | inr (e, failed) ↦ rw failed (leaves (k ∙ h))
                          | inl (r, reduced) ↦
                              rw reduced (match_loop-capacity fuel n x.1 _ _ (k ∙ h))
                        ])
                ])
              ])
            (leaves h))
    ])

finish-capacity :
    (n : ℕ) (order : Order) (self_trade : Bool) (b : OrderBook) (fills : List Fill)
    → b.arena.capacity ≡ n
    → After (EngineKeeps (Result MatchingError AddOrderResult) n) (finish order self_trade b fills)
unfolding finish
finish-capacity n order true b fills h = leaves h
finish-capacity n order false b fills h = After-if (order.quantity == 0) (leaves h) (
    After-bind (insert_order-capacity b order) λ x k. elim (Result-cases x.0) [
      | inr (e, failed) ↦ rw failed (leaves (k ∙ h))
      | inl (u, inserted) ↦ rw inserted (leaves (k ∙ h))
    ])

pub add_order-capacity :
    (engine : MatchingEngine) (order : Order)
    → After
        (EngineKeeps (Result MatchingError AddOrderResult) engine.book.arena.capacity)
        (add_order engine order)
unfolding add_order
add_order-capacity engine order = After-if (order.quantity == 0) (leaves refl) (
    After-bind
      (match_loop-capacity (order_count engine.book + 1) engine.book.arena.capacity engine.book []
        order refl)
      λ x h. elim (Result-cases x.0) [
        | inr (e, failed) ↦ rw failed (leaves h)
        | inl (y, stopped) ↦
            rw stopped (finish-capacity engine.book.arena.capacity y.0 y.1 x.1 x.2 h)
      ])

pub cancel_order-capacity :
    (engine : MatchingEngine) (id : ℕ)
    → After
        (EngineKeeps (Result MatchingError Order) engine.book.arena.capacity)
        (Matching.cancel_order engine id)
unfolding Matching.cancel_order
cancel_order-capacity engine id =
    After-bind (Book.Capacity.cancel_order-capacity engine.book id) λ x h. elim (Result-cases x.0) [
      | inr (e, failed) ↦ rw failed (leaves h)
      | inl (o, done) ↦ rw done (leaves h)
    ]
