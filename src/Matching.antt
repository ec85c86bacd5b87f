-- ===== src/Matching.antt =====
-- src/matching.rs: the matching engine over the order book. The two loops of `add_order` differ
-- only in the side that they take from, so they are one here, over the side.
pub mod Trades
pub mod Best
pub mod Round
pub mod Loop
pub mod Laws
pub mod Uncrossed
pub mod AddOrder
pub mod Results
pub mod Twins
pub mod Capacity
pub mod Small
pub mod Restore
pub mod Cancel
use velocity_match.Common.{
  ℕ, zero, suc, ◌+◌, ◌-◌, ℤ, Bool, true, false, Option, none, some, Result, ok, err, min, ◌==◌,
  if◌then◌else◌, leb_ℤ, List, [], ◌∷◌, ◌++◌, length,
}
use velocity_match.Common.Run.Panic.{◌>>=◌}
use velocity_match.Order.{Side, bid, ask, Order}
use velocity_match.Arena.{OrderNode}
use velocity_match.Book
use velocity_match.Book.{
  BookError, OrderBook, best, order_count, insert_order, peek_front, reduce_front_quantity,
}

pub record Fill : Type 0 where
  pub taker_order_id : ℕ
  pub maker_order_id : ℕ
  pub price : ℤ
  pub quantity : ℕ
  pub maker_fully_filled : Bool

pub data OrderStatus : Type 0 where
  fully_filled partially_filled resting cancelled_self_trade : OrderStatus

pub record AddOrderResult : Type 0 where
  pub order_id : ℕ
  pub status : OrderStatus
  pub fills : List Fill

pub data MatchingError : Type 0 where
  book_error : BookError → MatchingError
  zero_quantity : MatchingError

-- `fills_buf` without its spare capacity.
pub record MatchingEngine : Type 0 where
  pub book : OrderBook
  pub fills_buf : List Fill

unfoldable pub with_capacity : ℕ → MatchingEngine
unfolding Book.with_capacity
with_capacity arena_capacity = record { book = Book.with_capacity arena_capacity; fills_buf = [] }

unfoldable pub new : MatchingEngine
unfolding Book.new
new = record { book = Book.new; fills_buf = [] }

abbrev pub opposite : Side → Side
opposite bid = ask
opposite ask = bid

-- A taker with this limit trades at the price `p`.
abbrev pub crosses : Side → (limit p : ℤ) → Bool
crosses bid limit p = leb_ℤ p limit
crosses ask limit p = leb_ℤ limit p

abbrev pub fill_of : Order → OrderNode → ℕ → ℕ → Fill
fill_of order maker fill_qty maker_remaining = record {
  taker_order_id = order.id;
  maker_order_id = maker.id;
  price = maker.price;
  quantity = fill_qty;
  maker_fully_filled = maker_remaining == 0;
}

-- What a run of the loop leaves: the rest of the order with the flag `self_trade`, or the error
-- that `?` returns; the book; the fills.
abbrev pub LoopResult : Type 0
LoopResult = Result BookError (Order × Bool) × OrderBook × List Fill

-- `none` is a panic, or fuel that ran out.
unfoldable pub match_loop : ℕ → OrderBook → List Fill → Order → Option LoopResult
match_loop zero b fills order = none
match_loop (suc fuel) b fills order =
    let stop = some (ok (order, false), b, fills) in
    let side = opposite order.side in
    if order.quantity == 0 then stop else elim (best b side) [
      | none ↦ stop
      | some price ↦
          if crosses order.side order.price price
          then (do
            front ← peek_front b side price
            elim front [
              | none ↦ stop
              | some maker ↦ elim (maker.trader_id == order.trader_id) [
                | true ↦ some (ok (order, true), b, fills)
                | false ↦ do
                  let fill_qty = min order.quantity maker.quantity
                  (reduced, b₁) ← reduce_front_quantity b side price fill_qty
                  elim reduced [
                    | err e ↦ some (err e, b₁, fills)
                    | ok maker_remaining ↦
                        match_loop fuel b₁
                          (fills ++ (fill_of order maker fill_qty maker_remaining ∷ []))
                          (record order { quantity = order.quantity - fill_qty })
                  ]
              ]
            ])
          else stop
    ]

abbrev pub result_of : ℕ → OrderStatus → List Fill → AddOrderResult
result_of id status fills = record { order_id = id; status = status; fills = fills }

-- The status of an order that rests.
abbrev pub rest_status : List Fill → OrderStatus
rest_status [] = resting
rest_status (_ ∷ _) = partially_filled

-- What `add_order` does once the loop has stopped.
unfoldable pub finish :
    Order
    → Bool
    → OrderBook
    → List Fill
    → Option (Result MatchingError AddOrderResult × MatchingEngine)
finish order self_trade b fills = elim self_trade [
  | true ↦
      some (ok (result_of order.id cancelled_self_trade fills), record { book = b; fills_buf = [] })
  | false ↦
      if order.quantity == 0
      then some (ok (result_of order.id fully_filled fills), record { book = b; fills_buf = [] })
      else (do
        (inserted, b₁) ← insert_order b order
        elim inserted [
          | err e ↦ some (err (book_error e), record { book = b₁; fills_buf = fills })
          | ok _ ↦ some (
            ok (result_of order.id (rest_status fills) fills),
            record { book = b₁; fills_buf = [] },
          )
        ])
]

-- Each round but the last takes an order off the book, so one round for each resting order and
-- one more are enough.
unfoldable pub add_order :
    MatchingEngine → Order → Option (Result MatchingError AddOrderResult × MatchingEngine)
unfolding match_loop finish
add_order engine order = if order.quantity == 0 then some (err zero_quantity, engine) else (do
  (stopped, b, fills) ← match_loop (order_count engine.book + 1) engine.book [] order
  elim stopped [
    | err e ↦ some (err (book_error e), record { book = b; fills_buf = fills })
    | ok (left, self_trade) ↦ finish left self_trade b fills
  ])

unfoldable pub cancel_order :
    MatchingEngine → ℕ → Option (Result MatchingError Order × MatchingEngine)
cancel_order engine order_id = do
  (cancelled, b) ← Book.cancel_order engine.book order_id
  elim cancelled [
    | err e ↦ some (err (book_error e), record engine { book = b })
    | ok order ↦ some (ok order, record engine { book = b })
  ]

insert_all : OrderBook → List Order → Option (Result BookError OrderBook)
insert_all b [] = some (ok b)
insert_all b (order ∷ orders) = do
  (inserted, b₁) ← insert_order b order
  elim inserted [ err e ↦ some (err e) | ok _ ↦ insert_all b₁ orders ]

-- Inserts directly into the book without matching.
unfoldable pub restore_from_orders : List Order → ℕ → Option (Result MatchingError MatchingEngine)
unfolding insert_all with_capacity
restore_from_orders orders arena_capacity = do
  restored ← insert_all (with_capacity arena_capacity).book orders
  elim restored [
    | err e ↦ some (err (book_error e))
    | ok b ↦ some (ok (record { book = b; fills_buf = [] }))
  ]
