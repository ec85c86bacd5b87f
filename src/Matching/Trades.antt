-- ===== src/Matching/Trades.antt =====
-- What matching means, on queues of orders alone: the order trades with the oldest order of the
-- best price for as long as the prices cross, and stops at an order of its own trader.
use velocity_match.Common.{
  ℕ, ℤ, ◌-◌, ◌<◌, ◌≡◌, ◌≢◌, Bool, true, false, ◌≤ℤ◌, List, [], ◌∷◌, min, ◌==◌, if◌then◌else◌,
}
use velocity_match.Order.{Side, bid, ask, Order}
use velocity_match.Arena.Chain.{Cells}
use velocity_match.Book.View.{View}
use velocity_match.Book.Withdraw.{without_order}
use velocity_match.Book.Partial.{with_less}
use velocity_match.Matching.{Fill, opposite, crosses}

-- `p` is at least as good for a taker as `p'` on this side of the book.
abbrev pub AsGood : Side → ℤ → ℤ → Type 0
AsGood bid p p' = p' ≤ℤ p
AsGood ask p p' = p ≤ℤ p'

-- The best price of a side: orders rest there, and nowhere better.
pub record IsBest (v : View) (side : Side) (p : ℤ) : Type 0 where
  pub there : v.queue side p ≢ []
  pub none_better : (p' : ℤ) → v.queue side p' ≢ [] → AsGood side p p'

-- The view after a fill of the order `o` at the front of its queue.
abbrev pub filled : View → Order → ℕ → ℕ → Cells → View
filled v o i fill ys =
    if fill == o.quantity then without_order v o i [] ys else with_less v o i fill ys

-- The front order that a taker meets: the oldest at the best price, which crosses the limit.
pub record Meets (v : View) (order o : Order) (i : ℕ) (ys : Cells) : Type 0 where
  pub side_is : opposite order.side ≡ o.side
  pub best_is : IsBest v o.side o.price
  pub front : v.queue o.side o.price ≡ (i, o) ∷ ys
  pub crossed : crosses order.side order.price o.price ≡ true

-- From the view `v`, `order` makes the fills, and leaves the view, its rest and the flag.
pub data Trades : View → Order → List Fill → View → Order → Bool → Type 0 where
  exhausted : {v : View} {order : Order} → order.quantity ≡ 0 → Trades v order [] v order false
  uncrossed :
      {v : View} {order : Order}
      → ((p : ℤ) → crosses order.side order.price p ≡ true → v.queue (opposite order.side) p ≡ [])
      → Trades v order [] v order false
  self_trade :
      {v : View} {order : Order} (o : Order) (i : ℕ) (ys : Cells)
      → order.quantity ≢ 0
      → Meets v order o i ys
      → o.trader_id ≡ order.trader_id
      → Trades v order [] v order true
  trade :
      {v v' : View} {order left : Order} {fills : List Fill} {flag : Bool} (o : Order) (i : ℕ)
      (ys : Cells) (fill : ℕ)
      → order.quantity ≢ 0
      → 0 < o.quantity
      → Meets v order o i ys
      → o.trader_id ≢ order.trader_id
      → fill ≡ min order.quantity o.quantity
      → Trades
          (filled v o i fill ys)
          (record order { quantity = order.quantity - fill })
          fills
          v'
          left
          flag
      → Trades v order
          (record {
            taker_order_id = order.id;
            maker_order_id = o.id;
            price = o.price;
            quantity = fill;
            maker_fully_filled = (o.quantity - fill) == 0;
          }
            ∷ fills)
          v'
          left
          flag
