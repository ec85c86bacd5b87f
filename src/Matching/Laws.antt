-- ===== src/Matching/Laws.antt =====
-- What the trades of one order add up to.
use velocity_match.Common.{ℕ, ℤ, ◌+◌, ◌<◌, ◌≡◌, refl, Bool, true, List, [], ◌∷◌, arith, All}
use velocity_match.Order.{Side, Order}
use velocity_match.Book.View.{View}
use velocity_match.Matching.{Fill, crosses}
use velocity_match.Matching.Trades.{Trades, exhausted, uncrossed, self_trade, trade}

abbrev pub traded : List Fill → ℕ
traded [] = 0
traded (f ∷ fs) = f.quantity + traded fs

-- No quantity is lost or made: the fills and the rest make up the order.
pub traded-add-left :
    {v v' : View} {order left : Order} {fills : List Fill} {flag : Bool}
    → Trades v order fills v' left flag
    → traded fills + left.quantity ≡ order.quantity
traded-add-left (exhausted h) = omega arith
traded-add-left (uncrossed h) = omega arith
traded-add-left (self_trade o i ys ne m own) = omega arith
traded-add-left (trade o i ys fill ne pos m other e rest) = omega (arith, traded-add-left rest, e)

-- What is left of the order differs from it in the quantity alone.
pub left_keeps :
    {v v' : View} {order left : Order} {fills : List Fill} {flag : Bool}
    → Trades v order fills v' left flag
    → left ≡ record order { quantity = left.quantity }
left_keeps (exhausted h) = refl
left_keeps (uncrossed h) = refl
left_keeps (self_trade o i ys ne m own) = refl
left_keeps (trade o i ys fill ne pos m other e rest) = left_keeps rest

-- Every fill moves something, names the taker, and is at a price within the taker's limit.
pub record IsFair (id : ℕ) (side : Side) (limit : ℤ) (f : Fill) : Type 0 where
  pub positive : 0 < f.quantity
  pub taker : f.taker_order_id ≡ id
  pub within : crosses side limit f.price ≡ true

pub fills-IsFair :
    {v v' : View} {order left : Order} {fills : List Fill} {flag : Bool}
    → Trades v order fills v' left flag
    → All (IsFair order.id order.side order.price) fills
fills-IsFair (exhausted h) = tt
fills-IsFair (uncrossed h) = tt
fills-IsFair (self_trade o i ys ne m own) = tt
fills-IsFair (trade o i ys fill ne pos m other e rest) = (
  record { positive = omega (arith, e, pos, ne); taker = refl; within = m.crossed },
  fills-IsFair rest,
)
