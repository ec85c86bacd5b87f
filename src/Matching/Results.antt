-- ===== src/Matching/Results.antt =====
-- What a caller sees of `add_order`: the quantities of its result, and the prices that are left.
use velocity_match.Common.{
  ℕ, ℤ, ◌^◌, ◌<◌, ◌≤◌, ◌≡◌, refl, ◌≢◌, Bool, true, false, some, Result, ok, List, [], ◌∷◌, arith,
  All, sym, subst, ◌<ℤ◌,
}
use velocity_match.Order.{bid, ask, Order}
use velocity_match.Book.{OrderBook, best}
use velocity_match.Book.View.{View, IsBook}
use velocity_match.Matching.{
  Fill, fully_filled, partially_filled, resting, cancelled_self_trade, AddOrderResult,
  MatchingError, MatchingEngine, add_order, result_of, rest_status, crosses, opposite,
}
use velocity_match.Matching.Trades.{Trades}
use velocity_match.Matching.Best.{best-IsBest}
use velocity_match.Matching.Laws.{traded, traded-add-left, IsFair, fills-IsFair, left_keeps}
use velocity_match.Book.Place.{with_order}
use velocity_match.Matching.Uncrossed.{
  IsUncrossed, Trades-IsUncrossed, nothing_within, rest-IsUncrossed,
}
use velocity_match.Matching.AddOrder.{
  Run, Ends, cancelled, done, rested, duplicate, no_room, add_order-Added,
}

-- What a successful result says of its order.
pub record IsAccount (order : Order) (r : AddOrderResult) : Type 0 where
  pub same_order : r.order_id ≡ order.id
  pub no_more : traded r.fills ≤ order.quantity
  pub full : (r.status ≡ fully_filled) → traded r.fills ≡ order.quantity
  pub untouched : (r.status ≡ resting) → r.fills ≡ []
  pub part :
      (r.status ≡ partially_filled) → (0 < traded r.fills) × (traded r.fills < order.quantity)
  pub fair : All (IsFair order.id order.side order.price) r.fills

same_result :
    {r : AddOrderResult} {e : MatchingEngine} (run : Run) (r' : AddOrderResult)
    (e' : MatchingEngine)
    → run ≡ some (ok r, e)
    → run ≡ some (ok r', e')
    → r' ≡ r
same_result run r' e' p q = cc

module _ {v w : View} {order left : Order} {fills : List Fill} {flag : Bool}
    (t : Trades v order fills w left flag) where
  IsAccount-cancelled : IsAccount order (result_of order.id cancelled_self_trade fills)
  IsAccount-cancelled = record {
    same_order = refl;
    no_more = omega (arith, traded-add-left t);
    full = λ h. cc;
    untouched = λ h. cc;
    part = λ h. cc;
    fair = fills-IsFair t;
  }

  IsAccount-done : left.quantity ≡ 0 → IsAccount order (result_of order.id fully_filled fills)
  IsAccount-done e = record {
    same_order = refl;
    no_more = omega (arith, traded-add-left t);
    full = λ h. omega (arith, traded-add-left t);
    untouched = λ h. cc;
    part = λ h. cc;
    fair = fills-IsFair t;
  }

IsAccount-rested :
    {v w : View} {order left : Order} {flag : Bool} (fills : List Fill)
    → Trades v order fills w left flag
    → left.quantity ≢ 0
    → IsAccount order (result_of order.id (rest_status fills) fills)
IsAccount-rested [] t ne = record {
  same_order = refl;
  no_more = omega (arith, traded-add-left t);
  full = λ h. cc;
  untouched = λ h. refl;
  part = λ h. cc;
  fair = tt;
}
IsAccount-rested (f ∷ fs) t ne = record {
  same_order = refl;
  no_more = omega (arith, traded-add-left t);
  full = λ h. cc;
  untouched = λ h. cc;
  part = λ h. (omega (arith, (fills-IsFair t).0.positive), omega (arith, traded-add-left t, ne));
  fair = fills-IsFair t;
}

-- On a book, a result that `add_order` returns for an order of a positive 64-bit quantity accounts
-- for it: the fills trade no more than its quantity, all of it where it says fully filled, none
-- where it says resting, a part where it says partially filled; and each fill is positive, names
-- the order and is within its limit.
pub add_order-IsAccount :
    (engine : MatchingEngine) (v : View) (order : Order) (r : AddOrderResult) (e : MatchingEngine)
    → IsBook engine.book v
    → 0 < order.quantity
    → order.quantity < 2 ^ 64
    → add_order engine order ≡ some (ok r, e)
    → IsAccount order r
add_order-IsAccount engine v order r e is positive fits run =
    let a = add_order-Added engine v order is positive fits in of_ends a.trades a.ends
  where
    of_ends :
        {w : View} {left : Order} {fills : List Fill} {flag : Bool}
        → Trades v order fills w left flag
        → Ends order left flag fills w (add_order engine order)
        → IsAccount order r
    of_ends t (cancelled e' f is' d) =
        subst (IsAccount order) (same_result (add_order engine order) _ e' run d)
          (IsAccount-cancelled t)
    of_ends t (done e' f z is' d) =
        subst (IsAccount order) (same_result (add_order engine order) _ e' run d)
          (IsAccount-done t z)
    of_ends t (rested e' i free f ne new fr is' d) =
        subst (IsAccount order) (same_result (add_order engine order) _ e' run d)
          (IsAccount-rested _ t ne)
    of_ends t (duplicate e' f ne old is' d) = cc
    of_ends t (no_room e' f ne new fr is' d) = cc

-- The book that a run leaves stands for an uncrossed view.
pub record LeavesUncrossed (run : Run) : Type 0 where
  pub result : Result MatchingError AddOrderResult
  pub engine : MatchingEngine
  pub view : View
  pub returned : run ≡ some (result, engine)
  pub book : IsBook engine.book view
  pub uncrossed : IsUncrossed view

module _ {v w : View} {order left : Order} {fills : List Fill} {flag : Bool}
    (t : Trades v order fills w left flag) (u : IsUncrossed v) where
  after_trades : IsUncrossed w
  after_trades = Trades-IsUncrossed t u

  after_rest :
      (i : ℕ) (free : List ℕ)
      → flag ≡ false
      → left.quantity ≢ 0
      → IsUncrossed (with_order w left i free)
  after_rest i free e ne =
      let same = left_keeps t in
      rest-IsUncrossed w left i free after_trades (
        subst
          (λ (o : Order).
            (p : ℤ) → crosses o.side o.price p ≡ true → w.queue (opposite o.side) p ≡ [])
          (sym same) (nothing_within t e ne))

  leaves : (run : Run) → Ends order left flag fills w run → LeavesUncrossed run
  leaves run (cancelled e f is d) = record {
    result = _;
    engine = e;
    view = w;
    returned = d;
    book = is;
    uncrossed = after_trades;
  }
  leaves run (done e f z is d) = record {
    result = _;
    engine = e;
    view = w;
    returned = d;
    book = is;
    uncrossed = after_trades;
  }
  leaves run (rested e i free f ne new fr is d) = record {
    result = _;
    engine = e;
    view = with_order w left i free;
    returned = d;
    book = is;
    uncrossed = after_rest i free f ne;
  }
  leaves run (duplicate e f ne old is d) = record {
    result = _;
    engine = e;
    view = w;
    returned = d;
    book = is;
    uncrossed = after_trades;
  }
  leaves run (no_room e f ne new fr is d) = record {
    result = _;
    engine = e;
    view = w;
    returned = d;
    book = is;
    uncrossed = after_trades;
  }

-- From a book in which every bid is below every ask, and for an order of a positive 64-bit
-- quantity, `add_order` returns, whatever the outcome, with a book in which every bid is below
-- every ask.
pub add_order-LeavesUncrossed :
    (engine : MatchingEngine) (v : View) (order : Order)
    → IsBook engine.book v
    → IsUncrossed v
    → 0 < order.quantity
    → order.quantity < 2 ^ 64
    → LeavesUncrossed (add_order engine order)
add_order-LeavesUncrossed engine v order is u positive fits =
    let a = add_order-Added engine v order is positive fits in
    leaves a.trades u (add_order engine order) a.ends

-- In a book in which every bid is below every ask, the cached best bid is below the cached best
-- ask.
pub best-uncrossed :
    (b : OrderBook) (v : View) (p q : ℤ)
    → IsBook b v
    → IsUncrossed v
    → best b bid ≡ some p
    → best b ask ≡ some q
    → p <ℤ q
best-uncrossed b v p q is u hp hq =
    u p q (best-IsBest is bid p hp).there (best-IsBest is ask q hq).there
