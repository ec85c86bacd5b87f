-- ===== src/Matching/Small.antt =====
-- The fields of the orders and of the fills fit the messages.
use velocity_match.Common.{
  ℕ, ℤ, ◌-◌, ◌^◌, ◌<◌, ◌≡◌, refl, inl, inr, Bool, Bool-cases, Option, Option-cases, some, Result,
  ok, err, List, [], ◌∷◌, ◌++◌, All, IsI64, arith, ap, ◌∙◌, sym, subst, ◌==◌,
}
use velocity_match.Common.Map.{id_key, lookup}
use velocity_match.Common.Run.Panic.{◌>>=◌}
use velocity_match.Order.{Side, Order}
use velocity_match.Arena.Chain.{Cells}
use velocity_match.Book
use velocity_match.Book.{order_not_found}
use velocity_match.Book.View.{View, In, IsBook, set_queue}
use velocity_match.Book.Cells.{Place-cases, In-append, In-left, In-right, In-Split}
use velocity_match.Book.Place.{with_order, In-with_order}
use velocity_match.Book.Withdraw.{without_order}
use velocity_match.Book.Cancel.{cancel-unknown, cancel-Cancelled}
use velocity_match.Protocol.RoundTrip.{FitsReport}
use velocity_match.Matching
use velocity_match.Matching.{
  Fill, MatchingError, book_error, AddOrderResult, MatchingEngine, add_order,
}
use velocity_match.Matching.Trades.{Trades, exhausted, uncrossed, self_trade, trade, filled}
use velocity_match.Matching.Laws.{left_keeps, traded-add-left}
use velocity_match.Matching.AddOrder.{
  Run, Ends, cancelled, done, rested, duplicate, no_room, add_order-Added,
}

abbrev pub IsSmall : Order → Type 0
IsSmall o = (o.id < 2 ^ 64) × IsI64 o.price × (o.quantity < 2 ^ 64)

-- The orders that rest.
abbrev pub AllSmall : View → Type 0
AllSmall v = (s : Side) (p : ℤ) (c : ℕ × Order) → In c (v.queue s p) → IsSmall c.1

set_queue-IsSmall :
    (v : View) (side : Side) (price : ℤ) (xs : Cells)
    → AllSmall v
    → ((c : ℕ × Order) → In c xs → IsSmall c.1)
    → (s : Side) (p : ℤ) (c : ℕ × Order) → In c (set_queue v.queue side price xs s p)
    → IsSmall c.1
set_queue-IsSmall v side price xs small new s p c h = elim (Place-cases s p side price) [
  | inr off ↦ small s p c (rw off at h)
  | inl (at, es, ep) ↦ new c (rw at at h)
]

filled-AllSmall :
    (v : View) (o : Order) (i fill : ℕ) (ys : Cells)
    → AllSmall v
    → v.queue o.side o.price ≡ (i, o) ∷ ys
    → AllSmall (filled v o i fill ys)
filled-AllSmall v o i fill ys small front s p c h = elim (Bool-cases (fill == o.quantity)) [
  | inl whole ↦
      set_queue-IsSmall v o.side o.price ys small (λ d k. behind d k) s p c (rw whole at h)
  | inr part ↦ set_queue-IsSmall v o.side o.price _ small first s p c (rw part at h)
]
  where
    of_queue : (d : ℕ × Order) → In d ((i, o) ∷ ys) → IsSmall d.1
    of_queue d k = small o.side o.price d (subst (In d) (sym front) k)

    behind : (d : ℕ × Order) → In d ys → IsSmall d.1
    behind d k = of_queue d (inr k)

    first :
        (d : ℕ × Order) → In d ((i, record o { quantity = o.quantity - fill }) ∷ ys) → IsSmall d.1
    first d (inr k) = behind d k
    first d (inl e) =
        let (a, b, q) = of_queue (i, o) (inl refl) in
        subst (λ (x : ℕ × Order). IsSmall x.1) (sym e) (a, b, omega (arith, q))

-- Trades leave small orders, and their fills fit reports.
Trades-AllSmall :
    {v w : View} {order left : Order} {fills : List Fill} {flag : Bool}
    → Trades v order fills w left flag
    → AllSmall v
    → order.id < 2 ^ 64
    → AllSmall w × All FitsReport fills
Trades-AllSmall (exhausted h) small known = (small, tt)
Trades-AllSmall (uncrossed h) small known = (small, tt)
Trades-AllSmall (self_trade o i ys ne m own) small known = (small, tt)
Trades-AllSmall {v} {w} {order} (trade o i ys fill ne pos m other e rest) small known =
    let r = Trades-AllSmall rest (filled-AllSmall v o i fill ys small m.front) known in
    let (a, b, q) = small o.side o.price (i, o) (subst (In (i, o)) (sym m.front) (inl refl)) in
    (
      r.0,
      (
        record {
          taker_order_id = known;
          maker_order_id = a;
          price = b;
          quantity = omega (arith, e, q);
        },
        r.1,
      ),
    )

-- The engine's book stands for a view of small orders.
pub record IsFit (engine : MatchingEngine) : Type 0 where
  pub view : View
  pub book : IsBook engine.book view
  pub small : AllSmall view

-- The fills of a result that is no error.
abbrev pub fills_of : Result MatchingError AddOrderResult → List Fill
fills_of (ok r) = r.fills
fills_of (err e) = []

-- A call of `add_order` that leaves small orders, and whose fills fit reports.
pub record Fitted (run : Run) : Type 0 where
  pub answer : Result MatchingError AddOrderResult
  pub engine : MatchingEngine
  pub done : run ≡ some (answer, engine)
  pub fit : IsFit engine
  pub fills : All FitsReport (fills_of answer)

with_order-AllSmall :
    (v : View) (o : Order) (i : ℕ) (free : List ℕ)
    → AllSmall v
    → IsSmall o
    → AllSmall (with_order v o i free)
with_order-AllSmall v o i free small new s p c h = elim (In-with_order v o i free s p c h) [
  | inl (e, es, ep) ↦ subst (λ (x : ℕ × Order). IsSmall x.1) (sym e) new
  | inr old ↦ small s p c old
]

module _ {v w : View} {order left : Order} {fills : List Fill} {flag : Bool}
    (t : Trades v order fills w left flag) (small : AllSmall v) (o : IsSmall order) where
  after : AllSmall w × All FitsReport fills
  after = Trades-AllSmall t small o.0

  left-IsSmall : IsSmall left
  left-IsSmall = (
    subst (λ (x : Order). x.id < 2 ^ 64) (sym (left_keeps t)) o.0,
    subst (λ (x : Order). IsI64 x.price) (sym (left_keeps t)) o.1,
    omega (arith, o.2, traded-add-left t),
  )

  Ends-Fitted : (run : Run) → Ends order left flag fills w run → Fitted run
  Ends-Fitted run (cancelled e f is d) = record {
    answer = _;
    engine = e;
    done = d;
    fit = record { view = w; book = is; small = after.0 };
    fills = after.1;
  }
  Ends-Fitted run (done e f z is d) = record {
    answer = _;
    engine = e;
    done = d;
    fit = record { view = w; book = is; small = after.0 };
    fills = after.1;
  }
  Ends-Fitted run (rested e i free f ne new fr is d) = record {
    answer = _;
    engine = e;
    done = d;
    fills = after.1;
    fit = record {
      view = with_order w left i free;
      book = is;
      small = with_order-AllSmall w left i free after.0 left-IsSmall;
    };
  }
  Ends-Fitted run (duplicate e f ne old is d) = record {
    answer = _;
    engine = e;
    done = d;
    fit = record { view = w; book = is; small = after.0 };
    fills = tt;
  }
  Ends-Fitted run (no_room e f ne new fr is d) = record {
    answer = _;
    engine = e;
    done = d;
    fit = record { view = w; book = is; small = after.0 };
    fills = tt;
  }

-- On a book whose orders fit the messages, and for an order that does, of a positive quantity, the
-- fills of `add_order` fit reports, and so do the orders that it leaves.
pub add_order-Fitted :
    (engine : MatchingEngine) (order : Order)
    → IsFit engine
    → IsSmall order
    → 0 < order.quantity
    → Fitted (add_order engine order)
add_order-Fitted engine order fit o positive =
    let a = add_order-Added engine fit.view order fit.book positive o.2 in
    Ends-Fitted a.trades fit.small o (add_order engine order) a.ends

-- A cancellation leaves small orders.
pub record StillFit (run : Option (Result MatchingError Order × MatchingEngine)) : Type 0 where
  pub answer : Result MatchingError Order
  pub engine : MatchingEngine
  pub done : run ≡ some (answer, engine)
  pub fit : IsFit engine

pub cancel_order-StillFit :
    (engine : MatchingEngine) (id : ℕ) → IsFit engine → StillFit (Matching.cancel_order engine id)
unfolding Matching.cancel_order
cancel_order-StillFit engine id fit = elim (Option-cases (lookup id engine.book.order_index)) [
  | inl unknown ↦ record {
    answer = err (book_error (order_not_found id));
    engine = engine;
    fit = fit;
    done = rw (Matching.cancel_order, cancel-unknown engine.book id unknown, ◌>>=◌) refl;
  }
  | inr (i, known) ↦
      let at = fit.book.nodes.located id i known in
      let cut = In-Split (i, at.order) _ at.within in
      let c = cancel-Cancelled fit.book at.order i cut.before cut.after cut.whole in
      record {
        answer = ok at.order;
        engine = record engine { book = c.book };
        done =
            rw
              (
                Matching.cancel_order,
                ap (λ n. Book.cancel_order engine.book n) (sym at.id_is) ∙ c.done,
                ◌>>=◌,
              )
              refl;
        fit = record {
          view = without_order fit.view at.order i cut.before cut.after;
          book = c.after;
          small = λ s p d h.
              set_queue-IsSmall fit.view at.order.side at.order.price (cut.before ++ cut.after)
                fit.small
                (λ d k.
                  fit.small at.order.side at.order.price d
                    (subst (In d) (sym cut.whole) (rejoin (i, at.order) d cut.before cut.after k)))
                s p d h;
        };
      }
]
  where
    rejoin : (x d : ℕ × Order) (xs ys : Cells) → In d (xs ++ ys) → In d (xs ++ (x ∷ ys))
    rejoin x d xs ys h = elim (In-append d xs ys h) [
      | inl front ↦ In-left d xs _ front
      | inr back ↦ In-right d xs _ (inr back)
    ]
