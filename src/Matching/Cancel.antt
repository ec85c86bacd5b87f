-- ===== src/Matching/Cancel.antt =====
-- `cancel_order` of the engine, over that of the book.
use velocity_match.Common.{ℕ, ◌≡◌, refl, ◌≢◌, some, ok, [], ◌∷◌, ◌++◌}
use velocity_match.Order.{Order, bid, ask}
use velocity_match.Arena.Chain.{Cells}
use velocity_match.Book.View.{View, IsBook}
use velocity_match.Book.Withdraw.{without_order}
use velocity_match.Book.Cancel.{cancel-Cancelled}
use velocity_match.Matching.{MatchingEngine, cancel_order}
use velocity_match.Matching.Uncrossed.{IsUncrossed, set_queue_shrinks}

-- What the engine leaves: the order is answered, and the book is uncrossed and without it.
pub record Withdrawn (engine : MatchingEngine) (v : View) (o : Order) (i : ℕ) (xs ys : Cells)
    : Type 0 where
  pub after : MatchingEngine
  pub done : cancel_order engine o.id ≡ some (ok o, after)
  pub fills_kept : after.fills_buf ≡ engine.fills_buf
  pub book : IsBook after.book (without_order v o i xs ys)
  pub uncrossed : IsUncrossed (without_order v o i xs ys)

there :
    (v : View) (o : Order) (i : ℕ) (xs ys : Cells)
    → v.queue o.side o.price ≡ xs ++ ((i, o) ∷ ys)
    → v.queue o.side o.price ≢ []
there v o i [] ys whole e = cc
there v o i (x ∷ xs) ys whole e = cc

-- From a book in which every bid is below every ask, cancelling an order that rests anywhere in
-- its queue answers that order, and leaves the book without it, every bid below every ask.
pub cancel_order-Withdrawn :
    (engine : MatchingEngine) (v : View) (o : Order) (i : ℕ) (xs ys : Cells)
    → IsBook engine.book v
    → IsUncrossed v
    → v.queue o.side o.price ≡ xs ++ ((i, o) ∷ ys)
    → Withdrawn engine v o i xs ys
unfolding cancel_order
cancel_order-Withdrawn engine v o i xs ys is u whole =
    let c = cancel-Cancelled is o i xs ys whole in
    let full = there v o i xs ys whole in
    record {
      after = record engine { book = c.book };
      done = rw (cancel_order, c.done) refl;
      fills_kept = refl;
      book = c.after;
      uncrossed = λ pb pa nb na.
          u pb pa (set_queue_shrinks v o.side o.price (xs ++ ys) bid pb full nb)
            (set_queue_shrinks v o.side o.price (xs ++ ys) ask pa full na);
    }
