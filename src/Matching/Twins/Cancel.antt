-- ===== src/Matching/Twins/Cancel.antt =====
-- `cancel_order` on two engines whose books are alike.
use velocity_match.Common.{
  ℕ, ◌≡◌, refl, inl, inr, Option, none, some, Option-cases, ok, err, ◌∷◌, ◌++◌, ap, ap₂, ◌∙◌, sym,
  suc,
}
use velocity_match.Common.Run.Panic.{◌>>=◌}
use velocity_match.Common.Map.{id_key, lookup}
use velocity_match.Order.{Order}
use velocity_match.Arena.Chain.{Cells}
use velocity_match.Book.{OrderBook, order_not_found}
use velocity_match.Book.View.{View, IsBook}
use velocity_match.Book.Cells.{In-Split}
use velocity_match.Book.Withdraw.{without_order}
use velocity_match.Book.Cancel.{cancel-unknown, cancel-Cancelled}
use velocity_match.Matching
use velocity_match.Matching.{MatchingError, book_error, MatchingEngine}
use velocity_match.Matching.AddOrder.{Rests}
use velocity_match.Matching.Twins.{
  faces, Alike, faces-append, set_queue-faces, Counterpart, faces-Counterpart,
}
use velocity_match.Matching.Twins.Trades.{Alike-sym}
use velocity_match.Matching.Twins.AddOrder.{Rests-Alike}

unknown_new :
    (b : OrderBook) (v : View) (id : ℕ)
    → IsBook b v
    → lookup id b.order_index ≡ none
    → Rests v id
    → ⊥
unknown_new b v id is fresh (i, at) = never (
    sym fresh
    ∙ ap (λ n. lookup n b.order_index) (sym at.id_is)
    ∙ (is.nodes.cells at.order.side at.order.price (i, at.order) at.within).indexed)
  where
    never : ◌≡◌ {A = Option ℕ} none (some i) → ⊥
    never e = cc

without_order-Alike :
    (v w : View) (o : Order) (i : ℕ) (xs ys : Cells)
    → Alike v w
    → (c : Counterpart o xs ys (w.queue o.side o.price))
    → Alike (without_order v o i xs ys) (without_order w c.order c.node c.before c.after)
without_order-Alike v w o i xs ys a c = record {
  same =
      set_queue-faces v.queue w.queue o.side c.order.side o.price c.order.price (xs ++ ys)
        (c.before ++ c.after) a.same (ap (λ (x : Order). x.side) c.face_is)
        (ap (λ (x : Order). x.price) c.face_is)
        (faces-append xs ys
          ∙ ap₂ (λ l m. l ++ m) c.before_is c.after_is
          ∙ sym (faces-append c.before c.after));
  room = ap suc a.room;
}

-- What two calls of `cancel_order` come to, on books with the views `v` and `w`: they refuse an id
-- that rests in neither book, and change nothing; or they answer the orders of this id, which look
-- the same and stand at the same place of the same queue, and leave books without them.
pub data Parted (engine engine' : MatchingEngine) (v w : View) (id : ℕ) : Type 0 where
  refused :
      (Rests v id → ⊥)
      → (Rests w id → ⊥)
      → Matching.cancel_order engine id ≡ some (err (book_error (order_not_found id)), engine)
      → Matching.cancel_order engine' id ≡ some (err (book_error (order_not_found id)), engine')
      → Parted engine engine' v w id
  withdrawn :
      (o : Order) (i : ℕ) (xs ys : Cells) (c : Counterpart o xs ys (w.queue o.side o.price))
      (after after' : MatchingEngine)
      → o.id ≡ id
      → v.queue o.side o.price ≡ xs ++ ((i, o) ∷ ys)
      → Matching.cancel_order engine id ≡ some (ok o, after)
      → Matching.cancel_order engine' id ≡ some (ok c.order, after')
      → IsBook after.book (without_order v o i xs ys)
      → IsBook after'.book (without_order w c.order c.node c.before c.after)
      → Alike (without_order v o i xs ys) (without_order w c.order c.node c.before c.after)
      → Parted engine engine' v w id

-- On two books that are alike, a cancellation is refused by both, which then are as they were, if
-- the id rests in neither; or it answers, on both, the order of this id, the same but for its
-- timestamp, and leaves both books without it, alike again.
pub cancel_order-Parted :
    (engine engine' : MatchingEngine) (v w : View) (id : ℕ)
    → IsBook engine.book v
    → IsBook engine'.book w
    → Alike v w
    → Parted engine engine' v w id
unfolding Matching.cancel_order
cancel_order-Parted engine engine' v w id is is' a =
    elim (Option-cases (lookup id engine.book.order_index)) [
      | inl unknown ↦ elim (Option-cases (lookup id engine'.book.order_index)) [
        | inl unknown' ↦
            refused (unknown_new engine.book v id is unknown)
              (unknown_new engine'.book w id is' unknown')
              (rw (Matching.cancel_order, cancel-unknown engine.book id unknown, ◌>>=◌) refl)
              (rw (Matching.cancel_order, cancel-unknown engine'.book id unknown', ◌>>=◌) refl)
        | inr (j, known) ↦ absurd (
            unknown_new engine.book v id is unknown
              (Rests-Alike w v id (Alike-sym a) (j, is'.nodes.located id j known)))
      ]
      | inr (i, known) ↦
          let at = is.nodes.located id i known in
          let s = In-Split (i, at.order) _ at.within in
          let c =
            faces-Counterpart i at.order s.before s.after (w.queue at.order.side at.order.price)
              (ap faces (sym s.whole) ∙ a.same at.order.side at.order.price) in
          let d = cancel-Cancelled is at.order i s.before s.after s.whole in
          let d' =
            cancel-Cancelled is' c.order c.node c.before c.after
              (ap (λ (x : Order). w.queue x.side x.price) (sym c.face_is) ∙ c.whole) in
          withdrawn at.order i s.before s.after c (record engine { book = d.book })
            (record engine' { book = d'.book }) at.id_is s.whole
            (ap (λ n. Matching.cancel_order engine n) (sym at.id_is)
              ∙ rw (Matching.cancel_order, d.done, ◌>>=◌) refl)
            (ap (λ n. Matching.cancel_order engine' n)
                (sym at.id_is ∙ ap (λ (x : Order). x.id) c.face_is)
              ∙ rw (Matching.cancel_order, d'.done, ◌>>=◌) refl)
            d.after d'.after (without_order-Alike v w at.order i s.before s.after a c)
    ]
