-- ===== src/Matching/Uncrossed.antt =====
-- Crossed prices: what matching, and an order that rests after it, does to them.
use velocity_match.Common.{
  ℕ, ℤ, ◌≡◌, ◌≢◌, ◌⊎◌, inl, inr, Bool, true, false, List, [], arith, sym, ◌∙◌, subst, subst₂, ◌<ℤ◌,
  ◌==◌, Bool-cases,
}
use velocity_match.Order.{Side, bid, ask, Order}
use velocity_match.Arena.Chain.{Cells}
use velocity_match.Book.View.{View, set_queue}
use velocity_match.Book.Cells.{Place-cases}
use velocity_match.Book.Place.{with_order}
use velocity_match.Matching.{Fill, crosses, opposite}
use velocity_match.Matching.Trades.{Trades, exhausted, uncrossed, self_trade, trade, filled}

-- Every bid is below every ask.
abbrev pub IsUncrossed : View → Type 0
IsUncrossed v = (pb pa : ℤ) → v.queue bid pb ≢ [] → v.queue ask pa ≢ [] → pb <ℤ pa

-- Matching adds no price to the book.
pub set_queue_shrinks :
    (v : View) (side : Side) (price : ℤ) (xs : Cells) (s : Side) (p : ℤ)
    → v.queue side price ≢ []
    → set_queue v.queue side price xs s p ≢ []
    → v.queue s p ≢ []
set_queue_shrinks v side price xs s p there h = elim (Place-cases s p side price) [
  | inr e ↦ rw e at h
  | inl (e, es, ep) ↦ subst₂ (λ x y. v.queue x y ≢ []) (sym es) (sym ep) there
]

filled_shrinks :
    (v : View) (o : Order) (i fill : ℕ) (ys : Cells) (s : Side) (p : ℤ)
    → v.queue o.side o.price ≢ []
    → (filled v o i fill ys).queue s p ≢ []
    → v.queue s p ≢ []
filled_shrinks v o i fill ys s p there h = elim (Bool-cases (fill == o.quantity)) [
  | inl e ↦ set_queue_shrinks v o.side o.price ys s p there (rw e at h)
  | inr e ↦ set_queue_shrinks v o.side o.price _ s p there (rw e at h)
]

Trades-shrink :
    {v v' : View} {order left : Order} {fills : List Fill} {flag : Bool}
    → Trades v order fills v' left flag
    → (s : Side) (p : ℤ) → v'.queue s p ≢ []
    → v.queue s p ≢ []
Trades-shrink (exhausted h) s p n = n
Trades-shrink (uncrossed h) s p n = n
Trades-shrink (self_trade o i ys ne m own) s p n = n
Trades-shrink {v} (trade o i ys fill ne pos m other e rest) s p n =
    filled_shrinks v o i fill ys s p m.best_is.there (Trades-shrink rest s p n)

pub Trades-IsUncrossed :
    {v v' : View} {order left : Order} {fills : List Fill} {flag : Bool}
    → Trades v order fills v' left flag
    → IsUncrossed v
    → IsUncrossed v'
Trades-IsUncrossed t u pb pa nb na = u pb pa (Trades-shrink t bid pb nb) (Trades-shrink t ask pa na)

-- Where the loop stops with something left and no self trade, nothing within the limit rests on
-- the other side.
pub nothing_within :
    {v v' : View} {order left : Order} {fills : List Fill} {flag : Bool}
    → Trades v order fills v' left flag
    → flag ≡ false
    → left.quantity ≢ 0
    → (p : ℤ) → crosses order.side order.price p ≡ true
    → v'.queue (opposite order.side) p ≡ []
nothing_within (exhausted h) e n p c = absurd (n h)
nothing_within (uncrossed h) e n p c = h p c
nothing_within (self_trade o i ys ne m own) e n p c = cc
nothing_within (trade o i ys fill ne pos m other eq rest) e n p c = nothing_within rest e n p c

queue_with_order :
    (v : View) (order : Order) (i : ℕ) (rest : List ℕ) (s : Side) (p : ℤ)
    → (with_order v order i rest).queue s p ≢ []
    → ((s ≡ order.side) × (p ≡ order.price)) ⊎ (v.queue s p ≢ [])
queue_with_order v order i rest s p h = elim (Place-cases s p order.side order.price) [
  | inr e ↦ inr (rw e at h)
  | inl (e, es, ep) ↦ inl (es, ep)
]

bid_below : (limit p : ℤ) → crosses bid limit p ≢ true → limit <ℤ p
bid_below limit p h = ground arith

ask_above : (limit p : ℤ) → crosses ask limit p ≢ true → p <ℤ limit
ask_above limit p h = ground arith

bid≢ask : bid ≢ ask
bid≢ask e = cc

-- An order that rests within a gap that nothing on the other side reaches leaves no crossing.
pub rest-IsUncrossed :
    (v : View) (order : Order) (i : ℕ) (rest : List ℕ)
    → IsUncrossed v
    → ((p : ℤ) → crosses order.side order.price p ≡ true → v.queue (opposite order.side) p ≡ [])
    → IsUncrossed (with_order v order i rest)
rest-IsUncrossed v order i rest u clear pb pa nb na =
    elim (queue_with_order v order i rest bid pb nb) [
      | inl (es, ep) ↦ elim (queue_with_order v order i rest ask pa na) [
        | inl (es', ep') ↦ absurd (bid≢ask (es ∙ sym es'))
        | inr na' ↦ new_bid es ep na'
      ]
      | inr nb' ↦ elim (queue_with_order v order i rest ask pa na) [
        | inl (es', ep') ↦ new_ask es' ep' nb'
        | inr na' ↦ u pb pa nb' na'
      ]
    ]
  where
    new_bid : bid ≡ order.side → pb ≡ order.price → v.queue ask pa ≢ [] → pb <ℤ pa
    new_bid es ep n =
        let clear' =
          subst (λ s. (p : ℤ) → crosses s order.price p ≡ true → v.queue (opposite s) p ≡ [])
            (sym es) clear in
        rw ep (bid_below order.price pa (λ c. n (clear' pa c)))

    new_ask : ask ≡ order.side → pa ≡ order.price → v.queue bid pb ≢ [] → pb <ℤ pa
    new_ask es ep n =
        let clear' =
          subst (λ s. (p : ℤ) → crosses s order.price p ≡ true → v.queue (opposite s) p ≡ [])
            (sym es) clear in
        rw ep (ask_above order.price pb (λ c. n (clear' pb c)))
