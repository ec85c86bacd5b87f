-- ===== src/Matching/Loop.antt =====
-- The matching loop against `Trades`, and the fuel that it needs.
use velocity_match.Common.{
  ℕ, zero, suc, ◌-◌, ◌<◌, ◌≤◌, ◌≡◌, refl, ◌≢◌, inl, inr, Bool, true, false, some, List, [], ◌∷◌,
  ◌++◌, arith, ==_iff, ==_ne, ℕ_discrete, Bool-cases, Option-cases, sym, ◌∙◌, ap, subst, ok, min,
  append-nil, append_assoc,
}
use velocity_match.Common.Map.{id_key, price_key}
use velocity_match.Order.{Order}
use velocity_match.Arena.{OrderNode, arena_null}
use velocity_match.Arena.Chain.{Cells, node, head_or}
use velocity_match.Book.{OrderBook, best, order_count, peek_front, reduce_front_quantity}
use velocity_match.Book.View.{View, IsBook}
use velocity_match.Book.Peek.{peek-front}
use velocity_match.Book.Partial.{with_less}
use velocity_match.Book.Withdraw.{without_order}
use velocity_match.Book.Cancel.{some_left}
use velocity_match.Book.Reduce.{Less, Gone, reduce-Less, reduce-Gone}
use velocity_match.Matching.{Fill, opposite, crosses, fill_of, match_loop}
use velocity_match.Matching.Trades.{filled, Meets, Trades, exhausted, uncrossed, self_trade, trade}
use velocity_match.Matching.Best.{none-empty, best-IsBest, nothing_crosses, front_of}
use velocity_match.Matching.Round.{
  loop-exhausted, loop-none, loop-uncrossed, loop-self_trade, loop-trade,
}

-- What the loop leaves: no panic, fuel enough, a book, and the trades that were made.
pub record Ran (fuel : ℕ) (b : OrderBook) (v : View) (fills : List Fill) (order : Order)
    : Type 0 where
  pub book : OrderBook
  pub view : View
  pub left : Order
  pub flag : Bool
  pub new_fills : List Fill
  pub done : match_loop fuel b fills order ≡ some (ok (left, flag), book, fills ++ new_fills)
  pub after : IsBook book view
  pub trades : Trades v order new_fills view left flag

filled_gone :
    (v : View) (o : Order) (i fill : ℕ) (ys : Cells)
    → fill ≡ o.quantity
    → filled v o i fill ys ≡ without_order v o i [] ys
filled_gone v o i fill ys e = rw ((==_iff fill o.quantity).1 e) refl

filled_less :
    (v : View) (o : Order) (i fill : ℕ) (ys : Cells)
    → fill ≢ o.quantity
    → filled v o i fill ys ≡ with_less v o i fill ys
filled_less v o i fill ys e = rw (==_ne fill o.quantity e) refl

-- A run that stops at once.
stopped :
    (f : ℕ) (b : OrderBook) (v : View) (fills : List Fill) (order : Order) (flag : Bool)
    → IsBook b v
    → match_loop f b fills order ≡ some (ok (order, flag), b, fills)
    → Trades v order [] v order flag
    → Ran f b v fills order
stopped f b v fills order flag is done trades = record {
  book = b;
  view = v;
  left = order;
  flag = flag;
  new_fills = [];
  done = done ∙ ap (λ l. some (ok (order, flag), b, l)) (sym (append-nil fills));
  after = is;
  trades = trades;
}

module _ (f : ℕ) (b : OrderBook) (v : View) (fills : List Fill) (order : Order) (is : IsBook b v)
    (ne : order.quantity ≢ 0) (o : Order) (i : ℕ) (ys : Cells) (meets : Meets v order o i ys)
    (at : best b (opposite order.side) ≡ some o.price) where
  abbrev maker : OrderNode
  maker = node o arena_null (head_or arena_null ys)

  abbrev amount : ℕ
  amount = min order.quantity o.quantity

  amount_fits : amount ≤ o.quantity
  amount_fits = omega arith

  front : peek_front b (opposite order.side) o.price ≡ some (some maker)
  front = rw meets.side_is (peek-front is o i ys meets.front)

  meets_own : o.trader_id ≡ order.trader_id → Ran (suc f) b v fills order
  meets_own own =
      stopped (suc f) b v fills order true is
        (loop-self_trade f b fills order ne o.price at meets.crossed maker front own)
        (self_trade o i ys ne meets own)

  -- A round that trades, and the rest of the run.
  meets_other :
      (r : ℕ) (b₁ : OrderBook)
      → o.trader_id ≢ order.trader_id
      → 0 < o.quantity
      → reduce_front_quantity b o.side o.price amount ≡ some (ok r, b₁)
      → r ≡ o.quantity - amount
      → Ran f b₁
          (filled v o i amount ys)
          (fills ++ (fill_of order maker amount (o.quantity - amount) ∷ []))
          (record order { quantity = order.quantity - amount })
      → Ran (suc f) b v fills order
  meets_other r b₁ other pos reduced er rest = record {
    book = rest.book;
    view = rest.view;
    left = rest.left;
    flag = rest.flag;
    new_fills = fill_of order maker amount (o.quantity - amount) ∷ rest.new_fills;
    done =
        loop-trade f b fills order ne o.price at meets.crossed maker front r b₁ other
          (rw meets.side_is reduced)
        ∙ ap
            (λ k.
              match_loop f b₁ (fills ++ (fill_of order maker amount k ∷ []))
                (record order { quantity = order.quantity - amount }))
            er
        ∙ rest.done
        ∙ ap (λ l. some (ok (rest.left, rest.flag), rest.book, l))
            (append_assoc fills (fill_of order maker amount (o.quantity - amount) ∷ [])
              rest.new_fills);
    after = rest.after;
    trades = trade o i ys amount ne pos meets other refl rest.trades;
  }

  -- The claim for the rounds that follow this one.
  abbrev Rest : Type 0
  Rest =
      (b₁ : OrderBook) (v₁ : View) (fills₁ : List Fill) (order₁ : Order)
      → IsBook b₁ v₁
      → 0 < f
      → (order₁.quantity ≢ 0 → order_count b₁ < f)
      → Ran f b₁ v₁ fills₁ order₁

  abbrev fills_now : List Fill
  fills_now = fills ++ (fill_of order maker amount (o.quantity - amount) ∷ [])

  abbrev order_now : Order
  order_now = record order { quantity = order.quantity - amount }

  takes_all :
      (rest : Rest)
      → order_count b < suc f
      → o.trader_id ≢ order.trader_id
      → 0 < o.quantity
      → amount ≡ o.quantity
      → Gone is o i ys meets.front amount amount_fits
      → Ran (suc f) b v fills order
  takes_all rest enough other pos all g = meets_other 0 g.book other pos g.done (omega arith) (
      subst (λ w. Ran f g.book w fills_now order_now) (sym (filled_gone v o i amount ys all))
        (rest g.book (without_order v o i [] ys) fills_now order_now g.after
          (omega (arith, g.counted)) (λ h. omega (arith, g.counted))))

  takes_part :
      (rest : Rest)
      → order_count b < suc f
      → o.trader_id ≢ order.trader_id
      → 0 < o.quantity
      → amount ≢ o.quantity
      → Less is o i ys meets.front amount amount_fits
      → Ran (suc f) b v fills order
  takes_part rest enough other pos part g =
      meets_other (o.quantity - amount) g.book other pos g.done refl (
        subst (λ w. Ran f g.book w fills_now order_now) (sym (filled_less v o i amount ys part))
          (rest g.book (with_less v o i amount ys) fills_now order_now g.after
            (omega (arith, some_left is o i [] ys meets.front, is.nodes.counted))
            (λ h. absurd (h (omega arith)))))

  meets_any : Rest → order_count b < suc f → 0 < o.quantity → Ran (suc f) b v fills order
  meets_any rest enough pos = elim (ℕ_discrete o.trader_id order.trader_id) [
    | yes own ↦ meets_own own
    | no other ↦ elim (ℕ_discrete amount o.quantity) [
      | yes all ↦
          takes_all rest enough other pos all
            (reduce-Gone is o i ys meets.front amount amount_fits all)
      | no part ↦
          takes_part rest enough other pos part
            (reduce-Less is o i ys meets.front amount amount_fits (omega arith))
    ]
  ]

-- On a book, with some fuel, and with more rounds than orders rest unless the order's quantity is
-- 0, the loop never panics or runs out of fuel: it leaves a book, adds its fills after those it was
-- given, and makes exactly the trades of the specification.
pub match_loop-Ran :
    (fuel : ℕ) (b : OrderBook) (v : View) (fills : List Fill) (order : Order)
    → IsBook b v
    → 0 < fuel
    → (order.quantity ≢ 0 → order_count b < fuel)
    → Ran fuel b v fills order
match_loop-Ran zero b v fills order is pos enough = absurd (omega arith)
match_loop-Ran (suc f) b v fills order is pos enough = elim (ℕ_discrete order.quantity 0) [
  | yes e ↦
      stopped (suc f) b v fills order false is (loop-exhausted f b fills order e) (exhausted e)
  | no ne ↦ elim (Option-cases (best b (opposite order.side))) [
    | inl at ↦
        stopped (suc f) b v fills order false is (loop-none f b fills order ne at)
          (uncrossed (λ p h. none-empty is (opposite order.side) at p))
    | inr (p, at) ↦ elim (Bool-cases (crosses order.side order.price p)) [
      | inr off ↦
          stopped (suc f) b v fills order false is (loop-uncrossed f b fills order ne p at off)
            (uncrossed (nothing_crosses order p (best-IsBest is (opposite order.side) p at) off))
      | inl crossed ↦
          let (i, o, ys, meets, ep, positive) = front_of is order p at crossed in
          let at' = subst (λ x. best b (opposite order.side) ≡ some x) (sym ep) at in
          meets_any f b v fills order is ne o i ys meets at' (match_loop-Ran f) (enough ne) positive
    ]
  ]
]
