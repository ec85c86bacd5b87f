-- ===== src/Matching/Round.antt =====
-- One round of the matching loop, by what it finds.
use velocity_match.Common.{
  ℕ, ℤ, suc, ◌-◌, ◌≡◌, refl, ◌≢◌, true, false, none, some, List, [], ◌∷◌, ◌++◌, ==_iff, ==_ne, ok,
  min,
}
use velocity_match.Common.Map.{id_key, price_key}
use velocity_match.Common.Run.Panic.{◌>>=◌}
use velocity_match.Order.{Order}
use velocity_match.Arena.{OrderNode}
use velocity_match.Book.{OrderBook, best, peek_front, reduce_front_quantity}
use velocity_match.Matching.{Fill, opposite, crosses, fill_of, match_loop}

module _ (f : ℕ) (b : OrderBook) (fills : List Fill) (order : Order) where
  pub loop-exhausted :
      order.quantity ≡ 0 → match_loop (suc f) b fills order ≡ some (ok (order, false), b, fills)
  unfolding match_loop
  loop-exhausted h = rw (match_loop, (==_iff order.quantity 0).1 h) refl

  module _ (ne : order.quantity ≢ 0) where
    pub loop-none :
        best b (opposite order.side) ≡ none
        → match_loop (suc f) b fills order ≡ some (ok (order, false), b, fills)
    unfolding match_loop
    loop-none h = rw (match_loop, ==_ne order.quantity 0 ne) (rw (h) refl)

    module _ (p : ℤ) (at : best b (opposite order.side) ≡ some p) where
      pub loop-uncrossed :
          crosses order.side order.price p ≡ false
          → match_loop (suc f) b fills order ≡ some (ok (order, false), b, fills)
      unfolding match_loop
      loop-uncrossed h = rw (match_loop, ==_ne order.quantity 0 ne) (rw (at) (rw (h) refl))

      module _ (crossed : crosses order.side order.price p ≡ true) (m : OrderNode)
          (front : peek_front b (opposite order.side) p ≡ some (some m)) where
        pub loop-self_trade :
            m.trader_id ≡ order.trader_id
            → match_loop (suc f) b fills order ≡ some (ok (order, true), b, fills)
        unfolding match_loop
        loop-self_trade h =
            rw (match_loop, ==_ne order.quantity 0 ne)
              (rw (at) (
                rw (crossed)
                  (rw (front) (rw ((==_iff m.trader_id order.trader_id).1 h, ◌>>=◌) refl))))

        pub loop-trade :
            (r : ℕ) (b₁ : OrderBook)
            → m.trader_id ≢ order.trader_id
            → reduce_front_quantity b (opposite order.side) p (min order.quantity m.quantity)
              ≡ some (ok r, b₁)
            → match_loop (suc f) b fills order
              ≡ match_loop f b₁
                  (fills ++ (fill_of order m (min order.quantity m.quantity) r ∷ []))
                  (record order { quantity = order.quantity - min order.quantity m.quantity })
        unfolding match_loop
        loop-trade r b₁ other h =
            rw (match_loop, ==_ne order.quantity 0 ne)
              (rw (at) (
                rw (crossed)
                  (rw (front) (rw (==_ne m.trader_id order.trader_id other, ◌>>=◌) (rw (h) refl)))))
