-- ===== src/Book/Catalog.antt =====
-- The cells behind the list that `all_resting_orders` gives: each resting order is in it once.
use velocity_match.Common.{
  ℕ, ℤ, ◌≡◌, refl, ◌≢◌, ◌⊎◌, inl, inr, some, List, [], ◌∷◌, ◌++◌, ap, ap₂, ◌∙◌, sym, append-nil,
}
use velocity_match.Common.Map.{id_key}
use velocity_match.Order.{Side, bid, ask, Order}
use velocity_match.Arena.Chain.{Cells, IsDistinct}
use velocity_match.Book.{OrderBook, all_resting_orders}
use velocity_match.Book.View.{View, In, IsBook}
use velocity_match.Book.Cells.{In-append, has-In, In-has}
use velocity_match.Book.Listing.{orders, Among, IsListing}
use velocity_match.Book.Placed.{
  cells_of, cells_rev, orders-append, orders-cells_of, orders-cells_rev, placed, placed-append,
  In-cells_of, In-cells_rev,
}
use velocity_match.Book.Pieces.{
  IsDistinct-join, off_by, no_shared, cells_of-IsDistinct, cells_rev-IsDistinct, placed_off,
  elsewhere, placed-cells_of, placed-cells_rev, Among-cases,
}

-- The list that `all_resting_orders` gives, by the cells behind it: each resting order once, and
-- those of one side and price in the order of their queue.
pub record IsCatalog (b : OrderBook) (v : View) : Type 0 where
  pub cells : Cells
  pub done : all_resting_orders b ≡ some (orders cells)
  pub distinct : IsDistinct cells
  pub stands : (c : ℕ × Order) → In c cells → (s : Side) × (p : ℤ) × In c (v.queue s p)
  pub queues : (s : Side) (p : ℤ) → placed s p (orders cells) ≡ orders (v.queue s p)

module _ {b : OrderBook} {v : View} (is : IsBook b v) (l : IsListing b v) where
  abbrev ask_cells : Cells
  ask_cells = cells_of (v.queue ask) l.asks

  abbrev bid_cells : Cells
  bid_cells = cells_rev (v.queue bid) l.bids

  nil_or : (xs : Cells) → (xs ≡ []) ⊎ (xs ≢ [])
  nil_or [] = inl refl
  nil_or (x ∷ xs) = inr λ e. cc

  empty_at :
      (s : Side) (p : ℤ) (ps : List ℤ)
      → (v.queue s p ≢ [] → Among p ps)
      → (Among p ps → ⊥)
      → orders (v.queue s p) ≡ []
  empty_at s p ps every h = elim (nil_or (v.queue s p)) [
    | inl e ↦ ap orders e
    | inr ne ↦ absurd (h (every ne))
  ]

  ask_part : (p : ℤ) → placed ask p (orders ask_cells) ≡ orders (v.queue ask p)
  ask_part p = elim (Among-cases is p l.asks) [
    | inl m ↦ placed-cells_of is ask p l.asks l.asks_ascending m
    | inr h ↦
        placed_off is ask ask p l.asks ask_cells (In-cells_of (v.queue ask) l.asks)
          (elsewhere is ask p l.asks h)
        ∙ sym (empty_at ask p l.asks (l.every_ask p) h)
  ]

  bid_part : (p : ℤ) → placed bid p (orders bid_cells) ≡ orders (v.queue bid p)
  bid_part p = elim (Among-cases is p l.bids) [
    | inl m ↦ placed-cells_rev is bid p l.bids l.bids_ascending m
    | inr h ↦
        placed_off is bid bid p l.bids bid_cells (In-cells_rev (v.queue bid) l.bids)
          (elsewhere is bid p l.bids h)
        ∙ sym (empty_at bid p l.bids (l.every_bid p) h)
  ]

  parts :
      (s : Side) (p : ℤ)
      → placed s p (orders (ask_cells ++ bid_cells))
        ≡ placed s p (orders ask_cells) ++ placed s p (orders bid_cells)
  parts s p =
      ap (λ os. placed s p os) (orders-append ask_cells bid_cells)
      ∙ placed-append s p (orders ask_cells) (orders bid_cells)

  by_side : (s : Side) (p : ℤ) → placed s p (orders (ask_cells ++ bid_cells)) ≡ orders (v.queue s p)
  by_side ask p =
      parts ask p
      ∙ ap₂ (λ x y. x ++ y) (ask_part p)
          (placed_off is ask bid p l.bids bid_cells (In-cells_rev (v.queue bid) l.bids)
            (λ r m. refl))
      ∙ append-nil (orders (v.queue ask p))
  by_side bid p =
      parts bid p
      ∙ ap₂ (λ x y. x ++ y)
          (placed_off is bid ask p l.asks ask_cells (In-cells_of (v.queue ask) l.asks)
            (λ r m. refl))
          (bid_part p)

  pub all_resting_orders-IsCatalog : IsCatalog b v
  all_resting_orders-IsCatalog = record {
    cells = ask_cells ++ bid_cells;
    done =
        l.done
        ∙ ap some (
            ap₂ (λ x y. x ++ y) (sym (orders-cells_of (v.queue ask) l.asks))
              (sym (orders-cells_rev (v.queue bid) l.bids))
            ∙ sym (orders-append ask_cells bid_cells));
    distinct =
        IsDistinct-join ask_cells bid_cells (cells_of-IsDistinct is ask l.asks l.asks_ascending)
          (cells_rev-IsDistinct is bid l.bids l.bids_ascending)
          λ a h. off_by _ λ k.
            let (o, within) = In-has a ask_cells h in
            let (u, within') = In-has a bid_cells k in
            let st = In-cells_of (v.queue ask) l.asks (a, o) within in
            no_shared is ask bid st.price l.bids a u (λ r m. refl) (has-In (a, o) _ st.within)
              (In-cells_rev (v.queue bid) l.bids (a, u) within');
    stands = λ c h. elim (In-append c ask_cells bid_cells h) [
      | inl at_ask ↦
          (let st = In-cells_of (v.queue ask) l.asks c at_ask in (ask, st.price, st.within))
      | inr at_bid ↦
          (let st = In-cells_rev (v.queue bid) l.bids c at_bid in (bid, st.price, st.within))
    ];
    queues = by_side;
  }
