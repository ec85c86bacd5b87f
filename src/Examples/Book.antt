-- ===== src/Examples/Book.antt =====
-- The arena and the book at concrete inputs: runs, and each theorem applied to a small book.
use velocity_match.Common.{pos, ◌≡◌, refl, none, [], ◌∷◌, arith}
use velocity_match.Common.Map.{id_key, price_key, lookup}
use velocity_match.Order.{ask, Order}
use velocity_match.Book
use velocity_match.Book.{
  OrderBook, insert_order, cancel_order, reduce_front_quantity, fill_exceeds_quantity,
}
use velocity_match.Book.View.{View, IsBook}
use velocity_match.Book.Place.{with_order}
use velocity_match.Book.Insert.{Inserted, insert-Inserted}
use velocity_match.Book.Cancel.{Cancelled, cancel-Cancelled}
use velocity_match.Book.Reduce.{Gone, reduce-Gone}
use velocity_match.Book.Listing.{IsListing, all_resting_orders-IsListing}
use velocity_match.Book.Start.{empty_view, with_capacity-IsBook}

abbrev sell : Order
sell = record { id = 1; trader_id = 7; side = ask; price = pos 100; quantity = 10; timestamp = 1 }

abbrev later : Order
later = record { id = 2; trader_id = 8; side = ask; price = pos 100; quantity = 5; timestamp = 2 }

abbrev book4 : OrderBook
book4 = Book.with_capacity 4

is4 : IsBook book4 (empty_view 4)
is4 = with_capacity-IsBook 4 (omega arith)

fresh1 : lookup 1 book4.order_index ≡ none
unfolding Book.with_capacity lookup
fresh1 = refl

placed1 :
    Inserted book4
      (empty_view 4)
      sell
      0
      (1 ∷ 2 ∷ 3 ∷ [])
      is4
      fresh1
      refl
      (omega arith)
      (omega arith)
placed1 =
    insert-Inserted book4 (empty_view 4) sell 0 (1 ∷ 2 ∷ 3 ∷ []) is4 fresh1 refl (omega arith)
      (omega arith)

abbrev view1 : View
view1 = with_order (empty_view 4) sell 0 (1 ∷ 2 ∷ 3 ∷ [])

insert-Inserted_example :
    Inserted book4
      (empty_view 4)
      sell
      0
      (1 ∷ 2 ∷ 3 ∷ [])
      is4
      fresh1
      refl
      (omega arith)
      (omega arith)
insert-Inserted_example =
    insert-Inserted book4 (empty_view 4) sell 0 (1 ∷ 2 ∷ 3 ∷ []) is4 fresh1 refl (omega arith)
      (omega arith)

whole1 : view1.queue ask (pos 100) ≡ (0, sell) ∷ []
whole1 = refl

cancel-Cancelled_example : Cancelled placed1.after sell 0 [] [] whole1
cancel-Cancelled_example = cancel-Cancelled placed1.after sell 0 [] [] whole1

reduce-Gone_example : Gone placed1.after sell 0 [] whole1 10 (omega arith)
reduce-Gone_example = reduce-Gone placed1.after sell 0 [] whole1 10 (omega arith) refl

all_resting_orders-IsListing_example : IsListing placed1.book view1
all_resting_orders-IsListing_example = all_resting_orders-IsListing placed1.book view1 placed1.after
