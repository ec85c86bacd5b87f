-- ===== src/Examples/Matching.antt =====
-- Matching at concrete inputs: runs of whole orders, and each theorem applied to a small book.
use velocity_match.Common.{
  pos, ◌≡◌, refl, false, none, some, ok, err, Result, [], ◌∷◌, arith, subst,
}
use velocity_match.Common.Map.{id_key, price_key, lookup, insert, remove, first_key}
use velocity_match.Order.{bid, ask, Order}
use velocity_match.Arena
use velocity_match.Arena.{arena_null, alloc, dealloc, push_back, pop_front, modify, fresh_nodes}
use velocity_match.Book
use velocity_match.Book.{
  OrderBook, Reply, best, insert_order, peek_front, reduce_front_quantity, take_from_front, settle,
  update_best_after_insert, duplicate_order_id,
}
use velocity_match.Book.View.{View, IsBook}
use velocity_match.Book.Place.{with_order}
use velocity_match.Book.Insert.{insert-Inserted}
use velocity_match.Book.Start.{empty_view, with_capacity-IsBook}
use velocity_match.Matching.{
  book_error, AddOrderResult, fully_filled, MatchingEngine, match_loop, finish, add_order,
}
use velocity_match.Matching.AddOrder.{Run, Added, add_order-Added}
use velocity_match.Matching.Cancel.{Withdrawn, cancel_order-Withdrawn}
use velocity_match.Matching.Uncrossed.{IsUncrossed}
use velocity_match.Matching.Results.{
  IsAccount, add_order-IsAccount, LeavesUncrossed, add_order-LeavesUncrossed,
}

abbrev pub sell : Order
sell = record { id = 1; trader_id = 7; side = ask; price = pos 100; quantity = 10; timestamp = 1 }

abbrev pub buy : Order
buy = record { id = 2; trader_id = 8; side = bid; price = pos 101; quantity = 4; timestamp = 2 }

abbrev pub low : Order
low = record { id = 3; trader_id = 9; side = bid; price = pos 99; quantity = 5; timestamp = 3 }

abbrev pub book4 : OrderBook
book4 = Book.with_capacity 4

abbrev pub book_of : {A : Type 0} → Reply A → OrderBook
book_of none = book4
book_of (some (_, b)) = b

abbrev engine_of : Run → MatchingEngine
engine_of none = record { book = book4; fills_buf = [] }
engine_of (some (_, e)) = e

-- A book with one resting sell order, and one with a bid below it as well.
abbrev pub book1 : OrderBook
book1 = book_of (insert_order book4 sell)

abbrev book2 : OrderBook
book2 = book_of (insert_order book1 low)

abbrev pub view1 : View
view1 = with_order (empty_view 4) sell 0 (1 ∷ 2 ∷ 3 ∷ [])

abbrev pub engine1 : MatchingEngine
engine1 = record { book = book1; fills_buf = [] }

pub book_of_done :
    {A : Type 0} {r : Reply A} {x : Result Book.BookError A} {b : OrderBook}
    → r ≡ some (x, b)
    → b ≡ book_of r
book_of_done e = rw e refl

pub fresh1 : lookup 1 book4.order_index ≡ none
unfolding Book.with_capacity lookup
fresh1 = refl

fresh3 : lookup 3 book1.order_index ≡ none
unfolding Book.with_capacity insert_order lookup insert alloc push_back modify Arena.new fresh_nodes
    update_best_after_insert
fresh3 = refl

pub is1 : IsBook book1 view1
is1 =
    let r =
      insert-Inserted book4 (empty_view 4) sell 0 (1 ∷ 2 ∷ 3 ∷ [])
        (with_capacity-IsBook 4 (omega arith)) fresh1 refl (omega arith) (omega arith) in
    subst (λ b. IsBook b view1) (book_of_done r.done) r.after

pub uncrossed1 : IsUncrossed view1
uncrossed1 pb pa nb na = absurd (nb refl)

abbrev bought : AddOrderResult
bought = record {
  order_id = 2;
  status = fully_filled;
  fills =
      record {
        taker_order_id = 2;
        maker_order_id = 1;
        price = pos 100;
        quantity = 4;
        maker_fully_filled = false;
      }
      ∷ [];
}

-- The incoming order trades at the resting order's price.
buy_run : add_order engine1 buy ≡ some (ok bought, engine_of (add_order engine1 buy))
unfolding Book.with_capacity insert_order lookup insert alloc push_back modify Arena.new fresh_nodes
    update_best_after_insert match_loop finish add_order peek_front reduce_front_quantity
    take_from_front
buy_run = refl

add_order-Added_example : Added view1 buy (add_order engine1 buy)
add_order-Added_example = add_order-Added engine1 view1 buy is1 (omega arith) (omega arith)

add_order-LeavesUncrossed_example : LeavesUncrossed (add_order engine1 buy)
add_order-LeavesUncrossed_example =
    add_order-LeavesUncrossed engine1 view1 buy is1 uncrossed1 (omega arith) (omega arith)

add_order-IsAccount_example : IsAccount buy bought
add_order-IsAccount_example =
    add_order-IsAccount engine1 view1 buy bought (engine_of (add_order engine1 buy)) is1
      (omega arith) (omega arith) buy_run

bests : (best book2 bid ≡ some (pos 99)) × (best book2 ask ≡ some (pos 100))
unfolding Book.with_capacity insert_order lookup insert alloc push_back modify Arena.new fresh_nodes
    update_best_after_insert
bests = (refl, refl)

-- A crossing order with the id of another resting order.
abbrev clash : Order
clash = record { id = 3; trader_id = 8; side = bid; price = pos 101; quantity = 15; timestamp = 4 }

abbrev after_clash : Run
after_clash = add_order (record { book = book2; fills_buf = [] }) clash

-- The call is refused, and yet the sell order that it traded with has left the book.
clash_run :
    (after_clash ≡ some (err (book_error (duplicate_order_id 3)), engine_of after_clash))
    × (best (engine_of after_clash).book ask ≡ none)
unfolding Book.with_capacity insert_order lookup insert alloc push_back modify Arena.new fresh_nodes
    update_best_after_insert match_loop finish add_order peek_front reduce_front_quantity
    take_from_front settle remove dealloc pop_front first_key
clash_run = (refl, refl)

cancel_order-Withdrawn_example : Withdrawn engine1 view1 sell 0 [] []
cancel_order-Withdrawn_example =
    cancel_order-Withdrawn engine1 view1 sell 0 [] [] is1 uncrossed1 refl
