-- ===== src/Examples/Twins.antt =====
-- Two engines alike, the restored engine, and a loop behind a snapshot, at concrete inputs.
use velocity_match.Common.{pos, ◌≡◌, refl, none, some, ok, Result, List, [], ◌∷◌, arith, subst}
use velocity_match.Common.Map.{lookup, insert}
use velocity_match.Order.{ask, Order}
use velocity_match.Arena
use velocity_match.Arena.{alloc, push_back, modify, fresh_nodes}
use velocity_match.Book
use velocity_match.Book.{
  OrderBook, insert_order, best, all_resting_orders, update_best_after_insert,
}
use velocity_match.Book.View.{View, IsBook}
use velocity_match.Book.Place.{with_order}
use velocity_match.Book.Insert.{insert-Inserted}
use velocity_match.Book.Start.{empty_view, with_capacity-IsBook}
use velocity_match.Matching.{MatchingError, AddOrderResult, MatchingEngine, restore_from_orders}
use velocity_match.Matching
use velocity_match.Matching.Twins.{face, Alike, set_queue-faces}
use velocity_match.Matching.Twins.AddOrder.{Twinned, add_order-Twinned}
use velocity_match.Matching.Twins.Cancel.{Parted, cancel_order-Parted}
use velocity_match.Matching.Restore.{AreNew, Filed, restore_from_orders-Filed}
use velocity_match.Snapshot.{Snapshot, Library, compute_checksum, capture}
use velocity_match.Recovery.Restart.{Restarted, capture-Restarted}
use velocity_match.Examples.Log.{lib}
use velocity_match.Examples.Matching.{
  sell, buy, low, book4, book_of, book_of_done, fresh1, view1, engine1, is1,
}

-- The same sell order with the timestamp that the log leaves it.
abbrev sell' : Order
sell' = record sell { timestamp = 0 }

abbrev book1' : OrderBook
book1' = book_of (insert_order book4 sell')

abbrev view1' : View
view1' = with_order (empty_view 4) sell' 0 (1 ∷ 2 ∷ 3 ∷ [])

abbrev engine1' : MatchingEngine
engine1' = record { book = book1'; fills_buf = [] }

is1' : IsBook book1' view1'
is1' =
    let r =
      insert-Inserted book4 (empty_view 4) sell' 0 (1 ∷ 2 ∷ 3 ∷ [])
        (with_capacity-IsBook 4 (omega arith)) fresh1 refl (omega arith) (omega arith) in
    subst (λ b. IsBook b view1') (book_of_done r.done) r.after

alike1 : Alike view1 view1'
alike1 = record {
  same =
      set_queue-faces (empty_view 4).queue (empty_view 4).queue ask ask (pos 100) (pos 100)
        ((0, sell) ∷ []) ((0, sell') ∷ []) (λ s p. refl) refl refl refl;
  room = refl;
}

add_order-Twinned_example :
    Twinned
      (Result MatchingError AddOrderResult)
      (Matching.add_order engine1 buy)
      (Matching.add_order engine1' (face buy))
add_order-Twinned_example =
    add_order-Twinned engine1 engine1' view1 view1' buy (face buy) is1 is1' alike1 refl
      (omega arith) (omega arith)

cancel_order-Parted_example : Parted engine1 engine1' view1 view1' 1
cancel_order-Parted_example = cancel_order-Parted engine1 engine1' view1 view1' 1 is1 is1' alike1

abbrev listed : List Order
listed = sell ∷ low ∷ []

listed-AreNew : AreNew listed
listed-AreNew = (
  omega arith,
  omega arith,
  (λ e. absurd (omega (arith, e)), tt),
  (omega arith, omega arith, tt, tt),
)

restore_from_orders-Filed_example : Filed listed 4 (restore_from_orders listed 4)
restore_from_orders-Filed_example =
    restore_from_orders-Filed listed 4 listed-AreNew (omega arith) (omega arith)

-- Libraries that know one snapshot: that of the engine with the sell order, behind one record.
abbrev snap : Snapshot
snap = record {
  wal_record_count = 1;
  orders = sell ∷ [];
  best_bid = none;
  best_ask = some (pos 100);
  checksum = 9;
}

abbrev one_lib : Library
one_lib = record lib { deserialize_snapshot = λ bytes. ok snap }

took : capture one_lib engine1 1 ≡ some snap
unfolding capture compute_checksum all_resting_orders Book.with_capacity insert_order lookup insert
    alloc push_back modify Arena.new fresh_nodes update_best_after_insert
took = refl

capture-Restarted_example : Restarted one_lib engine1 view1 1
capture-Restarted_example = capture-Restarted one_lib engine1 view1 1 is1
