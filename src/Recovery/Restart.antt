-- ===== src/Recovery/Restart.antt =====
-- A snapshot of an engine, restored: a twin of the engine.
use velocity_match.Common.{
  ℕ, ℤ, ◌^◌, ◌≤◌, ◌<◌, ◌≡◌, refl, ◌≢◌, inl, inr, false, Option, some, ok, List, [], ◌∷◌, length,
  map, All, arith, ap, ◌∙◌, sym, suc,
}
use velocity_match.Common.Run.Panic.{◌>>=◌}
use velocity_match.Common.Map.{id_key, Map, lookup}
use velocity_match.Common.Map.Sizes.{KeysIn, length-KeysIn}
use velocity_match.Order.{Side, bid, ask, Order}
use velocity_match.Arena.Chain.{Cells, has, IsDistinct}
use velocity_match.Book.{best}
use velocity_match.Book.View.{View, In, IsBook}
use velocity_match.Book.Cells.{In-has}
use velocity_match.Book.Bound.{length-le_of_distinct}
use velocity_match.Book.Listing.{orders}
use velocity_match.Book.Catalog.{IsCatalog, all_resting_orders-IsCatalog}
use velocity_match.Book.Listing.{all_resting_orders-IsListing}
use velocity_match.Matching.{MatchingEngine, restore_from_orders}
use velocity_match.Matching.Twins.{face, faces}
use velocity_match.Matching.Twins.AddOrder.{Rests-same}
use velocity_match.Matching.Restore.{AreNew, Filed, restore_from_orders-Filed}
use velocity_match.Snapshot.{Library, Snapshot, capture, restore, compute_checksum}
use velocity_match.Recovery.Twins.{AreTwins}

length-orders : (xs : Cells) → length (orders xs) ≡ length xs
length-orders [] = refl
length-orders ((i, o) ∷ xs) = ap suc (length-orders xs)

faces_of : (xs ys : Cells) → orders xs ≡ orders ys → faces xs ≡ faces ys
faces_of xs ys e = from_orders xs ∙ ap (λ l. map face l) e ∙ sym (from_orders ys)
  where
    from_orders : (zs : Cells) → faces zs ≡ map face (orders zs)
    from_orders [] = refl
    from_orders ((i, o) ∷ zs) = ap (λ l. face o ∷ l) (from_orders zs)

-- Cells of different nodes, each of which the index leads to, hold orders of different ids.
module _ (index : Map ℕ ℕ) where
  abbrev Indexed : ℕ × Order → Type 0
  Indexed c = (0 < c.1.quantity) × (c.1.quantity < 2 ^ 64) × (lookup c.1.id index ≡ some c.0)

  other_ids :
      (i : ℕ) (o : Order) (xs : Cells)
      → lookup o.id index ≡ some i
      → has i xs ≡ false
      → ((c : ℕ × Order) → In c xs → Indexed c)
      → All (λ u. u.id ≢ o.id) (orders xs)
  other_ids i o [] at off all = tt
  other_ids i o ((j, u) ∷ xs) at off all =
      (λ e. clash e, other_ids i o xs at (ground arith) (λ c h. all c (inr h)))
    where
      same_node : ◌≡◌ {A = Option ℕ} (some i) (some j) → i ≡ j
      same_node e = cc

      clash : u.id ≡ o.id → ⊥
      clash e =
          let (_, _, found) = all (j, u) (inl refl) in
          let here : i ≡ j = same_node (sym at ∙ ap (λ n. lookup n index) (sym e) ∙ found) in
          ground arith

  orders-AreNew :
      (xs : Cells) → IsDistinct xs → ((c : ℕ × Order) → In c xs → Indexed c) → AreNew (orders xs)
  orders-AreNew [] d all = tt
  orders-AreNew ((i, o) ∷ xs) d all =
      let (positive, fits, found) = all (i, o) (inl refl) in
      (
        positive,
        fits,
        other_ids i o xs found d.0 (λ c h. all c (inr h)),
        orders-AreNew xs d.1 (λ c h. all c (inr h)),
      )

-- The ids that one index knows are known to the index of a book with the same queues.
keys-KeysIn :
    (m n : MatchingEngine) (v w : View)
    → IsBook m.book v
    → IsBook n.book w
    → ((s : Side) (p : ℤ) → faces (v.queue s p) ≡ faces (w.queue s p))
    → KeysIn m.book.order_index n.book.order_index
keys-KeysIn m n v w is is' same id i known =
    let (j, at) = Rests-same v w id same (i, is.nodes.located id i known) in
    (
      j,
      ap (λ k. lookup k n.book.order_index) (sym at.id_is)
          ∙ (is'.nodes.cells at.order.side at.order.price (j, at.order) at.within).indexed,
    )

-- The snapshot that was captured and the engine that it restores; `v` is the view of the book.
pub record Restarted (lib : Library) (engine : MatchingEngine) (v : View) (count : ℕ) : Type 0 where
  pub snap : Snapshot
  pub captured : capture lib engine count ≡ some snap
  pub numbered : snap.wal_record_count ≡ count
  pub valid : snap.checksum ≡ compute_checksum lib snap.orders
  pub engine' : MatchingEngine
  pub restored : restore snap engine.book.arena.capacity ≡ some (ok engine')
  pub same_capacity : engine'.book.arena.capacity ≡ engine.book.arena.capacity
  pub twins : AreTwins engine engine'
  pub its_view : twins.view ≡ v
  pub exact : (s : Side) (p : ℤ) → orders (twins.view.queue s p) ≡ orders (twins.view'.queue s p)

module _ (lib : Library) (engine : MatchingEngine) (v : View) (count : ℕ)
    (is : IsBook engine.book v) where
  catalog : IsCatalog engine.book v
  catalog = all_resting_orders-IsCatalog is (all_resting_orders-IsListing engine.book v is)

  abbrev all_orders : List Order
  all_orders = orders catalog.cells

  each-Indexed : (c : ℕ × Order) → In c catalog.cells → Indexed engine.book.order_index c
  each-Indexed c h =
      let (s, p, within) = catalog.stands c h in
      let k = is.nodes.cells s p c within in (k.positive, k.fits, k.indexed)

  few : length all_orders ≤ engine.book.arena.capacity
  few = omega (
    arith,
    length-orders catalog.cells,
    length-le_of_distinct engine.book.arena.capacity catalog.cells catalog.distinct λ a h.
        let (o, within) = In-has a catalog.cells h in
        let (s, p, at) = catalog.stands (a, o) within in (is.nodes.cells s p (a, o) at).below,
  )

  filed :
      Filed all_orders engine.book.arena.capacity
        (restore_from_orders all_orders engine.book.arena.capacity)
  filed =
      restore_from_orders-Filed all_orders engine.book.arena.capacity
        (orders-AreNew engine.book.order_index catalog.cells catalog.distinct each-Indexed) few
        is.nodes.pool.capacity

  same_queues : (s : Side) (p : ℤ) → faces (v.queue s p) ≡ faces (filed.view.queue s p)
  same_queues s p =
      faces_of (v.queue s p) (filed.view.queue s p)
        (sym (catalog.queues s p) ∙ sym (filed.queues s p))

  same_room : length v.free ≡ length filed.view.free
  same_room = omega (
    arith,
    is.nodes.pool.count,
    filed.is.nodes.pool.count,
    filed.arena,
    is.nodes.counted,
    filed.is.nodes.counted,
    length-KeysIn engine.book.order_index filed.engine.book.order_index is.nodes.index_sorted
        filed.is.nodes.index_sorted
        (keys-KeysIn engine filed.engine v filed.view is filed.is same_queues),
    length-KeysIn filed.engine.book.order_index engine.book.order_index filed.is.nodes.index_sorted
        is.nodes.index_sorted
        (keys-KeysIn filed.engine engine filed.view v filed.is is (λ s p. sym (same_queues s p))),
  )

  -- A snapshot of any engine whose book stands for a view can be captured, has the right checksum,
  -- and is restored, in an arena of the same capacity, to an engine with the same orders in the
  -- same queues, timestamps included, and as many free nodes.
  pub capture-Restarted : Restarted lib engine v count
  unfolding capture restore
  capture-Restarted = record {
    snap = record {
      wal_record_count = count;
      orders = all_orders;
      best_bid = best engine.book bid;
      best_ask = best engine.book ask;
      checksum = compute_checksum lib all_orders;
    };
    captured = rw (capture, catalog.done, ◌>>=◌) refl;
    numbered = refl;
    valid = refl;
    engine' = filed.engine;
    restored = rw (restore, filed.done, ◌>>=◌) refl;
    same_capacity = filed.arena;
    twins = record {
      view = v;
      view' = filed.view;
      book = is;
      book' = filed.is;
      alike = record { same = same_queues; room = same_room };
    };
    its_view = refl;
    exact = λ s p. sym (catalog.queues s p) ∙ sym (filed.queues s p);
  }
