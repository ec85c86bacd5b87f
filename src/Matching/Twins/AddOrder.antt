-- ===== src/Matching/Twins/AddOrder.antt =====
-- `add_order` on two engines whose books are alike.
use velocity_match.Common.{
  ℕ, ℤ, ◌^◌, ◌<◌, ◌≡◌, refl, ◌≢◌, inl, Bool, true, false, Option, some, Result, ok, err, List, [],
  ◌∷◌, ◌++◌, length, arith, ap, ap₂, ◌∙◌, sym, subst,
}
use velocity_match.Order.{Side, Order}
use velocity_match.Book.{duplicate_order_id, arena_full}
use velocity_match.Book.View.{View, In, IsBook}
use velocity_match.Book.Cells.{In-right, In-Split}
use velocity_match.Book.Place.{with_order}
use velocity_match.Matching.{
  Fill, fully_filled, cancelled_self_trade, AddOrderResult, MatchingError, book_error,
  MatchingEngine, add_order, result_of, rest_status,
}
use velocity_match.Matching.AddOrder.{
  Run, Rests, Ends, cancelled, done, rested, duplicate, no_room, add_order-Added,
}
use velocity_match.Matching.Twins.{
  face, faces, Alike, faces-append, set_queue-faces, faces-Counterpart,
}
use velocity_match.Matching.Twins.Trades.{SameEnd, Trades-SameEnd, Alike-sym}

-- An order that rests in a book rests in an alike one.
pub Rests-same :
    (v w : View) (id : ℕ)
    → ((s : Side) (p : ℤ) → faces (v.queue s p) ≡ faces (w.queue s p))
    → Rests v id
    → Rests w id
Rests-same v w id same (i, at) =
    let s = In-Split (i, at.order) _ at.within in
    let c =
      faces-Counterpart i at.order s.before s.after (w.queue at.order.side at.order.price)
        (ap faces (sym s.whole) ∙ same at.order.side at.order.price) in
    (
      c.node,
      record {
        order = c.order;
        id_is = ap (λ (x : Order). x.id) (sym c.face_is) ∙ at.id_is;
        within =
            subst (In (c.node, c.order)) (ap (λ (x : Order). w.queue x.side x.price) c.face_is) (
              subst (In (c.node, c.order)) (sym c.whole)
                (In-right (c.node, c.order) c.before _ (inl refl)));
      },
    )

pub Rests-Alike : (v w : View) (id : ℕ) → Alike v w → Rests v id → Rests w id
Rests-Alike v w id a = Rests-same v w id a.same

with_order-Alike :
    (v w : View) (o u : Order) (i j : ℕ) (free free' : List ℕ)
    → Alike v w
    → face o ≡ face u
    → v.free ≡ i ∷ free
    → w.free ≡ j ∷ free'
    → Alike (with_order v o i free) (with_order w u j free')
with_order-Alike v w o u i j free free' a e f g = record {
  same = set_queue-faces v.queue w.queue o.side u.side o.price u.price _ _ a.same side_is price_is (
      faces-append (v.queue o.side o.price) ((i, o) ∷ [])
      ∙ ap₂ (λ l x. l ++ (x ∷ []))
          (a.same o.side o.price ∙ ap₂ (λ s p. faces (w.queue s p)) side_is price_is) e
      ∙ sym (faces-append (w.queue u.side u.price) ((j, u) ∷ [])));
  room = omega (arith, a.room, ap length f, ap length g);
}
  where
    side_is : o.side ≡ u.side
    side_is = ap (λ (x : Order). x.side) e

    price_is : o.price ≡ u.price
    price_is = ap (λ (x : Order). x.price) e

-- The two calls return the same answer, and leave alike books.
pub record Twinned (A : Type 0) (run run' : Option (A × MatchingEngine)) : Type 0 where
  pub answer : A
  pub engine : MatchingEngine
  pub engine' : MatchingEngine
  pub view : View
  pub view' : View
  pub returned : run ≡ some (answer, engine)
  pub returned' : run' ≡ some (answer, engine')
  pub book : IsBook engine.book view
  pub book' : IsBook engine'.book view'
  pub alike : Alike view view'

false_flag : true ≡ false → ⊥
false_flag e = cc

module _ (order order' left left' : Order) (flag flag' : Bool) (fills fills' : List Fill)
    (v w : View) (run run' : Run) (e : face order ≡ face order')
    (s : SameEnd fills fills' v w left left' flag flag') where
  id_is : order.id ≡ order'.id
  id_is = ap (λ (x : Order). x.id) e

  quantity_is : left.quantity ≡ left'.quantity
  quantity_is = ap (λ (x : Order). x.quantity) s.left_same

  apart_flags : flag ≡ true → flag' ≡ false → ⊥
  apart_flags f g = false_flag (sym f ∙ s.flag_same ∙ g)

  flags_apart : flag ≡ false → flag' ≡ true → ⊥
  flags_apart f g = false_flag (sym g ∙ sym s.flag_same ∙ f)

  left_apart : left.quantity ≡ 0 → left'.quantity ≢ 0 → ⊥
  left_apart z n = n (sym quantity_is ∙ z)

  apart_left : left.quantity ≢ 0 → left'.quantity ≡ 0 → ⊥
  apart_left n z = n (quantity_is ∙ z)

  new_apart : (Rests v order.id → ⊥) → Rests w order'.id → ⊥
  new_apart new old =
      new (Rests-Alike w v order.id (Alike-sym s.alike) (subst (Rests w) (sym id_is) old))

  apart_new : Rests v order.id → (Rests w order'.id → ⊥) → ⊥
  apart_new old new = new (subst (Rests w) id_is (Rests-Alike v w order.id s.alike old))

  room_apart : (i : ℕ) (free : List ℕ) → v.free ≡ i ∷ free → w.free ≡ [] → ⊥
  room_apart i free f g = omega (arith, s.alike.room, ap length f, ap length g)

  apart_room : (i : ℕ) (free : List ℕ) → v.free ≡ [] → w.free ≡ i ∷ free → ⊥
  apart_room i free f g = omega (arith, s.alike.room, ap length f, ap length g)

  pub Ends-Twinned :
      Ends order left flag fills v run
      → Ends order' left' flag' fills' w run'
      → Twinned (Result MatchingError AddOrderResult) run run'
  Ends-Twinned (cancelled b f is d) (cancelled b' f' is' d') = record {
    answer = ok (result_of order.id cancelled_self_trade fills);
    engine = b;
    engine' = b';
    view = v;
    view' = w;
    returned = d;
    returned' =
        d'
        ∙ ap₂ (λ n l. some (ok (result_of n cancelled_self_trade l), b')) (sym id_is)
            (sym s.fills_same);
    book = is;
    book' = is';
    alike = s.alike;
  }
  Ends-Twinned (cancelled b f is d) (done b' f' z' is' d') = absurd (apart_flags f f')
  Ends-Twinned (cancelled b f is d) (rested b' i' free' f' ne' new' fr' is' d') =
      absurd (apart_flags f f')
  Ends-Twinned (cancelled b f is d) (duplicate b' f' ne' old' is' d') = absurd (apart_flags f f')
  Ends-Twinned (cancelled b f is d) (no_room b' f' ne' new' fr' is' d') = absurd (apart_flags f f')
  Ends-Twinned (done b f z is d) (cancelled b' f' is' d') = absurd (flags_apart f f')
  Ends-Twinned (done b f z is d) (done b' f' z' is' d') = record {
    answer = ok (result_of order.id fully_filled fills);
    engine = b;
    engine' = b';
    view = v;
    view' = w;
    returned = d;
    returned' =
        d' ∙ ap₂ (λ n l. some (ok (result_of n fully_filled l), b')) (sym id_is) (sym s.fills_same);
    book = is;
    book' = is';
    alike = s.alike;
  }
  Ends-Twinned (done b f z is d) (rested b' i' free' f' ne' new' fr' is' d') =
      absurd (left_apart z ne')
  Ends-Twinned (done b f z is d) (duplicate b' f' ne' old' is' d') = absurd (left_apart z ne')
  Ends-Twinned (done b f z is d) (no_room b' f' ne' new' fr' is' d') = absurd (left_apart z ne')
  Ends-Twinned (rested b i free f ne new fr is d) (cancelled b' f' is' d') =
      absurd (flags_apart f f')
  Ends-Twinned (rested b i free f ne new fr is d) (done b' f' z' is' d') = absurd (apart_left ne z')
  Ends-Twinned (rested b i free f ne new fr is d) (rested b' i' free' f' ne' new' fr' is' d') =
      record {
        answer = ok (result_of order.id (rest_status fills) fills);
        engine = b;
        engine' = b';
        view = with_order v left i free;
        view' = with_order w left' i' free';
        returned = d;
        returned' =
            d'
            ∙ ap₂ (λ n l. some (ok (result_of n (rest_status l) l), b')) (sym id_is)
                (sym s.fills_same);
        book = is;
        book' = is';
        alike = with_order-Alike v w left left' i i' free free' s.alike s.left_same fr fr';
      }
  Ends-Twinned (rested b i free f ne new fr is d) (duplicate b' f' ne' old' is' d') =
      absurd (new_apart new old')
  Ends-Twinned (rested b i free f ne new fr is d) (no_room b' f' ne' new' fr' is' d') =
      absurd (room_apart i free fr fr')
  Ends-Twinned (duplicate b f ne old is d) (cancelled b' f' is' d') = absurd (flags_apart f f')
  Ends-Twinned (duplicate b f ne old is d) (done b' f' z' is' d') = absurd (apart_left ne z')
  Ends-Twinned (duplicate b f ne old is d) (rested b' i' free' f' ne' new' fr' is' d') =
      absurd (apart_new old new')
  Ends-Twinned (duplicate b f ne old is d) (duplicate b' f' ne' old' is' d') = record {
    answer = err (book_error (duplicate_order_id order.id));
    engine = b;
    engine' = b';
    view = v;
    view' = w;
    returned = d;
    returned' = d' ∙ ap (λ n. some (err (book_error (duplicate_order_id n)), b')) (sym id_is);
    book = is;
    book' = is';
    alike = s.alike;
  }
  Ends-Twinned (duplicate b f ne old is d) (no_room b' f' ne' new' fr' is' d') =
      absurd (apart_new old new')
  Ends-Twinned (no_room b f ne new fr is d) (cancelled b' f' is' d') = absurd (flags_apart f f')
  Ends-Twinned (no_room b f ne new fr is d) (done b' f' z' is' d') = absurd (apart_left ne z')
  Ends-Twinned (no_room b f ne new fr is d) (rested b' i' free' f' ne' new' fr' is' d') =
      absurd (apart_room i' free' fr fr')
  Ends-Twinned (no_room b f ne new fr is d) (duplicate b' f' ne' old' is' d') =
      absurd (new_apart new old')
  Ends-Twinned (no_room b f ne new fr is d) (no_room b' f' ne' new' fr' is' d') = record {
    answer = err (book_error arena_full);
    engine = b;
    engine' = b';
    view = v;
    view' = w;
    returned = d;
    returned' = d';
    book = is;
    book' = is';
    alike = s.alike;
  }

-- On two books that are alike, orders that look the same, of a positive 64-bit quantity, get the
-- same answer from `add_order`, fills and errors included, and the books that this leaves are alike.
pub add_order-Twinned :
    (engine engine' : MatchingEngine) (v w : View) (order order' : Order)
    → IsBook engine.book v
    → IsBook engine'.book w
    → Alike v w
    → face order ≡ face order'
    → 0 < order.quantity
    → order.quantity < 2 ^ 64
    → Twinned
        (Result MatchingError AddOrderResult)
        (add_order engine order)
        (add_order engine' order')
add_order-Twinned engine engine' v w order order' is is' alike e positive fits =
    let same = ap (λ (x : Order). x.quantity) e in
    let a = add_order-Added engine v order is positive fits in
    let b =
      add_order-Added engine' w order' is' (omega (arith, same, positive))
        (omega (arith, same, fits)) in
    Ends-Twinned order order' a.left b.left a.flag b.flag a.fills b.fills a.view b.view
      (add_order engine order) (add_order engine' order') e
      (Trades-SameEnd alike e a.trades b.trades) a.ends b.ends
