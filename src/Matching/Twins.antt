-- ===== src/Matching/Twins.antt =====
-- Two books with the same orders in the same queues, whatever the nodes they stand in and the
-- timestamps of the orders: what a log can bring back.
pub mod Trades
pub mod AddOrder
pub mod Cancel
use velocity_match.Common.{
  ℕ, ℤ, ◌≡◌, refl, ◌≢◌, inl, inr, true, false, Bool-cases, List, [], ◌∷◌, ◌++◌, length, ap, ap₂,
  ◌∙◌, sym, if◌then◌else◌,
}
use velocity_match.Order.{Side, Order}
use velocity_match.Arena.Chain.{Cells}
use velocity_match.Book.View.{View, Queues, set_queue, same_place}

-- What of an order the wire format keeps.
abbrev pub face : Order → Order
face o = record o { timestamp = 0 }

abbrev pub faces : Cells → List Order
faces [] = []
faces ((_, o) ∷ xs) = face o ∷ faces xs

-- The queues hold the same orders, and as many nodes are free.
pub record Alike (v w : View) : Type 0 where
  pub same : (s : Side) (p : ℤ) → faces (v.queue s p) ≡ faces (w.queue s p)
  pub room : length v.free ≡ length w.free

pub faces-append : (xs ys : Cells) → faces (xs ++ ys) ≡ faces xs ++ faces ys
faces-append [] ys = refl
faces-append ((i, o) ∷ xs) ys = ap (λ l. face o ∷ l) (faces-append xs ys)

pub faces_nil : (xs ys : Cells) → faces xs ≡ faces ys → xs ≡ [] → ys ≡ []
faces_nil xs [] e h = refl
faces_nil [] (y ∷ ys) e h = cc
faces_nil (x ∷ xs) (y ∷ ys) e h = cc

pub faces_ne : (xs ys : Cells) → faces xs ≡ faces ys → xs ≢ [] → ys ≢ []
faces_ne xs ys e h k = h (faces_nil ys xs (sym e) k)

pub faces_rest :
    (i j : ℕ) (o u : Order) (xs ys : Cells)
    → faces ((i, o) ∷ xs) ≡ faces ((j, u) ∷ ys)
    → faces xs ≡ faces ys
faces_rest i j o u xs ys e = cc

pub faces_front :
    (i j : ℕ) (o u : Order) (xs ys : Cells)
    → faces ((i, o) ∷ xs) ≡ faces ((j, u) ∷ ys)
    → face o ≡ face u
faces_front i j o u xs ys e = cc

-- The queues stay the same when one of them is replaced by the same orders.
pub set_queue-faces :
    (q r : Queues) (side side' : Side) (price price' : ℤ) (xs ys : Cells)
    → ((s : Side) (p : ℤ) → faces (q s p) ≡ faces (r s p))
    → side ≡ side'
    → price ≡ price'
    → faces xs ≡ faces ys
    → (s : Side) (p : ℤ)
    → faces (set_queue q side price xs s p) ≡ faces (set_queue r side' price' ys s p)
set_queue-faces q r side side' price price' xs ys same es ep e s p =
    here ∙ ap₂ (λ a b. faces (set_queue r a b ys s p)) es ep
  where
    here : faces (set_queue q side price xs s p) ≡ faces (set_queue r side price ys s p)
    here = elim (Bool-cases (same_place s p side price)) [
      | inl at ↦ rw at e
      | inr off ↦ rw off (same s p)
    ]

-- A queue that looks like one with an order in it holds that order.
pub record Counterpart (o : Order) (xs ys l : Cells) : Type 0 where
  pub node : ℕ
  pub order : Order
  pub before : Cells
  pub after : Cells
  pub whole : l ≡ before ++ ((node, order) ∷ after)
  pub face_is : face o ≡ face order
  pub before_is : faces xs ≡ faces before
  pub after_is : faces ys ≡ faces after

pub faces-Counterpart :
    (i : ℕ) (o : Order) (xs ys l : Cells)
    → faces (xs ++ ((i, o) ∷ ys)) ≡ faces l
    → Counterpart o xs ys l
faces-Counterpart i o [] ys [] e =
    absurd (let bad : ◌≡◌ {A = List Order} (face o ∷ faces ys) [] = e in cc)
faces-Counterpart i o [] ys ((j, u) ∷ l) e = record {
  node = j;
  order = u;
  before = [];
  after = l;
  whole = refl;
  face_is = faces_front i j o u ys l e;
  before_is = refl;
  after_is = faces_rest i j o u ys l e;
}
faces-Counterpart i o ((k, x) ∷ xs) ys [] e =
    absurd (let bad : ◌≡◌ {A = List Order} (face x ∷ faces (xs ++ ((i, o) ∷ ys))) [] = e in cc)
faces-Counterpart i o ((k, x) ∷ xs) ys ((j, u) ∷ l) e =
    let r = faces-Counterpart i o xs ys l (faces_rest k j x u (xs ++ ((i, o) ∷ ys)) l e) in
    record {
      node = r.node;
      order = r.order;
      before = (j, u) ∷ r.before;
      after = r.after;
      whole = ap (λ m. (j, u) ∷ m) r.whole;
      face_is = r.face_is;
      before_is = ap₂ (λ a b. a ∷ b) (faces_front k j x u (xs ++ ((i, o) ∷ ys)) l e) r.before_is;
      after_is = r.after_is;
    }
