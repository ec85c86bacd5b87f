-- ===== src/Examples/Coder.antt =====
-- A coder of snapshots that reads back whatever it wrote, for the libraries of a run.
use velocity_match.Common.{
  ℕ, zero, suc, ℤ, pos, negsuc, ◌≡◌, refl, Option, none, some, Result, ok, err, List, [], ◌∷◌, ap,
  ap₂, ◌∙◌,
}
use velocity_match.Order.{Side, bid, ask, Order}
use velocity_match.Snapshot.{Bytes, Snapshot, Library}
use velocity_match.Snapshot.Latest.{Faithful}

abbrev side_code : Side → ℕ
side_code bid = 0
side_code ask = 1

abbrev side_of : ℕ → Side
side_of zero = bid
side_of (suc n) = ask

abbrev sign : ℤ → ℕ
sign (pos n) = 0
sign (negsuc n) = 1

abbrev size : ℤ → ℕ
size (pos n) = n
size (negsuc n) = n

abbrev price_of : (sign size : ℕ) → ℤ
price_of zero n = pos n
price_of (suc s) n = negsuc n

abbrev encode_orders : List Order → Bytes
encode_orders [] = []
encode_orders (o ∷ os) =
    o.id
    ∷ o.trader_id
    ∷ side_code o.side
    ∷ sign o.price
    ∷ size o.price
    ∷ o.quantity
    ∷ o.timestamp
    ∷ encode_orders os

abbrev decode_orders : Bytes → List Order
decode_orders [] = []
decode_orders (a ∷ []) = []
decode_orders (a ∷ b ∷ []) = []
decode_orders (a ∷ b ∷ c ∷ []) = []
decode_orders (a ∷ b ∷ c ∷ d ∷ []) = []
decode_orders (a ∷ b ∷ c ∷ d ∷ e ∷ []) = []
decode_orders (a ∷ b ∷ c ∷ d ∷ e ∷ f ∷ []) = []
decode_orders (a ∷ b ∷ c ∷ d ∷ e ∷ f ∷ g ∷ rest) =
    record {
      id = a;
      trader_id = b;
      side = side_of c;
      price = price_of d e;
      quantity = f;
      timestamp = g;
    }
    ∷ decode_orders rest

side_back : (s : Side) → side_of (side_code s) ≡ s
side_back bid = refl
side_back ask = refl

price_back : (p : ℤ) → price_of (sign p) (size p) ≡ p
price_back (pos n) = refl
price_back (negsuc n) = refl

orders_back : (os : List Order) → decode_orders (encode_orders os) ≡ os
orders_back [] = refl
orders_back (o ∷ os) =
    ap₂ (λ s p. record o { side = s; price = p } ∷ decode_orders (encode_orders os))
      (side_back o.side) (price_back o.price)
    ∙ ap (λ l. o ∷ l) (orders_back os)

abbrev flag : Option ℤ → ℕ
flag none = 0
flag (some p) = 1

abbrev sign_of : Option ℤ → ℕ
sign_of none = 0
sign_of (some p) = sign p

abbrev size_of : Option ℤ → ℕ
size_of none = 0
size_of (some p) = size p

abbrev best_of : (flag sign size : ℕ) → Option ℤ
best_of zero s n = none
best_of (suc f) s n = some (price_of s n)

best_back : (b : Option ℤ) → best_of (flag b) (sign_of b) (size_of b) ≡ b
best_back none = refl
best_back (some p) = ap some (price_back p)

abbrev encode : Snapshot → Bytes
encode s =
    s.wal_record_count
    ∷ s.checksum
    ∷ flag s.best_bid
    ∷ sign_of s.best_bid
    ∷ size_of s.best_bid
    ∷ flag s.best_ask
    ∷ sign_of s.best_ask
    ∷ size_of s.best_ask
    ∷ encode_orders s.orders

abbrev decode : Bytes → Result ℕ Snapshot
decode (n ∷ c ∷ bf ∷ bs ∷ bn ∷ af ∷ as' ∷ an ∷ os) = ok (record {
  wal_record_count = n;
  orders = decode_orders os;
  best_bid = best_of bf bs bn;
  best_ask = best_of af as' an;
  checksum = c;
})
decode _ = err 1

-- Libraries that fail no call.
abbrev pub coder : Library
coder = record {
  serialize_orders = encode_orders;
  serialize_snapshot = λ s. ok (encode s);
  deserialize_snapshot = decode;
  crc32 = λ bytes. 9;
  create_dir_all = none;
  read_dir = none;
  not_found = 2;
  write_file = λ name. none;
  rename_file = λ name. none;
  read_file = λ name. none;
}

pub coder-Faithful : (snap : Snapshot) → Faithful coder snap
coder-Faithful snap = record {
  creates = refl;
  lists = refl;
  writes = λ n. refl;
  renames = λ n. refl;
  reads = λ n. refl;
  bytes = encode snap;
  serializes = refl;
  deserializes =
      ap
        (λ os. ok (record {
          wal_record_count = snap.wal_record_count;
          orders = os;
          best_bid = best_of (flag snap.best_bid) (sign_of snap.best_bid) (size_of snap.best_bid);
          best_ask = best_of (flag snap.best_ask) (sign_of snap.best_ask) (size_of snap.best_ask);
          checksum = snap.checksum;
        }))
        (orders_back snap.orders)
      ∙ ap₂ (λ b a. ok (record snap { best_bid = b; best_ask = a })) (best_back snap.best_bid)
          (best_back snap.best_ask);
}
