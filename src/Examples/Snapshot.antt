-- ===== src/Examples/Snapshot.antt =====
-- A snapshot saved beside an older one and a file of another kind.
use velocity_match.Common.{
  ◌-◌, ◌^◌, ◌≡◌, refl, inl, inr, true, pos, none, some, ok, List, [], ◌∷◌, All, arith,
}
use velocity_match.Order.{ask}
use velocity_match.Snapshot.{
  Snapshot, File, Library, compute_checksum, decimal, filename, name_ltb, save,
}
use velocity_match.Snapshot.Latest.{IsOlder, Faithful, Saved, save-Saved}

abbrev snap : Snapshot
snap = record {
  wal_record_count = 20;
  orders =
      record { id = 1; trader_id = 7; side = ask; price = pos 100; quantity = 10; timestamp = 1 }
      ∷ [];
  best_bid = none;
  best_ask = some (pos 100);
  checksum = 9;
}

-- Libraries that know this snapshot alone.
abbrev lib : Library
lib = record {
  serialize_orders = λ orders. [];
  serialize_snapshot = λ s. ok (1 ∷ 2 ∷ []);
  deserialize_snapshot = λ bytes. ok snap;
  crc32 = λ bytes. 9;
  create_dir_all = none;
  read_dir = none;
  not_found = 2;
  write_file = λ name. none;
  rename_file = λ name. none;
  read_file = λ name. none;
}

lib-Faithful : Faithful lib snap
lib-Faithful = record {
  creates = refl;
  lists = refl;
  writes = λ n. refl;
  renames = λ n. refl;
  reads = λ n. refl;
  bytes = 1 ∷ 2 ∷ [];
  serializes = refl;
  deserializes = refl;
}

abbrev dir : List File
dir =
    record { name = filename 10; content = 3 ∷ [] } ∷ record { name = b'x' ∷ []; content = [] } ∷ []

dir-AllOlder : All (IsOlder 20) dir
dir-AllOlder = (inr (10, omega arith, refl), (inl refl, tt))

its_checksum : 9 ≡ compute_checksum lib snap.orders
unfolding compute_checksum
its_checksum = refl

save-Saved_example : Saved lib snap (save lib snap dir)
save-Saved_example = save-Saved lib snap dir lib-Faithful (omega arith) its_checksum dir-AllOlder

-- From 10^10 on the order of the names is no more that of the numbers.
past_ten_digits : name_ltb (filename (10 ^ 10)) (filename (10 ^ 10 - 1)) ≡ true
unfolding filename decimal
past_ten_digits = refl
