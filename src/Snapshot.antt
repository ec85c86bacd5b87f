-- ===== src/Snapshot.antt =====
-- src/snapshot.rs: the resting orders in a file, named after the number of log records before it.
-- A directory is the list of its files, each a name and its bytes.
pub mod Names
pub mod Latest
use velocity_match.Common.{
  ℕ, zero, suc, ◌+◌, ◌-◌, ◌*◌, ◌/◌, ◌%◌, ℤ, Bool, true, false, Option, none, some, Result, ok, err,
  ltb, ◌==◌, ◌&&◌, ◌^◌, if◌then◌else◌, List, [], ◌∷◌, ◌++◌, length, drop,
}
use mathlib.Core.List.{reverse}
use velocity_match.Common.Utf8.{is_utf8}
use velocity_match.Common.Run.Panic.{◌>>=◌}
use velocity_match.Order.{Order, bid, ask}
use velocity_match.Book.{best, all_resting_orders}
use velocity_match.Matching.{MatchingError, MatchingEngine, restore_from_orders}

abbrev pub Bytes : Type 0
Bytes = List ℕ

-- `Serialize`, `Deserialize` and `Restore` keep the error where the source keeps its text.
pub data SnapshotError : Type 0 where
  io : (code : ℕ) → SnapshotError
  serialize : (code : ℕ) → SnapshotError
  deserialize : (code : ℕ) → SnapshotError
  checksum_mismatch : (expected actual : ℕ) → SnapshotError
  restore_error : MatchingError → SnapshotError

pub record Snapshot : Type 0 where
  pub wal_record_count : ℕ
  pub orders : List Order
  pub best_bid : Option ℤ
  pub best_ask : Option ℤ
  pub checksum : ℕ

pub record File : Type 0 where
  pub name : Bytes
  pub content : Bytes

-- What a snapshot uses of its libraries: bincode's coders, the checksum of crc32fast, and whether
-- the operating system fails to make or read the directory (with `not_found` for one that is not
-- there), to write a file, to rename it, or to read the file of a name.
pub record Library : Type 0 where
  pub serialize_orders : List Order → Bytes
  pub serialize_snapshot : Snapshot → Result ℕ Bytes
  pub deserialize_snapshot : Bytes → Result ℕ Snapshot
  pub crc32 : Bytes → ℕ
  pub create_dir_all : Option ℕ
  pub read_dir : Option ℕ
  pub not_found : ℕ
  pub write_file : (name : Bytes) → Option ℕ
  pub rename_file : (name : Bytes) → Option ℕ
  pub read_file : (name : Bytes) → Option ℕ

module _ (lib : Library) where
  unfoldable pub compute_checksum : List Order → ℕ
  compute_checksum orders = lib.crc32 (lib.serialize_orders orders)

  unfoldable pub capture : MatchingEngine → (wal_record_count : ℕ) → Option Snapshot
  unfolding compute_checksum
  capture engine wal_record_count = do
    orders ← all_resting_orders engine.book
    some (record {
      wal_record_count = wal_record_count;
      orders = orders;
      best_bid = best engine.book bid;
      best_ask = best engine.book ask;
      checksum = compute_checksum orders;
    })

  unfoldable pub verify_checksum : Snapshot → Result SnapshotError (Unit {0})
  unfolding compute_checksum
  verify_checksum snap =
      let actual = compute_checksum snap.orders in
      if snap.checksum == actual then ok tt else err (checksum_mismatch snap.checksum actual)

unfoldable pub restore :
    Snapshot → (arena_capacity : ℕ) → Option (Result SnapshotError MatchingEngine)
restore snap arena_capacity = do
  restored ← restore_from_orders snap.orders arena_capacity
  elim restored [ ok engine ↦ some (ok engine) | err e ↦ some (err (restore_error e)) ]

abbrev pub digits_of : (width n : ℕ) → Bytes
digits_of zero n = []
digits_of (suc w) n = digits_of w (n / 10) ++ ((n % 10 + b'0') ∷ [])

-- The number of digits of `n`, at least `width`; ten rounds lead from ten to the twenty digits that
-- a `u64` has at most.
abbrev pub width_of : (rounds width n : ℕ) → ℕ
width_of zero width n = width
width_of (suc rounds) width n = if ltb n (10 ^ width) then width else width_of rounds (suc width) n

-- `{:010}`: at least ten decimal digits, most significant first.
unfoldable pub decimal : ℕ → Bytes
decimal n = digits_of (width_of 10 10 n) n

abbrev pub name_prefix : Bytes
name_prefix = b's' ∷ b'n' ∷ b'a' ∷ b'p' ∷ b's' ∷ b'h' ∷ b'o' ∷ b't' ∷ b'_' ∷ []

abbrev pub name_suffix : Bytes
name_suffix = b'.' ∷ b'b' ∷ b'i' ∷ b'n' ∷ []

abbrev pub tmp_suffix : Bytes
tmp_suffix = b'.' ∷ b't' ∷ b'm' ∷ b'p' ∷ []

unfoldable pub filename : (wal_record_count : ℕ) → Bytes
unfolding decimal
filename n = name_prefix ++ (decimal n ++ name_suffix)

abbrev pub same_name : Bytes → Bytes → Bool
same_name [] [] = true
same_name [] (_ ∷ _) = false
same_name (_ ∷ _) [] = false
same_name (a ∷ as') (b ∷ bs) = (a == b) && same_name as' bs

-- The order of paths in one directory: that of the bytes of their names.
abbrev pub name_ltb : Bytes → Bytes → Bool
name_ltb [] [] = false
name_ltb [] (_ ∷ _) = true
name_ltb (_ ∷ _) [] = false
name_ltb (a ∷ as') (b ∷ bs) = if ltb a b then true else (if ltb b a then false else name_ltb as' bs)

abbrev pub starts_with : Bytes → Bytes → Bool
starts_with [] name = true
starts_with (_ ∷ _) [] = false
starts_with (a ∷ as') (b ∷ bs) = (a == b) && starts_with as' bs

abbrev pub ends_with : Bytes → Bytes → Bool
ends_with end [] = same_name end []
ends_with end (b ∷ bs) = if same_name end (b ∷ bs) then true else ends_with end bs

-- A name that is no UTF-8 gives no `&str`.
abbrev pub is_snapshot_file : File → Bool
is_snapshot_file f =
    is_utf8 f.name && (starts_with name_prefix f.name && ends_with name_suffix f.name)

abbrev pub remove_file : Bytes → List File → List File
remove_file name [] = []
remove_file name (f ∷ fs) =
    if same_name name f.name then remove_file name fs else f ∷ remove_file name fs

-- The directory with a file of this name and content.
abbrev pub put_file : Bytes → Bytes → List File → List File
put_file name content fs = remove_file name fs ++ (record { name = name; content = content } ∷ [])

insert_file : File → List File → List File
insert_file f [] = f ∷ []
insert_file f (g ∷ gs) = if name_ltb g.name f.name then g ∷ insert_file f gs else f ∷ g ∷ gs

-- `sort` of paths, in ascending order.
unfoldable pub sort : List File → List File
unfolding insert_file
sort [] = []
sort (f ∷ fs) = insert_file f (sort fs)

abbrev pub filter : (File → Bool) → List File → List File
filter p [] = []
filter p (f ∷ fs) = if p f then f ∷ filter p fs else filter p fs

module _ (lib : Library) where
  -- The temporary file is written and then renamed. What a failed write leaves under the temporary
  -- name is left out; no reader looks at that name.
  unfoldable pub save : Snapshot → List File → Result SnapshotError Bytes × List File
  save snap dir =
      let name = filename snap.wal_record_count in
      let tmp = name ++ tmp_suffix in
      elim lib.create_dir_all [
        | some code ↦ (err (io code), dir)
        | none ↦ elim (lib.serialize_snapshot snap) [
          | err code ↦ (err (serialize code), dir)
          | ok bytes ↦ elim (lib.write_file tmp) [
            | some code ↦ (err (io code), dir)
            | none ↦ elim (lib.rename_file tmp) [
              | some code ↦ (err (io code), put_file tmp bytes dir)
              | none ↦ (ok name, put_file name bytes (remove_file tmp (put_file tmp bytes dir)))
            ]
          ]
        ]
      ]

  unfoldable pub load_from_file : File → Result SnapshotError Snapshot
  load_from_file f = elim (lib.read_file f.name) [
    | some code ↦ err (io code)
    | none ↦ elim (lib.deserialize_snapshot f.content) [
      | err code ↦ err (deserialize code)
      | ok snap ↦ ok snap
    ]
  ]

  abbrev pub is_ok : Result SnapshotError (Unit {0}) → Bool
  is_ok (ok _) = true
  is_ok (err _) = false

  -- The files from the last in order on: the first that loads and has its checksum.
  unfoldable pub first_valid : List File → Option Snapshot
  unfolding load_from_file verify_checksum
  first_valid [] = none
  first_valid (f ∷ fs) =
      let older = first_valid fs in
      elim (load_from_file f) [
        | ok snap ↦ if is_ok (verify_checksum lib snap) then some snap else older
        | err _ ↦ older
      ]

  unfoldable pub load_latest : List File → Result SnapshotError (Option Snapshot)
  unfolding first_valid
  load_latest dir = elim lib.read_dir [
    | some code ↦ if code == lib.not_found then ok none else err (io code)
    | none ↦ ok (first_valid (reverse (sort (filter is_snapshot_file dir))))
  ]
