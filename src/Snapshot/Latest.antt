-- ===== src/Snapshot/Latest.antt =====
-- `save`, then `load_latest`: the snapshot that was saved last comes back.
use velocity_match.Common.{
  ℕ, ◌^◌, ◌≤◌, ◌<◌, ◌≡◌, refl, ◌⊎◌, inl, inr, Bool, true, false, Bool-cases, none, some, Result, ok,
  ==_iff, List, [], ◌∷◌, ◌++◌, All, All-append, arith, ap, ◌∙◌, sym, subst,
}
use mathlib.Core.List.{reverse, reverse-append}
use native.Mathlib.Decide.{dec_lt}
use velocity_match.Snapshot.{
  Bytes, Snapshot, SnapshotError, File, Library, compute_checksum, verify_checksum, filename,
  tmp_suffix, name_ltb, same_name, is_snapshot_file, remove_file, put_file, insert_file, sort,
  filter, save, load_from_file, first_valid, load_latest,
}
use velocity_match.Snapshot.Names.{
  name_ltb_irrefl, name_ltb_asym, filename_increases, filename-found, same_name_refl,
}

-- A list whose last file is `m`.
record EndsWith (m : File) (l : List File) : Type 0 where
  before : List File
  whole : l ≡ before ++ (m ∷ [])

module _ (m : File) where
  insert_file-before :
      (f : File) (before : List File)
      → name_ltb m.name f.name ≡ false
      → EndsWith m (insert_file f (before ++ (m ∷ [])))
  unfolding insert_file
  insert_file-before f [] h = record { before = f ∷ []; whole = rw (insert_file, h) refl }
  insert_file-before f (g ∷ gs) h = elim (Bool-cases (name_ltb g.name f.name)) [
    | inl later ↦
        let r = insert_file-before f gs h in
        record { before = g ∷ r.before; whole = rw (insert_file, later) (ap (λ l. g ∷ l) r.whole) }
    | inr here ↦ record { before = f ∷ g ∷ gs; whole = rw (insert_file, here) refl }
  ]

  -- A file that no other is behind comes last.
  sort-EndsWith :
      (fs : List File)
      → All (λ f. name_ltb m.name f.name ≡ false) fs
      → EndsWith m (sort (fs ++ (m ∷ [])))
  unfolding sort insert_file
  sort-EndsWith [] a = record { before = []; whole = refl }
  sort-EndsWith (f ∷ fs) (h, a) =
      let r = sort-EndsWith fs a in
      let s = insert_file-before f r.before h in
      record { before = s.before; whole = ap (λ l. insert_file f l) r.whole ∙ s.whole }

-- A file that is no snapshot, or one of at most `n` records.
abbrev pub IsOlder : ℕ → File → Type 0
IsOlder n f = (is_snapshot_file f ≡ false) ⊎ ((k : ℕ) × (k ≤ n) × (f.name ≡ filename k))

-- With more records, the same files are older.
pub IsOlder-later : (n m : ℕ) → n ≤ m → (fs : List File) → All (IsOlder n) fs → All (IsOlder m) fs
IsOlder-later n m le [] a = tt
IsOlder-later n m le (f ∷ fs) (inl no_snapshot, a) = (inl no_snapshot, IsOlder-later n m le fs a)
IsOlder-later n m le (f ∷ fs) (inr (k, small, named), a) =
    (inr (k, omega (arith, small, le), named), IsOlder-later n m le fs a)

older_before : (n : ℕ) → n < 10 ^ 10 → (k : ℕ) → k ≤ n → name_ltb (filename n) (filename k) ≡ false
older_before n small k h = elim (dec_lt k n) [
  | yes less ↦ name_ltb_asym (filename k) (filename n) (filename_increases k n less small)
  | no not_less ↦
      let e : n ≡ k = omega arith in
      ap (λ i. name_ltb (filename n) (filename i)) (sym e) ∙ name_ltb_irrefl (filename n)
]

remove_file-All :
    (P : File → Type 0) (name : Bytes) (fs : List File) → All P fs → All P (remove_file name fs)
remove_file-All P name [] a = tt
remove_file-All P name (f ∷ fs) (h, a) = elim (Bool-cases (same_name name f.name)) [
  | inl same ↦ rw same (remove_file-All P name fs a)
  | inr other ↦ rw other (h, remove_file-All P name fs a)
]

filter-append :
    (p : File → Bool) (xs ys : List File) → filter p (xs ++ ys) ≡ filter p xs ++ filter p ys
filter-append p [] ys = refl
filter-append p (x ∷ xs) ys = elim (Bool-cases (p x)) [
  | inl stays ↦ rw stays (ap (λ l. x ∷ l) (filter-append p xs ys))
  | inr goes ↦ rw goes (filter-append p xs ys)
]

filter-older :
    (n : ℕ)
    → n < 10 ^ 10
    → (fs : List File) → All (IsOlder n) fs
    → All (λ f. name_ltb (filename n) f.name ≡ false) (filter is_snapshot_file fs)
filter-older n small [] a = tt
filter-older n small (f ∷ fs) (h, a) = elim (Bool-cases (is_snapshot_file f)) [
  | inr no_snapshot ↦ rw no_snapshot (filter-older n small fs a)
  | inl snapshot ↦ elim h [
    | inl no_snapshot ↦ absurd (let bad : true ≡ false = sym snapshot ∙ no_snapshot in cc)
    | inr (k, le, named) ↦ rw snapshot (
      ap (λ l. name_ltb (filename n) l) named ∙ older_before n small k le,
      filter-older n small fs a,
    )
  ]
]

-- A file that was just put there is the only one of its name.
remove_file-put :
    (name content : Bytes) (xs : List File)
    → remove_file name (xs ++ (record { name = name; content = content } ∷ []))
      ≡ remove_file name xs
remove_file-put name content [] = rw (same_name_refl name) refl
remove_file-put name content (x ∷ xs) = elim (Bool-cases (same_name name x.name)) [
  | inl same ↦ rw same (remove_file-put name content xs)
  | inr other ↦ rw other (ap (λ l. x ∷ l) (remove_file-put name content xs))
]

-- Libraries that fail no call on the way of this snapshot to its file and back.
pub record Faithful (lib : Library) (snap : Snapshot) : Type 0 where
  pub creates : lib.create_dir_all ≡ none
  pub lists : lib.read_dir ≡ none
  pub writes : (name : Bytes) → lib.write_file name ≡ none
  pub renames : (name : Bytes) → lib.rename_file name ≡ none
  pub reads : (name : Bytes) → lib.read_file name ≡ none
  pub bytes : Bytes
  pub serializes : lib.serialize_snapshot snap ≡ ok bytes
  pub deserializes : lib.deserialize_snapshot bytes ≡ ok snap

-- The snapshot is saved under the name of its number, and is the one that is loaded; no snapshot
-- has more records.
pub record Saved (lib : Library) (snap : Snapshot) (run : Result SnapshotError Bytes × List File)
    : Type 0 where
  pub answered : run.0 ≡ ok (filename snap.wal_record_count)
  pub loaded : load_latest lib run.1 ≡ ok (some snap)
  pub files : All (IsOlder snap.wal_record_count) run.1

module _ (lib : Library) (snap : Snapshot) (dir : List File) (f : Faithful lib snap)
    (small : snap.wal_record_count < 10 ^ 10)
    (valid : snap.checksum ≡ compute_checksum lib snap.orders)
    (older : All (IsOlder snap.wal_record_count) dir) where
  abbrev name : Bytes
  name = filename snap.wal_record_count

  abbrev its_file : File
  its_file = record { name = name; content = f.bytes }

  abbrev others : List File
  others =
      remove_file name
        (remove_file (name ++ tmp_suffix) (put_file (name ++ tmp_suffix) f.bytes dir))

  others-IsOlder : All (IsOlder snap.wal_record_count) others
  others-IsOlder = remove_file-All (IsOlder snap.wal_record_count) name _ (
      subst (All (IsOlder snap.wal_record_count))
        (sym (remove_file-put (name ++ tmp_suffix) f.bytes (remove_file (name ++ tmp_suffix) dir)))
        (remove_file-All (IsOlder snap.wal_record_count) (name ++ tmp_suffix) _
          (remove_file-All (IsOlder snap.wal_record_count) (name ++ tmp_suffix) dir older)))

  loads : (rest : List File) → first_valid lib (its_file ∷ rest) ≡ some snap
  unfolding first_valid load_from_file verify_checksum
  loads rest =
      rw (first_valid, f.reads name)
        (rw f.deserializes
          (rw ((==_iff snap.checksum (compute_checksum lib snap.orders)).1 valid) refl))

  kept :
      filter is_snapshot_file (others ++ (its_file ∷ []))
      ≡ filter is_snapshot_file others ++ (its_file ∷ [])
  kept =
      filter-append is_snapshot_file others (its_file ∷ [])
      ∙ ap (λ l. filter is_snapshot_file others ++ l)
          (rw (filename-found snap.wal_record_count) refl)

  latest :
      first_valid lib (reverse (sort (filter is_snapshot_file (others ++ (its_file ∷ [])))))
      ≡ some snap
  latest =
      let s =
        sort-EndsWith its_file (filter is_snapshot_file others)
          (filter-older snap.wal_record_count small others others-IsOlder) in
      ap (λ l. first_valid lib (reverse (sort l))) kept
      ∙ ap (λ l. first_valid lib (reverse l)) s.whole
      ∙ ap (λ l. first_valid lib l) (reverse-append s.before (its_file ∷ []))
      ∙ loads (reverse s.before)

  -- Into a directory whose snapshots have no more records than this one, a snapshot of fewer than
  -- 10^10 records with the right checksum is saved, and then it is the one that is loaded, provided
  -- that the libraries fail no call and read back what they wrote.
  pub save-Saved : Saved lib snap (save lib snap dir)
  unfolding save load_latest
  save-Saved = record {
    answered = ap (λ r. r.0) saved;
    loaded =
        ap (λ r. load_latest lib r.1) saved ∙ rw (load_latest, f.lists) (ap (λ o. ok o) latest);
    files =
        subst (λ r. All (IsOlder snap.wal_record_count) r.1) (sym saved)
          (All-append (IsOlder snap.wal_record_count) others (its_file ∷ []) others-IsOlder
            (inr (snap.wal_record_count, omega arith, refl), tt));
  }
    where
      saved : save lib snap dir ≡ (ok name, others ++ (its_file ∷ []))
      saved =
          rw (save, f.creates)
            (rw f.serializes
              (rw (f.writes (name ++ tmp_suffix)) (rw (f.renames (name ++ tmp_suffix)) refl)))
