-- ===== src/Wal/Room.antt =====
-- `ensure_capacity`: the file has room for a record, or the operating system fails.
use velocity_match.Common.{
  ℕ, ◌+◌, ◌-◌, ◌*◌, ◌≤◌, ◌≡◌, refl, none, some, ok, err, ◌++◌, length, arith, sym, length-append,
  append-nil, leb, leb→le, max, replicate, length-replicate, Option-cases, inl, inr, Bool-cases,
  ◌⊎◌, false,
}
use velocity_match.Wal.{Platform, Wal, io, ensure_capacity}

-- The file after `ensure_capacity`: as it was, or longer by some zeros.
pub record Roomy (os : Platform) (w : Wal) (needed : ℕ) : Type 0 where
  pub wal : Wal
  pub grown : ℕ
  pub done : ensure_capacity os w needed ≡ (ok tt, wal)
  pub bytes : wal.mmap ≡ w.mmap ++ replicate grown 0
  pub pos : wal.write_pos ≡ w.write_pos
  pub buf : wal.encode_buf ≡ w.encode_buf
  pub count : wal.record_count ≡ w.record_count
  pub size : wal.mapped_size ≡ length wal.mmap
  pub enough : w.write_pos + needed ≤ wal.mapped_size

-- A failure of the operating system, at some length of the file.
abbrev pub OsFails : Platform → (code : ℕ) → Type 0
OsFails os code = (len : ℕ) × ((os.set_len len ≡ some code) ⊎ (os.map_mut len ≡ some code))

-- The old mapping stays, over a file that may have some more zeros behind it.
pub record Cramped (os : Platform) (w : Wal) (needed : ℕ) : Type 0 where
  pub code : ℕ
  pub why : OsFails os code
  pub zeros : ℕ
  pub done : ensure_capacity os w needed ≡ (err (io code), record w { zeros_behind = zeros })

module _ (os : Platform) (w : Wal) (needed : ℕ) (size : w.mapped_size ≡ length w.mmap) where
  abbrev new_size : ℕ
  new_size = max (w.mapped_size * 2) (w.write_pos + needed)

  grows :
      leb (w.write_pos + needed) w.mapped_size ≡ false
      → os.set_len new_size ≡ none
      → os.map_mut new_size ≡ none
      → Roomy os w needed
  unfolding ensure_capacity
  grows small set mapped = record {
    wal = record w {
      mmap = w.mmap ++ replicate (new_size - w.mapped_size) 0;
      mapped_size = new_size;
      zeros_behind = 0;
    };
    grown = new_size - w.mapped_size;
    done = rw (ensure_capacity, small) (rw set (rw mapped refl));
    bytes = refl;
    pos = refl;
    buf = refl;
    count = refl;
    size = omega (
      arith,
      size,
      length-append w.mmap (replicate (new_size - w.mapped_size) 0),
      length-replicate {A = ℕ} (new_size - w.mapped_size) 0,
    );
    enough = omega arith;
  }

  pub ensure_capacity-cases : Roomy os w needed ⊎ Cramped os w needed
  unfolding ensure_capacity
  ensure_capacity-cases = elim (Bool-cases (leb (w.write_pos + needed) w.mapped_size)) [
    | inl fits ↦ inl (record {
      wal = w;
      grown = 0;
      done = rw (ensure_capacity, fits) refl;
      bytes = sym (append-nil w.mmap);
      pos = refl;
      buf = refl;
      count = refl;
      size = size;
      enough = leb→le _ _ fits;
    })
    | inr small ↦ elim (Option-cases (os.set_len new_size)) [
      | inr (code, fails) ↦ inr (record {
        code = code;
        why = (new_size, inl fails);
        zeros = w.zeros_behind;
        done = rw (ensure_capacity, small) (rw fails refl);
      })
      | inl set ↦ elim (Option-cases (os.map_mut new_size)) [
        | inr (code, fails) ↦ inr (record {
          code = code;
          why = (new_size, inr fails);
          zeros = new_size - w.mapped_size;
          done = rw (ensure_capacity, small) (rw set (rw fails refl));
        })
        | inl mapped ↦ inl (grows small set mapped)
      ]
    ]
  ]
