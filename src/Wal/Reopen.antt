-- ===== src/Wal/Reopen.antt =====
-- Opening a file: a new one is an empty log, and the file of a log is that log again.
use velocity_match.Common.{
  ℕ, zero, suc, ◌+◌, ◌-◌, ◌≤◌, ◌<◌, ◌≡◌, refl, ◌⊎◌, inl, inr, false, Option, none, some, Result, ok,
  List, [], ◌∷◌, ◌++◌, length, arith, ap, ap₂, ◌∙◌, sym, length-append, append_assoc, All, le→ltb,
  lt→ltb, ltb, ◌==◌, ==_iff, Bool-cases, replicate, length-replicate,
}
use velocity_match.Common.Run.Panic.{◌>>=◌}
use velocity_match.Protocol.{Buffer, EngineCommand, new_order, cancel_order, from_le}
use velocity_match.Wal.{
  Platform, Wal, WalError, scan_loop, scan_to_end, open_with_size, mapped, word_at,
}
use velocity_match.Wal.Bytes.{slice_skip, replicate-append}
use native.Mathlib.Decide.{dec_lt}
use velocity_match.Wal.Log.{
  Fits, payload, payload_size, record_bytes, record_size, length-record_bytes, logged, IsLog,
}
use velocity_match.Wal.Read.{IsCrc, word-length, word-crc, slice-payload, record-inside, next_at}

-- The scan stops here: too few bytes are left for a header, or the length is zero.
abbrev pub IsBlank : Buffer → Type 0
IsBlank tail = (length tail < 8) ⊎ (word_at tail 0 ≡ some 0)

pub payload_size-ne : (c : EngineCommand) → (payload_size c == 0) ≡ false
payload_size-ne (new_order order) = refl
payload_size-ne (cancel_order order_id) = refl

pub size_bounds : (c : EngineCommand) → (8 ≤ record_size c) × (record_size c ≤ 48)
size_bounds (new_order order) = omega arith
size_bounds (cancel_order order_id) = omega arith

word_skip :
    (first tail : Buffer) (p : ℕ) → p ≡ length first → word_at (first ++ tail) p ≡ word_at tail 0
word_skip first tail p e =
    ap (λ o. o >>= λ bytes. some (from_le bytes)) (slice_skip p first 0 4 tail (omega arith))

module _ (os : Platform) (crc : IsCrc os) where
  -- One valid record is one round.
  scan-record :
      (f : ℕ) (first rest : Buffer) (c : EngineCommand) (pos count : ℕ)
      → pos ≡ length first
      → scan_loop os
          (suc f)
          (first ++ (record_bytes os c ++ rest))
          (length (first ++ (record_bytes os c ++ rest)))
          pos
          count
        ≡ scan_loop os f
            (first ++ (record_bytes os c ++ rest))
            (length (first ++ (record_bytes os c ++ rest)))
            (pos + record_size c)
            (count + 1)
  unfolding scan_loop
  scan-record f first rest c pos count at =
      let inside = record-inside os crc first c rest pos at in
      rw
        (
          scan_loop,
          le→ltb (length (first ++ (record_bytes os c ++ rest))) (pos + 8)
              (omega (arith, inside, (size_bounds c).0)),
        )
        (rw (word-length os crc first c rest pos at, ◌>>=◌)
          (rw (payload_size-ne c) (
            rw
              (le→ltb (length (first ++ (record_bytes os c ++ rest))) (pos + record_size c)
                (omega (arith, inside)))
              (rw (word-crc os crc first c rest pos at, ◌>>=◌)
                (rw (slice-payload os crc first c rest pos at, ◌>>=◌)
                  (rw ((==_iff (os.crc32 (payload c)) (os.crc32 (payload c))).1 refl) refl))))))

  scan-logged :
      (f : ℕ) (first tail : Buffer) (cs : List EngineCommand) (pos count : ℕ)
      → pos ≡ length first
      → length (logged os cs) < f
      → IsBlank tail
      → scan_loop os f
          (first ++ (logged os cs ++ tail))
          (length (first ++ (logged os cs ++ tail)))
          pos
          count
        ≡ some (pos + length (logged os cs), count + length cs)
  unfolding scan_loop
  scan-logged zero first tail cs pos count at enough blank = absurd (omega arith)
  scan-logged (suc f) first tail [] pos count at enough (inl short) =
      rw (lt→ltb (length (first ++ tail)) (pos + 8) (omega (arith, length-append first tail)))
        (ap₂ (λ x y. some (x, y)) (omega arith) (omega arith))
  scan-logged (suc f) first tail [] pos count at enough (inr zero_word) =
      elim (Bool-cases (ltb (length (first ++ tail)) (pos + 8))) [
        | inl short ↦ rw short ends
        | inr room ↦ rw room (rw (word_skip first tail pos at ∙ zero_word, ◌>>=◌) ends)
      ]
    where
      ends : ◌≡◌ {A = Option (ℕ × ℕ)} (some (pos, count)) (some (pos + 0, count + 0))
      ends = ap₂ (λ x y. some (x, y)) (omega arith) (omega arith)
  scan-logged (suc f) first tail (c ∷ cs) pos count at enough blank =
      ap (λ m. scan_loop os (suc f) m (length m) pos count) regroup
      ∙ scan-record f first (logged os cs ++ tail) c pos count at
      ∙ ap (λ m. scan_loop os f m (length m) (pos + record_size c) (count + 1))
          (sym (append_assoc first (record_bytes os c) (logged os cs ++ tail)))
      ∙ scan-logged f (first ++ record_bytes os c) tail cs (pos + record_size c) (count + 1)
          (next_at os crc first c (logged os cs ++ tail) pos at)
          (omega (
            arith,
            length-append (record_bytes os c) (logged os cs),
            length-record_bytes os c,
            (size_bounds c).0,
          ))
          blank
      ∙ ap₂ (λ x y. some (x, y))
          (omega
            (arith, length-append (record_bytes os c) (logged os cs), length-record_bytes os c))
          (omega arith)
    where
      regroup :
          first ++ ((record_bytes os c ++ logged os cs) ++ tail)
          ≡ first ++ (record_bytes os c ++ (logged os cs ++ tail))
      regroup = ap (λ l. first ++ l) (append_assoc (record_bytes os c) (logged os cs) tail)

IsBlank-zeros : (n : ℕ) → IsBlank (replicate n 0)
IsBlank-zeros n = elim (dec_lt n 8) [
  | yes short ↦ inl (omega (arith, length-replicate {A = ℕ} n 0))
  | no long ↦
      let e : 4 + (n - 4) ≡ n = omega arith in
      inr (
        ap (λ l. word_at l 0)
          (ap (λ i. replicate i 0) (sym e) ∙ sym (replicate-append 4 (n - 4) 0)))
]

-- An operating system that fails no call.
pub record Works (os : Platform) : Type 0 where
  pub opens : os.open_file ≡ none
  pub sets : (n : ℕ) → os.set_len n ≡ none
  pub maps : (n : ℕ) → os.map_mut n ≡ none

-- A log that was opened, with zeros behind its records.
pub record Opened (os : Platform) (run : Option (Result WalError Wal)) (cs : List EngineCommand)
    : Type 0 where
  pub wal : Wal
  pub zeros_left : ℕ
  pub done : run ≡ some (ok wal)
  pub log : IsLog os wal cs (replicate zeros_left 0)

module _ (os : Platform) (crc : IsCrc os) (works : Works os) (cs : List EngineCommand)
    (fits : All Fits cs) where
  mapped-Opened :
      (n : ℕ) (mmap : Buffer) → mmap ≡ logged os cs ++ replicate n 0 → Opened os (mapped os mmap) cs
  unfolding scan_to_end
  mapped-Opened n mmap e = record {
    wal = record {
      mmap = mmap;
      write_pos = length (logged os cs);
      mapped_size = length mmap;
      zeros_behind = 0;
      encode_buf = replicate 40 0;
      record_count = length cs;
    };
    zeros_left = n;
    done = rw (mapped, works.maps (length mmap)) (rw (scan, ◌>>=◌) refl);
    log = record { bytes = e; pos = refl; size = refl; buf = refl; count = refl; fits = fits };
  }
    where
      scan :
          scan_loop os (length mmap + 1) mmap (length mmap) 0 0
          ≡ some (length (logged os cs), length cs)
      scan =
          ap (λ m. scan_loop os (length mmap + 1) m (length m) 0 0) e
          ∙ scan-logged os crc (length mmap + 1) [] (replicate n 0) cs 0 0 refl
              (omega (arith, ap length e, length-append (logged os cs) (replicate n 0)))
              (IsBlank-zeros n)
          ∙ ap₂ (λ x y. some (x, y)) (omega arith) (omega arith)

  -- A file that holds the records of some commands, and zeros or nothing behind them, opens as the
  -- log of these commands: a new file as an empty log, and the file of a log as that log.
  pub open_with_size-Opened :
      (file : Buffer) (n initial_size : ℕ)
      → file ≡ logged os cs ++ replicate n 0
      → Opened os (open_with_size os file initial_size) cs
  unfolding open_with_size
  open_with_size-Opened file n initial_size e = elim (Bool-cases (ltb (length file) initial_size)) [
    | inl short ↦
        let m = initial_size - length file in
        let o = mapped-Opened (n + m) (file ++ replicate m 0) (
          ap (λ l. l ++ replicate m 0) e
          ∙ append_assoc (logged os cs) _ _
          ∙ ap (λ l. logged os cs ++ l) (replicate-append n m 0)) in
        record {
          wal = o.wal;
          zeros_left = o.zeros_left;
          log = o.log;
          done = rw (open_with_size, works.opens) (rw short (rw (works.sets initial_size) o.done));
        }
    | inr long ↦
        let o = mapped-Opened n file e in
        record {
          wal = o.wal;
          zeros_left = o.zeros_left;
          log = o.log;
          done = rw (open_with_size, works.opens) (rw long o.done);
        }
  ]
