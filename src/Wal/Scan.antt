-- ===== src/Wal/Scan.antt =====
-- `scan_to_end`: it ends on any bytes, and on a log it comes to the end of the records.
use velocity_match.Common.{
  ℕ, zero, suc, ◌+◌, ◌≤◌, ◌<◌, ◌≡◌, refl, inl, inr, some, length, arith, ◌∙◌, ltb, ◌==◌, Bool-cases,
}
use velocity_match.Common.Run.Panic.{◌>>=◌}
use velocity_match.Protocol.{Buffer, from_le}
use velocity_match.Wal.{Platform, scan_loop, word_at, align_up}
use velocity_match.Wal.Bytes.{slice_inside}

-- What the scan of any bytes comes to: a place in them.
pub record Scanned (os : Platform) (fuel : ℕ) (mmap : Buffer) (pos count : ℕ) : Type 0 where
  pub end_pos : ℕ
  pub records : ℕ
  pub done : scan_loop os fuel mmap (length mmap) pos count ≡ some (end_pos, records)
  pub inside : end_pos ≤ length mmap
  pub onward : pos ≤ end_pos

module _ (os : Platform) where
  stops :
      (fuel : ℕ) (mmap : Buffer) (pos count : ℕ)
      → pos ≤ length mmap
      → scan_loop os fuel mmap (length mmap) pos count ≡ some (pos, count)
      → Scanned os fuel mmap pos count
  stops fuel mmap pos count inside done = record {
    end_pos = pos;
    records = count;
    done = done;
    inside = inside;
    onward = omega arith;
  }

  word_inside : (mmap : Buffer) (p : ℕ) → p + 4 ≤ length mmap → (x : ℕ) × (word_at mmap p ≡ some x)
  word_inside mmap p h =
      let (xs, e, l) = slice_inside p 4 mmap h in (from_le xs, rw (e, ◌>>=◌) refl)

  goes_on :
      (f : ℕ) (mmap : Buffer) (pos count size : ℕ)
      → Scanned os f mmap (pos + size) (count + 1)
      → scan_loop os (suc f) mmap (length mmap) pos count
        ≡ scan_loop os f mmap (length mmap) (pos + size) (count + 1)
      → Scanned os (suc f) mmap pos count
  goes_on f mmap pos count size s e = record {
    end_pos = s.end_pos;
    records = s.records;
    done = e ∙ s.done;
    inside = s.inside;
    onward = omega (arith, s.onward);
  }

  -- On any bytes the scan ends, without a panic, with fuel for each byte left and one round more.
  pub scan_loop-Scanned :
      (fuel : ℕ) (mmap : Buffer) (pos count : ℕ)
      → pos ≤ length mmap
      → length mmap < pos + fuel
      → Scanned os fuel mmap pos count
  unfolding scan_loop
  scan_loop-Scanned zero mmap pos count inside enough = absurd (omega arith)
  scan_loop-Scanned (suc f) mmap pos count inside enough =
      elim (Bool-cases (ltb (length mmap) (pos + 8))) [
        | inl short ↦ stops (suc f) mmap pos count inside (rw (scan_loop, short) refl)
        | inr room ↦
            let (n, at_pos) = word_inside mmap pos (ground (arith, room)) in
            elim (Bool-cases (n == 0)) [
              | inl blank ↦
                  stops (suc f) mmap pos count inside
                    (rw (scan_loop, room) (rw (at_pos, ◌>>=◌) (rw blank refl)))
              | inr some_len ↦ elim (Bool-cases (ltb (length mmap) (pos + align_up (8 + n)))) [
                | inl cut ↦
                    stops (suc f) mmap pos count inside
                      (rw (scan_loop, room) (rw (at_pos, ◌>>=◌) (rw some_len (rw cut refl))))
                | inr whole ↦
                    let (stored, at_crc) = word_inside mmap (pos + 4) (ground (arith, room)) in
                    let (bytes, at_payload, _) =
                      slice_inside (pos + 8) n mmap (ground (arith, whole)) in
                    elim (Bool-cases (stored == os.crc32 bytes)) [
                      | inr bad ↦ stops (suc f) mmap pos count inside (
                          rw (scan_loop, room)
                            (rw (at_pos, ◌>>=◌)
                              (rw some_len (
                                rw whole
                                  (rw (at_crc, ◌>>=◌) (rw (at_payload, ◌>>=◌) (rw bad refl)))))))
                      | inl good ↦
                          goes_on f mmap pos count (align_up (8 + n))
                            (scan_loop-Scanned f mmap (pos + align_up (8 + n)) (count + 1)
                              (ground (arith, whole)) (omega arith))
                            (rw (scan_loop, room)
                              (rw (at_pos, ◌>>=◌)
                                (rw some_len (
                                  rw whole
                                    (rw (at_crc, ◌>>=◌) (rw (at_payload, ◌>>=◌) (rw good refl)))))))
                    ]
              ]
            ]
      ]
