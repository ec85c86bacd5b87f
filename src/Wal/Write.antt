-- ===== src/Wal/Write.antt =====
-- `write_record`: the bytes of one record over the first of those behind the others.
use velocity_match.Common.{
  length-drop, ◌+◌, ◌≤◌, ◌≡◌, refl, some, ok, ◌++◌, length, drop, arith, ap, ◌∙◌, sym,
  length-append, append_assoc, le→ltb,
}
use velocity_match.Common.Run.Panic.{◌>>=◌}
use velocity_match.Protocol.{Buffer, EngineCommand, to_le, slice, splice}
use velocity_match.Wal.{Platform, Wal, write_record}
use velocity_match.Wal.Bytes.{slice_whole, splice_at, drop-drop}
use velocity_match.Wal.Log.{
  payload, payload_size, length-payload, record_bytes, record_size, record_size_exact,
}

module _ (os : Platform) (w : Wal) (first tail rest : Buffer) (c : EngineCommand)
    (bytes : w.mmap ≡ first ++ tail) (pos : w.write_pos ≡ length first)
    (front : w.encode_buf ≡ payload c ++ rest) (room : record_size c ≤ length tail) where
  abbrev len_bytes : Buffer
  len_bytes = to_le 4 (payload_size c)

  abbrev crc_bytes : Buffer
  crc_bytes = to_le 4 (os.crc32 (payload c))

  abbrev pub written : Wal
  written = record w {
    mmap = first ++ (record_bytes os c ++ drop (record_size c) tail);
    write_pos = w.write_pos + record_size c;
    record_count = w.record_count + 1;
  }

  pub write_record-written :
      write_record os w (payload_size c) (record_size c) ≡ some (ok (w.record_count + 1), written)
  unfolding write_record
  write_record-written =
      rw
        (
          write_record,
          ap (λ b. slice 0 (payload_size c) b) front
              ∙ slice_whole (payload c) rest (payload_size c) (sym (length-payload c)),
          ◌>>=◌,
        )
        (rw (first_write, ◌>>=◌)
          (rw (second_write, ◌>>=◌)
            (rw (third_write, ◌>>=◌)
              (rw (le→ltb _ _ exact, ◌>>=◌)
                (ap
                  (λ m. some (
                    ok (w.record_count + 1),
                    record w {
                      mmap = m;
                      write_pos = w.write_pos + record_size c;
                      record_count = w.record_count + 1;
                    },
                  ))
                  together)))))
    where
      big : 8 + payload_size c ≤ length tail
      big = omega (arith, room, record_size_exact c)

      exact : w.write_pos + record_size c ≤ w.write_pos + 8 + payload_size c
      exact = omega (arith, record_size_exact c)

      first_write : splice w.write_pos len_bytes w.mmap ≡ some (first ++ (len_bytes ++ drop 4 tail))
      first_write =
          ap (λ m. splice w.write_pos len_bytes m) bytes
          ∙ splice_at w.write_pos first len_bytes tail pos (omega (arith, big))

      second_write :
          splice (w.write_pos + 4) crc_bytes (first ++ (len_bytes ++ drop 4 tail))
          ≡ some ((first ++ len_bytes) ++ (crc_bytes ++ drop 4 (drop 4 tail)))
      second_write =
          ap (λ m. splice (w.write_pos + 4) crc_bytes m)
            (sym (append_assoc first len_bytes (drop 4 tail)))
          ∙ splice_at (w.write_pos + 4) (first ++ len_bytes) crc_bytes (drop 4 tail)
              (omega (arith, pos, length-append first len_bytes))
              (omega (arith, big, length-drop 4 tail))

      third_write :
          splice
            (w.write_pos + 8)
            (payload c)
            ((first ++ len_bytes) ++ (crc_bytes ++ drop 4 (drop 4 tail)))
          ≡ some (
              ((first ++ len_bytes) ++ crc_bytes)
              ++ (payload c ++ drop (length (payload c)) (drop 4 (drop 4 tail))))
      third_write =
          ap (λ m. splice (w.write_pos + 8) (payload c) m)
            (sym (append_assoc (first ++ len_bytes) crc_bytes _))
          ∙ splice_at (w.write_pos + 8) ((first ++ len_bytes) ++ crc_bytes) (payload c)
              (drop 4 (drop 4 tail))
              (omega (
                arith,
                pos,
                length-append first len_bytes,
                length-append (first ++ len_bytes) crc_bytes,
              ))
              (omega
                (arith, big, length-drop 4 tail, length-drop 4 (drop 4 tail), length-payload c))

      drops : drop (length (payload c)) (drop 4 (drop 4 tail)) ≡ drop (record_size c) tail
      drops =
          ap (λ l. drop (length (payload c)) l) (drop-drop 4 4 tail)
          ∙ drop-drop 8 (length (payload c)) tail
          ∙ ap (λ n. drop n tail) (ap (λ n. 8 + n) (length-payload c) ∙ sym (record_size_exact c))

      together :
          ((first ++ len_bytes) ++ crc_bytes)
            ++ (payload c ++ drop (length (payload c)) (drop 4 (drop 4 tail)))
          ≡ first ++ (record_bytes os c ++ drop (record_size c) tail)
      together = rw drops (simp append_assoc refl)
