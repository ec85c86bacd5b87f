-- ===== src/Wal/Read.antt =====
-- What the reads of a record that stands in the bytes give.
use velocity_match.Common.{
  ℕ, ◌+◌, ◌<◌, ◌^◌, ◌≡◌, refl, some, ◌++◌, length, arith, ap, ◌∙◌, sym, length-append, append_assoc,
}
use velocity_match.Common.Run.Panic.{◌>>=◌}
use velocity_match.Protocol.{Buffer, EngineCommand, new_order, cancel_order, to_le, slice}
use velocity_match.Protocol.Bytes.{from_le-to_le}
use velocity_match.Wal.{Platform, word_at}
use velocity_match.Wal.Bytes.{slice_at}
use velocity_match.Wal.Log.{
  payload, payload_size, length-payload, record_bytes, record_size, length-record_bytes,
}

-- The checksum is a `u32`.
abbrev pub IsCrc : Platform → Type 0
IsCrc os = (bytes : Buffer) → os.crc32 bytes < 2 ^ 32

payload_size-small : (c : EngineCommand) → payload_size c < 2 ^ 32
payload_size-small (new_order order) = omega arith
payload_size-small (cancel_order order_id) = omega arith

module _ (os : Platform) (crc : IsCrc os) (first : Buffer) (c : EngineCommand) (rest : Buffer)
    (p : ℕ) (at : p ≡ length first) where
  abbrev pub here : Buffer
  here = first ++ (record_bytes os c ++ rest)

  pub word-length : word_at here p ≡ some (payload_size c)
  word-length =
      rw
        (
          slice_at p 4 first (to_le 4 (payload_size c))
              (to_le 4 (os.crc32 (payload c)) ++ (payload c ++ rest)) at refl,
          ◌>>=◌,
        )
        (ap some (from_le-to_le 4 (payload_size c) (omega (arith, payload_size-small c))))

  after_length :
      here
      ≡ (first ++ to_le 4 (payload_size c))
        ++ (to_le 4 (os.crc32 (payload c)) ++ (payload c ++ rest))
  after_length = sym (append_assoc first (to_le 4 (payload_size c)) _)

  after_crc :
      here
      ≡ ((first ++ to_le 4 (payload_size c)) ++ to_le 4 (os.crc32 (payload c)))
        ++ (payload c ++ rest)
  after_crc =
      after_length
      ∙ sym (append_assoc (first ++ to_le 4 (payload_size c)) (to_le 4 (os.crc32 (payload c))) _)

  pub word-crc : word_at here (p + 4) ≡ some (os.crc32 (payload c))
  word-crc =
      ap (λ m. word_at m (p + 4)) after_length
      ∙ rw
          (
            slice_at (p + 4) 4 (first ++ to_le 4 (payload_size c)) (to_le 4 (os.crc32 (payload c)))
                (payload c ++ rest)
                (omega (arith, at, length-append first (to_le 4 (payload_size c)))) refl,
            ◌>>=◌,
          )
          (ap some (from_le-to_le 4 (os.crc32 (payload c)) (omega (arith, crc (payload c)))))

  pub slice-payload : slice (p + 8) (payload_size c) here ≡ some (payload c)
  slice-payload =
      ap (λ m. slice (p + 8) (payload_size c) m) after_crc
      ∙ slice_at (p + 8) (payload_size c)
          ((first ++ to_le 4 (payload_size c)) ++ to_le 4 (os.crc32 (payload c))) (payload c) rest
          (omega (
            arith,
            at,
            length-append first (to_le 4 (payload_size c)),
            length-append (first ++ to_le 4 (payload_size c)) (to_le 4 (os.crc32 (payload c))),
          ))
          (sym (length-payload c))

  pub record-inside : p + record_size c + length rest ≡ length here
  record-inside = omega (
    arith,
    at,
    length-append first (record_bytes os c ++ rest),
    length-append (record_bytes os c) rest,
    length-record_bytes os c,
  )

  pub next_place : here ≡ (first ++ record_bytes os c) ++ rest
  next_place = sym (append_assoc first (record_bytes os c) rest)

  pub next_at : p + record_size c ≡ length (first ++ record_bytes os c)
  next_at = omega (arith, at, length-append first (record_bytes os c), length-record_bytes os c)
