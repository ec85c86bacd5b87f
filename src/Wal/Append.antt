-- ===== src/Wal/Append.antt =====
-- `append`: one more record behind the others, or a refusal that leaves the log alone.
use velocity_match.Common.{
  length-drop, All-append, ℕ, ◌+◌, ◌≤◌, ◌≡◌, refl, some, ok, err, List, [], ◌∷◌, ◌++◌, length, drop,
  arith, ap, ◌∙◌, sym, length-append, append_assoc, append-nil, replicate, inl, inr, ◌⊎◌,
}
use velocity_match.Protocol.{Buffer, EngineCommand}
use velocity_match.Wal.{Platform, Wal, io, append, append_encoded, append_with_room}
use velocity_match.Wal.Log.{
  Fits, payload_size, IsEncoded, encode-IsEncoded, record_bytes, logged, record_size,
  length-record_bytes, IsLog, logged-append,
}
use velocity_match.Wal.Write.{written, write_record-written}
use velocity_match.Wal.Room.{OsFails, Roomy, ensure_capacity-cases}

same_size :
    (first xs tail : Buffer) (n : ℕ)
    → length xs ≡ n
    → n ≤ length tail
    → length (first ++ (xs ++ drop n tail)) ≡ length (first ++ tail)
same_size first xs tail n e h = omega (
  arith,
  length-append first (xs ++ drop n tail),
  length-append xs (drop n tail),
  length-append first tail,
  length-drop n tail,
)

-- What a call of `append` that keeps the record leaves: the record behind the others, over the first
-- bytes of what was behind them, in a file that may have grown.
pub record Appended (os : Platform) (w : Wal) (cs : List EngineCommand) (tail : Buffer)
    (c : EngineCommand) : Type 0 where
  pub wal : Wal
  pub left : Buffer
  pub grown : ℕ
  pub done : append os w c ≡ some (ok (length cs + 1), wal)
  pub log : IsLog os wal (cs ++ (c ∷ [])) left
  pub left_is : left ≡ drop (record_size c) (tail ++ replicate grown 0)

-- What a call leaves that the operating system fails.
pub record Refused (os : Platform) (w : Wal) (cs : List EngineCommand) (tail : Buffer)
    (c : EngineCommand) : Type 0 where
  pub wal : Wal
  pub code : ℕ
  pub why : OsFails os code
  pub done : append os w c ≡ some (err (io code), wal)
  pub log : IsLog os wal cs tail

module _ (os : Platform) (w : Wal) (cs : List EngineCommand) (tail : Buffer) (c : EngineCommand)
    (is : IsLog os w cs tail) (fits : Fits c) where
  encoded : IsEncoded w.encode_buf c
  encoded = encode-IsEncoded w.encode_buf c (omega (arith, is.buf))

  abbrev with_buf : Wal
  with_buf = record w { encode_buf = encoded.left }

  kept : Roomy os with_buf (record_size c) → Appended os w cs tail c
  unfolding append append_encoded append_with_room
  kept r =
      let behind : r.wal.mmap ≡ logged os cs ++ (tail ++ replicate r.grown 0) =
        r.bytes
        ∙ ap (λ m. m ++ replicate r.grown 0) is.bytes
        ∙ append_assoc (logged os cs) tail _ in
      let room : record_size c ≤ length (tail ++ replicate r.grown 0) = omega (
        arith,
        r.enough,
        r.size,
        ap length behind,
        length-append (logged os cs) (tail ++ replicate r.grown 0),
        is.pos,
      ) in
      record {
        wal =
            written os r.wal (logged os cs) (tail ++ replicate r.grown 0) encoded.rest c behind
              (r.pos ∙ is.pos) (r.buf ∙ encoded.front) room;
        left = drop (record_size c) (tail ++ replicate r.grown 0);
        grown = r.grown;
        done =
            ap (λ e. append_encoded os w e) encoded.done
            ∙ ap (λ p. append_with_room os (payload_size c) (record_size c) p) r.done
            ∙ write_record-written os r.wal (logged os cs) (tail ++ replicate r.grown 0)
                encoded.rest c behind (r.pos ∙ is.pos) (r.buf ∙ encoded.front) room
            ∙ ap
                (λ n. some (
                  ok (n + 1),
                  written os r.wal (logged os cs) (tail ++ replicate r.grown 0) encoded.rest c
                      behind (r.pos ∙ is.pos) (r.buf ∙ encoded.front) room,
                ))
                (r.count ∙ is.count);
        log = record {
          bytes =
              sym (append_assoc (logged os cs) (record_bytes os c) _)
              ∙ ap (λ l. l ++ drop (record_size c) (tail ++ replicate r.grown 0)) (sym all_bytes);
          pos = omega (
            arith,
            r.pos,
            is.pos,
            length-append (logged os cs) (record_bytes os c),
            length-record_bytes os c,
            ap length all_bytes,
          );
          size =
              r.size
              ∙ ap length behind
              ∙ sym (
                  same_size (logged os cs) (record_bytes os c) (tail ++ replicate r.grown 0)
                    (record_size c) (length-record_bytes os c) room);
          buf = ap length r.buf ∙ encoded.same_length ∙ is.buf;
          count = omega (arith, r.count, is.count, length-append cs (c ∷ []));
          fits = All-append Fits cs (c ∷ []) is.fits (fits, tt);
        };
        left_is = refl;
      }
    where
      all_bytes : logged os (cs ++ (c ∷ [])) ≡ logged os cs ++ record_bytes os c
      all_bytes =
          logged-append os cs (c ∷ [])
          ∙ ap (λ l. logged os cs ++ l) (append-nil (record_bytes os c))

  -- A call of `append` on a log either keeps the record or is failed by the operating system; it does
  -- not panic, and in the second case the log is as it was, in a file that may have zeros behind it.
  pub append-cases : Appended os w cs tail c ⊎ Refused os w cs tail c
  unfolding append append_encoded append_with_room
  append-cases = elim (ensure_capacity-cases os with_buf (record_size c) is.size) [
    | inl r ↦ inl (kept r)
    | inr r ↦ inr (record {
      wal = record with_buf { zeros_behind = r.zeros };
      code = r.code;
      why = r.why;
      done =
          ap (λ e. append_encoded os w e) encoded.done
          ∙ ap (λ p. append_with_room os (payload_size c) (record_size c) p) r.done;
      log = record {
        bytes = is.bytes;
        pos = is.pos;
        size = is.size;
        buf = encoded.same_length ∙ is.buf;
        count = is.count;
        fits = is.fits;
      };
    })
  ]
