-- ===== src/Wal/Iterate.antt =====
-- The iterator over a log: the stored commands after the first `start_record`.
use velocity_match.Common.{
  ℕ, zero, suc, ◌+◌, ◌-◌, ◌≤◌, ◌<◌, ◌≡◌, refl, inl, inr, true, false, Option, none, some, ok, List,
  [], ◌∷◌, ◌++◌, length, drop, arith, ap, ap₂, ◌∙◌, sym, length-append, append_assoc, append-nil,
  All, le→ltb, lt→ltb, leb, ==_iff, Bool-cases,
}
use velocity_match.Common.Run.Panic.{◌>>=◌}
use velocity_match.Protocol.{Buffer, EngineCommand, decode_message, slice}
use velocity_match.Wal.{Platform, Wal, WalIterator, Item, iter_from, next, command_item, word_at}
use velocity_match.Wal.Log.{
  Fits, stored, payload, payload_size, decode-payload, record_bytes, record_size,
  length-record_bytes, logged, logged-append, IsLog,
}
use velocity_match.Wal.Read.{IsCrc, word-length, word-crc, slice-payload}
use velocity_match.Wal.Reopen.{payload_size-ne, size_bounds}

-- The iterator stands behind the records of `done`, before those of `todo`.
pub record At (os : Platform) (it : WalIterator) (done todo : List EngineCommand) : Type 0 where
  pub tail : Buffer
  pub bytes : it.mmap ≡ logged os done ++ (logged os todo ++ tail)
  pub pos : it.read_pos ≡ length (logged os done)
  pub end_is : it.end_pos ≡ it.read_pos + length (logged os todo)
  pub current : it.current_record ≡ length done
  pub fits : All Fits todo

-- The next item of such an iterator: none, or the first command after the skipped ones.
pub data NextIs (os : Platform) (start : ℕ) (done todo : List EngineCommand)
    (run : Option (Item × WalIterator)) : Type 0 where
  ended :
      (it : WalIterator)
      → drop (start - length done) todo ≡ []
      → run ≡ some (none, it)
      → NextIs os start done todo run
  item :
      (it : WalIterator) (before : List EngineCommand) (c : EngineCommand)
      (rest : List EngineCommand)
      → drop (start - length done) todo ≡ c ∷ rest
      → start ≤ length before
      → it.start_record ≡ start
      → run ≡ some (some (ok (length before + 1, stored c)), it)
      → At os it (before ++ (c ∷ [])) rest
      → NextIs os start done todo run

drop_nothing : (n : ℕ) → drop {A = EngineCommand} n [] ≡ []
drop_nothing zero = refl
drop_nothing (suc n) = refl

module _ (os : Platform) (crc : IsCrc os) where
  -- The iterator behind one more record.
  abbrev moved : WalIterator → EngineCommand → WalIterator
  moved it c = record it {
    read_pos = it.read_pos + record_size c;
    current_record = it.current_record + 1;
  }

  moved-At :
      (it : WalIterator) (done : List EngineCommand) (c : EngineCommand) (cs : List EngineCommand)
      → At os it done (c ∷ cs)
      → At os (moved it c) (done ++ (c ∷ [])) cs
  moved-At it done c cs at = record {
    tail = at.tail;
    bytes =
        at.bytes
        ∙ ap (λ l. logged os done ++ l) (append_assoc (record_bytes os c) (logged os cs) at.tail)
        ∙ sym (append_assoc (logged os done) (record_bytes os c) _)
        ∙ ap (λ l. l ++ (logged os cs ++ at.tail)) (sym longer);
    pos = omega (
      arith,
      at.pos,
      ap length longer,
      length-append (logged os done) (record_bytes os c),
      length-record_bytes os c,
    );
    end_is = omega (
      arith,
      at.end_is,
      length-append (record_bytes os c) (logged os cs),
      length-record_bytes os c,
    );
    current = omega (arith, at.current, length-append done (c ∷ []));
    fits = at.fits.1;
  }
    where
      longer : logged os (done ++ (c ∷ [])) ≡ logged os done ++ record_bytes os c
      longer =
          logged-append os done (c ∷ [])
          ∙ ap (λ l. logged os done ++ l) (append-nil (record_bytes os c))

  -- What the round over a valid record does.
  abbrev after_record : ℕ → WalIterator → EngineCommand → Option (Item × WalIterator)
  after_record f it c = elim (leb (it.current_record + 1) it.start_record) [
    | true ↦ next os f (moved it c)
    | false ↦ some (command_item (it.current_record + 1) (decode_message (payload c)), moved it c)
  ]

  next-record :
      (f : ℕ) (it : WalIterator) (done : List EngineCommand) (c : EngineCommand)
      (cs : List EngineCommand)
      → At os it done (c ∷ cs)
      → next os (suc f) it ≡ after_record f it c
  unfolding next
  next-record f it done c cs at =
      let rest = logged os cs ++ at.tail in
      let here =
        at.bytes
        ∙ ap (λ l. logged os done ++ l) (append_assoc (record_bytes os c) (logged os cs) at.tail) in
      let long = length-append (record_bytes os c) (logged os cs) in
      rw
        (
          next,
          le→ltb it.end_pos (it.read_pos + 8)
              (omega (arith, at.end_is, long, length-record_bytes os c, (size_bounds c).0)),
        )
        (rw
          (
            ap (λ m. word_at m it.read_pos) here
                ∙ word-length os crc (logged os done) c rest it.read_pos at.pos,
            ◌>>=◌,
          )
          (rw (payload_size-ne c) (
            rw
              (le→ltb it.end_pos (it.read_pos + record_size c)
                (omega (arith, at.end_is, long, length-record_bytes os c)))
              (rw
                (
                  ap (λ m. word_at m (it.read_pos + 4)) here
                      ∙ word-crc os crc (logged os done) c rest it.read_pos at.pos,
                  ◌>>=◌,
                )
                (rw
                  (
                    ap (λ m. slice (it.read_pos + 8) (payload_size c) m) here
                        ∙ slice-payload os crc (logged os done) c rest it.read_pos at.pos,
                    ◌>>=◌,
                  )
                  (rw ((==_iff (os.crc32 (payload c)) (os.crc32 (payload c))).1 refl) refl))))))

  -- An iterator that starts within a log gives the next command behind the first `start_record`, as
  -- it is stored, with its number, and none at the end: the record with the number `start_record` is
  -- skipped like those before it, and the first that is given has the next number. It does not panic,
  -- meets no error and does not run out of fuel.
  pub next-NextIs :
      (f : ℕ) (it : WalIterator) (done todo : List EngineCommand)
      → At os it done todo
      → length todo < f
      → NextIs os it.start_record done todo (next os f it)
  unfolding next
  next-NextIs zero it done todo at enough = absurd (omega arith)
  next-NextIs (suc f) it done [] at enough =
      ended it (drop_nothing (it.start_record - length done))
        (rw (next, lt→ltb it.end_pos (it.read_pos + 8) (omega (arith, at.end_is))) refl)
  next-NextIs (suc f) it done (c ∷ cs) at enough =
      elim (Bool-cases (leb (it.current_record + 1) it.start_record)) [
        | inl skip ↦
            skipped (ground (arith, skip, at.current))
              (next-record f it done c cs at ∙ rw (after_record, skip) refl)
              (next-NextIs f (moved it c) (done ++ (c ∷ [])) cs (moved-At it done c cs at)
                (omega arith))
        | inr give ↦
            let e : it.start_record - length done ≡ 0 = ground (arith, give, at.current) in
            item (moved it c) done c cs (ap (λ n. drop n (c ∷ cs)) e)
              (ground (arith, give, at.current)) refl
              (next-record f it done c cs at
                ∙ rw (after_record, give)
                    (ap₂ (λ n d. some (command_item n d, moved it c)) (omega (arith, at.current))
                      (decode-payload c at.fits.0)))
              (moved-At it done c cs at)
      ]
    where
      one_fewer :
          length done + 1 ≤ it.start_record
          → drop (it.start_record - length done) (c ∷ cs)
            ≡ drop (it.start_record - length (done ++ (c ∷ []))) cs
      one_fewer le =
          let n : it.start_record - length done
              ≡ suc (it.start_record - length (done ++ (c ∷ []))) =
            omega (arith, length-append done (c ∷ [])) in
          ap (λ i. drop i (c ∷ cs)) n

      skipped :
          length done + 1 ≤ it.start_record
          → next os (suc f) it ≡ next os f (moved it c)
          → NextIs os it.start_record (done ++ (c ∷ [])) cs (next os f (moved it c))
          → NextIs os it.start_record done (c ∷ cs) (next os (suc f) it)
      skipped le e (ended it' none_left run) = ended it' (one_fewer le ∙ none_left) (e ∙ run)
      skipped le e (item it' before d rest first past same run at') =
          item it' before d rest (one_fewer le ∙ first) past same (e ∙ run) at'

pub iter_from-At :
    (os : Platform) (w : Wal) (cs : List EngineCommand) (tail : Buffer) (start : ℕ)
    → IsLog os w cs tail
    → At os (iter_from w start) [] cs
iter_from-At os w cs tail start is = record {
  tail = tail;
  bytes = is.bytes;
  pos = refl;
  end_is = omega (arith, is.pos);
  current = refl;
  fits = is.fits;
}
