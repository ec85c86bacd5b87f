-- ===== src/Gateway/Client.antt =====
-- `handle_client`: the commands that a client's bytes come to.
use velocity_match.Common.{
  ℕ, zero, suc, ◌+◌, ◌≤◌, ◌<◌, ◌≡◌, refl, inl, inr, Bool, false, Bool-cases, Option, some, ok, err,
  Result-cases, ltb, lt→ltb, le→ltb, List, [], ◌∷◌, ◌++◌, length, take, drop, All, arith, ap, ap₂,
  ◌∙◌, sym, subst, length-append, length-drop, append-nil, append_assoc, ◌==◌,
}
use velocity_match.Protocol.{
  Buffer, EngineCommand, new_order, cancel_order, ProtocolError, Read, decode_message, message_size,
}
use velocity_match.Wal.Log.{Fits, payload, payload_size, length-payload, decode-payload}
use velocity_match.Gateway.{
  protocol, StreamEnd, Handled, ended, stamp, push_loop, client_loop, handle_client,
}
use velocity_match.Gateway.Wire.{
  stamped, answer_of, closes, ended_lem, stamped-stamp, wire, IsPartial, nothing_more, partial,
  stamp-stored, payload-Starts,
}
use velocity_match.Gateway.Pushing.{takes, push_loop-Took}

abbrev IsPositive : Read ℕ → Type 0
IsPositive (ok n) = 0 < n
IsPositive (err e) = Unit

-- Every message has a byte at least.
message_size-IsPositive : (t : ℕ) → IsPositive (message_size t)
unfolding message_size
message_size-IsPositive t = elim (Bool-cases (t == 1)) [
  | inl one ↦ rw (message_size, one) (omega arith)
  | inr not_one ↦ elim (Bool-cases (t == 2)) [
    | inl two ↦ rw (message_size, not_one) (rw two (omega arith))
    | inr not_two ↦ rw (message_size, not_one) (rw not_two tt)
  ]
]

-- The end of the loop by bytes that are no message.
abbrev broken : ProtocolError → List EngineCommand → Handled
broken e pushed = record { pushed = pushed; result = err (protocol e); shutdown = false }

-- A client that was handled.
pub record Served (run : Option Handled) : Type 0 where
  pub handled : Handled
  pub done : run ≡ some handled

module _ (clock : ℕ → ℕ) (end : StreamEnd) where
  client_loop-Served :
      (fuel : ℕ) (answers : List Bool) (stream : Buffer) (pushed : List EngineCommand)
      → length stream < fuel
      → length stream ≤ takes answers
      → Served (client_loop clock end fuel answers stream pushed)
  unfolding client_loop
  client_loop-Served zero answers stream pushed enough room = absurd (omega arith)
  client_loop-Served (suc f) answers [] pushed enough room = record {
    handled = ended end pushed;
    done = refl;
  }
  client_loop-Served (suc f) answers (t ∷ stream) pushed enough room =
      elim (Result-cases (message_size t)) [
        | inr (e, bad) ↦ record { handled = broken e pushed; done = rw (client_loop, bad) refl }
        | inl (size, good) ↦
            let positive : 0 < size = subst IsPositive good (message_size-IsPositive t) in
            elim (Bool-cases (ltb (length stream + 1) size)) [
              | inl short ↦ record {
                handled = ended end pushed;
                done = rw (client_loop, good) (rw short refl);
              }
              | inr whole ↦ elim (Result-cases (decode_message (take size (t ∷ stream)))) [
                | inr (e, bad) ↦ record {
                  handled = broken e pushed;
                  done = rw (client_loop, good) (rw whole (rw bad refl));
                }
                | inl (cmd, decoded) ↦
                    let p = push_loop-Took answers (omega arith) in
                    let r =
                      client_loop-Served f p.later (drop size (t ∷ stream))
                        (pushed ++ (stamp (clock (length pushed)) cmd ∷ []))
                        (omega (arith, length-drop size (t ∷ stream)))
                        (omega (arith, length-drop size (t ∷ stream), p.fewer)) in
                    record {
                      handled = r.handled;
                      done = rw (client_loop, good) (rw whole (rw decoded (rw p.done r.done)));
                    }
              ]
            ]
      ]

  -- Whatever bytes a client sends and however its stream ends, the handling of the client returns,
  -- if the ring takes a command in at least as many of the calls of `push` as there are bytes, however
  -- often it is full before and between.
  pub handle_client-Served :
      (answers : List Bool) (stream : Buffer)
      → length stream ≤ takes answers
      → Served (handle_client clock answers stream end)
  unfolding handle_client
  handle_client-Served answers stream room =
      client_loop-Served (length stream + 1) answers stream [] (omega arith) room

take_front : (xs ys : Buffer) (n : ℕ) → n ≡ length xs → take n (xs ++ ys) ≡ xs
take_front [] ys zero e = refl
take_front [] ys (suc n) e = absurd (omega arith)
take_front (x ∷ xs) ys zero e = absurd (omega arith)
take_front (x ∷ xs) ys (suc n) e = ap (λ l. x ∷ l) (take_front xs ys n (omega arith))

drop_front : (xs ys : Buffer) (n : ℕ) → n ≡ length xs → drop n (xs ++ ys) ≡ ys
drop_front [] ys zero e = refl
drop_front [] ys (suc n) e = absurd (omega arith)
drop_front (x ∷ xs) ys zero e = absurd (omega arith)
drop_front (x ∷ xs) ys (suc n) e = drop_front xs ys n (omega arith)

module _ (clock : ℕ → ℕ) (end : StreamEnd) where
  -- One message is one round.
  client_loop-message :
      (f : ℕ) (c : EngineCommand) (answers later : List Bool) (rest : Buffer)
      (pushed : List EngineCommand)
      → Fits c
      → push_loop answers ≡ some later
      → client_loop clock end (suc f) answers (payload c ++ rest) pushed
        ≡ client_loop clock end f later rest (pushed ++ (stamp (clock (length pushed)) c ∷ []))
  unfolding client_loop
  client_loop-message f c answers later rest pushed fits room =
      let s = payload-Starts c in
      let front : payload c ++ rest ≡ s.type_byte ∷ (s.others ++ rest) =
        ap (λ l. l ++ rest) s.bytes in
      let whole =
        le→ltb (length (s.others ++ rest) + 1) (payload_size c)
          (omega (arith, length-payload c, ap length s.bytes, length-append s.others rest)) in
      let message : take (payload_size c) (s.type_byte ∷ (s.others ++ rest)) ≡ payload c =
        ap (λ l. take (payload_size c) l) (sym front)
        ∙ take_front (payload c) rest (payload_size c) (sym (length-payload c)) in
      let behind : drop (payload_size c) (s.type_byte ∷ (s.others ++ rest)) ≡ rest =
        ap (λ l. drop (payload_size c) l) (sym front)
        ∙ drop_front (payload c) rest (payload_size c) (sym (length-payload c)) in
      ap (λ l. client_loop clock end (suc f) answers l pushed) front
      ∙ rw (client_loop, s.size)
          (rw whole (
            rw (ap decode_message message ∙ decode-payload c fits) (
              rw room (
                ap₂ (λ l x. client_loop clock end f later l (pushed ++ (x ∷ []))) behind
                  (stamp-stored (clock (length pushed)) c)))))

  client_loop-wire :
      (f : ℕ) (answers : List Bool) (cs : List EngineCommand) (rest : Buffer)
      (pushed : List EngineCommand)
      → All Fits cs
      → IsPartial rest
      → length cs < f
      → length cs ≤ takes answers
      → client_loop clock end f answers (wire cs ++ rest) pushed
        ≡ some (ended end (pushed ++ stamped clock (length pushed) cs))
  unfolding client_loop
  client_loop-wire zero answers cs rest pushed fits p enough room = absurd (omega arith)
  client_loop-wire (suc f) answers [] rest pushed fits nothing_more enough room =
      ap (λ l. some (ended end l)) (sym (append-nil pushed))
  client_loop-wire (suc f) answers [] rest pushed fits (partial t bytes size good short) enough
        room =
      rw (client_loop, good)
        (rw (lt→ltb (length bytes + 1) size short)
          (ap (λ l. some (ended end l)) (sym (append-nil pushed))))
  client_loop-wire (suc f) answers (c ∷ cs) rest pushed fits p enough room =
      let t = push_loop-Took answers (omega arith) in
      ap (λ l. client_loop clock end (suc f) answers l pushed)
        (append_assoc (payload c) (wire cs) rest)
      ∙ client_loop-message f c answers t.later (wire cs ++ rest) pushed fits.0 t.done
      ∙ client_loop-wire f t.later cs rest (pushed ++ (stamp (clock (length pushed)) c ∷ [])) fits.1
          p (omega arith) (omega (arith, t.fewer))
      ∙ ap (λ l. some (ended end l))
          (append_assoc pushed _ _
            ∙ ap (λ n. pushed ++ (stamp (clock (length pushed)) c ∷ stamped clock n cs))
                (length-append pushed _)
            ∙ ap (λ l. pushed ++ l) (stamped-stamp clock (length pushed) c cs))

  wire_longer : (cs : List EngineCommand) → length cs ≤ length (wire cs)
  wire_longer [] = omega arith
  wire_longer (new_order order ∷ cs) =
      omega (arith, wire_longer cs, length-append (payload (new_order order)) (wire cs))
  wire_longer (cancel_order id ∷ cs) =
      omega (arith, wire_longer cs, length-append (payload (cancel_order id)) (wire cs))

  pub handle_client-wire :
      (answers : List Bool) (cs : List EngineCommand) (rest : Buffer)
      → All Fits cs
      → IsPartial rest
      → length cs ≤ takes answers
      → handle_client clock answers (wire cs ++ rest) end
        ≡ some
            (record { pushed = stamped clock 0 cs; result = answer_of end; shutdown = closes end })
  unfolding handle_client
  handle_client-wire answers cs rest fits p room =
      client_loop-wire (length (wire cs ++ rest) + 1) answers cs rest [] fits p
        (omega (arith, wire_longer cs, length-append (wire cs) rest)) room
      ∙ ap some (ended_lem end (stamped clock 0 cs))
