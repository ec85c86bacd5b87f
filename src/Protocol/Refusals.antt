-- ===== src/Protocol/Refusals.antt =====
-- What an accepted message must look like.
use velocity_match.Common.{
  ℕ, ◌<◌, ◌≤◌, ◌≡◌, refl, ◌≢◌, inl, inr, ok, err, length, arith, ==_iff, ==_ne, ltb, ◌==◌,
  if◌then◌else◌, sym, ◌∙◌, ap, Bool-cases, ℕ_discrete,
}
use velocity_match.Common.Run.{◌>>=◌}
use velocity_match.Order.{Order}
use velocity_match.Protocol.{
  Buffer, EngineCommand, unknown_message_type, buffer_too_short, decode_new_order,
  decode_cancel_order, decode_message, message_size, decode_side, read_le, read_i64, Read,
  zero_quantity,
}

bind-ok :
    {A B : Type 0} (r : Read A) (f : A → Read B) (b : B)
    → (r >>= f) ≡ ok b
    → (a : A) × (r ≡ ok a) × (f a ≡ ok b)
bind-ok (ok a) f b h = (a, refl, h)
bind-ok (err e) f b h = cc

-- The size of the buffer and the quantity of an order that is read from it.
pub record IsRead (buf : Buffer) (o : Order) : Type 0 where
  pub long : 40 ≤ length buf
  pub positive : 0 < o.quantity
  pub no_time : o.timestamp ≡ 0

checked :
    (q : ℕ) (p o : Order)
    → p.quantity ≡ q
    → p.timestamp ≡ 0
    → ◌≡◌ {A = Read Order} (if q == 0 then err zero_quantity else ok p) (ok o)
    → (0 < o.quantity) × (o.timestamp ≡ 0)
checked q p o e t h = elim (ℕ_discrete q 0) [
  | yes z ↦ absurd (wrong (rw ((==_iff q 0).1 z) at h))
  | no ne ↦
      let same = kept (rw (==_ne q 0 ne) at h) in
      (rw (sym same) (omega (arith, ne, e)), ap (λ (o : Order). o.timestamp) (sym same) ∙ t)
]
  where
    wrong : ◌≢◌ {A = Read Order} (err zero_quantity) (ok o)
    wrong h = cc

    kept : ◌≡◌ {A = Read Order} (ok p) (ok o) → p ≡ o
    kept h = cc

-- An order that `decode_new_order` returns has a positive quantity and timestamp 0, and was read
-- from at least 40 bytes.
pub decode_new_order-IsRead :
    (buf : Buffer) (o : Order) → decode_new_order buf ≡ ok o → IsRead buf o
unfolding decode_new_order
decode_new_order-IsRead buf o h = elim (Bool-cases (ltb (length buf) 40)) [
  | inl e ↦ absurd (wrong (rw (decode_new_order, e) at h))
  | inr e ↦
      let (b, e1, h1) = bind-ok (read_le 1 buf 1) _ o (rw (decode_new_order, e) at h) in
      let (s, e2, h2) = bind-ok (decode_side b) _ o h1 in
      let (i, e3, h3) = bind-ok (read_le 8 buf 8) _ o h2 in
      let (t, e4, h4) = bind-ok (read_le 8 buf 16) _ o h3 in
      let (p, e5, h5) = bind-ok (read_i64 buf 24) _ o h4 in
      let (q, e6, h6) = bind-ok (read_le 8 buf 32) _ o h5 in
      let (pos', time) = checked q _ o refl refl h6 in
      record { long = ground (arith, e); positive = pos'; no_time = time }
]
  where
    wrong : ◌≢◌ {A = Read Order} (err buffer_too_short) (ok o)
    wrong h = cc

-- The first byte of a message that is accepted names its type, and the buffer holds the whole of
-- it.
pub record IsAccepted (buf : Buffer) : Type 0 where
  pub msg_type : ℕ
  pub size : ℕ
  pub named : read_le 1 buf 0 ≡ ok msg_type
  pub sized : message_size msg_type ≡ ok size
  pub whole : size ≤ length buf

decode_cancel_order-long :
    (buf : Buffer) (id : ℕ) → decode_cancel_order buf ≡ ok id → 16 ≤ length buf
unfolding decode_cancel_order
decode_cancel_order-long buf id h = elim (Bool-cases (ltb (length buf) 16)) [
  | inl e ↦ absurd (wrong (rw (decode_cancel_order, e) at h))
  | inr e ↦ ground (arith, e)
]
  where
    wrong : ◌≢◌ {A = Read ℕ} (err buffer_too_short) (ok id)
    wrong h = cc

-- A message that `decode_message` accepts is of a type that `message_size` knows, and the buffer
-- is at least as long as that size.
pub decode_message-IsAccepted :
    (buf : Buffer) (c : EngineCommand) → decode_message buf ≡ ok c → IsAccepted buf
unfolding decode_message message_size
decode_message-IsAccepted buf c h =
    let (t, e, h1) = bind-ok (read_le 1 buf 0) _ c h in
    elim (Bool-cases (t == 1)) [
      | inl new ↦
          let (o, e2, h2) = bind-ok (decode_new_order buf) _ c (rw new at h1) in
          record {
            msg_type = t;
            size = 40;
            named = e;
            sized = rw (message_size, new) refl;
            whole = (decode_new_order-IsRead buf o e2).long;
          }
      | inr old ↦ elim (Bool-cases (t == 2)) [
        | inl cancel ↦
            let (id, e2, h2) = bind-ok (decode_cancel_order buf) _ c (rw (old, cancel) at h1) in
            record {
              msg_type = t;
              size = 16;
              named = e;
              sized = rw (message_size, old) (rw cancel refl);
              whole = decode_cancel_order-long buf id e2;
            }
        | inr other ↦ absurd (wrong t (rw (old, other) at h1))
      ]
    ]
  where
    wrong : (t : ℕ) → ◌≢◌ {A = Read EngineCommand} (err (unknown_message_type t)) (ok c)
    wrong t h = cc
