-- ===== src/Gateway/Wire.antt =====
-- What a client's bytes stand for, and what `handle_client` is to make of them.
use velocity_match.Common.{
  ℕ, ◌+◌, ◌<◌, ◌≡◌, refl, Bool, true, false, Result, ok, err, List, [], ◌∷◌, ◌++◌, length,
}
use velocity_match.Protocol.{Buffer, EngineCommand, new_order, cancel_order, message_size}
use velocity_match.Wal.Log.{stored, payload, payload_size}
use velocity_match.Gateway.{
  GatewayError, io, StreamEnd, unexpected_eof, connection_reset, failed, Handled, ended, stamp,
}

-- The commands with the clock's readings from the `n`th on in place of the orders' timestamps.
abbrev pub stamped : (clock : ℕ → ℕ) → ℕ → List EngineCommand → List EngineCommand
stamped clock n [] = []
stamped clock n (new_order order ∷ cs) =
    new_order (record order { timestamp = clock n }) ∷ stamped clock (n + 1) cs
stamped clock n (cancel_order order_id ∷ cs) = cancel_order order_id ∷ stamped clock (n + 1) cs

-- The result that a stream's end stands for: only a read that fails is an error.
abbrev pub answer_of : StreamEnd → Result GatewayError (Unit {0})
answer_of unexpected_eof = ok tt
answer_of connection_reset = ok tt
answer_of (failed code) = err (io code)

-- Whether the shutdown is asked for: only behind a stream that ends without an error.
abbrev pub closes : StreamEnd → Bool
closes unexpected_eof = true
closes connection_reset = true
closes (failed code) = false

-- What the handling of a client is to come to.
abbrev pub handled_with : StreamEnd → List EngineCommand → Handled
handled_with end cs = record { pushed = cs; result = answer_of end; shutdown = closes end }

pub ended_lem : (end : StreamEnd) (cs : List EngineCommand) → ended end cs ≡ handled_with end cs
ended_lem unexpected_eof cs = refl
ended_lem connection_reset cs = refl
ended_lem (failed code) cs = refl

pub stamped-stamp :
    (clock : ℕ → ℕ) (n : ℕ) (c : EngineCommand) (cs : List EngineCommand)
    → stamp (clock n) c ∷ stamped clock (n + 1) cs ≡ stamped clock n (c ∷ cs)
stamped-stamp clock n (new_order order) cs = refl
stamped-stamp clock n (cancel_order order_id) cs = refl

-- The bytes of the messages of some commands.
abbrev pub wire : List EngineCommand → Buffer
wire [] = []
wire (c ∷ cs) = payload c ++ wire cs

-- Nothing, or the beginning of a message.
pub data IsPartial : Buffer → Type 0 where
  nothing_more : IsPartial []
  partial :
      (t : ℕ) (bytes : Buffer) (size : ℕ)
      → message_size t ≡ ok size
      → length bytes + 1 < size
      → IsPartial (t ∷ bytes)

pub stamp-stored : (now : ℕ) (c : EngineCommand) → stamp now (stored c) ≡ stamp now c
stamp-stored now (new_order order) = refl
stamp-stored now (cancel_order order_id) = refl

-- A payload starts with the type of its message.
pub record Starts (c : EngineCommand) : Type 0 where
  pub type_byte : ℕ
  pub others : Buffer
  pub bytes : payload c ≡ type_byte ∷ others
  pub size : message_size type_byte ≡ ok (payload_size c)

pub payload-Starts : (c : EngineCommand) → Starts c
unfolding message_size
payload-Starts (new_order order) = record { type_byte = 1; others = _; bytes = refl; size = refl }
payload-Starts (cancel_order order_id) = record {
  type_byte = 2;
  others = _;
  bytes = refl;
  size = refl;
}
