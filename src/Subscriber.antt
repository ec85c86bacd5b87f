-- ===== src/Subscriber.antt =====
-- examples/subscriber.rs: the loop over the datagrams of the execution reports, as the lines that it
-- prints. The socket is the data that it gives.
pub mod Losses
use velocity_match.Common.{
  ℕ, ◌+◌, ◌-◌, ◌%◌, ◌^◌, Bool, true, false, Result, ok, err, ltb, ◌==◌, if◌then◌else◌, List, [],
  ◌∷◌, ◌++◌, length, take, drop, replicate,
}
use velocity_match.Protocol.{
  Buffer, ExecutionReport, ProtocolError, decode_execution_report, execution_report_size,
}

-- What `recv_from` gives: a datagram, or an error.
pub data Reception : Type 0 where
  received : (datagram : Buffer) → Reception
  failed : (code : ℕ) → Reception

-- A line of the output; the address of the sender is left out.
pub data Line : Type 0 where
  recv_error : (code : ℕ) → Line
  short_packet : (n : ℕ) → Line
  decode_error : ProtocolError → Line
  gap : (expected got missing : ℕ) → Line
  report : ExecutionReport → Line

pub record Subscriber : Type 0 where
  pub buf : Buffer
  pub expected_seq : ℕ

abbrev pub new : Subscriber
new = record { buf = replicate 48 0; expected_seq = 1 }

-- The line of a gap, if there is one.
unfoldable pub gap_lines : (expected got : ℕ) → List Line
gap_lines expected got =
    if got == expected then [] else gap expected got ((got + 2 ^ 32 - expected) % 2 ^ 32) ∷ []

-- A report that was decoded, in the buffer `buf`.
abbrev pub print_report : Subscriber → ExecutionReport → List Line × Subscriber
print_report s r = (
  gap_lines s.expected_seq r.seq_num ++ (report r ∷ []),
  record s { expected_seq = (r.seq_num + 1) % 2 ^ 32 },
)

-- One round of the loop. A datagram fills the buffer from its start; what does not fit is lost, and
-- the bytes behind a short one stay.
unfoldable pub handle : Subscriber → Reception → List Line × Subscriber
unfolding gap_lines
handle s (failed code) = (recv_error code ∷ [], s)
handle s (received datagram) =
    let bytes = take 48 datagram in
    let s₁ = record s { buf = bytes ++ drop (length bytes) s.buf } in
    if ltb (length bytes) execution_report_size
    then (short_packet (length bytes) ∷ [], s₁)
    else elim (decode_execution_report s₁.buf) [
      | err e ↦ (decode_error e ∷ [], s₁)
      | ok r ↦ print_report s₁ r
    ]

-- The lines of the rounds so far.
unfoldable pub listen : Subscriber → List Reception → List Line
unfolding handle
listen s [] = []
listen s (r ∷ rs) = let (lines, s₁) = handle s r in lines ++ listen s₁ rs
