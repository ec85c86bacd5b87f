-- ===== src/Gateway.antt =====
-- src/gateway.rs: the client's byte stream on one side of the ring, the matching loop on the other.
-- Sockets, threads and the clock are the data that they give.
pub mod Pushing
pub mod Wire
pub mod Client
pub mod Reports
pub mod Process
pub mod Session
pub mod Resume
pub mod Directory
pub mod Stored
pub mod Unlogged
pub mod Sent
pub mod Packets
pub mod Crash
pub mod Running
use velocity_match.Common.{
  ℕ, zero, suc, ◌+◌, ◌%◌, ◌^◌, Bool, true, false, Option, none, some, Result, ok, err, ltb, leb,
  if◌then◌else◌, List, [], ◌∷◌, ◌++◌, length, take, drop, replicate,
}
use velocity_match.Common.Run.Panic.{◌>>=◌}
use velocity_match.Order.{Order}
use velocity_match.Protocol.{
  Buffer, EngineCommand, new_order, cancel_order, ProtocolError, decode_message, message_size,
}
use velocity_match.Protocol.Encode.{Written, encode_execution_report}
use velocity_match.Matching
use velocity_match.Matching.{
  Fill, MatchingError, AddOrderResult, MatchingEngine, with_capacity, add_order,
}
use velocity_match.Snapshot.{Library, File, Snapshot, capture, save}
use velocity_match.Recovery.{RecoveryError, recover}
use velocity_match.Wal.{Platform, Wal, append}

pub data GatewayError : Type 0 where
  io : (code : ℕ) → GatewayError
  protocol : ProtocolError → GatewayError

-- How a client's stream ends, behind its bytes.
pub data StreamEnd : Type 0 where
  unexpected_eof connection_reset : StreamEnd
  failed : (code : ℕ) → StreamEnd

-- What `handle_client` comes to: the commands that went into the ring, its result, and whether it
-- set the flag of the shutdown.
pub record Handled : Type 0 where
  pub pushed : List EngineCommand
  pub result : Result GatewayError (Unit {0})
  pub shutdown : Bool

-- The end of the loop by a read that the stream's end cuts short.
abbrev pub ended : StreamEnd → List EngineCommand → Handled
ended unexpected_eof pushed = record { pushed = pushed; result = ok tt; shutdown = true }
ended connection_reset pushed = record { pushed = pushed; result = ok tt; shutdown = true }
ended (failed code) pushed = record { pushed = pushed; result = err (io code); shutdown = false }

-- The clock's reading replaces the timestamp of an order.
abbrev pub stamp : (now : ℕ) → EngineCommand → EngineCommand
stamp now (new_order order) = new_order (record order { timestamp = now })
stamp now (cancel_order order_id) = cancel_order order_id

-- The loop that pushes one command until the ring takes it. `answers` are what the calls of `push`
-- answer from here on: `true` is `Ok`, `false` is `Full`, which gives the command back for the next
-- call. What is left are the answers to the calls behind it; `none` where the loop still waits when
-- the answers end.
unfoldable pub push_loop : (answers : List Bool) → Option (List Bool)
push_loop [] = none
push_loop (true ∷ answers) = some answers
push_loop (false ∷ answers) = push_loop answers

-- The loop of `handle_client`, where the ring has taken each command of `pushed`. `clock` gives the
-- time at the command of a number. Each round takes a byte, so one round for each byte and one more
-- are enough.
unfoldable pub client_loop :
    (clock : ℕ → ℕ)
    → StreamEnd
    → ℕ
    → (answers : List Bool) (stream : Buffer) (pushed : List EngineCommand) → Option Handled
unfolding push_loop
client_loop clock end zero answers stream pushed = none
client_loop clock end (suc fuel) answers [] pushed = some (ended end pushed)
client_loop clock end (suc fuel) answers (msg_type ∷ stream) pushed = elim (message_size msg_type) [
  | err e ↦ some (record { pushed = pushed; result = err (protocol e); shutdown = false })
  | ok size ↦ elim (ltb (length stream + 1) size) [
    | true ↦ some (ended end pushed)
    | false ↦ elim (decode_message (take size (msg_type ∷ stream))) [
      | err e ↦ some (record { pushed = pushed; result = err (protocol e); shutdown = false })
      | ok cmd ↦ elim (push_loop answers) [
        | none ↦ none
        | some later ↦
            client_loop clock end fuel later (drop size (msg_type ∷ stream))
              (pushed ++ (stamp (clock (length pushed)) cmd ∷ []))
      ]
    ]
  ]
]

-- `none` where a push still waits for the ring when the answers end.
unfoldable pub handle_client :
    (clock : ℕ → ℕ) → (answers : List Bool) (stream : Buffer) → StreamEnd → Option Handled
unfolding client_loop
handle_client clock answers stream end = client_loop clock end (length stream + 1) answers stream []

-- What the matching thread holds, with the packets that it has handed to the socket.
pub record Matcher : Type 0 where
  pub engine : MatchingEngine
  pub wal : Option Wal
  pub seq_num : ℕ
  pub report_buf : Buffer
  pub packets : List Buffer

-- A fill's report; a report that does not encode is not sent.
abbrev pub send_report : Matcher → ℕ → Written ℕ → Matcher
send_report m seq (ok _, buf) = record m {
  seq_num = seq;
  report_buf = buf;
  packets = m.packets ++ (buf ∷ []);
}
send_report m seq (err _, buf) = record m { seq_num = seq; report_buf = buf }

unfoldable pub report_fills : Matcher → (timestamp : ℕ) → List Fill → Matcher
report_fills m timestamp [] = m
report_fills m timestamp (fill ∷ fills) =
    let seq = (m.seq_num + 1) % 2 ^ 32 in
    report_fills (send_report m seq (encode_execution_report m.report_buf seq fill timestamp))
      timestamp fills

-- The log gets the command first; that it fails is ignored.
unfoldable pub log_command : Platform → Option Wal → EngineCommand → Option (Option Wal)
log_command os none cmd = some none
log_command os (some w) cmd = do (_, w₁) ← append os w cmd; some (some w₁)

abbrev pub report_result : Matcher → (timestamp : ℕ) → Result MatchingError AddOrderResult → Matcher
report_result m timestamp (ok result) = report_fills m timestamp result.fills
report_result m timestamp (err _) = m

unfoldable pub process_command : Platform → Matcher → EngineCommand → Option Matcher
unfolding report_fills log_command
process_command os m (new_order order) = do
  wal ← log_command os m.wal (new_order order)
  (result, engine) ← add_order m.engine order
  some (report_result (record m { wal = wal; engine = engine }) order.timestamp result)
process_command os m (cancel_order order_id) = do
  wal ← log_command os m.wal (cancel_order order_id)
  (_, engine) ← Matching.cancel_order m.engine order_id
  some (record m { wal = wal; engine = engine })

-- What the thread of `matching_loop` holds besides: the directory of the snapshots, if there is one,
-- and the number of commands since the last snapshot.
pub record Loop : Type 0 where
  pub matcher : Matcher
  pub snapshot_dir : Option (List File)
  pub cmds_since_snapshot : ℕ

-- The state in which `matching_loop` begins.
abbrev pub first_loop : MatchingEngine → Option Wal → (snapshot_dir : Option (List File)) → Loop
first_loop engine wal snapshot_dir = record {
  matcher = record {
    engine = engine;
    wal = wal;
    seq_num = 0;
    report_buf = replicate 48 0;
    packets = [];
  };
  snapshot_dir = snapshot_dir;
  cmds_since_snapshot = 0;
}

-- What the data directory holds, and the error, if any, of making it.
pub record DataDir : Type 0 where
  pub create_dir : Option ℕ
  pub snapshots : List File
  pub wal_file : Buffer

-- The addresses are left out.
pub record GatewayConfig : Type 0 where
  pub ring_capacity : ℕ
  pub arena_capacity : ℕ
  pub data_dir : Option DataDir
  pub snapshot_interval : ℕ

abbrev pub default_config : GatewayConfig
default_config = record {
  ring_capacity = 65536;
  arena_capacity = 1048576;
  data_dir = none;
  snapshot_interval = 10000;
}

-- A recovery that fails leads to a new engine without a log.
abbrev pub resumed :
    (arena_capacity : ℕ) → List File → Result RecoveryError (MatchingEngine × Wal) → Loop
resumed arena_capacity snapshots (ok (engine, wal)) = first_loop engine (some wal) (some snapshots)
resumed arena_capacity snapshots (err _) = first_loop (with_capacity arena_capacity) none none

-- The start of `run`: what the matching thread is given.
unfoldable pub start : Platform → Library → GatewayConfig → Option Loop
start os lib config = elim config.data_dir [
  | none ↦ some (first_loop (with_capacity config.arena_capacity) none none)
  | some dir ↦ do
    recovered ← recover os lib dir.create_dir dir.snapshots dir.wal_file config.arena_capacity
    some (resumed config.arena_capacity dir.snapshots recovered)
]

-- A snapshot is due. That it is not saved is ignored, and so is the flush of the log.
unfoldable pub take_snapshot : Library → Loop → Wal → List File → Option Loop
take_snapshot lib l w dir = do
  snap ← capture lib l.matcher.engine w.record_count
  some (record l { snapshot_dir = some (save lib snap dir).1; cmds_since_snapshot = 0 })

abbrev pub maybe_snapshot :
    Library → (snapshot_interval : ℕ) → Loop → Option Wal → Option (List File) → Option Loop
maybe_snapshot lib interval l (some w) (some dir) =
    if leb interval l.cmds_since_snapshot then take_snapshot lib l w dir else some l
maybe_snapshot lib interval l none dir = some l
maybe_snapshot lib interval l (some w) none = some l

-- What a call of `pop` gives the loop: a command, or nothing, with the flag as it is read then.
pub data Poll : Type 0 where
  got : EngineCommand → Poll
  nothing : (shutdown : Bool) → Poll

-- The commands that are left after the shutdown; the first empty `pop` ends the loop.
unfoldable pub drain : Platform → Loop → List Poll → Option Loop
unfolding process_command
drain os l [] = some l
drain os l (nothing _ ∷ polls) = some l
drain os l (got cmd ∷ polls) = do
  m ← process_command os l.matcher cmd
  drain os (record l { matcher = m }) polls

-- The loop over the calls of `pop`, as far as they go.
unfoldable pub matching_loop :
    Platform → Library → (snapshot_interval : ℕ) → Loop → List Poll → Option Loop
unfolding process_command take_snapshot drain
matching_loop os lib interval l [] = some l
matching_loop os lib interval l (nothing false ∷ polls) = matching_loop os lib interval l polls
matching_loop os lib interval l (nothing true ∷ polls) = drain os l polls
matching_loop os lib interval l (got cmd ∷ polls) = do
  m ← process_command os l.matcher cmd
  let l₁ = record l { matcher = m; cmds_since_snapshot = (l.cmds_since_snapshot + 1) % 2 ^ 64 }
  l₂ ← maybe_snapshot lib interval l₁ m.wal l₁.snapshot_dir
  matching_loop os lib interval l₂ polls
