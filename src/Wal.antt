-- ===== src/Wal.antt =====
-- src/wal.rs: the append-only log over a memory-mapped file. The mapping is a list of bytes. Its
-- size is that of a file, below 2^63, so that no sum of positions wraps. The outer `none` is a
-- panic: a range that is not in the mapping.
pub mod Bytes
pub mod Log
pub mod Read
pub mod Write
pub mod Room
pub mod Append
pub mod Scan
pub mod Reopen
pub mod Iterate
use velocity_match.Common.{
  ℕ, zero, suc, ◌+◌, ◌-◌, ◌*◌, ◌/◌, ◌%◌, Bool, true, false, Option, none, some, Result, ok, err,
  ltb, leb, ◌==◌, max, if◌then◌else◌, List, [], ◌∷◌, ◌++◌, length, replicate,
}
use velocity_match.Common.Run.Panic.{◌>>=◌}
use velocity_match.Protocol.{
  Buffer, EngineCommand, new_order, cancel_order, ProtocolError, decode_message, slice, splice,
  to_le, from_le,
}
use velocity_match.Protocol.Encode.{Written, encode_new_order, encode_cancel_order}

-- What the log uses of its libraries: the checksum of crc32fast, and whether the operating system
-- fails to open the file and give its length, to set its length, or to map it, with the error code.
pub record Platform : Type 0 where
  pub crc32 : Buffer → ℕ
  pub open_file : Option ℕ
  pub set_len : (len : ℕ) → Option ℕ
  pub map_mut : (len : ℕ) → Option ℕ

abbrev pub header_size : ℕ
header_size = 8

abbrev pub alignment : ℕ
alignment = 8

abbrev pub default_initial_size : ℕ
default_initial_size = 64 * 1024 * 1024

-- `& !(ALIGNMENT - 1)` clears the three lowest bits.
abbrev pub align_up : ℕ → ℕ
align_up n = (n + alignment - 1) / alignment * alignment

pub data WalError : Type 0 where
  io : (code : ℕ) → WalError
  protocol : ProtocolError → WalError
  corruption : (offset : ℕ) → WalError
  truncated_record : (offset : ℕ) → WalError

-- The file is the mapping, with some zeros behind it where the file was made longer and the mapping
-- then failed; `path` is not used after the opening.
pub record Wal : Type 0 where
  pub mmap : Buffer
  pub write_pos : ℕ
  pub mapped_size : ℕ
  pub zeros_behind : ℕ
  pub encode_buf : Buffer
  pub record_count : ℕ

-- What the file of a log holds.
abbrev pub file_of : Wal → Buffer
file_of w = w.mmap ++ replicate w.zeros_behind 0

abbrev pub Reply : Type 0 → Type 0
Reply A = Option (Result WalError A × Wal)

-- `u32::from_le_bytes` of four bytes of the mapping.
abbrev pub word_at : Buffer → ℕ → Option ℕ
word_at mmap p = do bytes ← slice p 4 mmap; some (from_le bytes)

-- `if end > start { mmap[start..end].fill(0) }`
abbrev pub fill : (start end : ℕ) → Buffer → Option Buffer
fill start end mmap =
    if ltb start end then splice start (replicate (end - start) 0) mmap else some mmap

unfoldable pub encode : Buffer → EngineCommand → Written ℕ
encode buf (new_order order) = encode_new_order buf order
encode buf (cancel_order order_id) = encode_cancel_order buf order_id

module _ (os : Platform) where
  -- The loop of `scan_to_end`, to the end of the valid records and their number. Each round moves on
  -- by at least a header, so one round for each byte and one more are enough.
  unfoldable pub scan_loop : ℕ → Buffer → (file_len pos count : ℕ) → Option (ℕ × ℕ)
  scan_loop zero mmap file_len pos count = none
  scan_loop (suc fuel) mmap file_len pos count =
      if ltb file_len (pos + header_size) then some (pos, count) else (do
        payload_len ← word_at mmap pos
        let record_size = align_up (header_size + payload_len)
        if payload_len == 0
            then some (pos, count)
            else (if ltb file_len (pos + record_size) then some (pos, count) else (do
              stored_crc ← word_at mmap (pos + 4)
              payload ← slice (pos + header_size) payload_len mmap
              elim (stored_crc == os.crc32 payload) [
                | true ↦ scan_loop fuel mmap file_len (pos + record_size) (count + 1)
                | false ↦ some (pos, count)
              ])))

  unfoldable pub scan_to_end : Wal → Option Wal
  unfolding scan_loop
  scan_to_end w = do
    (pos, count) ← scan_loop (w.mapped_size + 1) w.mmap w.mapped_size 0 0
    some (record w { write_pos = pos; record_count = count })

  -- The mapping of the whole file, once its length is set.
  abbrev pub mapped : Buffer → Option (Result WalError Wal)
  mapped mmap = elim (os.map_mut (length mmap)) [
    | some code ↦ some (err (io code))
    | none ↦ do
      w ← scan_to_end (record {
        mmap = mmap;
        write_pos = 0;
        mapped_size = length mmap;
        zeros_behind = 0;
        encode_buf = replicate 40 0;
        record_count = 0;
      })
      some (ok w)
  ]

  -- `file` is what the file holds; a file that is not there is created empty.
  unfoldable pub open_with_size :
      (file : Buffer) → (initial_size : ℕ) → Option (Result WalError Wal)
  unfolding scan_to_end
  open_with_size file initial_size = elim os.open_file [
    | some code ↦ some (err (io code))
    | none ↦
        if ltb (length file) initial_size
        then elim (os.set_len initial_size) [
          | some code ↦ some (err (io code))
          | none ↦ mapped (file ++ replicate (initial_size - length file) 0)
        ]
        else mapped file
  ]

  unfoldable pub open_wal : (file : Buffer) → Option (Result WalError Wal)
  unfolding open_with_size
  open_wal file = open_with_size file default_initial_size

  -- A longer file has zeros behind its old end. Where only the mapping fails, the file is longer all
  -- the same, and the old mapping stays.
  unfoldable pub ensure_capacity : Wal → (needed : ℕ) → Result WalError (Unit {0}) × Wal
  ensure_capacity w needed =
      let new_size = max (w.mapped_size * 2) (w.write_pos + needed) in
      if leb (w.write_pos + needed) w.mapped_size then (ok tt, w) else elim (os.set_len new_size) [
        | some code ↦ (err (io code), w)
        | none ↦ elim (os.map_mut new_size) [
          | some code ↦ (err (io code), record w { zeros_behind = new_size - w.mapped_size })
          | none ↦ (
            ok tt,
            record w {
              mmap = w.mmap ++ replicate (new_size - w.mapped_size) 0;
              mapped_size = new_size;
              zeros_behind = 0;
            },
          )
        ]
      ]

  -- The bytes of a record at `write_pos`: its header, its payload and its padding.
  unfoldable pub write_record : Wal → (payload_len record_size : ℕ) → Reply ℕ
  write_record w payload_len record_size = do
    let pos = w.write_pos
    payload ← slice 0 payload_len w.encode_buf
    m₁ ← splice pos (to_le 4 payload_len) w.mmap
    m₂ ← splice (pos + 4) (to_le 4 (os.crc32 payload)) m₁
    m₃ ← splice (pos + header_size) payload m₂
    let pad_start = pos + header_size + payload_len
    let pad_end = pos + record_size
    m₄ ← fill pad_start pad_end m₃
    some (
      ok (w.record_count + 1),
      record w {
        mmap = m₄;
        write_pos = w.write_pos + record_size;
        record_count = w.record_count + 1;
      },
    )

  -- `append` once there is room, or none.
  unfoldable pub append_with_room :
      (payload_len record_size : ℕ) → Result WalError (Unit {0}) × Wal → Reply ℕ
  unfolding write_record
  append_with_room payload_len record_size (ok _, w) = write_record w payload_len record_size
  append_with_room payload_len record_size (err e, w) = some (err e, w)

  -- `append` once the command is encoded.
  unfoldable pub append_encoded : Wal → Written ℕ → Reply ℕ
  unfolding ensure_capacity append_with_room
  append_encoded w (err e, buf) = some (err (protocol e), record w { encode_buf = buf })
  append_encoded w (ok payload_len, buf) =
      let record_size = align_up (header_size + payload_len) in
      append_with_room payload_len record_size
        (ensure_capacity (record w { encode_buf = buf }) record_size)

  unfoldable pub append : Wal → EngineCommand → Reply ℕ
  unfolding encode append_encoded
  append w cmd = append_encoded w (encode w.encode_buf cmd)

-- Zeros from `offset` to the end of the records.
unfoldable pub truncate_to : Wal → (offset record_count : ℕ) → Option Wal
truncate_to w offset record_count = do
  mmap ← fill offset w.write_pos w.mmap
  some (record w { mmap = mmap; write_pos = offset; record_count = record_count })

pub record WalIterator : Type 0 where
  pub mmap : Buffer
  pub read_pos : ℕ
  pub end_pos : ℕ
  pub current_record : ℕ
  pub start_record : ℕ

abbrev pub iter_from : Wal → (start_record : ℕ) → WalIterator
iter_from w start_record = record {
  mmap = w.mmap;
  read_pos = 0;
  end_pos = w.write_pos;
  current_record = 0;
  start_record = start_record;
}

-- An iterator's next item.
abbrev pub Item : Type 0
Item = Option (Result WalError (ℕ × EngineCommand))

abbrev pub command_item : ℕ → Result ProtocolError EngineCommand → Item
command_item n (ok cmd) = some (ok (n, cmd))
command_item n (err e) = some (err (protocol e))

-- The loop of `next`: one round for each record that is skipped.
unfoldable pub next : Platform → ℕ → WalIterator → Option (Item × WalIterator)
next os zero it = none
next os (suc fuel) it = if ltb it.end_pos (it.read_pos + header_size) then some (none, it) else (do
  payload_len ← word_at it.mmap it.read_pos
  let record_size = align_up (header_size + payload_len)
  if payload_len == 0
      then some (none, it)
      else (if ltb it.end_pos (it.read_pos + record_size)
          then some (some (err (truncated_record it.read_pos)), it)
          else (do
            stored_crc ← word_at it.mmap (it.read_pos + 4)
            payload ← slice (it.read_pos + header_size) payload_len it.mmap
            let it₁ = record it {
              read_pos = it.read_pos + record_size;
              current_record = it.current_record + 1;
            }
            elim (stored_crc == os.crc32 payload) [
              | false ↦ some (some (err (corruption it.read_pos)), it)
              | true ↦ elim (leb it₁.current_record it₁.start_record) [
                | true ↦ next os fuel it₁
                | false ↦ some (command_item it₁.current_record (decode_message payload), it₁)
              ]
            ])))
