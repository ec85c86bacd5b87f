-- ===== src/Examples/Log.antt =====
-- The log, the recovery and the gateway at concrete inputs, on a machine that fails no call.
use velocity_match.Common.{
  Bool, true, ok, err, ℕ, ◌+◌, ◌%◌, ◌^◌, ◌≡◌, refl, ◌⊎◌, pos, false, none, some, List, [], ◌∷◌,
  ◌++◌, All, replicate, arith,
}
use velocity_match.Order.{bid, ask, Order}
use velocity_match.Protocol.{Buffer, EngineCommand, new_order, cancel_order}
use velocity_match.Protocol.RoundTrip.{FitsReport}
use velocity_match.Matching
use velocity_match.Matching.{MatchingEngine, Fill}
use velocity_match.Wal.{Platform, Wal, io, ensure_capacity, open_with_size, iter_from, next}
use velocity_match.Wal.Log.{Fits, logged, IsLog}
use velocity_match.Wal.Read.{IsCrc}
use velocity_match.Wal.Append.{Appended, Refused, append-cases}
use velocity_match.Wal.Scan.{Scanned, scan_loop-Scanned}
use velocity_match.Wal.Reopen.{Works, Opened, open_with_size-Opened}
use velocity_match.Wal.Iterate.{NextIs, next-NextIs, iter_from-At}
use velocity_match.Recovery.{recover_log}
use velocity_match.Recovery.Replay.{replay_all, Recovers, recover_log-Recovers}
use velocity_match.Recovery.Sound.{IsSound, with_capacity-IsSound}
use velocity_match.Gateway.{
  failed, handle_client, Matcher, report_fills, process_command, Loop, Poll, got, nothing,
  matching_loop,
}
use velocity_match.Gateway.Client.{Served, handle_client-Served}
use velocity_match.Gateway.Reports.{Reported, report_fills-Reported}
use velocity_match.Gateway.Process.{Processed, process_command-Processed}
use velocity_match.Gateway.Crash.{Follows, Survives, matching_loop-Survives}
use velocity_match.Snapshot.{Library}

abbrev sum : Buffer → ℕ
sum [] = 0
sum (b ∷ bs) = b + sum bs

-- A machine with a sum for its checksum.
abbrev pub os : Platform
os = record {
  crc32 = λ bytes. sum bytes % 2 ^ 32;
  open_file = none;
  set_len = λ n. none;
  map_mut = λ n. none;
}

pub os-IsCrc : IsCrc os
os-IsCrc bytes = omega arith

pub os-Works : Works os
os-Works = record { opens = refl; sets = λ n. refl; maps = λ n. refl }

abbrev sell : Order
sell = record { id = 1; trader_id = 7; side = ask; price = pos 100; quantity = 10; timestamp = 1 }

abbrev buy : Order
buy = record { id = 2; trader_id = 8; side = bid; price = pos 101; quantity = 4; timestamp = 2 }

abbrev before : List EngineCommand
before = new_order sell ∷ []

abbrev pub after : List EngineCommand
after = new_order buy ∷ cancel_order 1 ∷ []

sell-Fits : Fits (new_order sell)
sell-Fits = record {
  id = omega arith;
  trader_id = omega arith;
  price = (omega arith, omega arith);
  positive = omega arith;
  quantity = omega arith;
}

buy-Fits : Fits (new_order buy)
buy-Fits = record {
  id = omega arith;
  trader_id = omega arith;
  price = (omega arith, omega arith);
  positive = omega arith;
  quantity = omega arith;
}

before-Fits : All Fits before
before-Fits = (sell-Fits, tt)

pub after-Fits : All Fits after
after-Fits = (buy-Fits, (omega arith, tt))

-- A machine that makes a file longer and then fails to map it.
abbrev unmapped : Platform
unmapped = record os { map_mut = λ n. some 12 }

-- A log of one record in 60 bytes.
abbrev file : Buffer
file = logged os before ++ replicate 12 0

abbrev log : Wal
log = record {
  mmap = file;
  write_pos = 48;
  mapped_size = 60;
  zeros_behind = 0;
  encode_buf = replicate 40 0;
  record_count = 1;
}

log-IsLog : IsLog os log before (replicate 12 0)
log-IsLog = record {
  bytes = refl;
  pos = refl;
  size = refl;
  buf = refl;
  count = refl;
  fits = before-Fits;
}

append-cases_example :
    Appended os log before (replicate 12 0) (new_order buy)
    ⊎ Refused os log before (replicate 12 0) (new_order buy)
append-cases_example =
    append-cases os log before (replicate 12 0) (new_order buy) log-IsLog buy-Fits

-- The mapping stays, and the file has 60 zeros more.
file_grows : ensure_capacity unmapped log 40 ≡ (err (io 12), record log { zeros_behind = 60 })
unfolding ensure_capacity
file_grows = refl

scan_loop-Scanned_example : Scanned os 61 file 0 0
scan_loop-Scanned_example = scan_loop-Scanned os 61 file 0 0 (omega arith) (omega arith)

open_with_size-Opened_example : Opened os (open_with_size os file 100) before
open_with_size-Opened_example =
    open_with_size-Opened os os-IsCrc os-Works before before-Fits file 12 100 refl

next-NextIs_example : NextIs os 0 [] before (next os 61 (iter_from log 0))
next-NextIs_example =
    next-NextIs os os-IsCrc 61 (iter_from log 0) [] before
      (iter_from-At os log before (replicate 12 0) 0 log-IsLog) (omega arith)

abbrev pub engine : MatchingEngine
engine = Matching.with_capacity 4

recover_log-Recovers_example : Recovers os engine 0 before (recover_log os file (engine, 0))
recover_log-Recovers_example =
    recover_log-Recovers os os-IsCrc os-Works before before-Fits 12 engine 0

abbrev pub clock : ℕ → ℕ
clock n = 1000 + n

-- A ring that is full at first, and then takes every command.
abbrev taking : List Bool
taking = false ∷ true ∷ true ∷ true ∷ []

handle_client-Served_example : Served (handle_client clock taking (9 ∷ 9 ∷ []) (failed 5))
handle_client-Served_example =
    handle_client-Served clock (failed 5) taking (9 ∷ 9 ∷ []) (omega arith)

abbrev matcher : Matcher
matcher = record {
  engine = engine;
  wal = some log;
  seq_num = 4294967295;
  report_buf = replicate 48 0;
  packets = [];
}

abbrev fills : List Fill
fills =
    record {
      taker_order_id = 2;
      maker_order_id = 1;
      price = pos 100;
      quantity = 4;
      maker_fully_filled = false;
    }
    ∷ []

fills-FitReports : All FitsReport fills
fills-FitReports = (
  record {
    taker_order_id = omega arith;
    maker_order_id = omega arith;
    price = (omega arith, omega arith);
    quantity = omega arith;
  },
  tt,
)

report_fills-Reported_example : Reported matcher 2 fills (report_fills matcher 2 fills)
report_fills-Reported_example =
    report_fills-Reported matcher 2 fills refl fills-FitReports (omega arith)

pub engine-IsSound : IsSound engine
engine-IsSound = with_capacity-IsSound 4 (omega arith)

process_command-Processed_example :
    Processed os engine before
      (replicate 12 0)
      (new_order buy)
      (process_command os matcher (new_order buy))
process_command-Processed_example =
    process_command-Processed os matcher log before (replicate 12 0) (new_order buy) refl log-IsLog
      engine-IsSound buy-Fits

-- Libraries whose file system fails each write.
abbrev pub lib : Library
lib = record {
  serialize_orders = λ orders. [];
  serialize_snapshot = λ s. ok [];
  deserialize_snapshot = λ bytes. err 1;
  crc32 = λ bytes. 9;
  create_dir_all = none;
  read_dir = none;
  not_found = 2;
  write_file = λ name. some 5;
  rename_file = λ name. none;
  read_file = λ name. none;
}

-- A log without records, and the loop of a new engine.
abbrev pub new_log : Wal
new_log = record {
  mmap = replicate 60 0;
  write_pos = 0;
  mapped_size = 60;
  zeros_behind = 0;
  encode_buf = replicate 40 0;
  record_count = 0;
}

pub new_log-IsLog : IsLog os new_log [] (replicate 60 0)
new_log-IsLog = record {
  bytes = refl;
  pos = refl;
  size = refl;
  buf = refl;
  count = refl;
  fits = tt;
}

abbrev pub loop : Loop
loop = record {
  matcher = record matcher { wal = some new_log };
  snapshot_dir = some [];
  cmds_since_snapshot = 0;
}

pub engine-Follows : Follows engine 0 [] engine
unfolding replay_all
engine-Follows = record {
  seen = omega arith;
  engine' = engine;
  done = refl;
  twins = record {
    view = engine-IsSound.view;
    view' = engine-IsSound.view;
    book = engine-IsSound.book;
    book' = engine-IsSound.book;
    alike = record { same = λ s p. refl; room = refl };
  };
}

-- A command, an empty ring, another command, and the shutdown.
abbrev pub polls : List Poll
polls =
    got (new_order buy) ∷ nothing false ∷ nothing true ∷ got (cancel_order 1) ∷ nothing true ∷ []

matching_loop-Survives_example :
    Survives os engine 0 ([] ++ after) (matching_loop os lib 1 loop polls)
matching_loop-Survives_example =
    matching_loop-Survives os os-IsCrc os-Works lib 1 loop new_log 60 [] polls engine 0 refl
      new_log-IsLog engine-IsSound engine-Follows after-Fits
