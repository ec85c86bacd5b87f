-- ===== src/Lib.antt =====
-- Ferrox, a limit order matching engine: a model of its core and what holds of it.
--
-- The parts, and the code that each file is about:
--   Order      src/order.rs: `Side`, `Order`, `Order::new`.
--   Arena      src/arena.rs: the pool of order nodes with its free list (`Arena::new`, `alloc`,
--              `dealloc`) and the doubly linked queue of a price level (`push_back`, `pop_front`,
--              `remove`). `Vec<OrderNode>` is a function from an index to a node or none.
--   Book       src/book.rs: `OrderBook`, two ordered maps from a price to its level, the cached best
--              prices, the index from an id to a node, and the arena.
--   Matching   src/matching.rs: `MatchingEngine::add_order`, `cancel_order`, `restore_from_orders`.
--              Matching/Twins is about two engines with the same orders in the same queues.
--   Protocol   src/protocol.rs: the decoders of the wire messages over lists of bytes, and in
--              Protocol/Encode the encoders.
--   Ring       src/ring.rs: `ring_buffer`, `Producer::push`, `Consumer::pop` and the drop. Ring/Steps
--              has the interleavings of the two sides.
--   Wal        src/wal.rs: `Wal::open_with_size`, `append`, `truncate_to`, `iter_from` and the
--              iterator's `next`, over the bytes of the mapping, with the zeros that the file has
--              behind it. Wal/Log says which bytes are a log.
--   Snapshot   src/snapshot.rs: `capture`, `save`, `load_latest`, `restore`; a directory is a list of
--              files. Snapshot/Names is about the order of the file names.
--   Recovery   src/recovery.rs: `recover`, the engine from the latest snapshot and the log behind it.
--   Gateway    src/gateway.rs: `handle_client` over the client's bytes, `process_command` and
--              `matching_loop` over what the ring's `pop` gives, and the start of `run`. The loop that
--              pushes a command until the ring takes it goes over the ring's answers.
--              Gateway/Session is `run` with its two threads over the ring, and
--              Gateway/Session/Answers has the ring's answers in it; Gateway/Wire says what a
--              client's bytes stand for; Gateway/Crash joins
--              the gateway with Recovery, and Gateway/Directory with the snapshots as well;
--              Gateway/Sent and Gateway/Packets are about the reports of a whole run.
--   Main       src/main.rs: `main`.
--   Subscriber examples/subscriber.rs: the loop over the datagrams of the reports, as the lines that
--              it prints.
--   Common     The shared types: integers, results, panics, ordered maps, lists, and UTF-8.
--   Examples   Runs at concrete inputs.
--
-- An incoming order goes to the engine, which takes quantity off the front orders of the book's
-- other side (`peek_front`, `reduce_front_quantity`) and inserts the rest (`insert_order`); the
-- book keeps its orders in nodes of the arena. Around the engine, `handle_client` decodes a
-- client's messages and pushes them into the ring; the matching thread pops them, and
-- `process_command` first appends each to the log, then gives it to the engine, and sends a
-- report of each fill of a result without an error. From time to time the resting orders go to a
-- snapshot. `recover` restores the latest snapshot and replays the records of the log that it
-- has not seen.
--
-- How state is modelled. A method that takes `&mut self` is a function that returns the state it
-- leaves, also where it fails. `Result` is a value; a panic (an index out of range) is an absent
-- result. `u32` and `u64` fields are numbers, with the wrap-around of a release build written
-- out (`% 2 ^ 32`, `% 2 ^ 64`); prices are integers. `BTreeMap` and `HashMap` are sorted lists
-- of entries; no code reads a `HashMap` in its order. `Arena.Level.IsLevel` says when a level
-- stands for a queue, `Arena.Pool.IsPool` when the free list is right, and `Book.View.IsBook`
-- when a book stands for a view: a queue of orders for each side and price.
-- `Matching.Trades.Trades` is price-time priority on views alone. `Wal.Log.IsLog` says when a
-- log holds the records of some commands, and `Ring.Steps.Reach` which states of the ring, with
-- what was sent and received, the steps of the two sides lead to. `Gateway.Session.Session` adds
-- the commands that the client's thread has left to push, the shutdown flag and the loops of the
-- matching thread; a step is one access to shared memory, and the steps of the two threads come
-- in any order.
--
-- Recovery brings back another representation of the engine that was lost: orders may stand in
-- other nodes, and their timestamps are not in the log. `Matching.Twins.Alike` says that two
-- views have the same orders in the same queues but for the timestamps, with as many free nodes,
-- and `Recovery.Twins.AreTwins` that two engines stand for such views. `Gateway.Directory.Backs`
-- says that the files of the snapshots and the log behind the latest of them lead to a twin of
-- an engine.
--
-- What is a parameter. `Wal.Platform` and `Snapshot.Library` hold the checksum of crc32fast, the
-- coders of bincode and the failures of the operating system; what a theorem assumes of them is
-- among its hypotheses (`Wal.Read.IsCrc`, `Wal.Reopen.Works`, `Snapshot.Latest.Faithful`).
--
-- Fuel. The matching loop has one round for each resting order and one more: each round but the
-- last takes an order off the book, or is the last to trade. The walk of `all_resting_orders`
-- has a round for each node of the arena and one more. The scan of the log and the iterator's
-- `next` move on by at least a header in each round and have a round for each byte and one more;
-- so has the replay, whose rounds take a record each, and the loop over a client's bytes, whose
-- rounds take a message each. The loop that pushes a command has a round for each answer of the
-- ring; it is not done where the answers end before one that takes the command. The drop of the
-- ring has a round for each slot and one more.
--
-- Not modelled: the sockets and the clock of the gateway, which are the data that they give, and
-- its messages on the standard error; `flush_async` of the log; the padding to cache lines and
-- the memory orderings of the ring and of the shutdown flag, whose accesses are taken in one
-- order; what a failed write leaves of a temporary file, and a failed opening of the log file;
-- the texts of errors, and the benchmarks. The spare capacity of vectors and maps and
-- `debug_assert!` are left out.
pub mod Common
pub mod Order
pub mod Arena
pub mod Book
pub mod Matching
pub mod Protocol
pub mod Ring
pub mod Wal
pub mod Snapshot
pub mod Recovery
pub mod Gateway
pub mod Main
pub mod Subscriber
pub mod Examples
