-- ===== src/Examples.antt =====
-- Runs at concrete inputs.
mod Arena
mod Book
mod Coder
mod Matching
mod Protocol
mod Log
mod Ring
mod Session
mod Subscriber
mod Twins
mod Snapshot
