-- ===== src/Examples/Session.antt =====
-- A run of both threads over a ring of two slots, with two commands.
use velocity_match.Common.{
  pos, ℕ, inl, ◌≡◌, refl, true, Option, none, some, List, [], ◌∷◌, ◌++◌, All, arith,
}
use velocity_match.Order.{Side, Order}
use velocity_match.Protocol.{EngineCommand, new_order}
use velocity_match.Matching
use velocity_match.Matching.{MatchingEngine}
use velocity_match.Ring.{
  System, Pushing, Popping, Event, ring_buffer, push_call, push_step, pop_call, pop_step,
}
use velocity_match.Snapshot.{load_latest, first_valid, sort}
use velocity_match.Arena
use velocity_match.Book
use velocity_match.Examples.Coder.{coder, coder-Faithful}
use velocity_match.Examples.Log
use velocity_match.Gateway.Directory.{Backs, Stored}
use velocity_match.Gateway.Stored.{matching_loop-Stored}
use velocity_match.Gateway.{matching_loop}
use velocity_match.Gateway.Session.Restart.{IsReady, Survived, run-Survived}
use velocity_match.Examples.Log.{engine, engine-IsSound, engine-Follows, os, os-IsCrc, os-Works}
use velocity_match.Wal.Log.{Fits}
use velocity_match.Recovery.{starting_engine}
use velocity_match.Gateway.{Poll, got, nothing, unexpected_eof, GatewayConfig}
use velocity_match.Gateway.Wire.{stamped, wire, nothing_more}
use velocity_match.Gateway.Running.{taken}
use velocity_match.Gateway.Session.{
  Session, Phase, begin, call, push, shut, ask, pop, check, in_loop, in_drain, Network, run,
}
use velocity_match.Gateway.Session.Answers.{answers}
use velocity_match.Gateway.Session.Market.{Published, run-Published}
use velocity_match.Gateway.Session.Fresh.{Finished, run-Finished}
use velocity_match.Gateway.Session.Complete.{Session-taken}

-- An order, and one that trades with it.
abbrev sell : Order
sell = record {
  id = 1;
  trader_id = 7;
  side = Side.ask;
  price = pos 100;
  quantity = 10;
  timestamp = 0;
}

abbrev buy : Order
buy = record {
  id = 2;
  trader_id = 8;
  side = Side.bid;
  price = pos 101;
  quantity = 4;
  timestamp = 0;
}

abbrev commands : List EngineCommand
commands = new_order sell ∷ new_order buy ∷ []

-- A clock that stands still.
abbrev clock : ℕ → ℕ
clock n = 1000

abbrev first : EngineCommand
first = new_order (record sell { timestamp = 1000 })

abbrev second : EngineCommand
second = new_order (record buy { timestamp = 1000 })

abbrev new : System EngineCommand
new = record {
  inner = record { buffer = λ i. none; capacity = 2; mask = 1; head = 0; tail = 0 };
  producer = record { cached_head = 0; cached_tail = 0 };
  consumer = record { cached_tail = 0; cached_head = 0 };
  pushing = Pushing.idle;
  popping = Popping.idle;
}

new_made : ring_buffer 2 ≡ some new
unfolding ring_buffer
new_made = refl

abbrev pushed_on : System EngineCommand → System EngineCommand
pushed_on s = (push_step s.pushing s).0

abbrev left_by :
    System EngineCommand
    → Option (System EngineCommand × Event EngineCommand)
    → System EngineCommand
left_by s none = s
left_by s (some (t, e)) = t

abbrev popped_on : System EngineCommand → System EngineCommand
popped_on s = left_by s (pop_step s.popping s)

-- Two pushes; then a pop of each command, and two that find the ring empty.
abbrev sent : System EngineCommand
sent = pushed_on (pushed_on (push_call second (pushed_on (pushed_on (push_call first new)))))

abbrev received : System EngineCommand
received = popped_on (popped_on (pop_call (popped_on (popped_on (popped_on (pop_call sent))))))

abbrev at_end : System EngineCommand
at_end = popped_on (pop_call (popped_on (pop_call received)))

abbrev polls : List Poll
polls = got first ∷ got second ∷ nothing true ∷ nothing true ∷ []

session :
    Session 2
      (stamped clock 0 commands)
      at_end
      (stamped clock 0 commands)
      (stamped clock 0 commands)
      []
      true
      Phase.ended
      polls
unfolding push_call push_step pop_call pop_step
session =
    pop
      (ask
        (check
          (pop
            (ask
              (pop
                (pop
                  (ask
                    (pop
                      (pop
                        (pop
                          (ask
                            (shut
                              (push
                                (push
                                  (call (second) ([])
                                    (push
                                      (push (call (first) (second ∷ []) (begin new_made) refl refl)
                                        refl)
                                      refl)
                                    refl refl)
                                  refl)
                                refl)
                              refl refl)
                            in_loop refl)
                          in_loop refl)
                        in_loop refl)
                      in_loop refl)
                    in_loop refl)
                  in_loop refl)
                in_loop refl)
              in_loop refl)
            in_loop refl)
          refl)
        in_drain refl)
      in_drain refl

Session-taken_example : taken polls ≡ stamped clock 0 commands
Session-taken_example = Session-taken session refl

-- A network that fails no call.
abbrev net : Network
net = record { udp_bind = none; set_multicast_ttl = none; tcp_bind = none; accept = none }

-- A new data directory, whose log file is empty.
abbrev config : GatewayConfig
config = record {
  ring_capacity = 2;
  arena_capacity = 4;
  data_dir = some (record { create_dir = none; snapshots = []; wal_file = [] });
  snapshot_interval = 1;
}

commands-Fits : All Fits commands
commands-Fits = (
  record {
    id = omega arith;
    trader_id = omega arith;
    price = (omega arith, omega arith);
    positive = omega arith;
    quantity = omega arith;
  },
  (
    record {
      id = omega arith;
      trader_id = omega arith;
      price = (omega arith, omega arith);
      positive = omega arith;
      quantity = omega arith;
    },
    tt,
  ),
)

-- An empty directory backs a new engine.
new-Backs : Backs coder 4 [] [] engine
unfolding load_latest first_valid sort starting_engine Matching.with_capacity Book.with_capacity
    Arena.new
new-Backs = record {
  older = tt;
  latest = none;
  loads = refl;
  base = engine;
  start = 0;
  starts = refl;
  sound = engine-IsSound;
  room = refl;
  follows = engine-Follows;
}

config-IsReady :
    IsReady os coder 4 [] engine (record { create_dir = none; snapshots = []; wal_file = [] })
config-IsReady = record { made = refl; zeros_left = 0; file = refl; fits = tt; backs = new-Backs }

-- The snapshot interval of one leads to a snapshot behind the command.
run-Survived_example :
    Survived os coder 4
      ([] ++ stamped clock 0 commands)
      unexpected_eof
      (run os coder net config clock (answers session) (wire commands ++ []) unexpected_eof polls)
run-Survived_example =
    run-Survived os os-IsCrc os-Works coder coder-Faithful net config
      (record { create_dir = none; snapshots = []; wal_file = [] }) [] engine clock commands []
      unexpected_eof refl config-IsReady refl commands-Fits nothing_more (omega arith) session

new_room : Log.engine.book.arena.capacity ≡ 4
unfolding Matching.with_capacity Book.with_capacity Arena.new
new_room = refl

matching_loop-Stored_example :
    Stored os coder 4 ([] ++ Log.after) (matching_loop os coder 1 Log.loop Log.polls)
matching_loop-Stored_example =
    matching_loop-Stored os os-Works coder coder-Faithful 4 1 Log.loop Log.new_log 60 [] []
      Log.polls refl refl Log.new_log-IsLog engine-IsSound new_room new-Backs Log.after-Fits
      (omega arith)

-- The same client without a data directory.
abbrev unlogged : GatewayConfig
unlogged = record config { data_dir = none }

run-Finished_example :
    Finished 4
      (stamped clock 0 commands)
      unexpected_eof
      (run os coder net unlogged clock (answers session) (wire commands ++ []) unexpected_eof polls)
run-Finished_example =
    run-Finished os coder net unlogged clock commands [] unexpected_eof (inl refl) (omega arith)
      refl commands-Fits nothing_more session

run-Published_example :
    Published 4
      (stamped clock 0 commands)
      unexpected_eof
      (run os coder net unlogged clock (answers session) (wire commands ++ []) unexpected_eof polls)
run-Published_example =
    run-Published os coder net unlogged clock commands [] unexpected_eof (inl refl) (omega arith)
      (λ k. omega arith) refl commands-Fits nothing_more session
