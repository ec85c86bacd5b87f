-- ===== src/Recovery/Sound.antt =====
-- The engine stays sound under every command that a log can hold.
use velocity_match.Common.{
  ℕ, ◌≤◌, ◌≡◌, refl, inl, inr, Option, some, Option-cases, Result, ok, err, List, [], ◌∷◌, ◌++◌,
  drop, map, replicate, ap, ◌∙◌, sym, All, zero, suc,
}
use velocity_match.Common.Run.Panic.{◌>>=◌}
use velocity_match.Common.Map.{id_key, lookup}
use velocity_match.Order.{Order}
use velocity_match.Arena.{arena_null}
use velocity_match.Book.{order_not_found}
use velocity_match.Book.Cells.{In-Split}
use velocity_match.Book.View.{View, IsBook}
use velocity_match.Book.Cancel.{cancel-unknown}
use velocity_match.Book.Withdraw.{without_order}
use velocity_match.Book.Start.{empty_view, with_capacity-IsBook}
use velocity_match.Protocol.{EngineCommand, new_order, cancel_order}
use velocity_match.Protocol.RoundTrip.{FitsWire}
use velocity_match.Matching
use velocity_match.Matching.{MatchingEngine, MatchingError, book_error, AddOrderResult, add_order}
use velocity_match.Matching.Uncrossed.{IsUncrossed}
use velocity_match.Matching.Results.{add_order-LeavesUncrossed}
use velocity_match.Matching.Cancel.{cancel_order-Withdrawn}
use velocity_match.Wal.{Platform, Wal}
use velocity_match.Wal.Log.{Fits, stored, logged, IsLog}
use velocity_match.Wal.Read.{IsCrc}
use velocity_match.Wal.Reopen.{Works}
use velocity_match.Recovery.{Recovered, replay_command, recover_log}
use velocity_match.Recovery.Replay.{replay_all, replayed, recover_log-Recovers}

-- The engine's book stands for a view in which every bid is below every ask.
pub record IsSound (engine : MatchingEngine) : Type 0 where
  pub view : View
  pub book : IsBook engine.book view
  pub uncrossed : IsUncrossed view

-- A call of the engine that returns, with a sound engine.
pub record Returns (A : Type 0) (run : Option (A × MatchingEngine)) : Type 0 where
  pub answer : A
  pub engine : MatchingEngine
  pub done : run ≡ some (answer, engine)
  pub sound : IsSound engine

pub add_order-Returns :
    (engine : MatchingEngine) (order : Order)
    → IsSound engine
    → FitsWire order
    → Returns (Result MatchingError AddOrderResult) (add_order engine order)
add_order-Returns engine order s fits =
    let l =
      add_order-LeavesUncrossed engine s.view order s.book s.uncrossed fits.positive
        fits.quantity in
    record {
      answer = l.result;
      engine = l.engine;
      done = l.returned;
      sound = record { view = l.view; book = l.book; uncrossed = l.uncrossed };
    }

pub cancel_order-Returns :
    (engine : MatchingEngine) (id : ℕ)
    → IsSound engine
    → Returns (Result MatchingError Order) (Matching.cancel_order engine id)
unfolding Matching.cancel_order
cancel_order-Returns engine id s = elim (Option-cases (lookup id engine.book.order_index)) [
  | inl unknown ↦ record {
    answer = err (book_error (order_not_found id));
    engine = engine;
    sound = s;
    done = rw (Matching.cancel_order, cancel-unknown engine.book id unknown, ◌>>=◌) refl;
  }
  | inr (i, known) ↦
      let at = s.book.nodes.located id i known in
      let cut = In-Split (i, at.order) _ at.within in
      let w =
        cancel_order-Withdrawn engine s.view at.order i cut.before cut.after s.book s.uncrossed
          cut.whole in
      record {
        answer = ok at.order;
        engine = w.after;
        done = ap (λ n. Matching.cancel_order engine n) (sym at.id_is) ∙ w.done;
        sound = record {
          view = without_order s.view at.order i cut.before cut.after;
          book = w.book;
          uncrossed = w.uncrossed;
        };
      }
]

-- A replay that ends with a sound engine.
pub record Sound (run : Option MatchingEngine) : Type 0 where
  pub engine : MatchingEngine
  pub done : run ≡ some engine
  pub sound : IsSound engine

-- Any command that fits a record returns from a sound engine, in whatever way, with a sound engine:
-- one whose book stands for queues of orders in which every bid is below every ask.
pub replay_command-Sound :
    (engine : MatchingEngine) (c : EngineCommand)
    → IsSound engine
    → Fits c
    → Sound (replay_command engine c)
unfolding replay_command
replay_command-Sound engine (new_order order) s fits =
    let r = add_order-Returns engine order s fits in
    record { engine = r.engine; done = rw (replay_command, r.done, ◌>>=◌) refl; sound = r.sound }
replay_command-Sound engine (cancel_order id) s fits =
    let r = cancel_order-Returns engine id s in
    record { engine = r.engine; done = rw (replay_command, r.done, ◌>>=◌) refl; sound = r.sound }

pub replay_all-Sound :
    (engine : MatchingEngine) (cs : List EngineCommand)
    → IsSound engine
    → All Fits cs
    → Sound (replay_all engine cs)
unfolding replay_all
replay_all-Sound engine [] s fits = record { engine = engine; done = refl; sound = s }
replay_all-Sound engine (c ∷ cs) s fits =
    let first = replay_command-Sound engine c s fits.0 in
    let rest = replay_all-Sound first.engine cs first.sound fits.1 in
    record {
      engine = rest.engine;
      done = rw (replay_all, first.done, ◌>>=◌) rest.done;
      sound = rest.sound;
    }

pub stored-Fits :
    (n : ℕ) (cs : List EngineCommand) → All Fits cs → All Fits (map stored (drop n cs))
stored-Fits zero [] a = tt
stored-Fits zero (new_order o ∷ cs) (f, a) = (
  record {
    id = f.id;
    trader_id = f.trader_id;
    price = f.price;
    positive = f.positive;
    quantity = f.quantity;
  },
  stored-Fits zero cs a,
)
stored-Fits zero (cancel_order id ∷ cs) (f, a) = (f, stored-Fits zero cs a)
stored-Fits (suc n) [] a = tt
stored-Fits (suc n) (c ∷ cs) (f, a) = stored-Fits n cs a

pub with_capacity-IsSound :
    (capacity : ℕ) → capacity ≤ arena_null → IsSound (Matching.with_capacity capacity)
unfolding Matching.with_capacity
with_capacity-IsSound capacity h = record {
  view = empty_view capacity;
  book = with_capacity-IsBook capacity h;
  uncrossed = λ pb pa nb na. absurd (nb refl);
}

-- A recovery that returns the engine and the log.
pub record Resumes (os : Platform) (cs : List EngineCommand) (run : Recovered) : Type 0 where
  pub engine : MatchingEngine
  pub wal : Wal
  pub zeros_left : ℕ
  pub done : run ≡ some (ok (engine, wal))
  pub sound : IsSound engine
  pub log : IsLog os wal cs (replicate zeros_left 0)

-- From a sound engine and a file that holds the records of some commands, with zeros or nothing
-- behind them, a recovery whose operating system fails no call returns, without a panic or an
-- error, a sound engine and the log of all these commands.
pub recover_log-Resumes :
    (os : Platform) (crc : IsCrc os) (works : Works os) (cs : List EngineCommand)
    (fits : All Fits cs) (n : ℕ) (engine : MatchingEngine) (sound : IsSound engine) (start : ℕ)
    → Resumes os cs (recover_log os (logged os cs ++ replicate n 0) (engine, start))
recover_log-Resumes os crc works cs fits n engine sound start =
    let r = recover_log-Recovers os crc works cs fits n engine start in
    let s =
      replay_all-Sound engine (map stored (drop start cs)) sound (stored-Fits start cs fits) in
    record {
      engine = s.engine;
      wal = r.wal;
      zeros_left = r.zeros_left;
      log = r.log;
      sound = s.sound;
      done = r.done ∙ rw (replayed, s.done, ◌>>=◌) refl;
    }
