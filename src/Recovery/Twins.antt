-- ===== src/Recovery/Twins.antt =====
-- Replaying what the log kept of the commands leads twin engines to twin engines.
use velocity_match.Common.{
  ◌≡◌, refl, Option, none, some, Option-cases, inl, inr, List, [], ◌∷◌, ◌++◌, map, ap, All,
}
use velocity_match.Common.Run.Panic.{◌>>=◌}
use velocity_match.Book.View.{View, IsBook}
use velocity_match.Protocol.{EngineCommand, new_order, cancel_order}
use velocity_match.Matching.{MatchingEngine}
use velocity_match.Matching.Twins.{Alike}
use velocity_match.Matching.Twins.AddOrder.{add_order-Twinned}
use velocity_match.Matching.Twins.Cancel.{refused, withdrawn, cancel_order-Parted}
use velocity_match.Wal.Log.{Fits, stored}
use velocity_match.Recovery.{replay_command}
use velocity_match.Recovery.Replay.{replay_all}

-- Engines whose books hold the same orders in the same queues, whatever their nodes and timestamps,
-- with as many free nodes.
pub record AreTwins (engine engine' : MatchingEngine) : Type 0 where
  pub view : View
  pub view' : View
  pub book : IsBook engine.book view
  pub book' : IsBook engine'.book view'
  pub alike : Alike view view'

-- Two runs that return twin engines.
pub record ReturnTwins (run run' : Option MatchingEngine) : Type 0 where
  pub engine : MatchingEngine
  pub engine' : MatchingEngine
  pub done : run ≡ some engine
  pub done' : run' ≡ some engine'
  pub twins : AreTwins engine engine'

pub replay_command-ReturnTwins :
    (engine engine' : MatchingEngine) (c : EngineCommand)
    → AreTwins engine engine'
    → Fits c
    → ReturnTwins (replay_command engine c) (replay_command engine' (stored c))
unfolding replay_command
replay_command-ReturnTwins engine engine' (new_order order) t fits =
    let r =
      add_order-Twinned engine engine' t.view t.view' order (record order { timestamp = 0 }) t.book
        t.book' t.alike refl fits.positive fits.quantity in
    record {
      engine = r.engine;
      engine' = r.engine';
      done = rw (replay_command, r.returned, ◌>>=◌) refl;
      done' = rw (replay_command, r.returned', ◌>>=◌) refl;
      twins = record {
        view = r.view;
        view' = r.view';
        book = r.book;
        book' = r.book';
        alike = r.alike;
      };
    }
replay_command-ReturnTwins engine engine' (cancel_order id) t fits =
    elim (cancel_order-Parted engine engine' t.view t.view' id t.book t.book' t.alike) [
      | refused rests rests' returned returned' ↦ record {
        engine = engine;
        engine' = engine';
        done = rw (replay_command, returned, ◌>>=◌) refl;
        done' = rw (replay_command, returned', ◌>>=◌) refl;
        twins = t;
      }
      | withdrawn o i xs ys c after after' id_is at returned returned' book book' alike ↦ record {
        engine = after;
        engine' = after';
        done = rw (replay_command, returned, ◌>>=◌) refl;
        done' = rw (replay_command, returned', ◌>>=◌) refl;
        twins = record { view = _; view' = _; book = book; book' = book'; alike = alike };
      }
    ]

-- From twin engines, the commands that fit a record and what a record keeps of them lead, without a
-- panic, to twin engines.
pub replay_all-ReturnTwins :
    (engine engine' : MatchingEngine) (cs : List EngineCommand)
    → AreTwins engine engine'
    → All Fits cs
    → ReturnTwins (replay_all engine cs) (replay_all engine' (map stored cs))
unfolding replay_all
replay_all-ReturnTwins engine engine' [] t fits = record {
  engine = engine;
  engine' = engine';
  done = refl;
  done' = refl;
  twins = t;
}
replay_all-ReturnTwins engine engine' (c ∷ cs) t fits =
    let first = replay_command-ReturnTwins engine engine' c t fits.0 in
    let rest = replay_all-ReturnTwins first.engine first.engine' cs first.twins fits.1 in
    record {
      engine = rest.engine;
      engine' = rest.engine';
      done = rw (replay_all, first.done, ◌>>=◌) rest.done;
      done' = rw (replay_all, first.done', ◌>>=◌) rest.done';
      twins = rest.twins;
    }

-- Replaying some commands and then others.
pub replay_all-append :
    (engine : MatchingEngine) (cs ds : List EngineCommand) (engine' : MatchingEngine)
    → replay_all engine cs ≡ some engine'
    → replay_all engine (cs ++ ds) ≡ replay_all engine' ds
unfolding replay_all
replay_all-append engine [] ds engine' e = ap (λ x. replay_all x ds) (the_same e)
  where
    the_same : some engine ≡ some engine' → engine ≡ engine'
    the_same e = cc
replay_all-append engine (c ∷ cs) ds engine' e = elim (Option-cases (replay_command engine c)) [
  | inl panics ↦ absurd (never (rw (panics, ◌>>=◌) at e))
  | inr (first, goes) ↦
      rw (goes, ◌>>=◌) (replay_all-append first cs ds engine' (rw (goes, ◌>>=◌) at e))
]
  where
    never : ◌≡◌ {A = Option MatchingEngine} none (some engine') → ⊥
    never k = cc
