-- ===== src/Gateway/Resume.antt =====
-- A snapshot stands for the log as it was when it was captured.
use velocity_match.Common.{ℕ, ◌≡◌, refl, List, [], ◌∷◌, length, drop, map, arith, ap, ◌∙◌}
use velocity_match.Protocol.{EngineCommand}
use velocity_match.Book.View.{View}
use velocity_match.Matching.{MatchingEngine}
use velocity_match.Snapshot.{Library}
use velocity_match.Wal.Log.{stored}
use velocity_match.Recovery.Replay.{replay_all}
use velocity_match.Recovery.Restart.{Restarted}
use velocity_match.Gateway.Crash.{Follows}

drop_whole : (cs : List EngineCommand) → drop (length cs) cs ≡ []
drop_whole [] = refl
drop_whole (c ∷ cs) = drop_whole cs

-- The engine that a snapshot restores follows the log as it was then.
pub snapshot-Follows :
    (lib : Library) (engine : MatchingEngine) (cs : List EngineCommand) (v : View) (count : ℕ)
    → count ≡ length cs
    → (r : Restarted lib engine v count) → Follows r.engine' count cs engine
unfolding replay_all
snapshot-Follows lib engine cs v count e r = record {
  seen = omega (arith, e);
  engine' = r.engine';
  done = ap (λ l. replay_all r.engine' (map stored l)) (ap (λ n. drop n cs) e ∙ drop_whole cs);
  twins = r.twins;
}
