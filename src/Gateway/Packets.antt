-- ===== src/Gateway/Packets.antt =====
-- `matching_loop`: the packets that it hands to the socket report the fills in the answers to all
-- its commands.
use velocity_match.Common.{
  ℕ, ◌≡◌, refl, true, false, Option, none, some, List, [], ◌∷◌, length, All, ap, ◌∙◌, sym, subst,
  leb, append-nil,
}
use velocity_match.Common.Run.After.{After, leaves, After-bind, After-then, After-if, After-map}
use velocity_match.Protocol.{EngineCommand}
use velocity_match.Matching.Small.{IsFit}
use velocity_match.Snapshot.{Library, File, capture}
use velocity_match.Wal.{Platform, Wal}
use velocity_match.Wal.Log.{Fits}
use velocity_match.Recovery.{replay_command}
use velocity_match.Gateway.{
  Matcher, Loop, Poll, got, nothing, take_snapshot, maybe_snapshot, drain, matching_loop,
}
use velocity_match.Gateway.Running.{taken, drained}
use velocity_match.Gateway.Sent.{
  nothing_sent, answered_by_one, answered_by_all, Progress, IsTimely, process_command-Progress,
  join,
}

maybe_snapshot-keeps :
    (lib : Library) (interval : ℕ) (l : Loop) (wal : Option Wal) (dir : Option (List File))
    → After (λ (x : Loop). x.matcher ≡ l.matcher) (maybe_snapshot lib interval l wal dir)
unfolding take_snapshot
maybe_snapshot-keeps lib interval l none dir = leaves refl
maybe_snapshot-keeps lib interval l (some w) none = leaves refl
maybe_snapshot-keeps lib interval l (some w) (some dir) =
    After-if (leb interval l.cmds_since_snapshot)
      (After-then (capture lib l.matcher.engine w.record_count) (λ snap. leaves refl)) (leaves refl)

none_yet :
    (m : Matcher) → length m.report_buf ≡ 48 → IsFit m.engine → Progress m.seq_num m.packets [] m
none_yet m long fit = record {
  sent = [];
  sends = nothing_sent;
  packets_are = sym (append-nil m.packets);
  seq_num = refl;
  report_buf = long;
  fit = fit;
}

-- One command, and then the others.
step :
    (m m₁ : Matcher) (c : EngineCommand) (cs : List EngineCommand) (after : Matcher)
    → Progress m.seq_num m.packets (answered_by_one m.engine c) m₁
    → replay_command m.engine c ≡ some m₁.engine
    → Progress m₁.seq_num m₁.packets (answered_by_all m₁.engine cs) after
    → Progress m.seq_num m.packets (answered_by_all m.engine (c ∷ cs)) after
step m m₁ c cs after p played q = rw played (join p q)

drain-Progress :
    (os : Platform) (polls : List Poll) (l : Loop)
    → length l.matcher.report_buf ≡ 48
    → IsFit l.matcher.engine
    → All Fits (drained polls)
    → All IsTimely (drained polls)
    → After
        (λ (x : Loop).
          Progress l.matcher.seq_num l.matcher.packets
            (answered_by_all l.matcher.engine (drained polls))
            x.matcher)
        (drain os l polls)
unfolding drain
drain-Progress os [] l long fit fits late = leaves (none_yet l.matcher long fit)
drain-Progress os (nothing _ ∷ polls) l long fit fits late = leaves (none_yet l.matcher long fit)
drain-Progress os (got cmd ∷ polls) l long fit fits late =
    After-bind (process_command-Progress os l.matcher cmd long fit fits.0 late.0) λ m₁ (p, played).
      After-map (λ x q. step l.matcher m₁ cmd (drained polls) x.matcher p played q)
        (drain-Progress os polls (record l { matcher = m₁ }) p.report_buf p.fit fits.1 late.1)

-- From an engine whose orders fit the messages, with a report buffer of 48 bytes, the matching loop,
-- if it returns, has handed to the socket one packet for each fill in the answers to the commands
-- that it takes, in order and with consecutive numbers.
pub matching_loop-Progress :
    (os : Platform) (lib : Library) (interval : ℕ) (polls : List Poll) (l : Loop)
    → length l.matcher.report_buf ≡ 48
    → IsFit l.matcher.engine
    → All Fits (taken polls)
    → All IsTimely (taken polls)
    → After
        (λ (x : Loop).
          Progress l.matcher.seq_num l.matcher.packets
            (answered_by_all l.matcher.engine (taken polls))
            x.matcher)
        (matching_loop os lib interval l polls)
unfolding matching_loop
matching_loop-Progress os lib interval [] l long fit fits late =
    leaves (none_yet l.matcher long fit)
matching_loop-Progress os lib interval (nothing false ∷ polls) l long fit fits late =
    matching_loop-Progress os lib interval polls l long fit fits late
matching_loop-Progress os lib interval (nothing true ∷ polls) l long fit fits late =
    drain-Progress os polls l long fit fits late
matching_loop-Progress os lib interval (got cmd ∷ polls) l long fit fits late =
    After-bind (process_command-Progress os l.matcher cmd long fit fits.0 late.0) λ m₁ (p, played).
      After-bind (maybe_snapshot-keeps lib interval _ m₁.wal l.snapshot_dir) λ l₂ same.
        let p₂ : Progress l.matcher.seq_num l.matcher.packets (answered_by_one l.matcher.engine cmd)
            l₂.matcher =
          subst
            (Progress l.matcher.seq_num l.matcher.packets (answered_by_one l.matcher.engine cmd))
            (sym same) p in
        After-map
          (λ x q.
            step l.matcher l₂.matcher cmd (taken polls) x.matcher p₂
              (played ∙ ap (λ m. some m.engine) (sym same)) q)
          (matching_loop-Progress os lib interval polls l₂ p₂.report_buf p₂.fit fits.1 late.1)
