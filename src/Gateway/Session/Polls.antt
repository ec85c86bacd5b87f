-- ===== src/Gateway/Session/Polls.antt =====
-- The polls of the matching loop in a session: what it has taken so far.
use velocity_match.Common.{
  ℕ, ◌≡◌, refl, Bool, true, false, List, [], ◌∷◌, ◌++◌, append-nil, append_assoc, ap, ◌∙◌, sym,
  subst₂,
}
use velocity_match.Protocol.{EngineCommand}
use velocity_match.Ring.{System, Pushing, Event, silent, pushed, full, popped, empty}
use velocity_match.Ring.Steps.{Reach, got_by}
use velocity_match.Gateway.{Poll, got, nothing}
use velocity_match.Gateway.Running.{taken, drained}
use velocity_match.Gateway.Session.{
  Phase, looping, checking, draining, ended, after_pop, polled, after_check, Pops, in_loop,
  in_drain,
}
use velocity_match.Gateway.Session.Pushes.{Holds}

-- What the phase says of the polls so far and of the flag.
abbrev pub Knows :
    Phase → (commands received : List EngineCommand) → (shutdown : Bool) → List Poll → Type 0
Knows looping commands received shutdown polls =
    (rest : List Poll) → taken (polls ++ rest) ≡ received ++ taken rest
Knows checking commands received shutdown polls =
    (rest : List Poll) → taken (polls ++ rest) ≡ received ++ taken rest
Knows draining commands received shutdown polls =
    (shutdown ≡ true) × ((rest : List Poll) → taken (polls ++ rest) ≡ received ++ drained rest)
Knows ended commands received shutdown polls =
    (received ≡ commands) × ((rest : List Poll) → taken (polls ++ rest) ≡ received)

pub record IsSession (capacity : ℕ) (commands : List EngineCommand) (s : System EngineCommand)
    (sent received left : List EngineCommand) (shutdown : Bool) (phase : Phase) (polls : List Poll)
    : Type 0 where
  pub reach : Reach capacity s sent received
  pub order : sent ++ left ≡ commands
  pub holds : Holds s.pushing left
  pub closed : shutdown ≡ true → (left ≡ []) × (s.pushing ≡ Pushing.idle)
  pub knows : Knows phase commands received shutdown polls

-- Nothing more is known or forgotten by a step that receives nothing.
quiet :
    (phase : Phase) (commands received : List EngineCommand) (shutdown : Bool) (polls : List Poll)
    → Knows phase commands received shutdown polls
    → Knows phase commands (received ++ []) shutdown (polls ++ [])
quiet phase commands received shutdown polls k =
    subst₂ (λ r p. Knows phase commands r shutdown p) (sym (append-nil received))
      (sym (append-nil polls)) k

received_one :
    (received : List EngineCommand) (polls : List Poll) (v : EngineCommand) (rest : List Poll)
    (count : List Poll → List EngineCommand)
    → taken (polls ++ (got v ∷ rest)) ≡ received ++ (v ∷ count rest)
    → taken ((polls ++ (got v ∷ [])) ++ rest) ≡ (received ++ (v ∷ [])) ++ count rest
received_one received polls v rest count h =
    ap taken (append_assoc polls (got v ∷ []) rest)
    ∙ h
    ∙ sym (append_assoc received (v ∷ []) (count rest))

pub pop-Knows :
    (commands received : List EngineCommand) (shutdown : Bool) (polls : List Poll)
    (e : Event EngineCommand) (phase : Phase)
    → Pops phase
    → Knows phase commands received shutdown polls
    → (e ≡ empty → shutdown ≡ true → received ≡ commands)
    → Knows (after_pop e phase) commands (received ++ got_by e) shutdown (polls ++ polled e phase)
pop-Knows commands received shutdown polls silent phase p k all =
    quiet phase commands received shutdown polls k
pop-Knows commands received shutdown polls (full v) phase p k all =
    quiet phase commands received shutdown polls k
pop-Knows commands received shutdown polls (pushed v) phase p k all =
    quiet phase commands received shutdown polls k
pop-Knows commands received shutdown polls (popped v) looping in_loop k all =
    λ rest. received_one received polls v rest taken (k (got v ∷ rest))
pop-Knows commands received shutdown polls (popped v) draining in_drain k all =
    (k.0, λ rest. received_one received polls v rest drained (k.1 (got v ∷ rest)))
pop-Knows commands received shutdown polls (popped v) checking p k all = elim p [ ]
pop-Knows commands received shutdown polls (popped v) ended p k all = elim p [ ]
pop-Knows commands received shutdown polls empty checking p k all = elim p [ ]
pop-Knows commands received shutdown polls empty ended p k all = elim p [ ]
pop-Knows commands received shutdown polls empty looping in_loop k all =
    quiet checking commands received shutdown polls k
pop-Knows commands received shutdown polls empty draining in_drain k all = (
  append-nil received ∙ all refl k.0,
  λ rest. ap taken (append_assoc polls (nothing true ∷ []) rest) ∙ k.1 (nothing true ∷ rest),
)

pub check-Knows :
    (commands received : List EngineCommand) (shutdown : Bool) (polls : List Poll)
    → Knows checking commands received shutdown polls
    → Knows (after_check shutdown) commands received shutdown (polls ++ (nothing shutdown ∷ []))
check-Knows commands received true polls k =
    (refl, λ rest. ap taken (append_assoc polls (nothing true ∷ []) rest) ∙ k (nothing true ∷ rest))
check-Knows commands received false polls k =
    λ rest. ap taken (append_assoc polls (nothing false ∷ []) rest) ∙ k (nothing false ∷ rest)

pub shut-Knows :
    (phase : Phase) (commands received : List EngineCommand) (shutdown : Bool) (polls : List Poll)
    → Knows phase commands received shutdown polls
    → Knows phase commands received true polls
shut-Knows looping commands received shutdown polls k = k
shut-Knows checking commands received shutdown polls k = k
shut-Knows draining commands received shutdown polls k = (refl, k.1)
shut-Knows ended commands received shutdown polls k = k
