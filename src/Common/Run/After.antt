-- ===== src/Common/Run/After.antt =====
-- What holds of a result, if the run does not panic.
use mathlib.Core.Bool.{Bool, true, false}
use mathlib.Core.Option.{Option, none, some}
use mathlib.Core.Path.{◌≡◌, subst}
use velocity_match.Common.Tests.{if◌then◌else◌}
use velocity_match.Common.Run.Panic.{◌>>=◌}

pub data After {A : Type 0} (P : A → Type 0) : Option A → Type 0 where
  panics : After P none
  leaves : {x : A} → P x → After P (some x)

abbrev Of : {A : Type 0} → (A → Type 0) → Option A → Type 0
Of P none = Unit
Of P (some x) = P x

taken_apart : {A : Type 0} {P : A → Type 0} {run : Option A} → After P run → Of P run
taken_apart panics = tt
taken_apart (leaves h) = h

pub After-use :
    {A : Type 0} {P : A → Type 0} {run : Option A} {x : A} → After P run → run ≡ some x → P x
After-use {P = P} h e = subst (Of P) e (taken_apart h)

pub After-bind :
    {A B : Type 0} {P : A → Type 0} {Q : B → Type 0} {run : Option A} {k : A → Option B}
    → After P run
    → ((x : A) → P x → After Q (k x))
    → After Q (run >>= k)
After-bind panics next = panics
After-bind (leaves {x} h) next = next x h

pub After-then :
    {A B : Type 0} {Q : B → Type 0} (run : Option A) {k : A → Option B}
    → ((x : A) → After Q (k x))
    → After Q (run >>= k)
After-then none next = panics
After-then (some x) next = next x

pub After-if :
    {A : Type 0} {Q : A → Type 0} (c : Bool) {x y : Option A}
    → After Q x
    → After Q y
    → After Q (if c then x else y)
After-if true h k = h
After-if false h k = k

pub After-bind₂ :
    {A C B : Type 0} {P : A × C → Type 0} {Q : B → Type 0} {run : Option (A × C)}
    (k : A × C → Option B)
    → After P run
    → ((x : A) (y : C) → P (x, y) → After Q (k (x, y)))
    → After Q (run >>= k)
After-bind₂ k panics next = panics
After-bind₂ k (leaves {x} h) next = next x.0 x.1 h

pub After-map :
    {A : Type 0} {P Q : A → Type 0} {run : Option A}
    → ((x : A) → P x → Q x)
    → After P run
    → After Q run
After-map f panics = panics
After-map f (leaves {x} h) = leaves (f x h)
