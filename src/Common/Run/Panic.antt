-- ===== src/Common/Run/Panic.antt =====
-- A computation that may panic: `none` is an index out of range of a Rust slice or vector.
use mathlib.Core.Option.{Option, none, some}

infixl 5 ◌>>=◌
abbrev pub ◌>>=◌ : {A B : Type 0} → Option A → (A → Option B) → Option B
none >>= f = none
some a >>= f = f a
