-- ===== src/Common/Run/Buffered.antt =====
-- The `?` operator after a writer: the next step gets the buffer, and an error ends the steps with
-- the buffer as it is then.
use velocity_match.Common.Run.{Result, ok, err}

infixl 5 ◌>>=◌
abbrev pub ◌>>=◌ : {E A B S : Type 0} → Result E A × S → (S → Result E B × S) → Result E B × S
(ok _, s) >>= f = f s
(err e, s) >>= f = (err e, s)
