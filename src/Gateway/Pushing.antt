-- ===== src/Gateway/Pushing.antt =====
-- `push_loop`, the loop of `handle_client` that pushes one command until the ring takes it.
use velocity_match.Common.{
  ℕ, ◌+◌, ◌<◌, ◌≡◌, refl, Bool, true, false, some, List, [], ◌∷◌, ◌++◌, arith,
}
use velocity_match.Gateway.{push_loop}

-- How many of some answers take a command.
abbrev pub takes : (answers : List Bool) → ℕ
takes [] = 0
takes (true ∷ answers) = takes answers + 1
takes (false ∷ answers) = takes answers

pub takes-append : (xs ys : List Bool) → takes (xs ++ ys) ≡ takes xs + takes ys
takes-append [] ys = omega arith
takes-append (true ∷ xs) ys = omega (arith, takes-append xs ys)
takes-append (false ∷ xs) ys = takes-append xs ys

-- A loop that ends, and uses up one of the answers that take a command.
pub record Took (answers : List Bool) : Type 0 where
  pub later : List Bool
  pub done : push_loop answers ≡ some later
  pub fewer : takes later + 1 ≡ takes answers

-- The loop ends with the first answer that takes the command.
pub push_loop-Took : (answers : List Bool) → 0 < takes answers → Took answers
unfolding push_loop
push_loop-Took [] some_take = absurd (omega arith)
push_loop-Took (true ∷ answers) some_take = record { later = answers; done = refl; fewer = refl }
push_loop-Took (false ∷ answers) some_take =
    let t = push_loop-Took answers some_take in
    record { later = t.later; done = t.done; fewer = t.fewer }
