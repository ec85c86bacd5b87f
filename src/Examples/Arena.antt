-- ===== src/Examples/Arena.antt =====
-- The arena at concrete inputs: each theorem applied to a few nodes.
use velocity_match.Common.{ℕ, pos, ◌≡◌, refl, none, some, [], ◌∷◌, ◌++◌, arith}
use velocity_match.Order.{ask, Order}
use velocity_match.Arena
use velocity_match.Arena.{
  Storage, PriceLevel, arena_null, put, alloc, push_back, pop_front, empty_level, Arena,
}
use velocity_match.Arena.Chain.{Cells, node}
use velocity_match.Arena.Level.{IsLevel, Became}
use velocity_match.Arena.Queue.{push_back-Became, pop_front-Became}
use velocity_match.Arena.Unlink.{remove-Became}

abbrev order : ℕ → Order
order n = record {
  id = n;
  trader_id = 7;
  side = ask;
  price = pos 100;
  quantity = 10;
  timestamp = n;
}

-- Nodes 0, 1 and 2 in a row, and node 3 on its own.
abbrev row : Storage
row =
    put
      (put (put (put (λ j. none) 0 (node (order 10) arena_null 1)) 1 (node (order 11) 0 2)) 2
        (node (order 12) 1 arena_null))
      3 (node (order 13) arena_null arena_null)

abbrev level : PriceLevel
level = record { head = 0; tail = 2; count = 3; qty = 30 }

abbrev cells : Cells
cells = (0, order 10) ∷ (1, order 11) ∷ (2, order 12) ∷ []

row_is : IsLevel row level cells
row_is = record {
  head = refl;
  tail = refl;
  chain = (refl, (refl, (refl, tt)));
  distinct = (refl, (refl, (refl, tt)));
  no_null = refl;
  count = refl;
  qty = refl;
}

push_back-Became_example :
    Became row
      (cells ++ ((3, order 13) ∷ []))
      (cells ++ ((3, order 13) ∷ []))
      (λ t l. push_back row level 3 ≡ some (t, l))
push_back-Became_example =
    push_back-Became row level cells 3 (order 13) arena_null arena_null row_is refl refl
      (omega arith) (omega arith)

pop_front-Became_example :
    Became row
      ((1, order 11) ∷ (2, order 12) ∷ [])
      ((1, order 11) ∷ (2, order 12) ∷ [])
      (λ t l. pop_front row level ≡ some (some 0, t, l))
pop_front-Became_example =
    pop_front-Became row level 0 (order 10) ((1, order 11) ∷ (2, order 12) ∷ []) row_is
      (omega arith) (omega arith)

remove-Became_example :
    Became row
      ((0, order 10) ∷ (2, order 12) ∷ [])
      ((0, order 10) ∷ (2, order 12) ∷ [])
      (λ t l. Arena.remove row level 1 ≡ some (t, l))
remove-Became_example =
    remove-Became row level ((0, order 10) ∷ []) 1 (order 11) ((2, order 12) ∷ []) row_is
      (omega arith) (omega arith)
