-- ===== src/Examples/Ring.antt =====
-- A ring buffer of two slots: an interleaved run, and each theorem applied to it.
use velocity_match.Common.{ℕ, ◌+◌, ◌≡◌, refl, ◌≢◌, Option, none, some, List, [], ◌∷◌, ◌++◌, length}
use velocity_match.Ring.{
  System, Pushing, Popping, Event, full, empty, ring_buffer, push_call, push_step, pop_call,
  pop_step, drop_all,
}
use velocity_match.Ring.Steps.{Step, call_push, move_push, call_pop, move_pop, Reach, start, later}
use velocity_match.Ring.Fifo.{IsQueue, Reach-IsQueue, Reach-reads, Reach-refusals}
use velocity_match.Ring.Drop.{drop_all-rest}

abbrev new : System ℕ
new = record {
  inner = record { buffer = λ i. none; capacity = 2; mask = 1; head = 0; tail = 0 };
  producer = record { cached_head = 0; cached_tail = 0 };
  consumer = record { cached_tail = 0; cached_head = 0 };
  pushing = Pushing.idle;
  popping = Popping.idle;
}

new_made : ring_buffer 2 ≡ some new
unfolding ring_buffer
new_made = refl

abbrev after : Option (System ℕ × Event ℕ) → System ℕ
after none = new
after (some (s, e)) = s

-- A push of 7, in three accesses; then a pop that is halfway when a push of 8 begins.
abbrev s1 : System ℕ
s1 = push_call 7 new

abbrev s2 : System ℕ
s2 = (push_step s1.pushing s1).0

abbrev s3 : System ℕ
s3 = (push_step s2.pushing s2).0

abbrev s4 : System ℕ
s4 = pop_call s3

abbrev s5 : System ℕ
s5 = after (pop_step s4.popping s4)

abbrev s6 : System ℕ
s6 = push_call 8 s5

run : Reach 2 s3 (7 ∷ []) []
unfolding push_call push_step
run = later (later (later (start new_made) (call_push 7 refl)) (move_push refl)) (move_push refl)

halfway : Reach 2 s6 (7 ∷ []) []
unfolding push_call push_step pop_call pop_step
halfway = later (later (later run (call_pop refl)) (move_pop refl)) (call_push 8 refl)

Reach-IsQueue_example : IsQueue 2 s6 (7 ∷ []) []
Reach-IsQueue_example = Reach-IsQueue 2 halfway

Reach-reads_example : pop_step s6.popping s6 ≢ none
Reach-reads_example = Reach-reads 2 halfway

abbrev one_sent : List ℕ
one_sent = 7 ∷ []

abbrev nothing : List ℕ
nothing = []

Reach-refusals_example :
    ((v : ℕ) → Step s3 (full v) s3 → length one_sent ≡ length nothing + 2)
    × (Step s3 empty s3 → one_sent ≡ nothing)
Reach-refusals_example = Reach-refusals 2 run

idle_push : s3.pushing ≡ Pushing.idle
unfolding push_call push_step
idle_push = refl

idle_pop : s3.popping ≡ Popping.idle
unfolding push_call push_step
idle_pop = refl

drop_all-rest_example : (left : List ℕ) × (drop_all s3.inner ≡ some left) × (7 ∷ [] ≡ [] ++ left)
drop_all-rest_example = drop_all-rest 2 run idle_push idle_pop
