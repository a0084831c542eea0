-- ===== src/Napoleon/Tests.antt =====
-- Two divisions, the first one of ours.
use sop.Prelude.{
  ℕ, ◌<◌, ◌≡◌, ◌⊎◌, refl, List, [], ◌∷◌, Option, none, some, false, arith, replicate, get_or, ◌==◌,
}
use sop.Prelude.Int.{pos}
use sop.Napoleon.{
  Message, Division, State, no_message, no_division, stack_size, Order, command, Scan, Staff, idle,
  clearing, placing, section, put, clear_row,
}
use sop.Napoleon.Stack.{pushed, popped, run, run_list, Stacked, run_lem}
use sop.Napoleon.Orders.{Commanded, command_lem}

abbrev two_divisions : List Division
two_divisions =
    record { name = b'A' ∷ []; addr = 5; p = 1 } ∷ record { name = b'B' ∷ []; addr = 6; p = 0 } ∷ []

abbrev empty_row : List (Option ℕ)
empty_row = replicate 100 none

abbrev headquarters : State
headquarters = record {
  stack = replicate stack_size no_message;
  top = 0;
  divisions = two_divisions;
  map = replicate 100 empty_row;
}

abbrev news : Message
news = record { buf = []; addr = 9 }

headquarters-Stacked : Stacked headquarters []
headquarters-Stacked = record { size = refl; bounded = omega arith; top = refl; held = tt }

calls_made :
    run (pushed news ∷ popped ∷ popped ∷ []) headquarters
    ≡ run_list (pushed news ∷ popped ∷ popped ∷ []) []
calls_made = run_lem (pushed news ∷ popped ∷ popped ∷ []) headquarters [] headquarters-Stacked

-- Division B is at 3, 4; the first of two adjutants takes the report and enters the name.
abbrev scan : Scan
scan buf = some (pos 3, pos 4, pos 1, b'B' ∷ [])

abbrev entered_b : Staff
entered_b = record {
  state = record {
    stack = news ∷ replicate 15 no_message;
    top = 0;
    divisions = record { name = b'B' ∷ []; addr = 9; p = 1 } ∷ [];
    map = replicate 100 empty_row;
  };
  adjutants = clearing 0 0 3 4 ∷ idle ∷ [];
}

-- Two reports of one division at the same time: the first adjutant has freed the division's cell, the
-- second has found it nowhere and is at the last row. Both put it down, and it stands on two cells.
abbrev first_down : State
first_down = (section scan (placing 0 1 1) headquarters).1

abbrev both_down : State
both_down =
    (section scan (section scan (clearing 0 99 2 2) first_down).0
      (section scan (clearing 0 99 2 2) first_down).1).1

two_cells :
    (get_or (get_or both_down.map 1 []) 1 none ≡ some 0)
    × (get_or (get_or both_down.map 2 []) 2 none ≡ some 0)
unfolding section put clear_row
two_cells = (refl, refl)

orders_given :
    ((o : Order) × (j : ℕ) × (command 7 105 50 two_divisions ≡ some o)
      × Commanded o two_divisions j)
    ⊎ (command 7 105 50 two_divisions ≡ none)
      × ((j : ℕ) → j < 2 → ((get_or two_divisions j no_division).p == 1) ≡ false)
orders_given = command_lem 7 105 50 two_divisions
