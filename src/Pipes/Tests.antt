-- ===== src/Pipes/Tests.antt =====
-- Three pipes, and the child 1, which reads.
use sop.Prelude.{ℕ, ◌<◌, ◌≡◌, ◌≢◌, List, arith, true, false, some}
use sop.Pipes.{Open, reading, at, create_pipes, close_pipes_except, close_pipes_all_one_end}
use sop.Pipes.Ends.{ends_lem}

ends_lem_example :
    (child : List Open) × (parent : List Open) × (close_pipes_except (create_pipes 3) 3 1 reading
      ≡ some child)
    × (close_pipes_all_one_end (create_pipes 3) 3 reading ≡ some parent)
    × (at child 1 ≡ (true, false))
    × ((j : ℕ) → j < 3 → j ≢ 1 → at child j ≡ (false, false))
    × ((j : ℕ) → j < 3 → at parent j ≡ (false, true))
ends_lem_example = ends_lem 3 1 reading (omega arith)
