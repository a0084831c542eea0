-- ===== src/Integral/Tests.antt =====
-- Runs of a few processes.
use sop.Prelude.{ℕ, ◌+◌, ◌≤◌, ◌<◌, ◌≡◌, ◌↔◌, ◌==◌, refl, [], ◌∷◌, ◌++◌, arith, Bool, true, false}
use sop.Prelude.Int.{pos, ◌+ℤ◌, ◌-ℤ◌, same_int, int_range, int_limit, int_value, int_bits, add_int}
use sop.Integral.{register, announce, leave, randomize_from, report}
use sop.Integral.System.{
  announcing, computing, System, attaches, registers, dies_registering, announces, reports, leaves,
  start, Reach, begin, next,
}
use sop.Integral.Members.{unfound, counted, proc_count_lem, leave_lem, removed}
use sop.Integral.Totals.{total_points_lem}

abbrev first_hit : ℕ → Bool
first_hit i = i == 0

-- One process, with one batch of two points.
abbrev reported : System
reported = record start {
  mem = record start.mem { total_points = pos 2; hit_points = pos 1 };
  procs = computing 1 ∷ [];
  points = 2;
  hits = 1;
}

reported-Reach : Reach reported
unfolding announce report int_range int_limit int_value int_bits add_int randomize_from
reported-Reach =
    next (next begin (announces [] [] 1 _ refl refl refl))
      (reports [] [] 0 2 first_hit 1 1 _ refl refl (omega arith) refl)

abbrev gone : System
gone = record reported {
  mem = record reported.mem { proc_count = pos 0 };
  procs = [];
  linked = false;
}

gone-Reach : Reach gone
unfolding leave same_int ◌-ℤ◌
gone-Reach = next reported-Reach (leaves [] [] 1 1 _ refl refl refl)

proc_count_lem_example :
    reported.mem.proc_count +ℤ pos 0 ≡ pos (counted reported.procs + unfound reported.mem)
proc_count_lem_example = proc_count_lem reported-Reach

leaving : leave 1 reported.mem ≡ (gone.mem, true)
unfolding leave ◌-ℤ◌
leaving = refl

leave_lem_example :
    (same_int gone.mem.proc_count (pos 0) ≡ true)
    ↔ ((counted ([] ++ []) ≡ 0) × (gone.mem.results_dead ≡ false))
leave_lem_example = leave_lem [] [] 1 1 gone.mem reported-Reach refl refl leaving

nobody_left :
    (counted gone.procs ≡ 0) × (gone.mem.count_dead ≡ false) × (gone.mem.results_dead ≡ false)
nobody_left = removed gone-Reach refl refl

in_range : gone.points < int_limit
unfolding int_limit
in_range = omega arith

total_points_lem_example :
    (gone.mem.total_points ≡ pos gone.points)
    × (gone.mem.hit_points ≡ pos gone.hits)
    × (gone.hits ≤ gone.points)
total_points_lem_example = total_points_lem gone-Reach in_range

-- A process that dies before it is counted is taken off the count all the same: here the memory is
-- removed with a counted process at work.
abbrev early : System
early = record start {
  mem = record start.mem { proc_count = pos 0 };
  procs = announcing ∷ [];
  linked = false;
  lost = 1;
}

removed_early : Reach early × (counted early.procs ≡ 1)
unfolding announce register leave counted same_int ◌-ℤ◌ ◌+ℤ◌
removed_early = (run, refl)
  where
    run : Reach early
    run =
        next
          (next
            (next
              (next
                (next (next begin (attaches refl))
                  (dies_registering [] (announcing ∷ []) 0 _ refl refl refl))
                (announces [] [] 1 _ refl refl refl))
              (attaches refl))
            (registers [] (computing 0 ∷ []) 1 _ refl refl refl))
          (leaves (announcing ∷ []) [] 0 1 _ refl refl refl)
