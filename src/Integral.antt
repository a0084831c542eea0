-- ===== src/Integral.antt =====
-- lab06/calka/calka.c: processes that integrate by Monte Carlo and add up in shared memory.
-- Both mutexes are robust, and a process may die with either of them locked.
pub mod System
pub mod Members
pub mod Totals
mod Tests
use sop.Prelude.{ℕ, zero, suc, ◌+◌, ◌%◌, Bool, true, false, if◌then◌else◌, ◌==◌}
use sop.Prelude.Int.{add_int, ℤ, pos, ◌+ℤ◌, ◌-ℤ◌}

-- The shared memory, and of each mutex whether its owner died with it locked.
pub record Shared : Type 0 where
  pub proc_count : ℤ
  pub count_dead : Bool
  pub total_points : ℤ
  pub hit_points : ℤ
  pub results_dead : Bool

-- The memory as the first process sets it up.
abbrev pub created : Shared
created = record {
  proc_count = pos 1;
  count_dead = false;
  total_points = pos 0;
  hit_points = pos 0;
  results_dead = false;
}

-- What `random_death_lock` comes to: 0, EOWNERDEAD, or the death of the process.
pub data Lock : Type 0 where
  acquired owner_dead died : Lock

abbrev pub random_death_lock : Bool → ℕ → Lock
random_death_lock true rand = owner_dead
random_death_lock false rand = if rand % 20 == 0 then died else acquired

-- A section under `mxprocCount`: a death found is taken off the count, then comes the section's own
-- change. The Boolean says whether the process lives.
abbrev pub count_section : (ℤ → ℤ) → ℕ → Shared → Shared × Bool
count_section change rand m = elim (random_death_lock m.count_dead rand) [
  | acquired ↦ (record m { proc_count = change m.proc_count }, true)
  | owner_dead ↦
      (record m { proc_count = change (m.proc_count -ℤ pos 1); count_dead = false }, true)
  | died ↦ (record m { count_dead = true }, false)
]

-- A process that found the memory there counts itself.
unfoldable pub register : ℕ → Shared → Shared × Bool
register = count_section (λ c. c +ℤ pos 1)

-- It reads the count, to print it.
unfoldable pub announce : ℕ → Shared → Shared × Bool
announce = count_section (λ c. c)

-- It counts itself off; what is left of the count is `remaining_procs`.
unfoldable pub leave : ℕ → Shared → Shared × Bool
leave = count_section (λ c. c -ℤ pos 1)

-- The points of a batch that are hit, of those from `i` on, `n` in number.
unfoldable pub randomize_from : ℕ → ℕ → (ℕ → Bool) → ℕ
randomize_from zero i hit = 0
randomize_from (suc n) i hit =
    let rest = randomize_from n (suc i) hit in if hit i then suc rest else rest

abbrev pub randomize_points : ℕ → (ℕ → Bool) → ℕ
randomize_points n hit = randomize_from n 0 hit

-- The sums, which are ints, under `mxResults`.
abbrev pub add_batch : ℕ → ℕ → Shared → Shared
add_batch n hits m = record m {
  total_points = add_int m.total_points (pos n);
  hit_points = add_int m.hit_points (pos hits);
}

-- After the nested section: a process that dies there holds both mutexes.
abbrev pub after_nested : ℕ → ℕ → Shared × Bool → Shared × Bool
after_nested n hits (m, true) = (add_batch n hits m, true)
after_nested n hits (m, false) = (record m { results_dead = true }, false)

-- One batch goes into the sums. A death found under `mxResults` is taken off the count, which is
-- locked for it while `mxResults` is held.
unfoldable pub report : ℕ → ℕ → ℕ → ℕ → Shared → Shared × Bool
report n hits rand rand' m = elim (random_death_lock m.results_dead rand) [
  | acquired ↦ (add_batch n hits m, true)
  | owner_dead ↦
      after_nested n hits
        (count_section (λ c. c -ℤ pos 1) rand' (record m { results_dead = false }))
  | died ↦ (record m { results_dead = true }, false)
]
