-- ===== src/Shop/Night/Tests.antt =====
-- A night with two shelves and one worker, who dies.
use sop.Prelude.{ℕ, ◌+◌, ◌*◌, ◌/◌, ◌≤◌, ◌≡◌, ◌⊎◌, refl, List, [], ◌∷◌, arith, true, false}
use sop.Prelude.Count.{count, sum_of, trues}
use sop.Shop.{work, is_sorted}
use sop.Shop.Night.{
  resting, died, wants, has_first, has_both, locking, chooses, locks_first, locks_second, is_killed,
  locks_next, Night, held, Step, acts, Reach, begin, next,
}
use sop.Shop.Night.Holding.{flag}
use sop.Shop.Night.Exclusion.{exclusion}
use sop.Shop.Night.Deaths.{corpses, dead_lem, manager_counts}
use sop.Shop.Night.Shelves.{shelves_lem}
use sop.Shop.Night.Progress.{AllOver, no_deadlock}

abbrev two_shelves : List ℕ
two_shelves = 1 ∷ 0 ∷ []

abbrev killed : Night
killed = record {
  store = record { log = two_shelves; owner_dead = true ∷ true ∷ []; dead = 0; sorted = false };
  procs = locking 0 ∷ died ∷ [];
}

killed-Reach : Reach 2 1 two_shelves killed
unfolding work sum_of
killed-Reach =
    next
      (next
        (next
          (next begin (
            acts (locking 0 ∷ []) resting [] _ (wants 0 1) refl
              (chooses 0 1 refl (omega arith) (omega arith) (λ e. omega (arith, e)))))
          (acts (locking 0 ∷ []) (wants 0 1) [] _ (has_first 0 1) refl (locks_first 0 1 refl)))
        (acts (locking 0 ∷ []) (has_first 0 1) [] _ (has_both 0 1) refl (locks_second 0 1 refl)))
      (acts (locking 0 ∷ []) (has_both 0 1) [] _ died refl (is_killed 0 1 0 refl))

-- The manager locks both shelves and finds the death at each.
abbrev counted_twice : Night
counted_twice = record {
  store = record { log = two_shelves; owner_dead = false ∷ false ∷ []; dead = 2; sorted = false };
  procs = locking 2 ∷ died ∷ [];
}

counted_twice-Reach : Reach 2 1 two_shelves counted_twice
unfolding sum_of
counted_twice-Reach =
    next
      (next killed-Reach
        (acts [] (locking 0) (died ∷ []) _ (locking 1) refl (locks_next 0 (omega arith) refl)))
      (acts [] (locking 1) (died ∷ []) _ (locking 2) refl (locks_next 1 (omega arith) refl))

alone_at_shelf : held 2 counted_twice.procs 0 + flag counted_twice.store 0 ≤ 1
alone_at_shelf = exclusion 2 1 two_shelves counted_twice 0 counted_twice-Reach

dead_lem_example : killed.store.dead + trues killed.store.owner_dead ≡ 2 * corpses killed.procs
dead_lem_example = dead_lem 2 1 two_shelves killed-Reach

manager_counts_example : counted_twice.store.dead / 2 ≡ corpses counted_twice.procs
manager_counts_example =
    manager_counts 2 1 two_shelves counted_twice [] (died ∷ []) counted_twice-Reach refl

shelves_lem_example :
    ((c : ℕ) → count c counted_twice.store.log ≡ count c two_shelves)
    × (counted_twice.store.sorted ≡ true → is_sorted 0 2 counted_twice.store.log ≡ true)
shelves_lem_example = shelves_lem 2 1 two_shelves counted_twice refl counted_twice-Reach

no_deadlock_example : AllOver 2 killed.procs ⊎ ((t : Night) × Step 2 1 killed t)
no_deadlock_example = no_deadlock 2 1 two_shelves killed (omega arith) killed-Reach
