-- ===== src/Shop/Tests.antt =====
-- Four shelves.
use sop.Prelude.{
  ℕ, ◌*◌, ◌%◌, ◌<◌, ◌≡◌, ◌≢◌, ◌⊎◌, refl, List, [], ◌∷◌, true, false, arith, length, get_or,
}
use sop.Prelude.Count.{count}
use sop.Shop.{done, dies, work, shuffle, is_sorted, lower, upper}
use sop.Shop.Sorting.{Worked, work_lem, shuffle_lem, is_sorted_lem}

abbrev shelves : List ℕ
shelves = 3 ∷ 1 ∷ 0 ∷ 2 ∷ []

one_round :
    ((log' : List ℕ) × (work 7 0 2 shelves ≡ done log') × Worked 0 2 shelves log')
    ⊎ (work 7 0 2 shelves ≡ dies)
      × (7 % 100 ≡ 0)
      × (get_or shelves (upper 0 2) 0 < get_or shelves (lower 0 2) 0)
one_round = work_lem 7 0 2 shelves (omega arith) (omega arith) (λ e. omega (arith, e))

shelves_shuffled :
    (length (shuffle (λ i. i * i) 3 shelves) ≡ length shelves)
    × ((c : ℕ) → count c (shuffle (λ i. i * i) 3 shelves) ≡ count c shelves)
shelves_shuffled = shuffle_lem (λ i. i * i) 3 shelves refl

shelves_sorted :
    ((is_sorted 0 4 shelves ≡ true) × ((k : ℕ) → k < 4 → get_or shelves k 0 ≡ k))
    ⊎ ((is_sorted 0 4 shelves ≡ false) × (k : ℕ) × (k < 4) × (get_or shelves k 0 ≢ k))
shelves_sorted = is_sorted_lem 4 shelves
