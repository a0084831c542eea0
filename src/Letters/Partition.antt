-- ===== src/Letters/Partition.antt =====
-- The sums over all parts.
use native.Mathlib.Nat.{mul-zero}
use sop.Prelude.{
  ℕ, zero, suc, ◌+◌, ◌-◌, ◌/◌, ◌≤◌, ◌<◌, ◌≡◌, sym, ap, ◌∙◌, List, [], ◌∷◌, arith, false, length,
  get_or, take, drop, take_all,
}
use sop.Prelude.Count.{count, count-take, count-split}
use sop.Letters.Counting.{Bytes, program_lem}
use sop.Prelude.Int.{pos, int_limit, add_int_small}
use sop.Letters.{max_proc, child, failed, sum_counts, total_counts}
use sop.Letters.Parts.{bound, part_start_lem, part_end_lem, bound_step}

-- One more part.
sum_step :
    (log : List ℕ) (m k : ℕ) (rand : ℕ → ℕ) (c : ℕ)
    → Bytes log
    → length log < int_limit
    → k < m
    → m ≤ max_proc
    → (v : ℕ) × (get_or (child log m k (rand k)).0 c (pos 0) ≡ pos v)
      × (v + count c (take (bound (length log) m k) log)
          ≡ count c (take (bound (length log) m (suc k)) log))
unfolding child
sum_step log m k rand c bytes small lt few =
    let size : ℕ = length log in
    let a : ℕ = bound size m k in
    let b : ℕ = bound size m (suc k) in
    let (ordered, inside) = bound_step size m k lt in
    let split : count c (take (a + (b - a)) log)
        ≡ count c (take a log) + count c (take (b - a) (drop a log)) =
      count-split c a (b - a) log in
    let whole : a + (b - a) ≡ b = omega (arith, ordered) in
    (
      count c (take (b - a) (drop a log)),
      rw (part_start_lem size m k small lt few, part_end_lem size m k small lt few)
          (program_lem log a b c bytes ordered inside small),
      omega (arith, split, ap (λ i. count c (take i log)) whole),
    )

count_le : (c : ℕ) (xs : List ℕ) → count c xs ≤ length xs
unfolding count
count_le c [] = omega arith
count_le c (x ∷ xs) = ground (arith, count_le c xs)

sum_counts_lem :
    (log : List ℕ) (m k : ℕ) (rand : ℕ → ℕ) (c : ℕ)
    → Bytes log
    → length log < int_limit
    → k ≤ m
    → 1 ≤ m
    → m ≤ max_proc
    → sum_counts log m k rand c ≡ pos (count c (take (bound (length log) m k) log))
unfolding sum_counts count
sum_counts_lem log m zero rand c bytes small le one few =
    let nothing : bound (length log) m 0 ≡ 0 = ground (arith, one, mul-zero (length log / m)) in
    ap (λ i. pos (count c (take i log))) (sym nothing)
sum_counts_lem log m (suc k) rand c bytes small le one few =
    let (v, own, more) = sum_step log m k rand c bytes small (omega arith) few in
    let before : ℕ = count c (take (bound (length log) m k) log) in
    let sum : before + v ≡ count c (take (bound (length log) m (suc k)) log) =
      omega (arith, more) in
    rw (sum_counts_lem log m k rand c bytes small (omega arith) one few, own)
      (add_int_small before v (
          omega
            (arith, sum, small, count-take c (bound (length log) m (suc k)) log, count_le c log))
        ∙ ap pos sum)

-- For a file of bytes, fewer than 2 ^ 31, and any number of processes from 1 up to those that the
-- shared memory has room for: if no child fails, the total printed for every byte is how often it
-- occurs in the file, though every process has counted only its own part.
pub total_counts_lem :
    (log : List ℕ) (m : ℕ) (rand : ℕ → ℕ) (c : ℕ)
    → Bytes log
    → length log < int_limit
    → 1 ≤ m
    → m ≤ max_proc
    → failed log m m rand ≡ false
    → total_counts log m rand c ≡ pos (count c log)
unfolding total_counts
total_counts_lem log m rand c bytes small one room well =
    let all : bound (length log) m m ≡ length log = ground arith in
    rw well (
      sum_counts_lem log m m rand c bytes small (omega arith) one room
      ∙ ap (λ i. pos (count c (take i log))) all
      ∙ ap (λ l. pos (count c l)) (take_all (length log) log (omega arith)))
