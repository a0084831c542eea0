-- ===== src/Lotto/Draw.antt =====
-- The six numbers drawn.
use sop.Prelude.{
  ℕ, zero, suc, ◌+◌, ◌-◌, ◌/◌, ◌<◌, ◌≤◌, ◌≡◌, refl, ap, ◌∙◌, List, arith, length, take, length-take,
}
use sop.Prelude.Count.{count, count-take, swap, length-swap, count-swap}
use sop.Lotto.{numbers, numbers_max, all_from, pick, shuffle, draw}
use native.Mathlib.Nat.{div-lt_iff_lt-mul, lt-mul-div-succ}

-- The quotient stays below k: else k times the divisor would not be above `rand_max`.
pick-bound : (rand_max r k : ℕ) → r ≤ rand_max → 0 < k → r / (rand_max / k + 1) < k
pick-bound rand_max r k le pos =
    (div-lt_iff_lt-mul {k = rand_max / k + 1} {x = r} {y = k} (omega arith)).1
      (omega (arith, lt-mul-div-succ rand_max pos))

pub pick-le : (rand_max r i : ℕ) → r ≤ rand_max → i < numbers_max → pick rand_max r i < numbers_max
unfolding pick
pick-le rand_max r i le lt =
    let b = pick-bound rand_max r (numbers_max - i) le (omega arith) in omega (arith, b)

shuffle-count :
    (rand_max : ℕ) (rand : ℕ → ℕ)
    → ((i : ℕ) → rand i ≤ rand_max)
    → (c n i : ℕ) (xs : List ℕ) → n + i < numbers_max
    → length xs ≡ numbers_max
    → (count c (shuffle rand_max rand i n xs) ≡ count c xs)
      × (length (shuffle rand_max rand i n xs) ≡ numbers_max)
unfolding shuffle
shuffle-count rand_max rand ok c zero i xs h e = (refl, e)
shuffle-count rand_max rand ok c (suc n) i xs h e =
    let j = pick rand_max (rand i) i in
    let lt : j < length xs = omega (arith, e, pick-le rand_max (rand i) i (ok i) (omega arith)) in
    let ih =
      shuffle-count rand_max rand ok c n (i + 1) (swap xs i j) (omega arith)
        (length-swap xs i j ∙ e) in
    (ih.0 ∙ count-swap c xs i j (omega (arith, e)) lt, ih.1)

count-all_low : (c i n : ℕ) → c ≤ i → count c (all_from i n) ≡ 0
unfolding count all_from
count-all_low c i zero h = refl
count-all_low c i (suc n) h = ground (arith, count-all_low c (i + 1) n)

count-all_high : (c i n : ℕ) → i + n < c → count c (all_from i n) ≡ 0
unfolding count all_from
count-all_high c i zero h = refl
count-all_high c i (suc n) h = ground (arith, count-all_high c (i + 1) n)

count-all : (c i n : ℕ) → count c (all_from i n) ≤ 1
unfolding count all_from
count-all c i zero = omega arith
count-all c i (suc n) = ground (arith, count-all c (i + 1) n, count-all_low c (i + 1) n)

length-all : (i n : ℕ) → length (all_from i n) ≡ n
unfolding all_from
length-all i zero = refl
length-all i (suc n) = ap suc (length-all (i + 1) n)

-- Whatever numbers up to RAND_MAX `rand` gives, six numbers are drawn, no number twice, and none that
-- is 0 or above 49; and each exchange on the way stays inside the array.
pub draw_lem :
    (rand_max : ℕ) (rand : ℕ → ℕ)
    → ((i : ℕ) → rand i ≤ rand_max)
    → (length (draw rand_max rand) ≡ numbers)
      × ((c : ℕ)
          → (count c (draw rand_max rand) ≤ 1)
            × (c ≡ 0 → count c (draw rand_max rand) ≡ 0)
            × (numbers_max < c → count c (draw rand_max rand) ≡ 0))
      × ((i : ℕ) → i < numbers_max → pick rand_max (rand i) i < numbers_max)
unfolding draw
draw_lem rand_max rand ok = (
  omega (arith, length-take numbers mixed, (shuffled 0).1),
  (λ c. (
    omega (arith, few c, count-all c 0 numbers_max),
    (λ e. omega (arith, few c, count-all_low c 0 numbers_max)),
    (λ e. omega (arith, few c, count-all_high c 0 numbers_max)),
  )),
  (λ i lt. pick-le rand_max (rand i) i (ok i) lt),
)
  where
    mixed : List ℕ
    mixed = shuffle rand_max rand 0 (numbers_max - 1) (all_from 0 numbers_max)

    shuffled :
        (c : ℕ) → (count c mixed ≡ count c (all_from 0 numbers_max)) × (length mixed ≡ numbers_max)
    shuffled c =
        shuffle-count rand_max rand ok c (numbers_max - 1) 0 (all_from 0 numbers_max) (omega arith)
          (length-all 0 numbers_max)

    few : (c : ℕ) → count c (take numbers mixed) ≤ count c (all_from 0 numbers_max)
    few c = omega (arith, count-take c numbers mixed, (shuffled c).0)
