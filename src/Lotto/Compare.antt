-- ===== src/Lotto/Compare.antt =====
-- How many numbers of two draws agree.
use sop.Prelude.{ℕ, zero, suc, ◌+◌, ◌≤◌, ◌≡◌, refl, ap, ◌∙◌, List, [], ◌∷◌, arith, some, length}
use sop.Prelude.Count.{count}
use sop.Lotto.{matches_of, compare, get_reward, draw}
use sop.Lotto.Draw.{draw_lem}

pub matches_of-count : (n : ℕ) (bet : List ℕ) → matches_of n bet ≡ count n bet
unfolding matches_of count
matches_of-count n [] = refl
matches_of-count n (b ∷ bet) = ground (arith, matches_of-count n bet)

compare-nil : (xs : List ℕ) → compare [] xs ≡ 0
unfolding compare matches_of
compare-nil [] = refl
compare-nil (x ∷ xs) = omega (arith, compare-nil xs)

compare-cons : (b : ℕ) (bet xs : List ℕ) → compare (b ∷ bet) xs ≡ compare bet xs + matches_of b xs
unfolding compare matches_of
compare-cons b bet [] = refl
compare-cons b bet (x ∷ xs) = ground (arith, compare-cons b bet xs)

-- It does not matter which of the two numbers lists is the bet.
pub compare_comm : (xs ys : List ℕ) → compare xs ys ≡ compare ys xs
unfolding compare
compare_comm [] ys = compare-nil ys
compare_comm (x ∷ xs) ys = omega (arith, compare-cons x xs ys, compare_comm xs ys)

pub compare-bound : (bet xs : List ℕ) → ((c : ℕ) → count c bet ≤ 1) → compare bet xs ≤ length xs
unfolding compare
compare-bound bet [] once = omega arith
compare-bound bet (x ∷ xs) once =
    omega (arith, matches_of-count x bet, once x, compare-bound bet xs once)

pub reward-inside : (m : ℕ) → m ≤ 6 → (r : ℕ) × (get_reward m ≡ some r)
unfolding get_reward
reward-inside zero h = (0, refl)
reward-inside (suc zero) h = (0, refl)
reward-inside (suc (suc zero)) h = (0, refl)
reward-inside (suc (suc (suc zero))) h = (24, refl)
reward-inside (suc (suc (suc (suc zero)))) h = (160, refl)
reward-inside (suc (suc (suc (suc (suc zero))))) h = (6000, refl)
reward-inside (suc (suc (suc (suc (suc (suc zero)))))) h = (10000000, refl)
reward-inside (suc (suc (suc (suc (suc (suc (suc m))))))) h = absurd (omega arith)

-- For two draws, such as the lucky numbers and a player's, `rand` giving numbers up to RAND_MAX:
-- `rewards` is not read outside of its bounds, and the reward is the same in whichever order
-- `compare` gets the two.
pub reward_lem :
    (rand_max : ℕ) (rand rand' : ℕ → ℕ)
    → ((i : ℕ) → rand i ≤ rand_max)
    → ((i : ℕ) → rand' i ≤ rand_max)
    → let lucky = draw rand_max rand in
      let mine = draw rand_max rand' in
      (r : ℕ) × (get_reward (compare lucky mine) ≡ some r)
      × (get_reward (compare mine lucky) ≡ some r)
reward_lem rand_max rand rand' ok ok' =
    let lucky = draw_lem rand_max rand ok in
    let mine = draw_lem rand_max rand' ok' in
    let bound = compare-bound (draw rand_max rand) (draw rand_max rand') (λ c. (lucky.1 c).0) in
    let (r, e) =
      reward-inside (compare (draw rand_max rand) (draw rand_max rand'))
        (omega (arith, bound, mine.0)) in
    (r, e, ap get_reward (compare_comm (draw rand_max rand') (draw rand_max rand)) ∙ e)
