-- ===== src/Lotto/Tests.antt =====
-- A `rand` that gives small numbers; two players, the second one gone.
use sop.Prelude.{
  ℕ, zero, suc, ◌+◌, ◌*◌, ◌%◌, ◌<◌, ◌≤◌, ◌≡◌, ◌≢◌, refl, [], ◌∷◌, some, arith, length,
}
use sop.Prelude.Int.{pos, int_limit}
use sop.Prelude.Count.{count}
use sop.Lotto.{
  numbers, numbers_max, pick, shuffle, all_from, draw, compare, get_reward, Bet, bet, ended,
  Written, delivered, failed, Totaliser, serve_players, Day,
}
use sop.Lotto.Draw.{draw_lem}
use sop.Lotto.Compare.{reward_lem}
use sop.Lotto.Sums.{Proper, paid_by, won_by, sum_open, lucky_ones, day_lem}

abbrev rand_max : ℕ
rand_max = 2147483647

abbrev rand : ℕ → ℕ
rand i = i * 12345 % 1000

rand_small : (i : ℕ) → rand i ≤ rand_max
rand_small i = omega arith

numbers_drawn :
    (length (draw rand_max rand) ≡ numbers)
    × ((c : ℕ)
        → (count c (draw rand_max rand) ≤ 1)
          × (c ≡ 0 → count c (draw rand_max rand) ≡ 0)
          × (numbers_max < c → count c (draw rand_max rand) ≡ 0))
    × ((i : ℕ) → i < numbers_max → pick rand_max (rand i) i < numbers_max)
numbers_drawn = draw_lem rand_max rand rand_small

reward_paid :
    let lucky = draw rand_max rand in
    let mine = draw rand_max (λ _. 7) in
    (r : ℕ) × (get_reward (compare lucky mine) ≡ some r)
    × (get_reward (compare mine lucky) ≡ some r)
reward_paid = reward_lem rand_max rand (λ _. 7) rand_small (λ _. omega arith)

abbrev answer : ℕ → Bet
answer zero = bet (1 ∷ 2 ∷ 3 ∷ 4 ∷ 5 ∷ 6 ∷ [])
answer (suc i) = ended

answer-Proper : (i : ℕ) → Proper (answer i)
answer-Proper zero = refl
answer-Proper (suc i) = tt

abbrev today : Day
today = record { rand = rand; read = answer; write = λ _. delivered }

abbrev totaliser : Totaliser
totaliser = record { rps = 3 ∷ 5 ∷ []; wps = 4 ∷ 6 ∷ []; total_bet = pos 3; total_reward = pos 0 }

goes_out : (w : Written) → w ≡ delivered → w ≢ failed
goes_out w e e' = cc

day_lem_example :
    (t : Totaliser) × (serve_players 2 0 (draw rand_max today.rand) today.read today.write totaliser
      ≡ some t)
    × (t.total_bet ≡ pos (3 + paid_by 2 0 totaliser.rps today.read))
    × (t.total_reward ≡ pos (0 + won_by 2 0 (draw rand_max today.rand) totaliser.rps today.read))
unfolding sum_open lucky_ones draw shuffle all_from pick count int_limit
day_lem_example =
    day_lem rand_max 2 3 0 today totaliser rand_small answer-Proper (λ _. goes_out delivered refl)
      refl refl (omega arith) (omega arith)
