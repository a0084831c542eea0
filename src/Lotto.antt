-- ===== src/Lotto.antt =====
-- lab05/sop-lotto/sop-lotto.c: players draw six numbers, a totaliser draws the lucky ones.
pub mod Draw
pub mod Compare
pub mod Sums
mod Tests
use sop.Prelude.{
  ℕ, zero, suc, ◌+◌, ◌-◌, ◌*◌, ◌/◌, ◌%◌, List, [], ◌∷◌, Option, none, some, if◌then◌else◌, ◌==◌,
  take, set, get_or, get_elem?, Bool, true, false, ◌||◌, ◌>>=◌,
}
use sop.Prelude.Int.{ℤ, pos, add_int}
use sop.Prelude.Count.{swap}

abbrev pub numbers_max : ℕ
numbers_max = 49

-- NUMBERS
abbrev pub numbers : ℕ
numbers = 6

abbrev pub bet_price : ℕ
bet_price = 3

-- `numbers_all` from `i` on, with `n` to go.
pub all_from : ℕ → ℕ → List ℕ
all_from i zero = []
all_from i (suc n) = (i + 1) ∷ all_from (i + 1) n

-- `j`, for what `rand` gives; `rand_max` is RAND_MAX.
pub pick : ℕ → ℕ → ℕ → ℕ
pick rand_max r i = i + r / (rand_max / (numbers_max - i) + 1)

-- The loop of exchanges, from `i` on with `n` to go; `rand i` is what `rand` gives in round `i`.
pub shuffle : ℕ → (ℕ → ℕ) → ℕ → ℕ → List ℕ → List ℕ
shuffle rand_max rand i zero xs = xs
shuffle rand_max rand i (suc n) xs =
    shuffle rand_max rand (i + 1) n (swap xs i (pick rand_max (rand i) i))

-- `draw`
pub draw : ℕ → (ℕ → ℕ) → List ℕ
draw rand_max rand =
    take numbers (shuffle rand_max rand 0 (numbers_max - 1) (all_from 0 numbers_max))

-- The inner loop of `compare`, and the outer one.
pub matches_of : ℕ → List ℕ → ℕ
matches_of number [] = 0
matches_of number (b ∷ bet) =
    let rest = matches_of number bet in if number == b then rest + 1 else rest

pub compare : List ℕ → List ℕ → ℕ
compare bet [] = 0
compare bet (number ∷ rest) = matches_of number bet + compare bet rest

-- `rewards`; an index outside of it gives `none`.
abbrev pub rewards : List ℕ
rewards = 0 ∷ 0 ∷ 0 ∷ 24 ∷ 160 ∷ 6000 ∷ 10000000 ∷ []

pub get_reward : ℕ → Option ℕ
get_reward matches = get_elem? rewards matches

-- What `write` reports.
pub data Written : Type 0 where
  delivered epipe failed : Written

-- What the two `read`s from a player report: the bet; the end at one of them; an error.
pub data Bet : Type 0 where
  bet : List ℕ → Bet
  ended failed : Bet

-- The totaliser's pipes, and its sums, which are ints.
pub record Totaliser : Type 0 where
  pub rps : List ℕ
  pub wps : List ℕ
  pub total_bet : ℤ
  pub total_reward : ℤ

-- A bet is taken, and the lucky numbers are sent to the player. `none`: ERR, or `rewards` is read
-- outside of its bounds.
pub sent_lucky : ℕ → Written → Totaliser → Option Totaliser
sent_lucky i delivered s = some s
sent_lucky i epipe s = some (record s { wps = set s.wps i 0 })
sent_lucky i failed s = none

pub pay_in : ℕ → ℕ → Totaliser → Totaliser
pay_in price reward s = record s {
  total_bet = add_int s.total_bet (pos price);
  total_reward = add_int s.total_reward (pos reward);
}

pub take_bet : ℕ → List ℕ → List ℕ → Written → Totaliser → Option Totaliser
take_bet i winning b w s =
    get_reward (compare winning b) >>= (λ reward. sent_lucky i w (pay_in bet_price reward s))

-- One player in one round.
pub serve_player : ℕ → List ℕ → Bet → Written → Totaliser → Option Totaliser
serve_player i winning read w s = if get_or s.rps i 0 == 0 then some s else elim read [
  | bet b ↦ take_bet i winning b w s
  | ended ↦ some (record s { rps = set s.rps i 0 })
  | failed ↦ none
]

-- The loop over the players, from `i` on with `n` to go.
pub serve_players : ℕ → ℕ → List ℕ → (ℕ → Bet) → (ℕ → Written) → Totaliser → Option Totaliser
serve_players zero i winning read write s = some s
serve_players (suc n) i winning read write s =
    serve_player i winning (read i) (write i) s >>= serve_players n (i + 1) winning read write

-- `any`, read before the players are served.
pub any_open : List ℕ → Bool
any_open [] = false
any_open (r ∷ rs) = if r == 0 then any_open rs else true

-- What one day needs: what `rand` gives, and what the calls report.
pub record Day : Type 0 where
  pub rand : ℕ → ℕ
  pub read : ℕ → Bet
  pub write : ℕ → Written

-- `totalisator_work`, for the days of a list and `n` players.
pub totalisator_work : ℕ → ℕ → List Day → Totaliser → Option Totaliser
totalisator_work rand_max n [] s = some s
totalisator_work rand_max n (d ∷ ds) s =
    serve_players n 0 (draw rand_max d.rand) d.read d.write s
    >>= (λ t. if any_open s.rps then totalisator_work rand_max n ds t else some t)

-- What a player's `read` of the lucky numbers reports.
pub data Lucky : Type 0 where
  lucky : List ℕ → Lucky
  ended failed : Lucky

-- One round of a player: what `rand` gives, for the decision and for the draw; its two `write`s; its
-- `read`.
pub record Play : Type 0 where
  pub chance : ℕ
  pub rand : ℕ → ℕ
  pub wrote_pid : Written
  pub wrote_numbers : Written
  pub read : Lucky

abbrev pub resign_probability : ℕ
resign_probability = 100

-- `player_work`: the rewards found; `none` as for the totaliser.
pub player_work : ℕ → List Play → Option (List ℕ)
player_work rand_max [] = some []
player_work rand_max (p ∷ ps) =
    let later = player_work rand_max ps in
    if p.chance % resign_probability == 0 then some [] else elim p.wrote_pid [
      | failed ↦ none
      | epipe ↦ some []
      | delivered ↦ elim p.wrote_numbers [
        | failed ↦ none
        | epipe ↦ some []
        | delivered ↦ elim p.read [
          | failed ↦ none
          | ended ↦ some []
          | lucky winning ↦
              get_reward (compare winning (draw rand_max p.rand))
              >>= (λ reward. later >>= (λ rs. some (reward ∷ rs)))
        ]
      ]
    ]
