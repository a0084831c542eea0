-- ===== src/Roulette.antt =====
-- lab05/sop-roulette/sop-roulette.c: players bet on numbers, a croupier spins the wheel.
pub mod Money
pub mod Table
mod Tests
use sop.Prelude.{
  ℕ, zero, suc, ◌+◌, ◌-◌, ◌*◌, ◌%◌, List, [], ◌∷◌, ◌++◌, Bool, true, false, Option, none, some,
  if◌then◌else◌, ltb, ◌==◌, get_or, set, ◌>>=◌,
}

-- PROBABILITY
abbrev pub probability : ℕ
probability = 10

-- What one turn of a player needs: what `rand` gives, three times; the lucky number read; and whether
-- no call fails, ERR ending the process otherwise.
pub record Turn : Type 0 where
  pub chance : ℕ
  pub rand_bet : ℕ
  pub rand_number : ℕ
  pub lucky : ℕ
  pub fine : Bool

-- How a player ends, with its amount: it stops, it is broke, ERR, or the turns are used up.
pub data Ending : Type 0 where
  saved : ℕ → Ending
  broke : Ending
  error : Ending
  playing : ℕ → Ending

-- `bet`
abbrev pub bet_of : ℕ → Turn → ℕ
bet_of amount t = t.rand_bet % amount + 1

abbrev pub wins : Turn → Bool
wins t = t.lucky == t.rand_number % 37

-- `amount` after a turn
abbrev pub amount_after : ℕ → Turn → ℕ
amount_after amount t =
    let bet = bet_of amount t in if wins t then amount - bet + 35 * bet else amount - bet

-- `player_work`, with the bets that it wrote.
pub player_work : List Turn → ℕ → List ℕ × Ending
player_work [] amount = ([], if amount == 0 then broke else playing amount)
player_work (t ∷ ts) amount =
    let (bets, ending) = player_work ts (amount_after amount t) in
    if amount == 0
    then ([], broke)
    else (if t.chance % probability == 0
        then ([], saved amount)
        else (if t.fine then (bet_of amount t ∷ bets, ending) else ([], error)))

-- What the three reads from a player give: the process, the number and the bet; the end at one of
-- them; an error.
pub data Offer : Type 0 where
  placed : ℕ → ℕ → ℕ → Offer
  ended failed : Offer

-- What `write` reports.
pub data Written : Type 0 where
  delivered epipe broken : Written

-- The croupier's pipes, and the lines printed: process, bet and number.
pub record Croupier : Type 0 where
  pub rps : List ℕ
  pub wps : List ℕ
  pub lines : List (ℕ × ℕ × ℕ)

abbrev pub announce : ℕ → ℕ → ℕ → Croupier → Croupier
announce pid number bet s = record s { lines = s.lines ++ (pid, bet, number) ∷ [] }

-- The lucky number is written to a player who has bet.
pub answer : ℕ → ℕ → ℕ → ℕ → Written → Croupier → Option Croupier
answer i pid number bet delivered s = some (announce pid number bet s)
answer i pid number bet epipe s =
    if get_or s.wps i 0 == 0
    then some (announce pid number bet s)
    else some (record s { wps = set s.wps i 0 })
answer i pid number bet broken s = none

-- One player in one round.
pub serve_player : ℕ → Offer → Written → Croupier → Option Croupier
serve_player i offer w s = if get_or s.rps i 0 == 0 then some s else elim offer [
  | placed pid number bet ↦ answer i pid number bet w s
  | ended ↦ some (record s { rps = set s.rps i 0 })
  | failed ↦ none
]

-- The loop over the players from `i` on, with `n` to go.
pub serve_players : ℕ → ℕ → (ℕ → Offer) → (ℕ → Written) → Croupier → Option Croupier
serve_players zero i read write s = some s
serve_players (suc n) i read write s =
    serve_player i (read i) (write i) s >>= serve_players n (i + 1) read write

-- `any`, for the players from `i` on with `n` to go.
pub any_open : ℕ → ℕ → List ℕ → Bool
any_open zero i rps = false
any_open (suc n) i rps = if get_or rps i 0 == 0 then any_open n (i + 1) rps else true

-- What the calls of one round report.
pub record Round : Type 0 where
  pub read : ℕ → Offer
  pub write : ℕ → Written

-- `server_work` with `n` players: the croupier at the end, and whether the loop has ended.
pub server_work : ℕ → List Round → Croupier → Option (Croupier × Bool)
server_work n [] s = some (s, false)
server_work n (r ∷ rs) s =
    serve_players n 0 r.read r.write s
    >>= (λ t. if any_open n 0 s.rps then server_work n rs t else some (t, true))
