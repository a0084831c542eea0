-- ===== src/Deal.antt =====
-- lab06/sop-cards/sop-cards.c: the card game over shared memory, in rounds between two barriers.
pub mod Winners
pub mod Drawing
mod Tests
use sop.Prelude.{
  ℕ, zero, suc, ◌+◌, ◌-◌, ◌/◌, ◌%◌, List, [], ◌∷◌, Bool, true, false, Option, none, some,
  if◌then◌else◌, ltb, ◌==◌, get_or, set, length,
}
use sop.Prelude.Int.{ℤ, pos, negsuc, ltb_ℤ, same_int}

-- `player_data_t`: `active` is PLAYING (0) or RESIGNED (1).
pub record Player : Type 0 where
  pub card : ℤ
  pub score : ℕ
  pub active : ℕ

abbrev pub resigned : ℕ
resigned = 1

-- The first loop of a round: `winning_card` and `winning_count`.
pub look : List Player → ℤ → ℕ → ℤ × ℕ
look [] winning_card winning_count = (winning_card, winning_count)
look (p ∷ ps) winning_card winning_count =
    if p.active == resigned
    then look ps winning_card winning_count
    else (if ltb_ℤ winning_card p.card
        then look ps p.card 1
        else look ps winning_card
            (if same_int p.card winning_card then winning_count + 1 else winning_count))

-- The second loop.
pub give : ℤ → ℕ → List Player → List Player
give winning_card winning_score [] = []
give winning_card winning_score (p ∷ ps) =
    (if same_int p.card winning_card then record p { score = p.score + winning_score } else p)
    ∷ give winning_card winning_score ps

-- A round of `game_server_work` up to the second barrier; `none`: the division by zero.
pub score_round : List Player → Option (List Player)
score_round ps =
    let (card, count) = look ps (negsuc 0) 0 in
    if count == 0 then none else some (give card (length ps / count) ps)

-- The players left in the game; with none of them the game ends.
pub count_active : List Player → ℕ
count_active [] = 0
count_active (p ∷ ps) = let rest = count_active ps in if p.active == 0 then rest + 1 else rest

-- What the players have done between the server's rounds: their cards, and whether they resign.
pub record Moves : Type 0 where
  pub card : ℕ → ℤ
  pub resigns : ℕ → Bool

-- Each player who is still there shows its card, from number `i` on.
pub show : ℕ → (ℕ → ℤ) → List Player → List Player
show i card [] = []
show i card (p ∷ ps) =
    (if p.active == resigned then p else record p { card = card i }) ∷ show (i + 1) card ps

pub resign : ℕ → (ℕ → Bool) → List Player → List Player
resign i resigns [] = []
resign i resigns (p ∷ ps) =
    (if p.active == resigned then p else record p { active = if resigns i then 1 else 0 })
    ∷ resign (i + 1) resigns ps

-- `game_server_work`, with the players' parts of the rounds.
pub game : List Moves → List Player → Option (List Player)
game [] ps = some ps
game (m ∷ ms) ps = elim (score_round (show 0 m.card ps)) [
  | none ↦ none
  | some qs ↦
      let after = resign 0 m.resigns qs in
      if count_active after == 0 then some after else game ms after
]

-- The inner loop of `draw_card`: from index `i` on, `n` times, an element takes its successor's value.
pub shift : ℕ → ℕ → List ℕ → List ℕ
shift zero i cards = cards
shift (suc n) i cards = shift n (i + 1) (set cards i (get_or cards (i + 1) 0))

-- `draw_card`, for what `rand` gives, `last` being a valid index: the card, and the cards after it.
pub draw_card : ℕ → ℕ → List ℕ → ℕ × List ℕ
draw_card rand last cards =
    let i = rand % (last + 1) in
    let drawn = get_or cards i 0 in (drawn, set (shift (last - i) i cards) last drawn)

-- `create_cards`
pub create_cards : ℕ → ℕ → List ℕ
create_cards i zero = []
create_cards i (suc n) = (i + 1) ∷ create_cards (i + 1) n

-- The cards that a player draws; `last` falls with each one. A `last` below 0 ends in ERR (`none`).
pub draw_all : List ℕ → ℕ → List ℕ → Option (List ℕ)
draw_all [] remaining cards = some []
draw_all (r ∷ rs) zero cards = none
draw_all (r ∷ rs) (suc last) cards =
    let (drawn, cards') = draw_card r last cards in
    elim (draw_all rs last cards') [ none ↦ none | some ds ↦ some (drawn ∷ ds) ]
