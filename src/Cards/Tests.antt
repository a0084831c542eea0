-- ===== src/Cards/Tests.antt =====
-- Two players, who play 2 and 1.
use sop.Prelude.{ℕ, zero, suc, ◌+◌, ◌/◌, ◌<◌, ◌≤◌, ◌≡◌, refl, [], ◌∷◌, some, false, arith}
use sop.Prelude.Int.{ℤ, pos, negsuc, ltb_ℤ}
use sop.Cards.{Player, Calls, delivered, card, round, Turn, new_round, player_work, deck}
use sop.Cards.Rounds.{total, largest, answering, scored, round_lem}
use sop.Prelude.Count.{count}
use sop.Cards.Deck.{player_work_lem}

abbrev first : Player
first = record { rp = 3; wp = 4; score = 0; played = pos 0 }

abbrev second : Player
second = record { rp = 5; wp = 6; score = 1; played = pos 0 }

abbrev number : ℕ → ℤ
number zero = pos 2
number (suc j) = pos 1

abbrev calls : Calls
calls = record { announced = λ _. delivered; read = λ j. card (number j); paid = λ _. delivered }

round_lem_example :
    let both = first ∷ second ∷ [] in
    let max = largest 0 number both (negsuc 0) in
    let after = scored 0 number max (2 / answering 0 number max both) both in
    (round calls both ≡ some (after, false))
    × ((j : ℕ) → j < 2 → ltb_ℤ max (number j) ≡ false)
    × (total after ≤ total both + 2)
round_lem_example =
    round_lem calls number first (second ∷ []) (λ _. refl) (λ _. refl) (λ _. refl)
      (
        (λ e. omega (arith, e)),
        (λ e. omega (arith, e)),
        ((λ e. omega (arith, e)), (λ e. omega (arith, e)), tt),
      )

abbrev turn : Turn
turn = record { first = new_round; chance = 50; rand = 4; written = delivered; last = new_round }

cards_played :
    let played =
      count 2 (player_work (turn ∷ turn ∷ []) (record { cards = deck 0 3; remaining = 3 })).0 in
    (played ≤ 1) × (◌≡◌ {A = ℕ} 2 0 → played ≡ 0) × (3 < 2 → played ≡ 0)
cards_played = player_work_lem (turn ∷ turn ∷ []) 3 (omega arith) 2
