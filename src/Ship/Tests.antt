-- ===== src/Ship/Tests.antt =====
-- A hand of three suits.
use sop.Prelude.{
  ℕ, ◌*◌, take, ◌≡◌, ◌<◌, ◌≤◌, ◌⊎◌, refl, List, [], ◌∷◌, false, ◌==◌, length, get_or, arith,
}
use sop.Ship.Discard.{choose_card_to_discard_lem}
use sop.Ship.{
  suit, choose_card_to_discard, best_suit, bad_cards, suit_count, is_winning, all_of_suit,
}
use sop.Prelude.Count.{count}
use sop.Ship.Table.{playing, over, deal, Table, wins, Reach, begin, next}
use sop.Ship.Hands.{on_table, Winning}
use sop.Ship.Conservation.{cards_lem}

discarded : choose_card_to_discard 1 (4 ∷ 8 ∷ 5 ∷ 12 ∷ 7 ∷ []) ≡ 4
unfolding choose_card_to_discard best_suit bad_cards suit_count
discarded = refl

abbrev hand : List ℕ
hand = 4 ∷ 8 ∷ 5 ∷ 12 ∷ 7 ∷ []

discard_chosen :
    let i = choose_card_to_discard 1 hand in
    (i < length hand)
    × (((suit (get_or hand i 0) == best_suit hand) ≡ false)
        ⊎ (length (bad_cards (best_suit hand) 0 hand) ≡ 0))
    × ((s : ℕ) → s < 4 → suit_count s hand ≤ suit_count (best_suit hand) hand)
discard_chosen = choose_card_to_discard_lem 1 hand (omega arith)

-- Two players with one card each; the first one wins at once.
abbrev two_cards : List ℕ
two_cards = 3 ∷ 8 ∷ []

abbrev first_wins : Table
first_wins = record {
  players = over (3 ∷ []) ∷ playing (8 ∷ []) ∷ [];
  ring = [] ∷ [] ∷ [];
  won = (3 ∷ []) ∷ [];
}

first_wins-Reach : Reach 2 1 two_cards first_wins
unfolding deal is_winning all_of_suit
first_wins-Reach = next begin (wins 0 (3 ∷ []) (omega arith) refl refl)

cards_lem_example :
    ((c : ℕ) → on_table c first_wins ≡ count c (take (2 * 1) two_cards)) × Winning 1 first_wins.won
cards_lem_example = cards_lem 2 1 two_cards first_wins (omega arith) (omega arith) first_wins-Reach
