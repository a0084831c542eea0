-- ===== src/Ship/Discard.antt =====
-- Which card is passed on.
use sop.Prelude.{
  ℕ, zero, suc, ◌+◌, ◌%◌, ◌<◌, ◌≤◌, ◌≡◌, ◌⊎◌, List, [], ◌∷◌, arith, false, ltb, ◌==◌, length,
  get_or, Bool-cases, inl, inr,
}
use sop.Ship.{suit, suit_count, best_suit, bad_cards, choose_card_to_discard}

-- An entry of `bad_cards` is the index of a card of another suit.
get_or-bad_cards :
    (best i k : ℕ) (cs : List ℕ)
    → k < length (bad_cards best i cs)
    → (j : ℕ) × (get_or (bad_cards best i cs) k 0 ≡ i + j)
      × (j < length cs)
      × ((suit (get_or cs j 0) == best) ≡ false)
unfolding bad_cards
get_or-bad_cards best i k [] lt = elim lt [ ]
get_or-bad_cards best i zero (c ∷ cs) lt = elim (Bool-cases (suit c == best)) [
  | inr other ↦ (0, rw other (omega arith), omega arith, other)
  | inl same ↦
      let (j, e, lt', o) = get_or-bad_cards best (i + 1) zero cs (ground arith) in
      (suc j, rw same (omega (arith, e)), omega (arith, lt'), o)
]
get_or-bad_cards best i (suc k) (c ∷ cs) lt = elim (Bool-cases (suit c == best)) [
  | inr other ↦
      let (j, e, lt', o) = get_or-bad_cards best (i + 1) k cs (ground arith) in
      (suc j, rw other (omega (arith, e)), omega (arith, lt'), o)
  | inl same ↦
      let (j, e, lt', o) = get_or-bad_cards best (i + 1) (suc k) cs (ground arith) in
      (suc j, rw same (omega (arith, e)), omega (arith, lt'), o)
]

best_suit-most :
    (hand : List ℕ) (s : ℕ) → s < 4 → suit_count s hand ≤ suit_count (best_suit hand) hand
unfolding best_suit
best_suit-most hand zero lt = ground arith
best_suit-most hand (suc zero) lt = ground arith
best_suit-most hand (suc (suc zero)) lt = ground arith
best_suit-most hand (suc (suc (suc zero))) lt = ground arith
best_suit-most hand (suc (suc (suc (suc s)))) lt = absurd (omega arith)

-- The card that a player with a hand passes on is one of the hand, whatever `rand` gives; it is not of
-- the suit chosen to be collected, unless all cards are of that suit; and of no suit the hand
-- has more cards than of that one.
pub choose_card_to_discard_lem :
    (rand : ℕ) (hand : List ℕ)
    → 0 < length hand
    → let i = choose_card_to_discard rand hand in
      (i < length hand)
      × (((suit (get_or hand i 0) == best_suit hand) ≡ false)
          ⊎ (length (bad_cards (best_suit hand) 0 hand) ≡ 0))
      × ((s : ℕ) → s < 4 → suit_count s hand ≤ suit_count (best_suit hand) hand)
unfolding choose_card_to_discard
choose_card_to_discard_lem rand hand some_card =
    elim (Bool-cases (ltb 0 (length (bad_cards (best_suit hand) 0 hand)))) [
      | inl bad ↦
          let n = length (bad_cards (best_suit hand) 0 hand) in
          let (j, e, lt, o) = get_or-bad_cards (best_suit hand) 0 (rand % n) hand (ground arith) in
          let at : get_or (bad_cards (best_suit hand) 0 hand) (rand % n) 0 ≡ j = omega (arith, e) in
          rw (bad, at) (lt, inl o, best_suit-most hand)
      | inr none_bad ↦ rw none_bad (omega arith, inr (ground arith), best_suit-most hand)
    ]
