-- ===== src/Ship.antt =====
-- lab05/sop-ship/sop-ship.c: players in a ring pass cards on until somebody has cards of one suit only.
pub mod Discard
pub mod Table
pub mod Hands
pub mod Conservation
mod Tests
use sop.Prelude.{
  ℕ, zero, suc, ◌+◌, ◌-◌, ◌%◌, List, [], ◌∷◌, ◌++◌, Bool, true, false, Option, none, some,
  if◌then◌else◌, ltb, ◌==◌, get_or, set, length,
}

abbrev pub suit : ℕ → ℕ
suit card = card % 4

-- The loop of `is_winning`.
unfoldable pub all_of_suit : ℕ → List ℕ → Bool
all_of_suit s [] = true
all_of_suit s (c ∷ cs) = if suit c == s then all_of_suit s cs else false

unfoldable pub is_winning : List ℕ → Bool
is_winning [] = true
is_winning (c ∷ cs) = all_of_suit (suit c) cs

-- `suit_counts[s]`
pub suit_count : ℕ → List ℕ → ℕ
suit_count s [] = 0
suit_count s (c ∷ cs) = let rest = suit_count s cs in if suit c == s then rest + 1 else rest

abbrev pub better : List ℕ → ℕ → ℕ → ℕ
better hand best i = if ltb (suit_count best hand) (suit_count i hand) then i else best

pub best_suit : List ℕ → ℕ
best_suit hand = better hand (better hand (better hand 0 1) 2) 3

-- `bad_cards`: the indices of cards of other suits, from `i` on.
pub bad_cards : ℕ → ℕ → List ℕ → List ℕ
bad_cards best i [] = []
bad_cards best i (c ∷ cs) =
    let rest = bad_cards best (i + 1) cs in if suit c == best then rest else i ∷ rest

-- `choose_card_to_discard`, for what `rand` gives.
pub choose_card_to_discard : ℕ → List ℕ → ℕ
choose_card_to_discard rand hand =
    let bad = bad_cards (best_suit hand) 0 hand in
    if ltb 0 (length bad) then get_or bad (rand % length bad) 0 else rand % length hand

-- What `write` to the ring reports, and `read` from it.
pub data Written : Type 0 where
  delivered epipe broken : Written

pub data Received : Type 0 where
  card : ℕ → Received
  ended failed : Received

pub record Round : Type 0 where
  pub rand : ℕ
  pub written : Written
  pub received : Received

-- How a player ends: it has won, with its hand; the ring is broken off; ERR; the rounds are used up.
pub data Ending : Type 0 where
  won : List ℕ → Ending
  left : Ending
  error : Ending
  playing : List ℕ → Ending

-- The loop of `player_work`, with the cards that it passed on. The `write` by which a winner reports
-- its pid is taken not to fail with an error other than EPIPE.
pub player_work : List Round → List ℕ → List ℕ × Ending
player_work [] hand = ([], if is_winning hand then won hand else playing hand)
player_work (r ∷ rs) hand =
    let i = choose_card_to_discard r.rand hand in
    let passed = get_or hand i 0 in
    if is_winning hand then ([], won hand) else elim r.written [
      | epipe ↦ ([], left)
      | broken ↦ ([], error)
      | delivered ↦ elim r.received [
        | failed ↦ (passed ∷ [], error)
        | ended ↦ (passed ∷ [], left)
        | card c ↦ let (cards, ending) = player_work rs (set hand i c) in (passed ∷ cards, ending)
      ]
    ]
