-- ===== src/Ship/Table.antt =====
-- All the players at once: player `i` of `n` reads the pipe `i` of the ring and writes the next one.
use sop.Prelude.{
  ℕ, zero, suc, ◌+◌, ◌%◌, ◌<◌, ◌≡◌, List, [], ◌∷◌, ◌++◌, Bool, true, false, get_or, set, replicate,
  take, drop,
}
use sop.Ship.{is_winning, choose_card_to_discard}

-- Where a player stands: it has its hand; it has passed the card at a place on and waits for another;
-- it has left, with its hand, or while it waited for a card.
pub data Player : Type 0 where
  playing over : List ℕ → Player
  waiting gone : List ℕ → ℕ → Player

-- The hands that the server deals, `m` cards to each of `n` players.
unfoldable pub deal : ℕ → ℕ → List ℕ → List Player
deal zero m deck = []
deal (suc n) m deck = playing (take m deck) ∷ deal n m (drop m deck)

-- The players, the pipes of the ring, and the hands of those who have reported a win.
pub record Table : Type 0 where
  pub players : List Player
  pub ring : List (List ℕ)
  pub won : List (List ℕ)

abbrev pub nobody : Player
nobody = over []

abbrev pub player : Table → ℕ → Player
player s k = get_or s.players k nobody

abbrev pub pipe : Table → ℕ → List ℕ
pipe s k = get_or s.ring k []

abbrev pub becomes : Table → ℕ → Player → Table
becomes s k p = record s { players = set s.players k p }

-- A player has ended.
abbrev pub has_left : Player → Bool
has_left p = elim p [ over h ↦ true | gone h i ↦ true | _ ↦ false ]

abbrev pub write_ring_idx : ℕ → ℕ → ℕ
write_ring_idx n k = (k + 1) % n

-- A step of the player `k` of `n`.
pub data Step (n : ℕ) (s : Table) : Table → Type 0 where
  wins :
      (k : ℕ) (hand : List ℕ)
      → k < n
      → player s k ≡ playing hand
      → is_winning hand ≡ true
      → Step n s (record (becomes s k (over hand)) { won = hand ∷ s.won })
  passes :
      (k rand : ℕ) (hand : List ℕ)
      → k < n
      → player s k ≡ playing hand
      → is_winning hand ≡ false
      → has_left (player s (write_ring_idx n k)) ≡ false
      → Step n s (record (becomes s k (waiting hand (choose_card_to_discard rand hand))) {
        ring =
            set s.ring (write_ring_idx n k) (
              pipe s (write_ring_idx n k) ++ get_or hand (choose_card_to_discard rand hand) 0 ∷ []);
      })
  breaks :
      (k : ℕ) (hand : List ℕ)
      → k < n
      → player s k ≡ playing hand
      → is_winning hand ≡ false
      → has_left (player s (write_ring_idx n k)) ≡ true
      → Step n s (becomes s k (over hand))
  receives :
      (k i : ℕ) (hand : List ℕ) (card : ℕ) (rest : List ℕ)
      → k < n
      → player s k ≡ waiting hand i
      → pipe s k ≡ card ∷ rest
      → Step n s (record (becomes s k (playing (set hand i card))) { ring = set s.ring k rest })
  ends :
      (k j i : ℕ) (hand : List ℕ)
      → k < n
      → j < n
      → write_ring_idx n j ≡ k
      → player s k ≡ waiting hand i
      → pipe s k ≡ []
      → has_left (player s j) ≡ true
      → Step n s (becomes s k (gone hand i))
  interrupted :
      (k : ℕ) (hand : List ℕ)
      → k < n
      → player s k ≡ playing hand
      → Step n s (becomes s k (over hand))

abbrev pub start : ℕ → ℕ → List ℕ → Table
start n m deck = record { players = deal n m deck; ring = replicate n []; won = [] }

pub data Reach (n m : ℕ) (deck : List ℕ) : Table → Type 0 where
  begin : Reach n m deck (start n m deck)
  next : {s t : Table} → Reach n m deck s → Step n s t → Reach n m deck t
