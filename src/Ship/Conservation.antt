-- ===== src/Ship/Conservation.antt =====
-- The cards over a whole game.
use mathlib.Core.Path.{subst}
use sop.Prelude.{
  ℕ, ◌+◌, ◌*◌, ◌<◌, ◌≤◌, ◌≡◌, sym, ap, ◌∙◌, List, [], ◌∷◌, arith, length, length-set,
  length-replicate, get_or, set, take,
}
use sop.Prelude.Count.{count, count-set, count_at, one_if, sum_of-set}
use sop.Ship.{choose_card_to_discard}
use sop.Ship.Discard.{choose_card_to_discard_lem}
use sop.Ship.Table.{
  Player, playing, over, waiting, gone, Table, player, pipe, write_ring_idx, nobody, Step, wins,
  passes, breaks, receives, ends, interrupted, Reach, begin, next,
}
use sop.Ship.Hands.{
  held, on_table, HandOk, AllOk, AllOk-at, AllOk-set, Winning, count_one_more, length-deal, deal_ok,
  deal_cards, no_cards,
}

record Inv (n m : ℕ) (deck : List ℕ) (s : Table) : Type 0 where
  players : length s.players ≡ n
  ring : length s.ring ≡ n
  hands : AllOk m s.players
  cards : (c : ℕ) → on_table c s ≡ count c (take (n * m) deck)
  winners : Winning m s.won

-- A player and one pipe change, the cards of both being the same as before.
exchanged :
    (n m : ℕ) (deck : List ℕ) (s : Table) (k j : ℕ) (p : Player) (b : List ℕ) (w : List (List ℕ))
    → k < n
    → j < n
    → HandOk m p
    → Winning m w
    → ((c : ℕ) → held c p + count c b ≡ held c (player s k) + count c (pipe s j))
    → Inv n m deck s
    → Inv n m deck (record { players = set s.players k p; ring = set s.ring j b; won = w })
exchanged n m deck s k j p b w lk lj ok won same v = record {
  winners = won;
  players = length-set s.players k p ∙ v.players;
  ring = length-set s.ring j b ∙ v.ring;
  hands = AllOk-set m s.players k p v.hands ok;
  cards = λ c. omega (
    arith,
    v.cards c,
    same c,
    sum_of-set (held c) s.players k p nobody (omega (arith, lk, v.players)),
    sum_of-set (count c) s.ring j b [] (omega (arith, lj, v.ring)),
  );
}

-- A player changes and no pipe does.
changed :
    (n m : ℕ) (deck : List ℕ) (s : Table) (k : ℕ) (p : Player) (w : List (List ℕ))
    → k < n
    → HandOk m p
    → Winning m w
    → ((c : ℕ) → held c p ≡ held c (player s k))
    → Inv n m deck s
    → Inv n m deck (record s { players = set s.players k p; won = w })
changed n m deck s k p w lk ok won same v = record {
  winners = won;
  players = length-set s.players k p ∙ v.players;
  ring = v.ring;
  hands = AllOk-set m s.players k p v.hands ok;
  cards = λ c. omega (
    arith,
    v.cards c,
    same c,
    sum_of-set (held c) s.players k p nobody (omega (arith, lk, v.players)),
  );
}

ok_at :
    (n m : ℕ) (deck : List ℕ) (s : Table) (k : ℕ) (p : Player)
    → Inv n m deck s
    → player s k ≡ p
    → HandOk m p
ok_at n m deck s k p v e = subst (HandOk m) e (AllOk-at m s.players k v.hands)

Step-Inv :
    (n m : ℕ) (deck : List ℕ) {s t : Table} → 0 < m → Step n s t → Inv n m deck s → Inv n m deck t
unfolding count
Step-Inv n m deck {s} pos (wins k hand lk p w) v =
    changed n m deck s k (over hand) _ lk tt (ok_at n m deck s k (playing hand) v p, w, v.winners)
      (λ c. ap (held c) (sym p)) v
Step-Inv n m deck {s} pos (passes k rand hand lk p w l) v =
    let size : length hand ≡ m = ok_at n m deck s k (playing hand) v p in
    let i : ℕ = choose_card_to_discard rand hand in
    let at : i < length hand =
      (choose_card_to_discard_lem rand hand (omega (arith, size, pos))).0 in
    exchanged n m deck s k (write_ring_idx n k) (waiting hand i) _ _ lk (omega (arith, lk))
      (size, omega (arith, at, size)) v.winners
      (λ c. omega (
        arith,
        count_at c hand i at,
        count_one_more c (pipe s (write_ring_idx n k)) (get_or hand i 0),
        ap (held c) p,
      ))
      v
Step-Inv n m deck {s} pos (breaks k hand lk p w l) v =
    changed n m deck s k (over hand) _ lk tt v.winners (λ c. ap (held c) (sym p)) v
Step-Inv n m deck {s} pos (receives k i hand card rest lk p q) v =
    let (size, li) = ok_at n m deck s k (waiting hand i) v p in
    let at : i < length hand = omega (arith, size, li) in
    exchanged n m deck s k k (playing (set hand i card)) rest _ lk lk
      (length-set hand i card ∙ size) v.winners
      (λ c.
        let one : count c (card ∷ rest) ≡ one_if c card + count c rest = ground arith in
        omega (
          arith,
          count-set c i card hand at,
          count_at c hand i at,
          ap (held c) p,
          ap (count c) q,
          one,
        ))
      v
Step-Inv n m deck {s} pos (ends k j i hand lk lj r p q l) v =
    changed n m deck s k (gone hand i) _ lk tt v.winners (λ c. ap (held c) (sym p)) v
Step-Inv n m deck {s} pos (interrupted k hand lk p) v =
    changed n m deck s k (over hand) _ lk tt v.winners (λ c. ap (held c) (sym p)) v

Reach-Inv :
    (n m : ℕ) (deck : List ℕ) {s : Table}
    → 0 < m
    → n * m ≤ length deck
    → Reach n m deck s
    → Inv n m deck s
Reach-Inv n m deck pos le begin = record {
  players = length-deal n m deck;
  ring = length-replicate n [];
  hands = deal_ok n m deck le;
  cards = λ c. omega (arith, deal_cards c n m deck, no_cards c n);
  winners = tt;
}
Reach-Inv n m deck pos le (next r st) = Step-Inv n m deck pos st (Reach-Inv n m deck pos le r)

-- However the players take turns, leave and are interrupted: every card is on the table, in a hand or
-- on its way in the ring, as often as it is among the cards dealt; and every hand reported has
-- `m` cards and passes `is_winning`.
pub cards_lem :
    (n m : ℕ) (deck : List ℕ) (s : Table)
    → 0 < m
    → n * m ≤ length deck
    → Reach n m deck s
    → ((c : ℕ) → on_table c s ≡ count c (take (n * m) deck)) × Winning m s.won
cards_lem n m deck s pos le r = let v = Reach-Inv n m deck pos le r in (v.cards, v.winners)
