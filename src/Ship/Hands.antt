-- ===== src/Ship/Hands.antt =====
-- The cards in hands and on their way.
use native.Mathlib.Nat.{suc-mul, zero-mul}
use sop.Prelude.{
  ℕ, zero, suc, ◌+◌, ◌-◌, ◌*◌, ◌<◌, ◌≤◌, ◌≡◌, refl, sym, ap, List, [], ◌∷◌, ◌++◌, arith, true,
  length, length-take, length-drop, get_or, set, take, drop, replicate,
}
use sop.Prelude.Count.{count, count-split, one_if, sum_of}
use sop.Ship.{is_winning}
use sop.Ship.Table.{Player, playing, over, waiting, gone, deal, Table, nobody}

-- How often a player holds a card; one that it has passed on is not held.
abbrev pub held : ℕ → Player → ℕ
held c (playing hand) = count c hand
held c (over hand) = count c hand
held c (waiting hand i) = count c hand - one_if c (get_or hand i 0)
held c (gone hand i) = count c hand - one_if c (get_or hand i 0)

-- How often it is on the table.
abbrev pub on_table : ℕ → Table → ℕ
on_table c s = sum_of (held c) s.players + sum_of (count c) s.ring

abbrev pub HandOk : ℕ → Player → Type 0
HandOk m (playing hand) = length hand ≡ m
HandOk m (over hand) = Unit
HandOk m (waiting hand i) = (length hand ≡ m) × (i < m)
HandOk m (gone hand i) = Unit

abbrev pub AllOk : ℕ → List Player → Type 0
AllOk m [] = Unit
AllOk m (p ∷ ps) = HandOk m p × AllOk m ps

pub AllOk-at : (m : ℕ) (ps : List Player) (k : ℕ) → AllOk m ps → HandOk m (get_or ps k nobody)
AllOk-at m [] k h = tt
AllOk-at m (p ∷ ps) zero h = h.0
AllOk-at m (p ∷ ps) (suc k) h = AllOk-at m ps k h.1

pub AllOk-set :
    (m : ℕ) (ps : List Player) (k : ℕ) (p : Player) → AllOk m ps → HandOk m p → AllOk m (set ps k p)
AllOk-set m [] k p h g = tt
AllOk-set m (q ∷ ps) zero p h g = (g, h.1)
AllOk-set m (q ∷ ps) (suc k) p h g = (h.0, AllOk-set m ps k p h.1 g)

-- The hands reported: each of `m` cards of one suit.
abbrev pub Winning : ℕ → List (List ℕ) → Type 0
Winning m [] = Unit
Winning m (h ∷ hs) = (length h ≡ m) × (is_winning h ≡ true) × Winning m hs

pub count_one_more :
    (c : ℕ) (xs : List ℕ) (x : ℕ) → count c (xs ++ x ∷ []) ≡ count c xs + one_if c x
unfolding count
count_one_more c [] x = ground arith
count_one_more c (y ∷ ys) x = ground (arith, count_one_more c ys x)

pub length-deal : (n m : ℕ) (deck : List ℕ) → length (deal n m deck) ≡ n
unfolding deal
length-deal zero m deck = refl
length-deal (suc n) m deck = ap suc (length-deal n m (drop m deck))

pub deal_ok : (n m : ℕ) (deck : List ℕ) → n * m ≤ length deck → AllOk m (deal n m deck)
unfolding deal
deal_ok zero m deck le = tt
deal_ok (suc n) m deck le =
    let enough : m + n * m ≤ length deck = omega (arith, le, suc-mul n m) in
    (
      omega (arith, length-take m deck, enough),
      deal_ok n m (drop m deck) (omega (arith, length-drop m deck, enough)),
    )

-- What is dealt is the beginning of the deck.
pub deal_cards :
    (c n m : ℕ) (deck : List ℕ) → sum_of (held c) (deal n m deck) ≡ count c (take (n * m) deck)
unfolding deal sum_of count
deal_cards c zero m deck = ap (λ i. count c (take i deck)) (sym (zero-mul m))
deal_cards c (suc n) m deck =
    let split : suc n * m ≡ m + n * m = omega (arith, suc-mul n m) in
    omega (
      arith,
      deal_cards c n m (drop m deck),
      count-split c m (n * m) deck,
      ap (λ i. count c (take i deck)) split,
    )

pub no_cards : (c n : ℕ) → sum_of (count c) (replicate n []) ≡ 0
unfolding sum_of count
no_cards c zero = refl
no_cards c (suc n) = omega (arith, no_cards c n)
