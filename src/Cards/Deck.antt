-- ===== src/Cards/Deck.antt =====
-- A player never plays a card twice.
use sop.Prelude.{
  ℕ, zero, suc, ◌+◌, ◌-◌, ◌%◌, ◌<◌, ◌≤◌, ◌≡◌, refl, ap, ◌∙◌, List, [], ◌∷◌, arith, ltb, length,
  get_or, set, take, length-set, take_all, Bool-cases, inl, inr,
}
use sop.Prelude.Count.{count, one_if}
use sop.Cards.{Hand, deck, my_card, draw, Turn, player_work}

count-take-suc :
    (c n : ℕ) (xs : List ℕ)
    → n < length xs
    → count c (take (suc n) xs) ≡ count c (take n xs) + one_if c (get_or xs n 0)
unfolding count
count-take-suc c n [] h = elim h [ ]
count-take-suc c zero (x ∷ xs) h = ground arith
count-take-suc c (suc n) (x ∷ xs) h = ground (arith, count-take-suc c n xs)

count-take-set :
    (c n i v : ℕ) (xs : List ℕ)
    → i < n
    → n ≤ length xs
    → count c (take n (set xs i v)) + one_if c (get_or xs i 0) ≡ count c (take n xs) + one_if c v
unfolding count
count-take-set c zero i v xs lt h = elim lt [ ]
count-take-set c (suc n) i v [] lt h = absurd (omega arith)
count-take-set c (suc n) zero v (x ∷ xs) lt h = ground arith
count-take-set c (suc n) (suc i) v (x ∷ xs) lt h = ground (arith, count-take-set c n i v xs)

take-set_end : (n v : ℕ) (xs : List ℕ) → take n (set xs n v) ≡ take n xs
take-set_end zero v xs = refl
take-set_end (suc n) v [] = refl
take-set_end (suc n) v (x ∷ xs) = ap (λ t. x ∷ t) (take-set_end n v xs)

abbrev pub IsHand : Hand → Type 0
IsHand h = h.remaining ≤ length h.cards

abbrev left : ℕ → Hand → ℕ
left c h = count c (take h.remaining h.cards)

left-draw :
    (c i n : ℕ) (xs : List ℕ)
    → i ≤ n
    → n < length xs
    → count c (take n (set xs i (get_or xs n 0))) + one_if c (get_or xs i 0)
      ≡ count c (take (suc n) xs)
left-draw c i n xs le lt = elim (Bool-cases (ltb i n)) [
  | inl before ↦ ground (arith, count-take-set c n i (get_or xs n 0) xs, count-take-suc c n xs lt)
  | inr last ↦
      let e : i ≡ n = ground arith in
      rw (e, take-set_end n (get_or xs n 0) xs) (omega (arith, count-take-suc c n xs lt))
]

draw-left :
    (c r : ℕ) (h : Hand)
    → IsHand h
    → 0 < h.remaining
    → left c (draw r h) + one_if c (my_card r h) ≡ left c h
draw-left c r h ok more =
    let all : suc (h.remaining - 1) ≡ h.remaining = omega arith in
    left-draw c (r % h.remaining) (h.remaining - 1) h.cards (omega arith) (omega arith)
    ∙ ap (λ k. count c (take k h.cards)) all

draw-IsHand : (r : ℕ) (h : Hand) → IsHand h → IsHand (draw r h)
draw-IsHand r h ok =
    omega (arith, length-set h.cards (r % h.remaining) (get_or h.cards (h.remaining - 1) 0))

played-left :
    (c : ℕ) (ts : List Turn) (h : Hand)
    → IsHand h
    → length ts ≤ h.remaining
    → count c (player_work ts h).0 ≤ left c h
unfolding player_work count
played-left c [] h ok le = omega arith
played-left c (t ∷ ts) h ok le = ground (
  arith,
  draw-left c t.rand h ok (omega arith),
  played-left c ts h ok (omega arith),
  played-left c ts (draw t.rand h) (draw-IsHand t.rand h ok) (omega arith),
)

count-deck_low : (c i n : ℕ) → c ≤ i → count c (deck i n) ≡ 0
unfolding count deck
count-deck_low c i zero h = refl
count-deck_low c i (suc n) h = ground (arith, count-deck_low c (i + 1) n)

count-deck : (c i n : ℕ) → count c (deck i n) ≤ 1
unfolding count deck
count-deck c i zero = omega arith
count-deck c i (suc n) = ground (arith, count-deck c (i + 1) n, count-deck_low c (i + 1) n)

count-deck_high : (c i n : ℕ) → i + n < c → count c (deck i n) ≡ 0
unfolding count deck
count-deck_high c i zero h = refl
count-deck_high c i (suc n) h = ground (arith, count-deck_high c (i + 1) n)

length-deck : (i n : ℕ) → length (deck i n) ≡ n
unfolding deck
length-deck i zero = refl
length-deck i (suc n) = ap suc (length-deck (i + 1) n)

-- A player who starts with the cards 1 to m and plays at most m rounds plays no card twice and none
-- that is not among them, whatever random numbers it draws and however the rounds end.
pub player_work_lem :
    (ts : List Turn) (m : ℕ)
    → length ts ≤ m
    → (c : ℕ)
    → let played = count c (player_work ts (record { cards = deck 0 m; remaining = m })).0 in
      (played ≤ 1) × (c ≡ 0 → played ≡ 0) × (m < c → played ≡ 0)
player_work_lem ts m h c =
    let bound =
      played-left c ts (record { cards = deck 0 m; remaining = m }) (omega (arith, length-deck 0 m))
        h in
    let all : count c (take m (deck 0 m)) ≡ count c (deck 0 m) =
      ap (count c) (take_all m (deck 0 m) (omega (arith, length-deck 0 m))) in
    (
      omega (arith, bound, all, count-deck c 0 m),
      (λ e. omega (arith, bound, all, count-deck_low c 0 m)),
      (λ e. omega (arith, bound, all, count-deck_high c 0 m)),
    )
