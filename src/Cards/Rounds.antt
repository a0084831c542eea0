-- ===== src/Cards/Rounds.antt =====
-- The points that a round gives.
use sop.Prelude.{
  ℕ, zero, suc, ◌+◌, ◌*◌, ◌/◌, if◌then◌else◌, ◌<◌, ◌≤◌, ◌≡◌, ◌≢◌, refl, sym, ap, ◌∙◌, List, [], ◌∷◌,
  arith, false, some, ◌==◌, ltb, length, get_or, set, map, ◌>>=◌, length-set, Bool-cases, inl, inr,
}
use sop.Prelude.Int.{ℤ, negsuc, same_int, ltb_ℤ}
use native.Mathlib.Nat.{mul-div-le, div-zero}
use sop.Cards.{
  Player, no_player, paid, winners, points_to_give, delivered, Written, pay, give, Calls, Answer,
  card, announce, collect, cons, cons_max, larger, round, score_cards, after_announce,
}

-- Both pipes of every player are open.
abbrev pub Present : List Player → Type 0
Present [] = Unit
Present (p ∷ ps) = (p.rp ≢ 0) × (p.wp ≢ 0) × Present ps

pub total : List Player → ℕ
total [] = 0
total (p ∷ ps) = p.score + total ps

-- The players with the cards that they answer, from number `i` on, and the largest of these.
pub dealt : ℕ → (ℕ → ℤ) → List Player → List Player
dealt i c [] = []
dealt i c (p ∷ ps) = record p { played = c i } ∷ dealt (i + 1) c ps

pub largest : ℕ → (ℕ → ℤ) → List Player → ℤ → ℤ
largest i c [] max = max
largest i c (p ∷ ps) max = largest (i + 1) c ps (larger max (c i))

announce-Present :
    (i : ℕ) (write : ℕ → Written) (ps : List Player)
    → ((j : ℕ) → write j ≡ delivered)
    → Present ps
    → announce i write ps ≡ some (ps, false)
unfolding announce cons
announce-Present i write [] ok h = refl
announce-Present i write (p ∷ ps) ok h =
    let opened : (p.wp == 0) ≡ false = ground (arith, h.1) in
    rw (announce, opened, ok i) (ap (cons p) (announce-Present (i + 1) write ps ok h.2))

collect-Present :
    (i : ℕ) (read : ℕ → Answer) (c : ℕ → ℤ) (ps : List Player) (max : ℤ)
    → ((j : ℕ) → read j ≡ card (c j))
    → Present ps
    → collect i read ps max ≡ some (dealt i c ps, largest i c ps max)
unfolding collect dealt largest cons_max
collect-Present i read c [] max ok h = refl
collect-Present i read c (p ∷ ps) max ok h =
    let opened : (p.rp == 0) ≡ false = ground (arith, h.0) in
    rw (collect, opened, ok i)
      (ap (cons_max (record p { played = c i }))
        (collect-Present (i + 1) read c ps (larger max (c i)) ok h.2))

dealt-Present : (i : ℕ) (c : ℕ → ℤ) (ps : List Player) → Present ps → Present (dealt i c ps)
unfolding dealt
dealt-Present i c [] h = tt
dealt-Present i c (p ∷ ps) h = (h.0, h.1, dealt-Present (i + 1) c ps h.2)

dealt-total : (i : ℕ) (c : ℕ → ℤ) (ps : List Player) → total (dealt i c ps) ≡ total ps
unfolding dealt total
dealt-total i c [] = refl
dealt-total i c (p ∷ ps) = omega (arith, dealt-total (i + 1) c ps)

length-dealt : (i : ℕ) (c : ℕ → ℤ) (ps : List Player) → length (dealt i c ps) ≡ length ps
unfolding dealt
length-dealt i c [] = refl
length-dealt i c (p ∷ ps) = ap suc (length-dealt (i + 1) c ps)

-- From number `i` on, the players are paid.
pay_from : ℕ → ℤ → ℕ → List Player → List Player
pay_from zero max points ps = map (paid max points) ps
pay_from (suc i) max points [] = []
pay_from (suc i) max points (p ∷ ps) = p ∷ pay_from i max points ps

pay_from_end :
    (i : ℕ) (max : ℤ) (points : ℕ) (ps : List Player)
    → length ps ≤ i
    → pay_from i max points ps ≡ ps
unfolding pay_from
pay_from_end zero max points [] h = refl
pay_from_end zero max points (p ∷ ps) h = elim h [ ]
pay_from_end (suc i) max points [] h = refl
pay_from_end (suc i) max points (p ∷ ps) h =
    ap (λ t. p ∷ t) (pay_from_end i max points ps (omega arith))

pay_from_next :
    (i : ℕ) (max : ℤ) (points : ℕ) (ps : List Player)
    → i < length ps
    → pay_from (suc i) max points (set ps i (paid max points (get_or ps i no_player)))
      ≡ pay_from i max points ps
unfolding pay_from
pay_from_next i max points [] h = elim h [ ]
pay_from_next zero max points (p ∷ ps) h = refl
pay_from_next (suc i) max points (p ∷ ps) h =
    ap (λ t. p ∷ t) (pay_from_next i max points ps (omega arith))

-- The pipe to the first player stays open.
first_open-set :
    (ps : List Player) (i : ℕ) (max : ℤ) (points : ℕ)
    → (get_or (set ps i (paid max points (get_or ps i no_player))) 0 no_player).wp
      ≡ (get_or ps 0 no_player).wp
first_open-set [] i max points = refl
first_open-set (p ∷ ps) zero max points = refl
first_open-set (p ∷ ps) (suc i) max points = refl

give-delivered :
    (n i : ℕ) (max : ℤ) (points : ℕ) (write : ℕ → Written) (ps : List Player)
    → ((j : ℕ) → write j ≡ delivered)
    → ((get_or ps 0 no_player).wp == 0) ≡ false
    → n + i ≡ length ps
    → give n i max points write ps ≡ some (pay_from i max points ps)
unfolding give pay
give-delivered zero i max points write ps ok opened e =
    ap some (sym (pay_from_end i max points ps (omega arith)))
give-delivered (suc n) i max points write ps ok opened e =
    rw (give, opened, pay, ok i)
      (give-delivered n (i + 1) max points write (set ps i q) ok
          (ap (λ w. w == 0) (first_open-set ps i max points) ∙ opened)
          (omega (arith, length-set ps i q))
        ∙ ap some (
            ap (λ k. pay_from k max points (set ps i q)) (omega arith)
            ∙ pay_from_next i max points ps (omega arith)))
  where
    q : Player
    q = paid max points (get_or ps i no_player)

-- Each winner gets the points.
total-paid :
    (max : ℤ) (points : ℕ) (ps : List Player)
    → Present ps
    → total (map (paid max points) ps) ≡ total ps + points * winners max ps
unfolding total winners
total-paid max points [] h = omega arith
total-paid max points (p ∷ ps) h = elim (Bool-cases (same_int p.played max)) [
  | inl best ↦
      let opened : (p.rp == 0) ≡ false = ground (arith, h.0) in
      rw (best, opened) (omega (arith, total-paid max points ps h.2))
  | inr other ↦ rw other (ground (arith, total-paid max points ps h.2))
]

points_bound : (max : ℤ) (ps : List Player) → points_to_give max ps * winners max ps ≤ length ps
unfolding points_to_give
points_bound max ps = elim (Bool-cases (ltb 0 (winners max ps))) [
  | inl some_won ↦ rw some_won (omega (arith, mul-div-le (length ps) (winners max ps)))
  | inr none_won ↦ rw none_won (omega arith)
]

-- How many of the players from number `i` on answer with the card `max`.
pub answering : ℕ → (ℕ → ℤ) → ℤ → List Player → ℕ
answering i c max [] = 0
answering i c max (p ∷ ps) =
    let rest = answering (i + 1) c max ps in if same_int (c i) max then suc rest else rest

-- The players with the cards that they answer, those with the card `max` having got `share` points.
pub scored : ℕ → (ℕ → ℤ) → ℤ → ℕ → List Player → List Player
scored i c max share [] = []
scored i c max share (p ∷ ps) =
    record p { played = c i; score = p.score + (if same_int (c i) max then share else 0) }
    ∷ scored (i + 1) c max share ps

winners-dealt :
    (i : ℕ) (c : ℕ → ℤ) (max : ℤ) (ps : List Player)
    → Present ps
    → winners max (dealt i c ps) ≡ answering i c max ps
unfolding winners dealt answering
winners-dealt i c max [] h = refl
winners-dealt i c max (p ∷ ps) h =
    let opened : (p.rp == 0) ≡ false = ground (arith, h.0) in
    rw opened (ground (arith, winners-dealt (i + 1) c max ps h.2))

paid-dealt :
    (i : ℕ) (c : ℕ → ℤ) (max : ℤ) (points : ℕ) (ps : List Player)
    → map (paid max points) (dealt i c ps) ≡ scored i c max points ps
unfolding dealt scored
paid-dealt i c max points [] = refl
paid-dealt i c max points (p ∷ ps) =
    ap
      (λ t.
        record p { played = c i; score = p.score + (if same_int (c i) max then points else 0) } ∷ t)
      (paid-dealt (i + 1) c max points ps)

share_lem : (max : ℤ) (ps : List Player) → points_to_give max ps ≡ length ps / winners max ps
unfolding points_to_give
share_lem max ps = elim (Bool-cases (ltb 0 (winners max ps))) [
  | inl some_won ↦ rw some_won refl
  | inr none_won ↦
      let nobody : winners max ps ≡ 0 = ground (arith, none_won) in
      rw none_won (sym (ap (λ k. length ps / k) nobody ∙ div-zero (length ps)))
]

larger_chain : (m c l : ℤ) → ltb_ℤ l (larger m c) ≡ false → ltb_ℤ l m ≡ false
larger_chain m c l h = ground (arith, h)

larger_own : (m c l : ℤ) → ltb_ℤ l (larger m c) ≡ false → ltb_ℤ l c ≡ false
larger_own m c l h = ground (arith, h)

-- What is found is not below the start, nor below any card.
largest_above :
    (i : ℕ) (c : ℕ → ℤ) (ps : List Player) (max : ℤ) → ltb_ℤ (largest i c ps max) max ≡ false
unfolding largest
largest_above i c [] max = ground arith
largest_above i c (p ∷ ps) max =
    larger_chain max (c i) (largest (i + 1) c ps (larger max (c i)))
      (largest_above (i + 1) c ps (larger max (c i)))

largest_lem :
    (i j : ℕ) (c : ℕ → ℤ) (ps : List Player) (max : ℤ)
    → j < length ps
    → ltb_ℤ (largest i c ps max) (c (i + j)) ≡ false
unfolding largest
largest_lem i j c [] max lt = elim lt [ ]
largest_lem i zero c (p ∷ ps) max lt =
    let here : i + 0 ≡ i = omega arith in
    ap (λ k. ltb_ℤ (largest (i + 1) c ps (larger max (c i))) (c k)) here
    ∙ larger_own max (c i) (largest (i + 1) c ps (larger max (c i)))
        (largest_above (i + 1) c ps (larger max (c i)))
largest_lem i (suc j) c (p ∷ ps) max lt =
    let same : i + suc j ≡ i + 1 + j = omega arith in
    ap (λ k. ltb_ℤ (largest (i + 1) c ps (larger max (c i))) (c k)) same
    ∙ largest_lem (i + 1) j c ps (larger max (c i)) (omega (arith, lt))

-- A round of at least one player in which every player's pipes are open, every `write` succeeds and
-- player `j` answers with card `c j`: the game goes on; no card is above the largest one found; every
-- player whose card it is (or is -1, if all are below) gets the number of players divided by the
-- number of such players, the others get nothing; and together the players get at most one point for
-- each of them.
pub round_lem :
    (calls : Calls) (c : ℕ → ℤ) (p : Player) (ps : List Player)
    → ((j : ℕ) → calls.announced j ≡ delivered)
    → ((j : ℕ) → calls.read j ≡ card (c j))
    → ((j : ℕ) → calls.paid j ≡ delivered)
    → Present (p ∷ ps)
    → let n = length (p ∷ ps) in
      let max = largest 0 c (p ∷ ps) (negsuc 0) in
      let after = scored 0 c max (n / answering 0 c max (p ∷ ps)) (p ∷ ps) in
      (round calls (p ∷ ps) ≡ some (after, false))
      × ((j : ℕ) → j < n → ltb_ℤ max (c j) ≡ false)
      × (total after ≤ total (p ∷ ps) + n)
unfolding round score_cards after_announce dealt pay_from
round_lem calls c p ps wrote answered gave h = (
  ap (λ r. r >>= after_announce calls) (announce-Present 0 calls.announced (p ∷ ps) wrote h)
      ∙ ap (λ r. r >>= score_cards calls.paid)
          (collect-Present 0 calls.read c (p ∷ ps) (negsuc 0) answered h)
      ∙ ap (λ r. r >>= (λ qs. some (qs, false)))
          (give-delivered (length all) 0 max points calls.paid all gave (ground (arith, h.1))
            (omega arith))
      ∙ ap (λ qs. some (qs, false)) as_scored,
  (λ j lt.
      let here : j ≡ 0 + j = omega arith in
      ap (λ k. ltb_ℤ max (c k)) here ∙ largest_lem 0 j c (p ∷ ps) (negsuc 0) lt),
  omega (
    arith,
    ap total as_scored,
    total-paid max points all (dealt-Present 0 c (p ∷ ps) h),
    points_bound max all,
    dealt-total 0 c (p ∷ ps),
    length-dealt 0 c (p ∷ ps),
  ),
)
  where
    all : List Player
    all = dealt 0 c (p ∷ ps)

    max : ℤ
    max = largest 0 c (p ∷ ps) (negsuc 0)

    points : ℕ
    points = points_to_give max all

    share : points ≡ length (p ∷ ps) / answering 0 c max (p ∷ ps)
    share =
        share_lem max all
        ∙ ap (λ k. k / winners max all) (length-dealt 0 c (p ∷ ps))
        ∙ ap (λ k. length (p ∷ ps) / k) (winners-dealt 0 c max (p ∷ ps) h)

    as_scored :
        map (paid max points) all
        ≡ scored 0 c max (length (p ∷ ps) / answering 0 c max (p ∷ ps)) (p ∷ ps)
    as_scored = paid-dealt 0 c max points (p ∷ ps) ∙ ap (λ k. scored 0 c max k (p ∷ ps)) share
