-- ===== src/Deal/Winners.antt =====
-- The winning card is the largest one, and its count is right.
use sop.Prelude.{
  ℕ, ◌<◌, sym, ◌+◌, ◌≡◌, ◌≢◌, ◌⊎◌, ◌∙◌, List, [], ◌∷◌, arith, Bool, true, false, if◌then◌else◌,
  ◌==◌, Bool-cases, inl, inr,
}
use sop.Prelude.Int.{ℤ, negsuc, ltb_ℤ, same_int}
use sop.Deal.{Player, resigned, look}

-- How many of those still playing have a card.
unfoldable pub holders : ℤ → List Player → ℕ
holders c [] = 0
holders c (p ∷ ps) =
    let rest = holders c ps in
    if p.active == resigned then rest else (if same_int p.card c then rest + 1 else rest)

-- No card of those still playing is above.
abbrev pub NoneAbove : ℤ → List Player → Type 0
NoneAbove c [] = Unit
NoneAbove c (p ∷ ps) = ((p.active == resigned) ≡ false → ltb_ℤ c p.card ≡ false) × NoneAbove c ps

ltb-chain :
    (a b c : ℤ)
    → ltb_ℤ a b ≡ true
    → ltb_ℤ c b ≡ false
    → (same_int a c ≡ false) × (ltb_ℤ c a ≡ false)
unfolding same_int
ltb-chain a b c h g = (ground arith, ground arith)

same_refl : (w : ℤ) → same_int w w ≡ true
unfolding same_int
same_refl w = ground arith

le_trans : (w p c : ℤ) → ltb_ℤ w p ≡ false → ltb_ℤ c w ≡ false → ltb_ℤ c p ≡ false
le_trans w p c h g = ground arith

one_more : (b : Bool) (h : ℕ) → h + (if b then 1 else 0) ≡ (if b then h + 1 else h) + 0
one_more true h = omega arith
one_more false h = omega arith

-- A card that equals the one counted before counts for the best one alike.
counted :
    (w p c : ℤ) (n h : ℕ)
    → ltb_ℤ w p ≡ false
    → ltb_ℤ c w ≡ false
    → h + (if same_int w c then (if same_int p w then n + 1 else n) else 0)
      ≡ (if same_int p c then h + 1 else h) + (if same_int w c then n else 0)
unfolding same_int
counted w p c n h a b = ground arith

-- What the loop finds, begun with a card and its count.
Best : List Player → ℤ → ℕ → ℤ × ℕ → Type 0
Best ps w n out =
    (ltb_ℤ out.0 w ≡ false)
    × NoneAbove out.0 ps
    × (out.1 ≡ holders out.0 ps + (if same_int w out.0 then n else 0))
    × (same_int w out.0 ≡ false → 0 < holders out.0 ps)

skip-Best :
    (p : Player) (ps : List Player) (w : ℤ) (n : ℕ) (out : ℤ × ℕ)
    → (p.active == resigned) ≡ true
    → Best ps w n out
    → Best (p ∷ ps) w n out
unfolding Best holders
skip-Best p ps w n out gone h = (h.0, ((λ e. absurd (ground arith)), h.1), rw gone h.2, rw gone h.3)

higher-Best :
    (p : Player) (ps : List Player) (w : ℤ) (n : ℕ) (out : ℤ × ℕ)
    → (p.active == resigned) ≡ false
    → ltb_ℤ w p.card ≡ true
    → Best ps p.card 1 out
    → Best (p ∷ ps) w n out
unfolding Best holders
higher-Best p ps w n out here above h =
    let c = ltb-chain w p.card out.0 above h.0 in
    (
      c.1,
      ((λ e. h.0), h.1),
      rw (here, c.0) (h.2 ∙ one_more (same_int p.card out.0) (holders out.0 ps)),
      (λ ne. elim (Bool-cases (same_int p.card out.0)) [
        | inl own ↦ rw (here, own) (omega arith)
        | inr other ↦ rw (here, other) (h.3 other)
      ]),
    )

at_least : (b : Bool) (h : ℕ) → 0 < h → 0 < (if b then h + 1 else h)
at_least true h lt = omega arith
at_least false h lt = lt

lower-Best :
    (p : Player) (ps : List Player) (w : ℤ) (n : ℕ) (out : ℤ × ℕ)
    → (p.active == resigned) ≡ false
    → ltb_ℤ w p.card ≡ false
    → Best ps w (if same_int p.card w then n + 1 else n) out
    → Best (p ∷ ps) w n out
unfolding Best holders
lower-Best p ps w n out here not_above h = (
  h.0,
  ((λ e. le_trans w p.card out.0 not_above h.0), h.1),
  rw here (h.2 ∙ counted w p.card out.0 n (holders out.0 ps) not_above h.0),
  (λ ne. rw here (at_least (same_int p.card out.0) (holders out.0 ps) (h.3 ne))),
)

look-nil : (w : ℤ) (n : ℕ) → Best [] w n (w, n)
unfolding Best holders
look-nil w n = (
  ground arith,
  tt,
  rw (same_refl w) (omega arith),
  (λ ne. let e = same_refl w in absurd (let n : true ≡ false = sym e ∙ ne in cc)),
)

look-Best : (ps : List Player) (w : ℤ) (n : ℕ) → Best ps w n (look ps w n)
unfolding look
look-Best [] w n = look-nil w n
look-Best (p ∷ ps) w n = elim (Bool-cases (p.active == resigned)) [
  | inl gone ↦ rw gone (skip-Best p ps w n (look ps w n) gone (look-Best ps w n))
  | inr here ↦ elim (Bool-cases (ltb_ℤ w p.card)) [
    | inl above ↦
        rw (here, above)
          (higher-Best p ps w n (look ps p.card 1) here above (look-Best ps p.card 1))
    | inr not_above ↦
        rw (here, not_above)
          (lower-Best p ps w n (look ps w (if same_int p.card w then n + 1 else n)) here not_above
            (look-Best ps w (if same_int p.card w then n + 1 else n)))
  ]
]

-- Someone still plays, and every card shown is above -1.
abbrev pub Shown : List Player → Type 0
Shown [] = ⊥
Shown (p ∷ ps) = ((p.active ≢ resigned) × (ltb_ℤ (negsuc 0) p.card ≡ true)) ⊎ Shown ps

best-above : (ps : List Player) (c : ℤ) → Shown ps → NoneAbove c ps → same_int (negsuc 0) c ≡ false
best-above [] c h n = absurd h
best-above (p ∷ ps) c (inl (here, card)) n =
    (ltb-chain (negsuc 0) p.card c card (n.0 (ground (arith, here)))).0
best-above (p ∷ ps) c (inr later) n = best-above ps c later n.1

-- The loop that runs once over the cards finds the largest card of those who still play, -1 aside,
-- and counts those who have it. If any of them shows a card above -1: no such card is above the one
-- found, at least one of these players has it, and the count is the number of those who do, as a
-- count afterwards would give it.
pub look_lem :
    (ps : List Player)
    → Shown ps
    → let out = look ps (negsuc 0) 0 in
      NoneAbove out.0 ps × (0 < holders out.0 ps) × (out.1 ≡ holders out.0 ps)
unfolding Best
look_lem ps h =
    let b = look-Best ps (negsuc 0) 0 in
    let c = best-above ps (look ps (negsuc 0) 0).0 h b.1 in (b.1, b.3 c, b.2 ∙ rw c (omega arith))
