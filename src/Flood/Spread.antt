-- ===== src/Flood/Spread.antt =====
-- What is on its way to the neighbours of a province.
use mathlib.Core.Path.{subst}
use sop.Prelude.{
  ℕ, zero, suc, ◌+◌, ◌<◌, ◌≤◌, ◌≡◌, ◌≢◌, refl, List, [], ◌∷◌, ◌++◌, arith, true, not, ◌&&◌, ◌==◌,
  Bool-cases, inl, inr,
}
use sop.Prelude.Count.{one_if, sum_of}
use sop.Flood.{Graph, edge, Hop, spread}

-- The letters on their way to a province.
abbrev pub toward : ℕ → List Hop → ℕ
toward j hs = sum_of (λ h. one_if j h.to) hs

abbrev pub Letters : ℕ → List Hop → Type 0
Letters c [] = Unit
Letters c (h ∷ hs) = (h.letter ≡ c) × Letters c hs

pub Letters-append : (c : ℕ) (gs hs : List Hop) → Letters c gs → Letters c hs → Letters c (gs ++ hs)
Letters-append c [] hs a b = b
Letters-append c (g ∷ gs) hs a b = (a.0, Letters-append c gs hs a.1 b)

pub Letters-out :
    (c : ℕ) (gs : List Hop) (h : Hop) (hs : List Hop)
    → Letters c (gs ++ h ∷ hs)
    → (h.letter ≡ c) × Letters c (gs ++ hs)
Letters-out c [] h hs a = a
Letters-out c (g ∷ gs) h hs a = let rest = Letters-out c gs h hs a.1 in (rest.0, (a.0, rest.1))

pub spread-Letters : (g : Graph) (k c j d : ℕ) → Letters c (spread g k c j d)
unfolding spread
spread-Letters g k c j zero = tt
spread-Letters g k c j (suc d) = elim (Bool-cases (edge g k j && not (j == k))) [
  | inl out ↦ rw out (refl, spread-Letters g k c (suc j) d)
  | inr off ↦ rw off (spread-Letters g k c (suc j) d)
]

-- A neighbour in the range of the loop is written to.
pub spread-toward :
    (g : Graph) (k c i d j : ℕ)
    → edge g k j ≡ true
    → j ≢ k
    → i ≤ j
    → j < i + d
    → 0 < toward j (spread g k c i d)
unfolding spread sum_of
spread-toward g k c i zero j e ne le lt = absurd (omega (arith, le, lt))
spread-toward g k c i (suc d) j e ne le lt = elim (Bool-cases (i == j)) [
  | inl here ↦
      let q : j ≡ i = ground arith in
      let out : (edge g k i && not (i == k)) ≡ true =
        subst (λ x. (edge g k x && not (x == k)) ≡ true) q (ground (arith, e, ne)) in
      rw out (let one : one_if j i ≡ 1 = ground arith in omega (arith, one))
  | inr other ↦
      let ih =
        spread-toward g k c (suc i) d j e ne (ground (arith, le, other)) (omega (arith, lt)) in
      elim (Bool-cases (edge g k i && not (i == k))) [
        | inl out ↦ rw out (omega (arith, ih))
        | inr off ↦ rw off ih
      ]
]
