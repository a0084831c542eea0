-- ===== src/Knights/Blows.antt =====
-- What the blows leave of a knight.
use sop.Prelude.{
  ℕ, ◌≡◌, ◌⊎◌, refl, ap, List, [], ◌∷◌, ◌++◌, arith, Bool, true, false, Bool-cases, inl, inr,
}
use sop.Prelude.Int.{ℤ, pos, ◌+ℤ◌, ◌-ℤ◌, ltb_ℤ, pos_part, neg_part, +ℤ_parts, -ℤ_parts, eq_of_parts}
use sop.Knights.{char, take_blows}

-- All the damage together.
unfoldable pub damage : List ℕ → ℤ
damage [] = pos 0
damage (b ∷ bs) = char b +ℤ damage bs

-- What a number of blows makes of a knight: he lives, having taken all of them; or he dies at one of
-- them, having taken those before it and that one.
abbrev pub Hurt : List ℕ → ℤ → ℤ × Bool → Type 0
Hurt bs hp r =
    ((r.1 ≡ true) × (r.0 +ℤ damage bs ≡ hp) × ((bs ≡ []) ⊎ (ltb_ℤ r.0 (pos 0) ≡ false)))
    ⊎ ((before : List ℕ) × (b : ℕ) × (after : List ℕ) × (bs ≡ before ++ b ∷ after)
        × (r.1 ≡ false)
        × (r.0 +ℤ damage (before ++ b ∷ []) ≡ hp)
        × (ltb_ℤ r.0 (pos 0) ≡ true))

-- One more blow before the others.
one_more : (hp x d : ℤ) (left : ℤ) → left +ℤ d ≡ hp -ℤ x → left +ℤ (x +ℤ d) ≡ hp
one_more hp x d left e = eq_of_parts _ _ (
    omega (
      arith,
      +ℤ_parts left (x +ℤ d),
      +ℤ_parts x d,
      +ℤ_parts left d,
      -ℤ_parts hp x,
      ap pos_part e,
      ap neg_part e,
    ))

no_damage : (hp : ℤ) → hp +ℤ pos 0 ≡ hp
no_damage hp = eq_of_parts _ _ (omega (arith, +ℤ_parts hp (pos 0)))

-- A knight takes the blows in their order, each as a signed char off his HP: he lives, having taken
-- them all without falling below 0, or he dies at the first of them that takes him below 0, and
-- takes no more.
pub take_blows_lem : (bs : List ℕ) (hp : ℤ) → Hurt bs hp (take_blows bs hp)
unfolding take_blows damage
take_blows_lem [] hp = inl (refl, no_damage hp, inl refl)
take_blows_lem (b ∷ bs) hp =
    let left : ℤ = hp -ℤ char b in
    elim (Bool-cases (ltb_ℤ left (pos 0))) [
      | inl fatal ↦
          rw fatal
            (inr ([], b, bs, refl, refl, one_more hp (char b) (pos 0) left (no_damage left), fatal))
      | inr lives ↦ rw lives (elim (take_blows_lem bs left) [
        | inl (alive, sum, above) ↦ inl (
          alive,
          one_more hp (char b) (damage bs) (take_blows bs left).0 sum,
          inr (elim above [ inl nothing ↦ last bs left nothing lives | inr fine ↦ fine ]),
        )
        | inr (before, c, after, split, dead, sum, below) ↦ inr (
          b ∷ before,
          c,
          after,
          ap (λ l. b ∷ l) split,
          dead,
          one_more hp (char b) (damage (before ++ c ∷ [])) (take_blows bs left).0 sum,
          below,
        )
      ])
    ]
  where
    last :
        (l : List ℕ) (left : ℤ)
        → l ≡ []
        → ltb_ℤ left (pos 0) ≡ false
        → ltb_ℤ (take_blows l left).0 (pos 0) ≡ false
    last l left e f = rw e f
