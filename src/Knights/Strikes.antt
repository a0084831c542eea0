-- ===== src/Knights/Strikes.antt =====
-- Who is struck.
use sop.Prelude.{
  ℕ, zero, suc, ◌%◌, ◌<◌, ◌≤◌, ◌≡◌, ◌≢◌, ◌⊎◌, refl, sym, ap, ◌∙◌, List, arith, Bool, true, false,
  none, some, ◌==◌, length, get_or, set, length-set, get_or-set_self, get_or-set_ne, Bool-cases,
  inl, inr,
}
use sop.Prelude.Count.{count, swap, length-swap, count-swap}
use sop.Knights.{Struck, strike}

-- A swap touches its two places only.
swap_other : (xs : List ℕ) (i j k : ℕ) → i ≢ k → j ≢ k → get_or (swap xs i j) k 0 ≡ get_or xs k 0
swap_other xs i j k ni nj =
    get_or-set_ne (set xs i (get_or xs j 0)) j k (get_or xs i 0) 0 nj
    ∙ get_or-set_ne xs i k (get_or xs j 0) 0 ni

swap_last : (xs : List ℕ) (i j : ℕ) → j < length xs → get_or (swap xs i j) j 0 ≡ get_or xs i 0
swap_last xs i j lt =
    get_or-set_self (set xs i (get_or xs j 0)) j (get_or xs i 0) 0
      (omega (arith, lt, length-set xs i (get_or xs j 0)))

-- What a strike with `n` enemies left makes of the array.
pub record Fair (gone : ℕ → Bool) (n : ℕ) (enemies : List ℕ) (w : Struck) : Type 0 where
  pub fewer : w.alive_enemies ≤ n
  pub same : (c : ℕ) → count c w.enemies ≡ count c enemies
  pub behind : (i : ℕ) → n ≤ i → get_or w.enemies i 0 ≡ get_or enemies i 0
  pub dead : (i : ℕ) → w.alive_enemies ≤ i → i < n → gone (get_or w.enemies i 0) ≡ true
  pub struck :
      ((w.hit ≡ none) × (w.alive_enemies ≡ 0))
      ⊎ ((i : ℕ) × (i < w.alive_enemies)
          × (w.hit ≡ some (get_or w.enemies i 0))
          × (gone (get_or w.enemies i 0) ≡ false))

-- One strike at an array with `n` enemies that were not found dead: the array holds the same
-- descriptors as before; those found dead now stand behind those not found dead, and the ones that
-- stood behind before are where they were; either an enemy who is not dead is hit, and is among
-- those left, or all were dead and nobody is hit.
pub strike_lem :
    (gone : ℕ → Bool) (rand : ℕ → ℕ) (n : ℕ) (enemies : List ℕ)
    → n ≤ length enemies
    → Fair gone n enemies (strike gone rand n enemies)
unfolding strike
strike_lem gone rand zero enemies le = record {
  fewer = omega arith;
  same = λ c. refl;
  behind = λ i h. refl;
  dead = λ i h lt. absurd (omega (arith, lt));
  struck = inl (refl, refl);
}
strike_lem gone rand (suc n) enemies le =
    let e : ℕ = rand n % suc n in
    let in_range : e < suc n = omega arith in
    let xs : List ℕ = swap enemies e n in
    elim (Bool-cases (gone (get_or enemies e 0))) [
      | inl corpse ↦
          let ih = strike_lem gone rand n xs (omega (arith, le, length-swap enemies e n)) in
          rw corpse (record {
            fewer = omega (arith, ih.fewer);
            same = λ c.
                ih.same c
                ∙ count-swap c enemies e n (omega (arith, le, in_range)) (omega (arith, le));
            behind = λ i h.
                ih.behind i (omega (arith, h))
                ∙ swap_other enemies e n i (λ q. omega (arith, q, h, in_range))
                    (λ q. omega (arith, q, h));
            dead = λ i h lt. elim (Bool-cases (i == n)) [
              | inl last ↦
                  let q : n ≡ i = ground arith in
                  let there : get_or (strike gone rand n xs).enemies i 0 ≡ get_or enemies e 0 =
                    ih.behind i (omega (arith, q))
                    ∙ ap (λ j. get_or xs j 0) (sym q)
                    ∙ swap_last enemies e n (omega (arith, le)) in
                  ap gone there ∙ corpse
              | inr other ↦ ih.dead i h (ground (arith, lt, other))
            ];
            struck = ih.struck;
          })
      | inr lively ↦ rw lively (record {
        fewer = omega arith;
        same = λ c. refl;
        behind = λ i h. refl;
        dead = λ i h lt. absurd (omega (arith, h, lt));
        struck = inr (e, in_range, refl, lively);
      })
    ]
