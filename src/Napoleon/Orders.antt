-- ===== src/Napoleon/Orders.antt =====
-- Whom Napoleon commands.
use sop.Prelude.{
  ℕ, zero, suc, ◌+◌, ◌%◌, ◌<◌, ◌≡◌, ◌⊎◌, refl, List, [], ◌∷◌, arith, false, none, some, ◌==◌, ltb,
  length, get_or, Bool-cases, inl, inr,
}
use sop.Napoleon.{Division, no_division, allies, Order, command}

-- An entry of the list of allies is the number of a division that is ours.
get_or-allies :
    (ds : List Division) (i k : ℕ)
    → k < length (allies ds i)
    → (j : ℕ) × (get_or (allies ds i) k 0 ≡ i + j)
      × (j < length ds)
      × ((get_or ds j no_division).p ≡ 1)
unfolding allies
get_or-allies [] i k lt = elim lt [ ]
get_or-allies (d ∷ ds) i zero lt = elim (Bool-cases (d.p == 1)) [
  | inl ours ↦ (0, rw ours (omega arith), omega arith, ground arith)
  | inr theirs ↦
      let (j, e, lt', o) = get_or-allies ds (i + 1) zero (ground arith) in
      (suc j, rw theirs (omega (arith, e)), omega (arith, lt'), o)
]
get_or-allies (d ∷ ds) i (suc k) lt = elim (Bool-cases (d.p == 1)) [
  | inl ours ↦
      let (j, e, lt', o) = get_or-allies ds (i + 1) k (ground arith) in
      (suc j, rw ours (omega (arith, e)), omega (arith, lt'), o)
  | inr theirs ↦
      let (j, e, lt', o) = get_or-allies ds (i + 1) (suc k) (ground arith) in
      (suc j, rw theirs (omega (arith, e)), omega (arith, lt'), o)
]

-- Division `j` exists, is ours, and the order is for it.
pub record Commanded (o : Order) (ds : List Division) (j : ℕ) : Type 0 where
  pub known : j < length ds
  pub ours : (get_or ds j no_division).p ≡ 1
  pub address : o.to ≡ (get_or ds j no_division).addr
  pub name : o.name ≡ (get_or ds j no_division).name
  pub row : o.x < 100
  pub column : o.y < 100

absent_allies :
    (ds : List Division) (i : ℕ)
    → length (allies ds i) ≡ 0
    → (j : ℕ) → j < length ds
    → ((get_or ds j no_division).p == 1) ≡ false
unfolding allies
absent_allies [] i e j lt = elim lt [ ]
absent_allies (d ∷ ds) i e zero lt = ground arith
absent_allies (d ∷ ds) i e (suc j) lt = absent_allies ds (i + 1) (ground arith) j (omega arith)

-- Whatever `rand` gives, Napoleon's order goes to the address of a known division that is ours, bears
-- its name, and has a position on the map; there is none only if no known division is ours.
pub command_lem :
    (r0 r1 r2 : ℕ) (ds : List Division)
    → ((o : Order) × (j : ℕ) × (command r0 r1 r2 ds ≡ some o) × Commanded o ds j)
      ⊎ (command r0 r1 r2 ds ≡ none)
        × ((j : ℕ) → j < length ds → ((get_or ds j no_division).p == 1) ≡ false)
unfolding command
command_lem r0 r1 r2 ds = elim (Bool-cases (ltb 0 (length (allies ds 0)))) [
  | inl some_ours ↦
      let (j, e, lt, o) = get_or-allies ds 0 (r0 % length (allies ds 0)) (ground arith) in
      let d = get_or ds j no_division in
      let at : get_or (allies ds 0) (r0 % length (allies ds 0)) 0 ≡ j = omega (arith, e) in
      inl (
        record { to = d.addr; x = r1 % 100; y = r2 % 100; name = d.name },
        j,
        rw (some_ours, at) refl,
        record {
          known = lt;
          ours = o;
          address = refl;
          name = refl;
          row = omega arith;
          column = omega arith;
        },
      )
  | inr none_ours ↦ inr (rw none_ours refl, absent_allies ds 0 (ground arith))
]
