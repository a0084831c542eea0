-- ===== src/Napoleon/Report.antt =====
-- What holds while adjutants work at the same time.
use mathlib.Core.Path.{subst}
use sop.Prelude.{
  ℕ, zero, suc, ◌+◌, ◌<◌, ◌≤◌, ◌≡◌, refl, sym, ap, ◌∙◌, List, [], ◌∷◌, ◌++◌, arith, true, false,
  Option, none, some, length, get_or, set, Bool-cases, inl, inr,
}
use sop.Napoleon.{
  Division, State, no_division, division_names_size, same_name, find_division, stands, clear_row,
  Adjutant, idle, reporting, clearing, placing,
}

same_name_lem : (xs ys : List ℕ) → same_name xs ys ≡ true → xs ≡ ys
same_name_lem [] [] h = refl
same_name_lem [] (y ∷ ys) h = cc
same_name_lem (x ∷ xs) [] h = cc
same_name_lem (x ∷ xs) (y ∷ ys) h =
    let a : x ≡ y = ground arith in
    let b : xs ≡ ys = same_name_lem xs ys (ground arith) in λ i. a i ∷ b i

same_name_refl : (xs : List ℕ) → same_name xs xs ≡ true
same_name_refl [] = refl
same_name_refl (x ∷ xs) = ground (arith, same_name_refl xs)

-- What stands on a cell is a division below `n`.
abbrev pub Known : ℕ → Option ℕ → Type 0
Known n none = Unit
Known n (some d) = d < n

abbrev pub Cells : ℕ → List (Option ℕ) → Type 0
Cells n [] = Unit
Cells n (c ∷ cs) = Known n c × Cells n cs

-- Rows of 100 such cells.
abbrev pub Rows : ℕ → List (List (Option ℕ)) → Type 0
Rows n [] = Unit
Rows n (r ∷ rs) = (length r ≡ 100) × Cells n r × Rows n rs

-- No division has this name; no two have the same.
abbrev pub Fresh : List ℕ → List Division → Type 0
Fresh name [] = Unit
Fresh name (d ∷ ds) = (same_name d.name name ≡ false) × Fresh name ds

abbrev pub Distinct : List Division → Type 0
Distinct [] = Unit
Distinct (d ∷ ds) = Fresh d.name ds × Distinct ds

-- An adjutant works with a division below `n` and a cell of the map.
abbrev pub AtWork : ℕ → Adjutant → Type 0
AtWork n idle = Unit
AtWork n (reporting x y p name addr) = (x < 100) × (y < 100)
AtWork n (clearing d r x y) = (d < n) × (r < 100) × (x < 100) × (y < 100)
AtWork n (placing d x y) = (d < n) × (x < 100) × (y < 100)

abbrev pub AllAtWork : ℕ → List Adjutant → Type 0
AllAtWork n [] = Unit
AllAtWork n (a ∷ more) = AtWork n a × AllAtWork n more

pub record Sound (s : State) : Type 0 where
  pub size : length s.map ≡ 100
  pub rows : Rows (length s.divisions) s.map
  pub bound : length s.divisions ≤ division_names_size
  pub distinct : Distinct s.divisions

-- More divisions keep what is known.
Known-more : (n m : ℕ) (c : Option ℕ) → n ≤ m → Known n c → Known m c
Known-more n m none le h = h
Known-more n m (some d) le h = omega (arith, le, h)

Cells-more : (n m : ℕ) (r : List (Option ℕ)) → n ≤ m → Cells n r → Cells m r
Cells-more n m [] le h = h
Cells-more n m (c ∷ cs) le h = (Known-more n m c le h.0, Cells-more n m cs le h.1)

pub Rows-more : (n m : ℕ) (rs : List (List (Option ℕ))) → n ≤ m → Rows n rs → Rows m rs
Rows-more n m [] le h = h
Rows-more n m (r ∷ rs) le h = (h.0, Cells-more n m r le h.1, Rows-more n m rs le h.2)

AtWork-more : (n m : ℕ) (a : Adjutant) → n ≤ m → AtWork n a → AtWork m a
AtWork-more n m idle le h = h
AtWork-more n m (reporting x y p name addr) le h = h
AtWork-more n m (clearing d r x y) le h = (omega (arith, le, h.0), h.1, h.2, h.3)
AtWork-more n m (placing d x y) le h = (omega (arith, le, h.0), h.1, h.2)

pub AllAtWork-more : (n m : ℕ) (all : List Adjutant) → n ≤ m → AllAtWork n all → AllAtWork m all
AllAtWork-more n m [] le h = h
AllAtWork-more n m (a ∷ more) le h = (AtWork-more n m a le h.0, AllAtWork-more n m more le h.1)

pub AllAtWork-at :
    (n : ℕ) (before : List Adjutant) (a : Adjutant) (after : List Adjutant)
    → AllAtWork n (before ++ a ∷ after)
    → AtWork n a
AllAtWork-at n [] a after h = h.0
AllAtWork-at n (b ∷ before) a after h = AllAtWork-at n before a after h.1

pub AllAtWork-set :
    (n : ℕ) (before : List Adjutant) (a b : Adjutant) (after : List Adjutant)
    → AtWork n b
    → AllAtWork n (before ++ a ∷ after)
    → AllAtWork n (before ++ b ∷ after)
AllAtWork-set n [] a b after w h = (w, h.1)
AllAtWork-set n (c ∷ before) a b after w h = (h.0, AllAtWork-set n before a b after w h.1)

pub clear_row-Cells : (n d : ℕ) (r : List (Option ℕ)) → Cells n r → Cells n (clear_row d r).0
unfolding clear_row
clear_row-Cells n d [] h = h
clear_row-Cells n d (c ∷ cs) h = elim (Bool-cases (stands d c)) [
  | inl here ↦ rw here (tt, h.1)
  | inr other ↦ rw other (h.0, clear_row-Cells n d cs h.1)
]

pub length-clear_row : (d : ℕ) (r : List (Option ℕ)) → length (clear_row d r).0 ≡ length r
unfolding clear_row
length-clear_row d [] = refl
length-clear_row d (c ∷ cs) = ground (arith, length-clear_row d cs)

pub set-Cells : (n y d : ℕ) (r : List (Option ℕ)) → d < n → Cells n r → Cells n (set r y (some d))
set-Cells n y d [] lt h = h
set-Cells n zero d (c ∷ cs) lt h = (lt, h.1)
set-Cells n (suc y) d (c ∷ cs) lt h = (h.0, set-Cells n y d cs lt h.1)

-- A row is replaced by one that is made of it.
pub set-Rows :
    (n r : ℕ) (rs : List (List (Option ℕ))) (f : List (Option ℕ) → List (Option ℕ))
    → ((q : List (Option ℕ)) → length (f q) ≡ length q)
    → ((q : List (Option ℕ)) → Cells n q → Cells n (f q))
    → Rows n rs
    → Rows n (set rs r (f (get_or rs r [])))
set-Rows n r [] f l c h = h
set-Rows n zero (q ∷ rs) f l c h = (l q ∙ h.0, c q h.1, h.2)
set-Rows n (suc r) (q ∷ rs) f l c h = (h.0, h.1, set-Rows n r rs f l c h.2)

-- The number found is one of a division of that name; if none is found, there is none.
pub find_division-some :
    (name : List ℕ) (ds : List Division) (i j : ℕ)
    → find_division name ds i ≡ some j
    → (k : ℕ) × (j ≡ i + k) × (k < length ds) × ((get_or ds k no_division).name ≡ name)
unfolding find_division
find_division-some name [] i j h = cc
find_division-some name (d ∷ ds) i j h = elim (Bool-cases (same_name d.name name)) [
  | inl same ↦ (0, ground arith, omega arith, same_name_lem d.name name same)
  | inr other ↦
      let (k, e, lt, named) = find_division-some name ds (i + 1) j (ground arith) in
      (suc k, omega (arith, e), omega (arith, lt), named)
]

pub find_division-none :
    (name : List ℕ) (ds : List Division) (i : ℕ) → find_division name ds i ≡ none → Fresh name ds
unfolding find_division
find_division-none name [] i h = tt
find_division-none name (d ∷ ds) i h = elim (Bool-cases (same_name d.name name)) [
  | inl same ↦ absurd (let n : some i ≡ none = rw same at h in cc)
  | inr other ↦ (other, find_division-none name ds (i + 1) (rw other at h))
]

Fresh-set :
    (name : List ℕ) (ds : List Division) (k : ℕ) (d : Division)
    → (get_or ds k no_division).name ≡ d.name
    → Fresh name ds
    → Fresh name (set ds k d)
Fresh-set name [] k d e h = h
Fresh-set name (c ∷ ds) zero d e h = (ap (λ a. same_name a name) (sym e) ∙ h.0, h.1)
Fresh-set name (c ∷ ds) (suc k) d e h = (h.0, Fresh-set name ds k d e h.1)

pub Distinct-set :
    (ds : List Division) (k : ℕ) (d : Division)
    → (get_or ds k no_division).name ≡ d.name
    → Distinct ds
    → Distinct (set ds k d)
Distinct-set [] k d e h = h
Distinct-set (c ∷ ds) zero d e h = (subst (λ a. Fresh a ds) e h.0, h.1)
Distinct-set (c ∷ ds) (suc k) d e h = (Fresh-set c.name ds k d e h.0, Distinct-set ds k d e h.1)

Fresh-append :
    (name : List ℕ) (ds : List Division) (d : Division)
    → same_name d.name name ≡ false
    → Fresh name ds
    → Fresh name (ds ++ d ∷ [])
Fresh-append name [] d e h = (e, tt)
Fresh-append name (c ∷ ds) d e h = (h.0, Fresh-append name ds d e h.1)

same_name_other : (xs ys : List ℕ) → same_name xs ys ≡ false → same_name ys xs ≡ false
same_name_other xs ys h = elim (Bool-cases (same_name ys xs)) [
  | inl same ↦
      let q : same_name xs ys ≡ true =
        ap (λ z. same_name xs z) (same_name_lem ys xs same) ∙ same_name_refl xs in
      absurd (let n : true ≡ false = sym q ∙ h in cc)
  | inr other ↦ other
]

pub Distinct-append :
    (ds : List Division) (d : Division) → Fresh d.name ds → Distinct ds → Distinct (ds ++ d ∷ [])
Distinct-append [] d f h = (tt, tt)
Distinct-append (c ∷ ds) d f h =
    (Fresh-append c.name ds d (same_name_other c.name d.name f.0) h.0, Distinct-append ds d f.1 h.1)
