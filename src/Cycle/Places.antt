-- ===== src/Cycle/Places.antt =====
-- Places in the ring, and what stands there.
use native.Mathlib.Nat.{add-mod_right, mod-eq_of_lt}
use sop.Prelude.{
  ℕ, zero, suc, ◌+◌, ◌-◌, ◌%◌, ◌<◌, ◌≡◌, ◌≢◌, ◌⊎◌, refl, ap, ◌∙◌, List, [], ◌∷◌, arith, get_or,
  length, ltb, Bool-cases, inl, inr,
}
use sop.Prelude.Count.{sum_of}
use sop.Cycle.{Proc, starting, reading, ended, writing, readid}
use sop.Cycle.Tokens.{carries, gone}

pub readid_zero : (n : ℕ) → readid (suc n) 0 ≡ n
readid_zero n =
    mod-eq_of_lt {n = 0 + suc n - 1} (omega arith) ∙ (let e : 0 + suc n - 1 ≡ n = omega arith in e)

pub readid-suc : (n k : ℕ) → suc k < n → readid n (suc k) ≡ k
readid-suc n k lt =
    ap (λ x. x % n) (let e : suc k + n - 1 ≡ k + n = omega arith in e)
    ∙ add-mod_right k n
    ∙ mod-eq_of_lt (omega arith)

-- Every pipe has a reader.
pub reader : (n k : ℕ) → k < suc n → (j : ℕ) × (j < suc n) × (readid (suc n) j ≡ k)
reader n k lt = elim (Bool-cases (ltb (suc k) (suc n))) [
  | inl more ↦ (suc k, ground arith, readid-suc (suc n) k (ground arith))
  | inr last ↦ let e : n ≡ k = ground (arith, lt) in (0, omega arith, readid_zero n ∙ e)
]

-- Some element has a property that a number measures, or all measure 0.
pub find_one {ℓ} :
    {A : Type ℓ} (f : A → ℕ) (xs : List A) (d : A)
    → ((k : ℕ) × (k < length xs) × (0 < f (get_or xs k d))) ⊎ (sum_of f xs ≡ 0)
unfolding sum_of
find_one f [] d = inr refl
find_one f (x ∷ xs) d = elim (Bool-cases (ltb 0 (f x))) [
  | inl here ↦ inl (0, omega arith, ground arith)
  | inr no_more ↦ elim (find_one f xs d) [
    | inl (k, lt, h) ↦ inl (suc k, omega (arith, lt), h)
    | inr none_there ↦ inr (ground (arith, none_there, no_more))
  ]
]

pub all_zero {ℓ} :
    {A : Type ℓ} (f : A → ℕ) (xs : List A) (d : A) (k : ℕ)
    → sum_of f xs ≡ 0
    → k < length xs
    → f (get_or xs k d) ≡ 0
unfolding sum_of
all_zero f [] d k e lt = elim lt [ ]
all_zero f (x ∷ xs) d zero e lt = omega (arith, e)
all_zero f (x ∷ xs) d (suc k) e lt = all_zero f xs d k (omega (arith, e)) (omega arith)

pub Proc-cases :
    (p : Proc) → (p ≡ starting) ⊎ (p ≡ reading) ⊎ (p ≡ ended) ⊎ ((buf : List ℕ) × (p ≡ writing buf))
Proc-cases starting = inl refl
Proc-cases reading = inr (inl refl)
Proc-cases ended = inr (inr (inl refl))
Proc-cases (writing buf) = inr (inr (inr (buf, refl)))

pub gone-ended : (p : Proc) → 0 < gone p → p ≡ ended
gone-ended starting h = elim h [ ]
gone-ended reading h = elim h [ ]
gone-ended ended h = refl
gone-ended (writing buf) h = elim h [ ]

pub not_gone : (p : Proc) → gone p ≡ 0 → p ≢ ended
not_gone p h e = omega (arith, h, ap gone e)

pub idle_reading : (p : Proc) → carries p ≡ 0 → gone p ≡ 0 → p ≡ reading
idle_reading starting c g = absurd (omega (arith, c))
idle_reading reading c g = refl
idle_reading ended c g = absurd (omega (arith, g))
idle_reading (writing buf) c g = absurd (omega (arith, c))

pub pipe-cases :
    (b : List (List ℕ)) → (b ≡ []) ⊎ ((m : List ℕ) × (rest : List (List ℕ)) × (b ≡ m ∷ rest))
pipe-cases [] = inl refl
pipe-cases (m ∷ rest) = inr (m, rest, refl)
