-- ===== src/Prelude/Count.antt =====
-- How often a number occurs in a list; exchanging two elements.
use sop.Prelude.{
  ℕ, zero, suc, ◌+◌, ◌<◌, ◌≤◌, ◌≡◌, refl, sym, ap, ◌∙◌, List, [], ◌∷◌, ◌++◌, arith, Bool, true,
  false, if◌then◌else◌, ◌==◌, length, get_or, set, take, length-set, get_or-set_self, get_or-set_ne,
  Bool-cases, inl, inr, drop, take-nil,
}

unfoldable pub count : ℕ → List ℕ → ℕ
count c [] = 0
count c (d ∷ ds) = let rest = count c ds in if d == c then rest + 1 else rest

abbrev pub one_if : ℕ → ℕ → ℕ
one_if c d = if d == c then 1 else 0

pub count-set :
    (c i v : ℕ) (xs : List ℕ)
    → i < length xs
    → count c (set xs i v) + one_if c (get_or xs i 0) ≡ count c xs + one_if c v
unfolding count
count-set c i v [] lt = elim lt [ ]
count-set c zero v (x ∷ xs) lt = ground arith
count-set c (suc i) v (x ∷ xs) lt = ground (arith, count-set c i v xs)

pub count-take : (c n : ℕ) (xs : List ℕ) → count c (take n xs) ≤ count c xs
unfolding count
count-take c zero xs = omega arith
count-take c (suc n) [] = omega arith
count-take c (suc n) (x ∷ xs) = ground (arith, count-take c n xs)

-- SWAP(xs[i], xs[j])
abbrev pub swap : List ℕ → ℕ → ℕ → List ℕ
swap xs i j = set (set xs i (get_or xs j 0)) j (get_or xs i 0)

pub length-swap : (xs : List ℕ) (i j : ℕ) → length (swap xs i j) ≡ length xs
length-swap xs i j =
    length-set (set xs i (get_or xs j 0)) j (get_or xs i 0) ∙ length-set xs i (get_or xs j 0)

pub count-swap :
    (c : ℕ) (xs : List ℕ) (i j : ℕ)
    → i < length xs
    → j < length xs
    → count c (swap xs i j) ≡ count c xs
count-swap c xs i j lt lt' = omega (
  arith,
  count-set c j (get_or xs i 0) (set xs i (get_or xs j 0))
      (omega (arith, length-set xs i (get_or xs j 0))),
  count-set c i (get_or xs j 0) xs lt,
  ap (one_if c) same,
)
  where
    -- What is at `j` after the first write is what was there before it.
    same : get_or (set xs i (get_or xs j 0)) j 0 ≡ get_or xs j 0
    same = elim (Bool-cases (i == j)) [
      | inl e ↦
          let q : i ≡ j = ground arith in
          ap (λ k. get_or (set xs i (get_or xs j 0)) k 0) (sym q)
          ∙ get_or-set_self xs i (get_or xs j 0) 0 lt
      | inr ne ↦ get_or-set_ne xs i j (get_or xs j 0) 0 (λ q. ground arith)
    ]

-- A sum over a list.
unfoldable pub sum_of {ℓ} : {A : Type ℓ} → (A → ℕ) → List A → ℕ
sum_of f [] = 0
sum_of f (x ∷ xs) = f x + sum_of f xs

pub sum_of-append {ℓ} :
    {A : Type ℓ} (f : A → ℕ) (xs ys : List A) → sum_of f (xs ++ ys) ≡ sum_of f xs + sum_of f ys
unfolding sum_of
sum_of-append f [] ys = omega arith
sum_of-append f (x ∷ xs) ys = omega (arith, sum_of-append f xs ys)

-- One element more, wherever it stands.
pub sum_of-insert {ℓ} :
    {A : Type ℓ} (f : A → ℕ) (xs : List A) (x : A) (ys : List A)
    → sum_of f (xs ++ x ∷ ys) ≡ f x + sum_of f (xs ++ ys)
unfolding sum_of
sum_of-insert f xs x ys = omega (arith, sum_of-append f xs (x ∷ ys), sum_of-append f xs ys)

-- One element is replaced.
pub sum_of-set {ℓ} :
    {A : Type ℓ} (f : A → ℕ) (xs : List A) (i : ℕ) (v d : A)
    → i < length xs
    → sum_of f (set xs i v) + f (get_or xs i d) ≡ sum_of f xs + f v
unfolding sum_of
sum_of-set f [] i v d lt = elim lt [ ]
sum_of-set f (x ∷ xs) zero v d lt = omega arith
sum_of-set f (x ∷ xs) (suc i) v d lt = omega (arith, sum_of-set f xs i v d (omega arith))

abbrev pub one_of : Bool → ℕ
one_of true = 1
one_of false = 0

unfoldable pub trues : List Bool → ℕ
trues [] = 0
trues (b ∷ bs) = one_of b + trues bs

pub trues-set :
    (bs : List Bool) (i : ℕ) (b : Bool)
    → i < length bs
    → trues (set bs i b) + one_of (get_or bs i false) ≡ trues bs + one_of b
unfolding trues
trues-set [] i b lt = elim lt [ ]
trues-set (c ∷ bs) zero b lt = omega arith
trues-set (c ∷ bs) (suc i) b lt = omega (arith, trues-set bs i b (omega arith))

-- A list none of whose elements is true.
pub trues_none :
    (bs : List Bool) → ((i : ℕ) → i < length bs → get_or bs i false ≡ false) → trues bs ≡ 0
unfolding trues
trues_none [] h = refl
trues_none (b ∷ bs) h =
    omega (arith, ap one_of (h 0 (omega arith)), trues_none bs (λ i lt. h (suc i) (omega arith)))

-- What stands in a list is counted.
pub count_at : (c : ℕ) (xs : List ℕ) (i : ℕ) → i < length xs → one_if c (get_or xs i 0) ≤ count c xs
count_at c xs i lt =
    let other : one_if c (suc c) ≡ 0 = ground arith in
    omega (arith, count-set c i (suc c) xs lt, other)

-- A prefix counted in two parts.
pub count-split :
    (c a n : ℕ) (log : List ℕ)
    → count c (take (a + n) log) ≡ count c (take a log) + count c (take n (drop a log))
unfolding count
count-split c zero n log = rw (let e : 0 + n ≡ n = omega arith in e) (omega arith)
count-split c (suc a) n [] = ground (arith, take-nil ℕ (suc a + n), take-nil ℕ n)
count-split c (suc a) n (b ∷ bs) =
    rw (let e : suc a + n ≡ suc (a + n) = omega arith in e) (ground (arith, count-split c a n bs))
