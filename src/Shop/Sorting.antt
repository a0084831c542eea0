-- ===== src/Shop/Sorting.antt =====
-- The workers' exchanges lead to order.
use sop.Prelude.{
  ℕ, zero, suc, ◌+◌, ◌-◌, ◌*◌, ◌%◌, ◌<◌, ◌≤◌, ◌≡◌, ◌≢◌, ◌⊎◌, refl, ap, ◌∙◌, List, [], ◌∷◌, arith,
  true, false, ltb, ◌==◌, get_or, set, length, length-set, get_or-set_self, get_or-set_ne,
  Bool-cases, inl, inr,
}
use sop.Prelude.Count.{count, count-swap, swap, length-swap}
use native.Mathlib.Nat.{mul-add, mul-lt-mul_of_pos_right}
use sop.Shop.{done, dies, exchange, work, is_sorted, shuffle, lower, upper}

-- The sum of `(k + i) * log[i]`: it grows with every exchange.
pub weight : ℕ → List ℕ → ℕ
weight k [] = 0
weight k (x ∷ xs) = k * x + weight (k + 1) xs

weight-set :
    (k i v : ℕ) (xs : List ℕ)
    → i < length xs
    → weight k (set xs i v) + (k + i) * get_or xs i 0 ≡ weight k xs + (k + i) * v
unfolding weight
weight-set k i v [] lt = elim lt [ ]
weight-set k zero v (x ∷ xs) lt = let e : k + 0 ≡ k = omega arith in rw e (omega arith)
weight-set k (suc i) v (x ∷ xs) lt =
    let e : k + 1 + i ≡ k + suc i = omega arith in
    let ih = weight-set (k + 1) i v xs (omega arith) in
    omega (arith, ap (λ m. m * get_or xs i 0) e, ap (λ m. m * v) e, ih)

rearrange : (i j a b : ℕ) → i < j → b < a → i * a + j * b < i * b + j * a
rearrange i j a b lt lt' =
    let apart : i * (a - b) < j * (a - b) = mul-lt-mul_of_pos_right lt (omega arith) in
    omega (arith, apart, split i, split j)
  where
    split : (k : ℕ) → k * a ≡ k * b + k * (a - b)
    split k = ap (λ m. k * m) (let e : a ≡ b + (a - b) = omega arith in e) ∙ mul-add k b (a - b)

-- An exchange that puts the larger one of two products on the later shelf.
weight-swap :
    (i j : ℕ) (xs : List ℕ)
    → i < length xs
    → j < length xs
    → ((i < j) × (get_or xs j 0 < get_or xs i 0)) ⊎ ((j < i) × (get_or xs i 0 < get_or xs j 0))
    → weight 0 xs < weight 0 (swap xs i j)
weight-swap i j xs lt lt' wrong =
    let a = weight-set 0 i (get_or xs j 0) xs lt in
    let b =
      weight-set 0 j (get_or xs i 0) (set xs i (get_or xs j 0))
        (omega (arith, length-set xs i (get_or xs j 0))) in
    let other : i ≢ j =
      (λ e. elim wrong [ inl (h, _) ↦ omega (arith, e) | inr (h, _) ↦ omega (arith, e) ]) in
    let same : get_or (set xs i (get_or xs j 0)) j 0 ≡ get_or xs j 0 =
      get_or-set_ne xs i j (get_or xs j 0) 0 other in
    let c = ap (λ m. (0 + j) * m) same in
    elim wrong [
      | inl (h, g) ↦ omega (arith, a, b, c, rearrange i j (get_or xs i 0) (get_or xs j 0) h g)
      | inr (h, g) ↦ omega (arith, a, b, c, rearrange j i (get_or xs j 0) (get_or xs i 0) h g)
    ]

-- What a round that a worker survives has made of the shelves.
pub record Worked (x y : ℕ) (log log' : List ℕ) : Type 0 where
  pub size : length log' ≡ length log
  pub products : (c : ℕ) → count c log' ≡ count c log
  pub ordered : get_or log' (lower x y) 0 ≤ get_or log' (upper x y) 0
  pub progress : (log' ≡ log) ⊎ (weight 0 log < weight 0 log')

exchange-Worked :
    (r x y : ℕ) (log : List ℕ)
    → x < length log
    → y < length log
    → ((x < y) × (get_or log y 0 < get_or log x 0)) ⊎ ((y < x) × (get_or log x 0 < get_or log y 0))
    → ((log' : List ℕ) × (exchange r x y log ≡ done log') × Worked x y log log')
      ⊎ (exchange r x y log ≡ dies) × (r % 100 ≡ 0)
exchange-Worked r x y log lt lt' wrong = elim (Bool-cases (r % 100 == 0)) [
  | inl unlucky ↦ inr (rw unlucky refl, ground arith)
  | inr lucky ↦ inl (
    swap log x y,
    rw lucky refl,
    record {
      size = length-swap log x y;
      products = λ c. count-swap c log x y lt lt';
      ordered = elim wrong [
        | inl (h, g) ↦ ground (arith, at_x h, at_y)
        | inr (h, g) ↦ ground (arith, at_x' h, at_y)
      ];
      progress = inr (weight-swap x y log lt lt' wrong);
    },
  )
]
  where
    at_y : get_or (swap log x y) y 0 ≡ get_or log x 0
    at_y =
        get_or-set_self (set log x (get_or log y 0)) y (get_or log x 0) 0
          (omega (arith, length-set log x (get_or log y 0)))

    at_x : x < y → get_or (swap log x y) x 0 ≡ get_or log y 0
    at_x h =
        get_or-set_ne (set log x (get_or log y 0)) y x (get_or log x 0) 0 (λ e. omega (arith, e))
        ∙ get_or-set_self log x (get_or log y 0) 0 lt

    at_x' : y < x → get_or (swap log x y) x 0 ≡ get_or log y 0
    at_x' h =
        get_or-set_ne (set log x (get_or log y 0)) y x (get_or log x 0) 0 (λ e. omega (arith, e))
        ∙ get_or-set_self log x (get_or log y 0) 0 lt

nothing_to_do :
    (x y : ℕ) (log : List ℕ)
    → get_or log (lower x y) 0 ≤ get_or log (upper x y) 0
    → Worked x y log log
nothing_to_do x y log h = record {
  size = refl;
  products = λ c. refl;
  ordered = h;
  progress = inl refl;
}

-- A worker's round with two different shelves inside the array. If the worker survives it, the shelves
-- hold the same products, the one on the earlier of the two shelves is not above the one on
-- the later, and either nothing has changed or the sum of shelf number times product has grown, so
-- that there cannot be exchanges for ever. It dies only where an exchange was due, with `rand`
-- giving a multiple of 100.
pub work_lem :
    (r x y : ℕ) (log : List ℕ)
    → x < length log
    → y < length log
    → x ≢ y
    → ((log' : List ℕ) × (work r x y log ≡ done log') × Worked x y log log')
      ⊎ (work r x y log ≡ dies)
        × (r % 100 ≡ 0)
        × (get_or log (upper x y) 0 < get_or log (lower x y) 0)
unfolding work
work_lem r x y log lt lt' ne = elim (Bool-cases (ltb x y)) [
  | inl up ↦ elim (Bool-cases (ltb (get_or log y 0) (get_or log x 0))) [
    | inl wrong ↦ elim (exchange-Worked r x y log lt lt' (inl (ground arith, ground arith))) [
      | inl (l, e, w) ↦ inl (l, rw (work, up, wrong) e, w)
      | inr (e, z) ↦ inr (rw (work, up, wrong) e, z, ground arith)
    ]
    | inr right ↦ inl (log, rw (work, up, right) refl, nothing_to_do x y log (ground arith))
  ]
  | inr not_up ↦
      let down : ltb y x ≡ true = ground (arith, ne) in
      elim (Bool-cases (ltb (get_or log x 0) (get_or log y 0))) [
        | inl wrong ↦ elim (exchange-Worked r x y log lt lt' (inr (ground arith, ground arith))) [
          | inl (l, e, w) ↦ inl (l, rw (work, not_up, down, wrong) e, w)
          | inr (e, z) ↦ inr (rw (work, not_up, down, wrong) e, z, ground arith)
        ]
        | inr right ↦
            inl (log, rw (work, not_up, down, right) refl, nothing_to_do x y log (ground arith))
      ]
]

shuffle-count :
    (rand : ℕ → ℕ) (i : ℕ) (xs : List ℕ)
    → (i ≡ 0) ⊎ (i < length xs)
    → (length (shuffle rand i xs) ≡ length xs)
      × ((c : ℕ) → count c (shuffle rand i xs) ≡ count c xs)
unfolding shuffle
shuffle-count rand zero xs h = (refl, λ c. refl)
shuffle-count rand (suc i) xs h =
    let lt : suc i < length xs = elim h [ inl e ↦ absurd (omega (arith, e)) | inr lt ↦ lt ] in
    let j = rand (suc i) % (suc i + 1) in
    let lt' : j < length xs = omega arith in
    let size = length-swap xs (suc i) j in
    let ih = shuffle-count rand i (swap xs (suc i) j) (inr (omega (arith, size))) in
    (ih.0 ∙ size, λ c. ih.1 c ∙ count-swap c xs (suc i) j lt lt')

-- Shuffling the shelves loses, adds and doubles no product, and takes no product from outside of the
-- array, whatever `rand` gives.
pub shuffle_lem :
    (rand : ℕ → ℕ) (n : ℕ) (xs : List ℕ)
    → length xs ≡ suc n
    → (length (shuffle rand n xs) ≡ length xs)
      × ((c : ℕ) → count c (shuffle rand n xs) ≡ count c xs)
shuffle_lem rand n xs e = shuffle-count rand n xs (inr (omega (arith, e)))

get_or-is_sorted :
    (i n : ℕ) (log : List ℕ)
    → is_sorted i n log ≡ true
    → (k : ℕ) → i ≤ k
    → k < i + n
    → get_or log k 0 ≡ k
unfolding is_sorted
get_or-is_sorted i zero log h k le lt = absurd (omega arith)
get_or-is_sorted i (suc n) log h k le lt = elim (Bool-cases (i == k)) [
  | inl here ↦ ground arith
  | inr later ↦ get_or-is_sorted (i + 1) n log (ground arith) k (ground arith) (ground arith)
]

is_sorted-found :
    (i n : ℕ) (log : List ℕ)
    → is_sorted i n log ≡ false
    → (k : ℕ) × (i ≤ k) × (k < i + n) × (get_or log k 0 ≢ k)
unfolding is_sorted
is_sorted-found i zero log h = cc
is_sorted-found i (suc n) log h = elim (Bool-cases (get_or log i 0 == i)) [
  | inl right ↦
      let (k, a, b, c) = is_sorted-found (i + 1) n log (ground arith) in
      (k, omega (arith, a), omega (arith, b), c)
  | inr wrong ↦ (i, omega arith, omega arith, (λ e. ground (arith, e)))
]

-- The manager finds the shelves sorted exactly if each of them holds the product with its number;
-- otherwise some shelf holds another one.
pub is_sorted_lem :
    (n : ℕ) (log : List ℕ)
    → ((is_sorted 0 n log ≡ true) × ((k : ℕ) → k < n → get_or log k 0 ≡ k))
      ⊎ ((is_sorted 0 n log ≡ false) × (k : ℕ) × (k < n) × (get_or log k 0 ≢ k))
is_sorted_lem n log = elim (Bool-cases (is_sorted 0 n log)) [
  | inl sorted ↦ inl (sorted, λ k lt. get_or-is_sorted 0 n log sorted k (omega arith) (omega arith))
  | inr unsorted ↦
      let (k, a, b, c) = is_sorted-found 0 n log unsorted in inr (unsorted, k, omega (arith, b), c)
]
