-- ===== src/Routing/Shutdown.antt =====
-- The end of the provinces, once the government has closed its pipe and the pipes are empty: a province
-- leaves its loop when all its inputs are closed.
use sop.Prelude.{
  ℕ, zero, suc, ◌+◌, ◌<◌, ◌≤◌, ◌≡◌, ◌≢◌, ◌⊎◌, refl, sym, ap, ◌∙◌, arith, Bool, true, false, not,
  ◌&&◌, if◌then◌else◌, leb, ◌==◌, Bool-cases, inl, inr,
}
use sop.Prelude.Count.{one_of}
use sop.Routing.{Matrix}

-- The inputs of province `k` from the first `n` provinces that are still open; the pipe of a province
-- to itself is not an input.
unfoldable pub active_inputs : Matrix → (ℕ → Bool) → ℕ → ℕ → ℕ
active_inputs m ended k zero = 0
active_inputs m ended k (suc n) =
    one_of (m n k && not (n == k) && not (ended n)) + active_inputs m ended k n

abbrev pub ends_too : (ℕ → Bool) → ℕ → ℕ → Bool
ends_too ended k = λ i. if i == k then true else ended i

-- A province ends, and with it its pipes are closed for writing.
pub data Ends (m : Matrix) (n : ℕ) (ended : ℕ → Bool) : (ℕ → Bool) → Type 0 where
  leaves_loop :
      (k : ℕ)
      → k < n
      → ended k ≡ false
      → active_inputs m ended k n ≡ 0
      → Ends m n ended (ends_too ended k)

pub data Shut (m : Matrix) (n : ℕ) : (ℕ → Bool) → Type 0 where
  begin : Shut m n (λ k. false)
  next : {e f : ℕ → Bool} → Shut m n e → Ends m n e f → Shut m n f

input_open :
    (m : Matrix) (ended : ℕ → Bool) (k j n : ℕ)
    → j < n
    → j ≢ k
    → m j k ≡ true
    → ended j ≡ false
    → 0 < active_inputs m ended k n
unfolding active_inputs
input_open m ended k j zero lt ne out on = elim lt [ ]
input_open m ended k j (suc n) lt ne out on = elim (Bool-cases (n == j)) [
  | inl here ↦
      let q : n ≡ j = ground arith in
      let one : one_of (m n k && not (n == k) && not (ended n)) ≡ 1 =
        ap (λ i. one_of (m i k && not (i == k) && not (ended i))) q ∙ ground (arith, ne, out, on) in
      omega (arith, one)
  | inr other ↦ omega (arith, input_open m ended k j n (ground (arith, lt, other)) ne out on)
]

none_open :
    (m : Matrix) (ended : ℕ → Bool) (k n : ℕ)
    → ((j : ℕ) → j < n → j ≢ k → m j k ≡ true → ended j ≡ true)
    → active_inputs m ended k n ≡ 0
unfolding active_inputs
none_open m ended k zero h = refl
none_open m ended k (suc n) h =
    let rest = none_open m ended k n (λ j lt. h j (omega (arith, lt))) in
    elim (Bool-cases (m n k)) [
      | inl out ↦ elim (Bool-cases (n == k)) [
        | inl itself ↦ ground (arith, rest, itself)
        | inr other ↦
            let closed : ended n ≡ true = h n (omega arith) (λ q. ground (arith, q, other)) out in
            ground (arith, rest, closed)
      ]
      | inr off ↦ ground (arith, rest, off)
    ]

-- Provinces each of which has an input from another of them never end, however many others have ended.
pub cycle_hangs :
    (m : Matrix) (n : ℕ) (cycle : ℕ → Bool) (ended : ℕ → Bool) (k : ℕ)
    → ((i : ℕ) → cycle i ≡ true → (j : ℕ) × (j < n) × (j ≢ i) × (m j i ≡ true) × (cycle j ≡ true))
    → Shut m n ended
    → cycle k ≡ true
    → ended k ≡ false
cycle_hangs m n cycle ended k fed begin on = refl
cycle_hangs m n cycle ended k fed (next {e} r (leaves_loop i lt running closed)) on =
    elim (Bool-cases (k == i)) [
      | inl here ↦
          let q : k ≡ i = ground arith in
          let (j, lj, ne, out, on_cycle) = fed i (ap cycle (sym q) ∙ on) in
          absurd (
            omega (
              arith,
              closed,
              input_open m e i j n lj ne out (cycle_hangs m n cycle e j fed r on_cycle),
            ))
      | inr other ↦
          let before : e k ≡ false = cycle_hangs m n cycle e k fed r on in
          ground (arith, before, other)
    ]

-- Of the first `n` provinces all have ended, or one that has not has the lowest rank.
lowest :
    (rank : ℕ → ℕ) (ended : ℕ → Bool) (n : ℕ)
    → ((k : ℕ) → k < n → ended k ≡ true)
      ⊎ ((k : ℕ) × (k < n)
          × (ended k ≡ false)
          × ((j : ℕ) → j < n → ended j ≡ false → rank k ≤ rank j))
lowest rank ended zero = inl (λ k lt. elim lt [ ])
lowest rank ended (suc n) = elim (Bool-cases (ended n)) [
  | inl over ↦ elim (lowest rank ended n) [
    | inl all_over ↦ inl (λ k lt. elim (Bool-cases (k == n)) [
      | inl here ↦ ap ended (let q : k ≡ n = ground arith in q) ∙ over
      | inr other ↦ all_over k (ground (arith, lt, other))
    ])
    | inr (k, lt, running, low) ↦ inr (
      k,
      omega (arith, lt),
      running,
      λ j lj run. elim (Bool-cases (j == n)) [
        | inl here ↦ absurd (
            let z : true ≡ false = sym over ∙ ap ended (let q : n ≡ j = ground arith in q) ∙ run in
            cc)
        | inr other ↦ low j (ground (arith, lj, other)) run
      ],
    )
  ]
  | inr here_running ↦ elim (lowest rank ended n) [
    | inl all_over ↦ inr (
      n,
      omega arith,
      here_running,
      λ j lj run. elim (Bool-cases (j == n)) [
        | inl here ↦ let q : n ≡ j = ground arith in omega (arith, ap rank q)
        | inr other ↦
            absurd (let z : true ≡ false = sym (all_over j (ground (arith, lj, other))) ∙ run in cc)
      ],
    )
    | inr (k, lt, running, low) ↦ elim (Bool-cases (leb (rank k) (rank n))) [
      | inl le ↦ inr (
        k,
        omega (arith, lt),
        running,
        λ j lj run. elim (Bool-cases (j == n)) [
          | inl here ↦ let q : n ≡ j = ground arith in ground (arith, ap rank q, le)
          | inr other ↦ low j (ground (arith, lj, other)) run
        ],
      )
      | inr gt ↦ inr (
        n,
        omega arith,
        here_running,
        λ j lj run. elim (Bool-cases (j == n)) [
          | inl here ↦ let q : n ≡ j = ground arith in omega (arith, ap rank q)
          | inr other ↦
              let le : rank k ≤ rank j = low j (ground (arith, lj, other)) run in
              ground (arith, le, gt)
        ],
      )
    ]
  ]
]

-- On a map without cycles, that is, one whose edges to other provinces lead from a lower rank to a
-- higher one: whichever provinces have ended, all have, or another one can end.
pub cascade :
    (m : Matrix) (n : ℕ) (rank : ℕ → ℕ) (ended : ℕ → Bool)
    → ((i j : ℕ) → m i j ≡ true → i ≢ j → rank i < rank j)
    → ((k : ℕ) → k < n → ended k ≡ true) ⊎ ((f : ℕ → Bool) × Ends m n ended f)
cascade m n rank ended up = elim (lowest rank ended n) [
  | inl all_over ↦ inl all_over
  | inr (k, lt, running, low) ↦ inr (
    ends_too ended k,
    leaves_loop k lt running (
        none_open m ended k n (λ j lj ne out. elim (Bool-cases (ended j)) [
          | inl over ↦ over
          | inr run ↦ absurd (omega (arith, up j k out ne, low j lj run))
        ])),
  )
]
