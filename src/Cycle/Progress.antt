-- ===== src/Cycle/Progress.antt =====
-- Whether the ring can get stuck.
use sop.Prelude.{
  ℕ, zero, suc, ◌+◌, ◌-◌, ◌<◌, ◌≤◌, ◌≡◌, ◌≢◌, ◌⊎◌, sym, ap, ◌∙◌, [], arith, length, ltb, Bool-cases,
  inl, inr,
}
use sop.Prelude.Count.{sum_of}
use sop.Cycle.{
  Text, reading, ended, readid, Ring, pipe, proc, Step, starts, fails, reads, reads_end, writes,
  breaks, Reach,
}
use sop.Cycle.Tokens.{carries, gone, over, Inv, Reach-Inv}
use sop.Cycle.Places.{
  readid_zero, readid-suc, reader, find_one, all_zero, Proc-cases, gone-ended, not_gone,
  idle_reading, pipe-cases,
}

abbrev Moves : Text → ℕ → Ring → Type 0
Moves t n s = (u : Ring) × Step t n s u

-- A process with a message writes it, or finds that nobody reads it.
carries-Moves :
    (t : Text) (n : ℕ) (s : Ring) (k : ℕ) → k < suc n → 0 < carries (proc s k) → Moves t (suc n) s
carries-Moves t n s k lk c =
    let (j, lj, r) = reader n k lk in
    let alive : (gone (proc s j) ≡ 0) ⊎ (0 < gone (proc s j)) = omega arith in
    elim (Proc-cases (proc s k)) [
      | inl p ↦ elim alive [
        | inl g ↦ (_, starts k j lk lj r p (not_gone (proc s j) g))
        | inr g ↦ (_, fails k j lk lj r p (gone-ended (proc s j) g))
      ]
      | inr (inl p) ↦ absurd (let z : carries (proc s k) ≡ 0 = ap carries p in omega (arith, z, c))
      | inr (inr (inl p)) ↦
          absurd (let z : carries (proc s k) ≡ 0 = ap carries p in omega (arith, z, c))
      | inr (inr (inr (buf, p))) ↦ elim alive [
        | inl g ↦ (_, writes k j buf lk lj r p (not_gone (proc s j) g))
        | inr g ↦ (_, breaks k j buf lk lj r p (gone-ended (proc s j) g))
      ]
    ]

-- So does one that reads after a process that has ended.
after_end-Moves :
    (t : Text) (n : ℕ) (s : Ring) (k : ℕ)
    → k < n
    → proc s k ≡ reading
    → proc s (readid n k) ≡ ended
    → Moves t n s
after_end-Moves t n s k lk p e = elim (pipe-cases (pipe s (readid n k))) [
  | inl q ↦ (_, reads_end k lk p q e)
  | inr (m, rest, q) ↦ (_, reads k 0 m rest lk p q)
]

-- From the place `i` on, after a process that has ended, `d` places: one can go on or all have ended.
scan :
    (t : Text) (n : ℕ) (s : Ring) (d i : ℕ)
    → sum_of carries s.procs ≡ 0
    → length s.procs ≡ n
    → i + d ≡ n
    → (i < n → proc s (readid n i) ≡ ended)
    → Moves t n s ⊎ ((k : ℕ) → i ≤ k → k < n → proc s k ≡ ended)
scan t n s zero i idle size e prev = inr (λ k le lt. absurd (omega (arith, e, le, lt)))
scan t n s (suc d) i idle size e prev =
    let lt : i < n = omega (arith, e) in
    let c : carries (proc s i) ≡ 0 =
      all_zero carries s.procs ended i idle (omega (arith, size, lt)) in
    let alive : (gone (proc s i) ≡ 0) ⊎ (0 < gone (proc s i)) = omega arith in
    elim alive [
      | inl g ↦ inl (after_end-Moves t n s i lt (idle_reading (proc s i) c g) (prev lt))
      | inr g ↦
          let here : proc s i ≡ ended = gone-ended (proc s i) g in
          elim (scan t n s d (suc i) idle size (omega (arith, e))
            (λ more. ap (proc s) (readid-suc n i more) ∙ here)) [
              | inl m ↦ inl m
              | inr rest ↦ inr (λ k le less. elim (Bool-cases (ltb i k)) [
                | inl above ↦ rest k (ground arith) less
                | inr same ↦ ap (proc s) (let q : k ≡ i = ground (arith, le) in q) ∙ here
              ])
            ]
    ]

-- With nobody gone and nobody about to write, the message is in a pipe, and its reader reads.
full_pipe-Moves :
    (t : Text) (n : ℕ) (s : Ring)
    → Inv (suc n) s
    → sum_of carries s.procs ≡ 0
    → over s ≡ 0
    → Moves t (suc n) s
full_pipe-Moves t n s v idle all_here = elim (find_one length s.pipes []) [
  | inl (i, lt, full) ↦
      let (j, lj, r) = reader n i (omega (arith, lt, v.size_pipes)) in
      let at : j < length s.procs = omega (arith, lj, v.size_procs) in
      let p : proc s j ≡ reading =
        idle_reading (proc s j) (all_zero carries s.procs ended j idle at)
          (all_zero gone s.procs ended j all_here at) in
      elim (pipe-cases (pipe s i)) [
        | inl q ↦ absurd (let z : length (pipe s i) ≡ 0 = ap length q in omega (arith, z, full))
        | inr (m, rest, q) ↦ (_, reads j 0 m rest lj p (ap (pipe s) r ∙ q))
      ]
  | inr empty ↦ absurd (elim v.one [
    | inl one ↦ omega (arith, one, empty, idle)
    | inr some_gone ↦ omega (arith, some_gone, all_here)
  ])
]

-- With somebody gone and nobody about to write, the end goes around.
gone-Moves :
    (t : Text) (n : ℕ) (s : Ring)
    → Inv (suc n) s
    → sum_of carries s.procs ≡ 0
    → (e : ℕ) → e < suc n
    → proc s e ≡ ended
    → ((k : ℕ) → k < suc n → proc s k ≡ ended) ⊎ Moves t (suc n) s
gone-Moves t n s v idle e le gone_e =
    let alive : (gone (proc s n) ≡ 0) ⊎ (0 < gone (proc s n)) = omega arith in
    elim alive [
      | inr g ↦
          let last : proc s n ≡ ended = gone-ended (proc s n) g in
          elim (scan t (suc n) s (suc n) 0 idle v.size_procs (omega arith)
            (λ z. ap (proc s) (readid_zero n) ∙ last)) [
              | inl m ↦ inr m
              | inr rest ↦ inl (λ k lt. rest k (omega arith) lt)
            ]
      | inl g ↦
          let apart : e ≢ n = λ q. not_gone (proc s n) g (ap (proc s) (sym q) ∙ gone_e) in
          let below : e < n = ground (arith, le, apart) in
          elim (scan t (suc n) s (n - e) (suc e) idle v.size_procs (omega (arith, below))
            (λ more. ap (proc s) (readid-suc (suc n) e more) ∙ gone_e)) [
              | inl m ↦ inr m
              | inr rest ↦
                  absurd (not_gone (proc s n) g (rest n (omega (arith, below)) (omega arith)))
            ]
    ]

-- In a ring of any number of processes the program never gets stuck: in every reachable state, also
-- after SIGINT, all processes have ended, or one of them can make a step without a signal.
pub runs_on :
    (t : Text) (n : ℕ) (s : Ring)
    → Reach t n s
    → ((k : ℕ) → k < suc n → proc s k ≡ ended) ⊎ ((u : Ring) × Step t (suc n) s u)
runs_on t n s r =
    let v = Reach-Inv t n r in
    elim (find_one carries s.procs ended) [
      | inl (k, lt, c) ↦ inr (carries-Moves t n s k (omega (arith, lt, v.size_procs)) c)
      | inr idle ↦ elim (find_one gone s.procs ended) [
        | inl (e, lt, g) ↦
            gone-Moves t n s v idle e (omega (arith, lt, v.size_procs)) (gone-ended (proc s e) g)
        | inr all_here ↦ inr (full_pipe-Moves t n s v idle all_here)
      ]
    ]
