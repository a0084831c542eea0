-- ===== src/Cycle/Tokens.antt =====
-- How many messages are in the ring.
use mathlib.Core.Path.{subst}
use sop.Prelude.{
  ℕ, zero, suc, ◌+◌, ◌<◌, ◌≤◌, ◌≡◌, ◌⊎◌, refl, ap, ◌∙◌, List, [], ◌∷◌, ◌++◌, arith, get_or, set,
  replicate, length, length-set, length-append, length-replicate, Bool-cases, inl, inr,
}
use sop.Prelude.Int.{same_int, pos}
use sop.Prelude.Count.{sum_of, sum_of-set}
use sop.Cycle.{
  Text, Proc, starting, reading, ended, writing, readid, receive, Ring, pipe, proc, becomes, Step,
  starts, fails, reads, reads_end, writes, breaks, Signal, interrupted, start, Reach, begin, next,
  signal,
}

abbrev pub carries : Proc → ℕ
carries p = elim p [ starting ↦ 1 | writing buf ↦ 1 | _ ↦ 0 ]

-- The messages in the pipes and with the processes.
abbrev pub tokens : Ring → ℕ
tokens s = sum_of length s.pipes + sum_of carries s.procs

abbrev pub gone : Proc → ℕ
gone p = elim p [ ended ↦ 1 | _ ↦ 0 ]

-- The processes that have ended.
abbrev pub over : Ring → ℕ
over s = sum_of gone s.procs

pub record Inv (n : ℕ) (s : Ring) : Type 0 where
  pub size_pipes : length s.pipes ≡ n
  pub size_procs : length s.procs ≡ n
  pub most : tokens s ≤ 1
  pub one : (tokens s ≡ 1) ⊎ (0 < over s)

-- A process changes, and at most one pipe with it.
moved :
    (n : ℕ) (s : Ring) (k i : ℕ) (p : Proc) (b : List (List ℕ))
    → k < n
    → i < n
    → Inv n s
    → (length b + carries p ≡ length (pipe s i) + carries (proc s k))
      ⊎ ((length b + carries p ≤ length (pipe s i) + carries (proc s k)) × (p ≡ ended))
    → gone (proc s k) ≡ 0
    → Inv n (record (becomes s k p) { pipes = set s.pipes i b })
moved n s k i p b lk li v balance dead =
    let a = sum_of-set length s.pipes i b [] (omega (arith, li, v.size_pipes)) in
    let c = sum_of-set carries s.procs k p ended (omega (arith, lk, v.size_procs)) in
    let d = sum_of-set gone s.procs k p ended (omega (arith, lk, v.size_procs)) in
    record {
      size_pipes = length-set s.pipes i b ∙ v.size_pipes;
      size_procs = length-set s.procs k p ∙ v.size_procs;
      most = elim balance [
        | inl same ↦ omega (arith, v.most, a, c, same)
        | inr (less, e) ↦ omega (arith, v.most, a, c, less)
      ];
      one = elim balance [
        | inl same ↦ elim v.one [
          | inl t ↦ inl (omega (arith, t, a, c, same))
          | inr g ↦ inr (omega (arith, g, d, dead))
        ]
        | inr (less, e) ↦ inr (omega (arith, d, dead, ap gone e))
      ];
    }

-- The pipe that a process reads is one of the ring.
readid_lt : (n k : ℕ) → k < n → readid n k < n
readid_lt n k lt = omega arith

length_one_more : (bs : List (List ℕ)) (b : List ℕ) → length (bs ++ b ∷ []) ≡ suc (length bs)
length_one_more bs b = omega (arith, length-append bs (b ∷ []))

-- Writing a message.
put-Inv :
    (n : ℕ) (s : Ring) (k : ℕ) (b : List ℕ)
    → k < n
    → carries (proc s k) ≡ 1
    → gone (proc s k) ≡ 0
    → Inv n s
    → Inv n (record (becomes s k reading) { pipes = set s.pipes k (pipe s k ++ b ∷ []) })
put-Inv n s k b lk c g v =
    moved n s k k reading (pipe s k ++ b ∷ []) lk lk v
      (inl (omega (arith, length_one_more (pipe s k) b, c))) g

-- A step that leaves the pipes alone.
set_same {ℓ} : {A : Type ℓ} (xs : List A) (i : ℕ) (d : A) → set xs i (get_or xs i d) ≡ xs
set_same [] i d = refl
set_same (x ∷ xs) zero d = refl
set_same (x ∷ xs) (suc i) d = ap (λ t. x ∷ t) (set_same xs i d)

end-Inv :
    (n : ℕ) (s : Ring) (k : ℕ) → k < n → gone (proc s k) ≡ 0 → Inv n s → Inv n (becomes s k ended)
end-Inv n s k lk g v =
    subst (λ ps. Inv n (record (becomes s k ended) { pipes = ps })) (set_same s.pipes k [])
      (moved n s k k ended (pipe s k) lk lk v (inr (omega arith, refl)) g)

receive-carries :
    (t : Text) (rand : ℕ) (buf : List ℕ)
    → (carries (receive t rand buf) ≡ 1) ⊎ (receive t rand buf ≡ ended)
receive-carries t rand buf = elim (Bool-cases (same_int (t.atoi buf) (pos 0))) [
  | inl z ↦ inr (rw z refl)
  | inr nz ↦ inl (rw nz refl)
]

Step-Inv : (t : Text) (n : ℕ) {s u : Ring} → Step t n s u → Inv n s → Inv n u
Step-Inv t n {s} (starts k j lk lj r p q) v =
    put-Inv n s k (t.print (pos 1)) lk (ap carries p) (ap gone p) v
Step-Inv t n {s} (fails k j lk lj r p q) v = end-Inv n s k lk (ap gone p) v
Step-Inv t n {s} (reads k rand buf rest lk p q) v =
    let c : carries (proc s k) ≡ 0 = ap carries p in
    let g : gone (proc s k) ≡ 0 = ap gone p in
    let l : length (pipe s (readid n k)) ≡ suc (length rest) = ap length q in
    moved n s k (readid n k) (receive t rand buf) rest lk (readid_lt n k lk) v
      (elim (receive-carries t rand buf) [
        | inl one ↦ inl (omega (arith, one, c, l))
        | inr e ↦ inr (omega (arith, c, l, ap carries e), e)
      ])
      g
Step-Inv t n {s} (reads_end k lk p q e) v = end-Inv n s k lk (ap gone p) v
Step-Inv t n {s} (writes k j buf lk lj r p q) v = put-Inv n s k buf lk (ap carries p) (ap gone p) v
Step-Inv t n {s} (breaks k j buf lk lj r p q) v = end-Inv n s k lk (ap gone p) v

Signal-Inv : (n : ℕ) {s u : Ring} → Signal n s u → Inv n s → Inv n u
Signal-Inv n {s} (interrupted k lk p) v = end-Inv n s k lk (ap gone p) v

no_bytes : (n : ℕ) → sum_of (length {A = List ℕ}) (replicate n []) ≡ 0
unfolding sum_of
no_bytes zero = refl
no_bytes (suc n) = omega (arith, no_bytes n)

none_carry : (n : ℕ) → sum_of carries (replicate n reading) ≡ 0
unfolding sum_of
none_carry zero = refl
none_carry (suc n) = omega (arith, none_carry n)

pub Reach-Inv : (t : Text) (n : ℕ) {s : Ring} → Reach t n s → Inv (suc n) s
unfolding sum_of
Reach-Inv t n begin =
    let one : tokens (start n) ≡ 1 = omega (arith, no_bytes (suc n), none_carry n) in
    record {
      size_pipes = length-replicate (suc n) [];
      size_procs = ap suc (length-replicate n reading);
      most = omega (arith, one);
      one = inl one;
    }
Reach-Inv t n (next r st) = Step-Inv t (suc n) st (Reach-Inv t n r)
Reach-Inv t n (signal r st) = Signal-Inv (suc n) st (Reach-Inv t n r)

-- In a ring of any number of processes, there is at all times at most one message, in a pipe or with
-- a process that is about to write it; and there is one as long as no process has ended.
pub tokens_lem :
    (t : Text) (n : ℕ) (s : Ring) → Reach t n s → (tokens s ≤ 1) × ((tokens s ≡ 1) ⊎ (0 < over s))
tokens_lem t n s r = let v = Reach-Inv t n r in (v.most, v.one)
