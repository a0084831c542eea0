-- ===== src/Shop/Night/Exclusion.antt =====
-- Who has the mutexes, over the whole night.
use mathlib.Core.Path.{subst}
use sop.Prelude.{
  ℕ, zero, suc, ◌+◌, ◌≤◌, ◌≡◌, refl, ap, List, [], ◌∷◌, ◌++◌, arith, false, replicate, length,
  length-replicate, get_or, ltb,
}
use sop.Prelude.Count.{sum_of, sum_of-insert, one_of}
use sop.Shop.Night.{Phase, resting, holds, Night, held, Step, acts, Reach, begin, next}
use sop.Shop.Night.Holding.{flag, Fits, Alone, Local, Act-Local}

abbrev pub AllFit : ℕ → List Phase → Type 0
AllFit n [] = Unit
AllFit n (p ∷ ps) = Fits n p × AllFit n ps

AllFit-at :
    (n : ℕ) (ps : List Phase) (p : Phase) (qs : List Phase) → AllFit n (ps ++ p ∷ qs) → Fits n p
AllFit-at n [] p qs h = h.0
AllFit-at n (r ∷ ps) p qs h = AllFit-at n ps p qs h.1

AllFit-change :
    (n : ℕ) (ps : List Phase) (p q : Phase) (qs : List Phase)
    → AllFit n (ps ++ p ∷ qs)
    → Fits n q
    → AllFit n (ps ++ q ∷ qs)
AllFit-change n [] p q qs h f = (f, h.1)
AllFit-change n (r ∷ ps) p q qs h f = (h.0, AllFit-change n ps p q qs h.1 f)

-- The mutexes are one per shelf, each with at most one process or with a dead owner, and every
-- process is at shelves that there are.
pub record IsValid (n : ℕ) (s : Night) : Type 0 where
  pub size : length s.store.owner_dead ≡ n
  pub alone : Alone (held n s.procs) (λ i. 0) s.store
  pub fit : AllFit n s.procs

-- One process among the others.
pub IsValid-Local :
    (n : ℕ) (s : Night) (ps : List Phase) (p : Phase) (qs : List Phase)
    → IsValid n s
    → s.procs ≡ ps ++ p ∷ qs
    → Local n (held n (ps ++ qs)) s.store p
IsValid-Local n s ps p qs v e = record {
  size = v.size;
  alone = λ i. omega (arith, v.alone i, ap (λ l. held n l i) e, sum_of-insert (holds n i) ps p qs);
  fits = AllFit-at n ps p qs (subst (AllFit n) e v.fit);
}

Step-IsValid : (n m : ℕ) {s t : Night} → Step n m s t → IsValid n s → IsValid n t
Step-IsValid n m {s} (acts ps p qs t q e a) v =
    let l : Local n (held n (ps ++ qs)) t q = Act-Local a (IsValid-Local n s ps p qs v e) in
    record {
      size = l.size;
      alone = λ i. omega (arith, l.alone i, sum_of-insert (holds n i) ps q qs);
      fit = AllFit-change n ps p q qs (subst (AllFit n) e v.fit) l.fits;
    }

resting_fit : (n m : ℕ) → AllFit n (replicate m resting)
resting_fit n zero = tt
resting_fit n (suc m) = (tt, resting_fit n m)

resting_hold : (n m i : ℕ) → held n (replicate m resting) i ≡ 0
unfolding sum_of
resting_hold n zero i = refl
resting_hold n (suc m) i = omega (arith, resting_hold n m i)

no_flag : (n i : ℕ) → get_or (replicate n false) i false ≡ false
no_flag zero i = refl
no_flag (suc n) zero = refl
no_flag (suc n) (suc i) = no_flag n i

pub Reach-IsValid : (n m : ℕ) (log : List ℕ) {s : Night} → Reach n m log s → IsValid n s
unfolding sum_of
Reach-IsValid n m log begin = record {
  size = length-replicate n false;
  alone = λ i.
      let none : one_of (ltb i 0) ≡ 0 = ground arith in
      omega (arith, resting_hold n m i, ap one_of (no_flag n i), none);
  fit = (omega arith, resting_fit n m);
}
Reach-IsValid n m log (next r st) = Step-IsValid n m st (Reach-IsValid n m log r)

-- Whatever the workers and the manager do and whichever workers die: no mutex of a shelf is ever
-- with two processes, and one whose owner died with it is with none.
pub exclusion :
    (n m : ℕ) (log : List ℕ) (s : Night) (i : ℕ)
    → Reach n m log s
    → held n s.procs i + flag s.store i ≤ 1
exclusion n m log s i r = omega (arith, (Reach-IsValid n m log r).alone i)
