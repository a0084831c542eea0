-- ===== src/Shop/Night/Deaths.antt =====
-- How the manager counts the dead.
use sop.Prelude.{
  ℕ, zero, suc, ◌+◌, ◌*◌, ◌/◌, ◌<◌, ◌≡◌, refl, ap, List, ◌∷◌, ◌++◌, arith, Bool, true, false, ◌==◌,
  get_or, set, replicate, length, length-set, get_or-set_ne, Bool-cases, inl, inr,
}
use sop.Prelude.Count.{one_of, sum_of, sum_of-insert, trues, trues-set, trues_none}
use sop.Shop.{lower, upper}
use sop.Shop.Night.{
  Phase, resting, left, died, wants, has_first, has_both, worked, has_one, locking, unlocking,
  retired, Store, take_lock, abandon, Act, chooses, quits, locks_first, locks_second, works,
  is_killed, unlocks_second, unlocks_first, locks_next, looks, unlocks_next, judges, Night, acts,
  Reach, begin, next,
}
use sop.Shop.Night.Holding.{flag, Local, lower-lt, upper-lt, lower-ne}
use sop.Shop.Night.Exclusion.{IsValid-Local, Reach-IsValid}

abbrev is_dead : Phase → ℕ
is_dead died = 1
is_dead resting = 0
is_dead left = 0
is_dead (wants x y) = 0
is_dead (has_first x y) = 0
is_dead (has_both x y) = 0
is_dead (worked x y) = 0
is_dead (has_one x y) = 0
is_dead (locking k) = 0
is_dead (unlocking k b) = 0
is_dead retired = 0

-- The workers that are dead.
abbrev pub corpses : List Phase → ℕ
corpses ps = sum_of is_dead ps

-- The deaths counted, and those mutexes at which one will be.
abbrev found : Store → ℕ
found s = s.dead + trues s.owner_dead

take-found : (i : ℕ) (s : Store) → i < length s.owner_dead → found (take_lock i s) ≡ found s
take-found i s lt = elim (Bool-cases (get_or s.owner_dead i false)) [
  | inl d ↦ rw d (omega (arith, trues-set s.owner_dead i false lt, ap one_of d))
  | inr d ↦ rw d refl
]

-- A death marks two mutexes.
abandon-found :
    (x y : ℕ) (s : Store)
    → lower x y < upper x y
    → upper x y < length s.owner_dead
    → flag s (lower x y) ≡ 0
    → flag s (upper x y) ≡ 0
    → found (abandon x y s) ≡ found s + 2
abandon-found x y s ne lt f g =
    let bs : List Bool = s.owner_dead in
    let same : get_or (set bs (lower x y) true) (upper x y) false ≡ get_or bs (upper x y) false =
      get_or-set_ne bs (lower x y) (upper x y) true false (λ q. omega (arith, q, ne)) in
    omega (
      arith,
      f,
      g,
      ap one_of same,
      trues-set bs (lower x y) true (omega (arith, ne, lt)),
      trues-set (set bs (lower x y) true) (upper x y) true
          (omega (arith, lt, length-set bs (lower x y) true)),
    )

Act-found :
    {n m : ℕ} {others : ℕ → ℕ} {s t : Store} {p q : Phase}
    → Act n m others s p t q
    → Local n others s p
    → found t + 2 * is_dead p ≡ found s + 2 * is_dead q
Act-found (chooses x y open_shop lx ly ne) v = refl
Act-found (quits over) v = refl
Act-found {n} {s} (locks_first x y free) v =
    omega
      (arith, take-found (lower x y) s (omega (arith, v.size, lower-lt n x y v.fits.0 v.fits.1)))
Act-found {n} {s} (locks_second x y free) v =
    omega
      (arith, take-found (upper x y) s (omega (arith, v.size, upper-lt n x y v.fits.0 v.fits.1)))
Act-found (works x y r log e) v = refl
Act-found {n} {s} (is_killed x y r e) v =
    let ne : lower x y < upper x y = lower-ne x y v.fits.2 in
    omega (
      arith,
      abandon-found x y s ne (omega (arith, v.size, upper-lt n x y v.fits.0 v.fits.1))
          (let a = v.alone (lower x y) in ground (arith, a, ne))
          (let a = v.alone (upper x y) in ground (arith, a, ne)),
    )
Act-found (unlocks_second x y) v = refl
Act-found (unlocks_first x y) v = refl
Act-found {s} (locks_next i lt free) v = omega (arith, take-found i s (omega (arith, v.size, lt)))
Act-found looks v = refl
Act-found (unlocks_next i b lt) v = refl
Act-found {m} {s} (judges b) v = elim (Bool-cases (s.dead / 2 == m)) [
  | inl e ↦ rw e refl
  | inr f ↦ elim (Bool-cases b) [ inl e ↦ rw (f, e) refl | inr g ↦ rw (f, g) refl ]
]

none_dead : (m : ℕ) → corpses (replicate m resting) ≡ 0
unfolding sum_of
none_dead zero = refl
none_dead (suc m) = omega (arith, none_dead m)

no_flags : (n : ℕ) → trues (replicate n false) ≡ 0
unfolding trues
no_flags zero = refl
no_flags (suc n) = omega (arith, no_flags n)

-- Every dead worker is counted twice, once at each of its mutexes, when the mutex is next locked: at
-- any time `dead`, with the mutexes whose owner's death has not been found, is twice the number
-- of dead workers.
pub dead_lem :
    (n m : ℕ) (log : List ℕ) {s : Night}
    → Reach n m log s
    → s.store.dead + trues s.store.owner_dead ≡ 2 * corpses s.procs
unfolding sum_of
dead_lem n m log begin = omega (arith, none_dead m, no_flags n)
dead_lem n m log (next {s} r (acts ps p qs t q e a)) = omega (
  arith,
  dead_lem n m log r,
  Act-found a (IsValid-Local n s ps p qs (Reach-IsValid n m log r) e),
  ap corpses e,
  sum_of-insert is_dead ps p qs,
  sum_of-insert is_dead ps q qs,
)

-- When the manager has locked all the shelves, every death has been found: `dead / 2` is the number
-- of dead workers.
pub manager_counts :
    (n m : ℕ) (log : List ℕ) (s : Night) (before after : List Phase)
    → Reach n m log s
    → s.procs ≡ before ++ locking n ∷ after
    → s.store.dead / 2 ≡ corpses s.procs
manager_counts n m log s ps qs r e =
    let v = IsValid-Local n s ps (locking n) qs (Reach-IsValid n m log r) e in
    let none : trues s.store.owner_dead ≡ 0 = trues_none s.store.owner_dead (λ i lt.
      let a = v.alone i in
      let inside : i < n = omega (arith, lt, v.size) in ground (arith, a, inside)) in
    omega (arith, dead_lem n m log r, none)
