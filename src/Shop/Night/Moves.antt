-- ===== src/Shop/Night/Moves.antt =====
-- What every process needs for its next step.
use mathlib.Core.Path.{subst}
use sop.Prelude.{
  ℕ, suc, ◌≤◌, ◌≡◌, ◌⊎◌, refl, ap, ◌∙◌, List, arith, if◌then◌else◌, ltb, Bool-cases, inl, inr,
}
use sop.Shop.{lower, upper, Turn, done, dies, work}
use sop.Shop.Night.{
  Phase, resting, left, died, wants, has_first, has_both, worked, has_one, locking, unlocking,
  retired, Store, take_lock, abandon, verdict, Act, chooses, quits, locks_first, locks_second,
  works, is_killed, unlocks_second, unlocks_first, locks_next, looks, unlocks_next, judges,
}
use sop.Shop.Night.Holding.{Fits}

-- What keeps a process from its next step: nothing, a mutex, or that it is at its end.
pub data Kind : Type 0 where
  ready finished : Kind
  waiting : ℕ → Kind

abbrev pub kind : ℕ → Phase → Kind
kind n resting = ready
kind n left = finished
kind n died = finished
kind n (wants x y) = waiting (lower x y)
kind n (has_first x y) = waiting (upper x y)
kind n (has_both x y) = ready
kind n (worked x y) = ready
kind n (has_one x y) = ready
kind n (locking k) = if ltb k n then waiting k else ready
kind n (unlocking k b) = ready
kind n retired = finished

-- A step of this process.
abbrev pub Moves : ℕ → ℕ → (ℕ → ℕ) → Store → Phase → Type 0
Moves n m others s p = (t : Store) × (q : Phase) × Act n m others s p t q

Turn-cases : (w : Turn) → ((log : List ℕ) × (w ≡ done log)) ⊎ (w ≡ dies)
Turn-cases (done log) = inl (log, refl)
Turn-cases dies = inr refl

pub ready-Moves :
    (n m : ℕ) (others : ℕ → ℕ) (s : Store) (p : Phase)
    → 2 ≤ n
    → Fits n p
    → kind n p ≡ ready
    → Moves n m others s p
ready-Moves n m others s resting big f e = elim (Bool-cases s.sorted) [
  | inl over ↦ (s, left, quits over)
  | inr on ↦ (
    s,
    wants 0 1,
    chooses 0 1 on (omega (arith, big)) (omega (arith, big)) (λ q. omega (arith, q)),
  )
]
ready-Moves n m others s left big f e = cc
ready-Moves n m others s died big f e = cc
ready-Moves n m others s retired big f e = cc
ready-Moves n m others s (wants x y) big f e = cc
ready-Moves n m others s (has_first x y) big f e = cc
ready-Moves n m others s (has_both x y) big f e = elim (Turn-cases (work 0 x y s.log)) [
  | inl (log, made) ↦ (record s { log = log }, worked x y, works x y 0 log made)
  | inr dead ↦ (abandon x y s, died, is_killed x y 0 dead)
]
ready-Moves n m others s (worked x y) big f e = (s, has_one x y, unlocks_second x y)
ready-Moves n m others s (has_one x y) big f e = (s, resting, unlocks_first x y)
ready-Moves n m others s (locking k) big f e = elim (Bool-cases (ltb k n)) [
  | inl more ↦ absurd (let q : waiting k ≡ ready = rw more at e in cc)
  | inr all ↦
      let q : n ≡ k = ground (arith, f, all) in
      subst (λ i. Moves n m others s (locking i)) q (s, unlocking 0 _, looks)
]
ready-Moves n m others s (unlocking k b) big f e = elim (Bool-cases (ltb k n)) [
  | inl more ↦ (s, unlocking (suc k) b, unlocks_next k b (ground arith))
  | inr all ↦
      let q : n ≡ k = ground (arith, f, all) in
      subst (λ i. Moves n m others s (unlocking i b)) q
        ((verdict m b s).0, (verdict m b s).1, judges b)
]

waiting-eq : (v w : ℕ) → waiting v ≡ waiting w → v ≡ w
waiting-eq v w e = cc

-- The mutex it waits for lets a process go on.
pub waiting-Moves :
    (n m : ℕ) (others : ℕ → ℕ) (s : Store) (p : Phase) (w : ℕ)
    → others w ≡ 0
    → kind n p ≡ waiting w
    → Moves n m others s p
waiting-Moves n m others s resting w free e = cc
waiting-Moves n m others s left w free e = cc
waiting-Moves n m others s died w free e = cc
waiting-Moves n m others s retired w free e = cc
waiting-Moves n m others s (wants x y) w free e =
    let q : lower x y ≡ w = waiting-eq (lower x y) w e in
    (take_lock (lower x y) s, has_first x y, locks_first x y (ap others q ∙ free))
waiting-Moves n m others s (has_first x y) w free e =
    let q : upper x y ≡ w = waiting-eq (upper x y) w e in
    (take_lock (upper x y) s, has_both x y, locks_second x y (ap others q ∙ free))
waiting-Moves n m others s (has_both x y) w free e = cc
waiting-Moves n m others s (worked x y) w free e = cc
waiting-Moves n m others s (has_one x y) w free e = cc
waiting-Moves n m others s (locking k) w free e = elim (Bool-cases (ltb k n)) [
  | inl more ↦
      let q : k ≡ w = waiting-eq k w (rw more at e) in
      (take_lock k s, locking (suc k), locks_next k (ground arith) (ap others q ∙ free))
  | inr all ↦ absurd (let q : ready ≡ waiting w = rw all at e in cc)
]
waiting-Moves n m others s (unlocking k b) w free e = cc
