-- ===== src/Shop/Night.antt =====
-- The night shift: workers and the manager, each a step at a time, at the robust mutexes of the
-- shelves. What `create_children` does under `mxSorted` and `mxDead` is part of a step.
pub mod Holding
pub mod Exclusion
pub mod Deaths
pub mod Shelves
pub mod Moves
pub mod Progress
mod Tests
use sop.Prelude.{
  ℕ, zero, suc, ◌+◌, ◌/◌, ◌<◌, ◌≡◌, ◌≢◌, List, [], ◌∷◌, ◌++◌, Bool, true, false, ◌&&◌,
  if◌then◌else◌, ltb, leb, ◌==◌, get_or, set, replicate, length,
}
use sop.Prelude.Count.{one_if, one_of, sum_of}
use sop.Shop.{lower, upper, done, dies, work, is_sorted}

-- Where a process stands. A worker rests, wants the mutexes of two shelves, has one or both, has done
-- its work with both, has one left, has gone home, or is dead. The manager has locked the first
-- shelves, or has looked, with what it found, and unlocked the first ones, or has gone home.
pub data Phase : Type 0 where
  resting left died : Phase
  wants has_first has_both worked has_one : ℕ → ℕ → Phase
  locking : ℕ → Phase
  unlocking : ℕ → Bool → Phase
  retired : Phase

-- The shelves and `shared_data`; of each shelf's mutex, whether its owner died with it locked.
pub record Store : Type 0 where
  pub log : List ℕ
  pub owner_dead : List Bool
  pub dead : ℕ
  pub sorted : Bool

-- How often (0 or 1) a process has the mutex `i` of `n`.
abbrev pub holds : ℕ → ℕ → Phase → ℕ
holds n i resting = 0
holds n i left = 0
holds n i died = 0
holds n i (wants x y) = 0
holds n i (has_first x y) = one_if i (lower x y)
holds n i (has_both x y) = one_if i (lower x y) + one_if i (upper x y)
holds n i (worked x y) = one_if i (lower x y) + one_if i (upper x y)
holds n i (has_one x y) = one_if i (lower x y)
holds n i (locking k) = one_of (ltb i k)
holds n i (unlocking k b) = one_of (leb k i && ltb i n)
holds n i retired = 0

-- `pthread_mutex_lock` of a shelf that nobody has; a dead owner is counted.
abbrev pub take_lock : ℕ → Store → Store
take_lock i s =
    if get_or s.owner_dead i false
    then record s { owner_dead = set s.owner_dead i false; dead = s.dead + 1 }
    else s

-- A worker dies with both mutexes.
abbrev pub abandon : ℕ → ℕ → Store → Store
abandon x y s = record s { owner_dead = set (set s.owner_dead (lower x y) true) (upper x y) true }

-- What the manager does after it has unlocked all, `b` being what it found.
abbrev pub verdict : ℕ → Bool → Store → Store × Phase
verdict m b s =
    if s.dead / 2 == m
    then (s, retired)
    else if b
    then (record s { sorted = true }, retired)
    else (s, locking 0)

-- One step of one process, with `n` shelves and `m` workers; `others i` says how often the other
-- processes have the mutex `i`.
pub data Act (n m : ℕ) (others : ℕ → ℕ) (s : Store) : Phase → Store → Phase → Type 0 where
  chooses :
      (x y : ℕ) → s.sorted ≡ false → x < n → y < n → x ≢ y → Act n m others s resting s (wants x y)
  quits : s.sorted ≡ true → Act n m others s resting s left
  locks_first :
      (x y : ℕ)
      → others (lower x y) ≡ 0
      → Act n m others s (wants x y) (take_lock (lower x y) s) (has_first x y)
  locks_second :
      (x y : ℕ)
      → others (upper x y) ≡ 0
      → Act n m others s (has_first x y) (take_lock (upper x y) s) (has_both x y)
  works :
      (x y r : ℕ) (log : List ℕ)
      → work r x y s.log ≡ done log
      → Act n m others s (has_both x y) (record s { log = log }) (worked x y)
  is_killed :
      (x y r : ℕ) → work r x y s.log ≡ dies → Act n m others s (has_both x y) (abandon x y s) died
  unlocks_second : (x y : ℕ) → Act n m others s (worked x y) s (has_one x y)
  unlocks_first : (x y : ℕ) → Act n m others s (has_one x y) s resting
  locks_next :
      (i : ℕ)
      → i < n
      → others i ≡ 0
      → Act n m others s (locking i) (take_lock i s) (locking (suc i))
  looks : Act n m others s (locking n) s (unlocking 0 (is_sorted 0 n s.log))
  unlocks_next :
      (i : ℕ) (b : Bool) → i < n → Act n m others s (unlocking i b) s (unlocking (suc i) b)
  judges : (b : Bool) → Act n m others s (unlocking n b) (verdict m b s).0 (verdict m b s).1

pub record Night : Type 0 where
  pub store : Store
  pub procs : List Phase

abbrev pub held : ℕ → List Phase → ℕ → ℕ
held n ps i = sum_of (holds n i) ps

pub data Step (n m : ℕ) (s : Night) : Night → Type 0 where
  acts :
      (before : List Phase) (p : Phase) (after : List Phase) (t : Store) (q : Phase)
      → s.procs ≡ before ++ p ∷ after
      → Act n m (held n (before ++ after)) s.store p t q
      → Step n m s (record { store = t; procs = before ++ q ∷ after })

-- The night begins with `m` workers and the manager, and the shelves as shuffled.
abbrev pub start : ℕ → ℕ → List ℕ → Night
start n m log = record {
  store = record { log = log; owner_dead = replicate n false; dead = 0; sorted = false };
  procs = locking 0 ∷ replicate m resting;
}

pub data Reach (n m : ℕ) (log : List ℕ) : Night → Type 0 where
  begin : Reach n m log (start n m log)
  next : {s t : Night} → Reach n m log s → Step n m s t → Reach n m log t
