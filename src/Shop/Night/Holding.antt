-- ===== src/Shop/Night/Holding.antt =====
-- Who has which mutex.
use sop.Prelude.{
  ℕ, suc, ◌+◌, ◌/◌, ◌<◌, ◌≤◌, ◌≡◌, ◌≢◌, refl, sym, ap, ◌∙◌, arith, true, false, ◌==◌, get_or, set,
  length, length-set, get_or-set_self, get_or-set_ne, Bool-cases, inl, inr,
}
use sop.Prelude.Count.{one_if, one_of}
use sop.Shop.{lower, upper}
use sop.Shop.Night.{
  Phase, resting, left, died, wants, has_first, has_both, worked, has_one, locking, unlocking,
  retired, Store, holds, take_lock, abandon, Act, chooses, quits, locks_first, locks_second, works,
  is_killed, unlocks_second, unlocks_first, locks_next, looks, unlocks_next, judges,
}

-- 1 if the owner of the mutex `i` died with it.
abbrev pub flag : Store → ℕ → ℕ
flag s i = one_of (get_or s.owner_dead i false)

abbrev pub Fits : ℕ → Phase → Type 0
Fits n (wants x y) = (x < n) × (y < n) × (x ≢ y)
Fits n (has_first x y) = (x < n) × (y < n) × (x ≢ y)
Fits n (has_both x y) = (x < n) × (y < n) × (x ≢ y)
Fits n (worked x y) = (x < n) × (y < n) × (x ≢ y)
Fits n (has_one x y) = (x < n) × (y < n) × (x ≢ y)
Fits n (locking k) = k ≤ n
Fits n (unlocking k b) = k ≤ n
Fits n resting = Unit
Fits n left = Unit
Fits n died = Unit
Fits n retired = Unit

-- Every mutex is with one process, or its owner died, or neither.
abbrev pub Alone : (ℕ → ℕ) → (ℕ → ℕ) → Store → Type 0
Alone others h s = (i : ℕ) → others i + h i + flag s i ≤ 1

take-length : (i : ℕ) (s : Store) → length (take_lock i s).owner_dead ≡ length s.owner_dead
take-length i s = elim (Bool-cases (get_or s.owner_dead i false)) [
  | inl d ↦ rw d (length-set s.owner_dead i false)
  | inr d ↦ rw d refl
]

take_self : (i : ℕ) (s : Store) → i < length s.owner_dead → flag (take_lock i s) i ≡ 0
take_self i s lt = elim (Bool-cases (get_or s.owner_dead i false)) [
  | inl d ↦ rw d (ap one_of (get_or-set_self s.owner_dead i false false lt))
  | inr d ↦ rw (d, d) refl
]

take_other : (i j : ℕ) (s : Store) → i ≢ j → flag (take_lock i s) j ≡ flag s j
take_other i j s ne = elim (Bool-cases (get_or s.owner_dead i false)) [
  | inl d ↦ rw d (ap one_of (get_or-set_ne s.owner_dead i j false false ne))
  | inr d ↦ rw d refl
]

-- A mutex that nobody has goes to a process.
take-Alone :
    (others h h' : ℕ → ℕ) (i : ℕ) (s : Store)
    → i < length s.owner_dead
    → others i ≡ 0
    → h i ≡ 0
    → ((j : ℕ) → h' j ≡ h j + one_if j i)
    → Alone others h s
    → Alone others h' (take_lock i s)
take-Alone others h h' i s lt free none more a j = elim (Bool-cases (i == j)) [
  | inl e ↦
      let q : i ≡ j = ground arith in
      rw (sym q) (
        omega (
          arith,
          free,
          none,
          more i,
          take_self i s lt,
          (let o : one_if i i ≡ 1 = ground arith in o),
        ))
  | inr ne ↦ omega (
    arith,
    a j,
    more j,
    take_other i j s (λ q. ground arith),
    (let o : one_if j i ≡ 0 = ground arith in o),
  )
]

pub lower-lt : (n x y : ℕ) → x < n → y < n → lower x y < n
lower-lt n x y a b = ground arith

pub upper-lt : (n x y : ℕ) → x < n → y < n → upper x y < n
upper-lt n x y a b = ground arith

pub lower-ne : (x y : ℕ) → x ≢ y → lower x y < upper x y
lower-ne x y ne = ground arith

-- After a death the mutexes are as the dead worker held them.
abandon_flag :
    (n x y j : ℕ) (s : Store)
    → length s.owner_dead ≡ n
    → (x < n) × (y < n) × (x ≢ y)
    → flag (abandon x y s) j ≤ flag s j + holds n j (has_both x y)
abandon_flag n x y j s size (lx, ly, ne) = elim (Bool-cases (upper x y == j)) [
  | inl e ↦ ground (arith, holds n j (has_both x y))
  | inr f ↦ elim (Bool-cases (lower x y == j)) [
    | inl e ↦ ground arith
    | inr g ↦
        let a : get_or (abandon x y s).owner_dead j false ≡ get_or s.owner_dead j false =
          get_or-set_ne (set s.owner_dead (lower x y) true) (upper x y) j true false
            (λ q. ground arith)
          ∙ get_or-set_ne s.owner_dead (lower x y) j true false (λ q. ground arith) in
        omega (arith, ap one_of a)
  ]
]

-- What a step of one process needs to know and keeps.
pub record Local (n : ℕ) (others : ℕ → ℕ) (s : Store) (p : Phase) : Type 0 where
  pub size : length s.owner_dead ≡ n
  pub alone : Alone others (λ i. holds n i p) s
  pub fits : Fits n p

-- A step that takes no mutex.
give_back :
    (n : ℕ) (others : ℕ → ℕ) (s t : Store) (p q : Phase)
    → ((i : ℕ) → holds n i q + flag t i ≤ holds n i p + flag s i)
    → length t.owner_dead ≡ length s.owner_dead
    → Fits n q
    → Local n others s p
    → Local n others t q
give_back n others s t p q less same fits v = record {
  size = same ∙ v.size;
  alone = λ i. omega (arith, v.alone i, less i);
  fits = fits;
}

take_one :
    (n : ℕ) (others : ℕ → ℕ) (s : Store) (p q : Phase) (i : ℕ)
    → i < n
    → others i ≡ 0
    → holds n i p ≡ 0
    → ((j : ℕ) → holds n j q ≡ holds n j p + one_if j i)
    → Fits n q
    → Local n others s p
    → Local n others (take_lock i s) q
take_one n others s p q i lt free none more fits v = record {
  size = take-length i s ∙ v.size;
  alone =
      take-Alone others (λ j. holds n j p) (λ j. holds n j q) i s (omega (arith, v.size, lt)) free
        none more v.alone;
  fits = fits;
}

pub Act-Local :
    {n m : ℕ} {others : ℕ → ℕ} {s t : Store} {p q : Phase}
    → Act n m others s p t q
    → Local n others s p
    → Local n others t q
Act-Local {n} {others = o} {s} (chooses x y open_shop lx ly ne) v =
    give_back n o s s resting (wants x y) (λ i. omega arith) refl (lx, ly, ne) v
Act-Local {n} {others = o} {s} (quits over) v =
    give_back n o s s resting left (λ i. omega arith) refl tt v
Act-Local {n} {others = o} {s} (locks_first x y free) v =
    take_one n o s (wants x y) (has_first x y) (lower x y) (lower-lt n x y v.fits.0 v.fits.1) free
      refl (λ j. omega arith) v.fits v
Act-Local {n} {others = o} {s} (locks_second x y free) v =
    take_one n o s (has_first x y) (has_both x y) (upper x y) (upper-lt n x y v.fits.0 v.fits.1)
      free (let ne = lower-ne x y v.fits.2 in ground (arith, ne)) (λ j. refl) v.fits v
Act-Local {n} {others = o} {s} (works x y r log e) v =
    give_back n o s (record s { log = log }) (has_both x y) (worked x y) (λ i. omega arith) refl
      v.fits v
Act-Local {n} {others = o} {s} (is_killed x y r e) v =
    give_back n o s (abandon x y s) (has_both x y) died
      (λ i. omega (arith, abandon_flag n x y i s v.size v.fits))
      (length-set (set s.owner_dead (lower x y) true) (upper x y) true
        ∙ length-set s.owner_dead (lower x y) true)
      tt v
Act-Local {n} {others = o} {s} (unlocks_second x y) v =
    give_back n o s s (worked x y) (has_one x y) (λ i. omega arith) refl v.fits v
Act-Local {n} {others = o} {s} (unlocks_first x y) v =
    give_back n o s s (has_one x y) resting (λ i. omega arith) refl tt v
Act-Local {n} {others = o} {s} (locks_next i lt free) v =
    take_one n o s (locking i) (locking (suc i)) i lt free (ground arith) (λ j. ground arith)
      (omega (arith, lt)) v
Act-Local {n} {others = o} {s} looks v =
    give_back n o s s (locking n) (unlocking 0 _) (λ i. ground arith) refl (omega arith) v
Act-Local {n} {others = o} {s} (unlocks_next i b lt) v =
    give_back n o s s (unlocking i b) (unlocking (suc i) b) (λ j. ground arith) refl
      (omega (arith, lt)) v
Act-Local {n} {m} {others = o} {s} (judges b) v = elim (Bool-cases (s.dead / 2 == m)) [
  | inl e ↦ rw e (give_back n o s s (unlocking n b) retired (λ i. omega arith) refl tt v)
  | inr f ↦ elim (Bool-cases b) [
    | inl e ↦
        rw (f, e)
          (give_back n o s (record s { sorted = true }) (unlocking n b) retired (λ i. omega arith)
            refl tt v)
    | inr g ↦
        rw (f, g)
          (give_back n o s s (unlocking n b) (locking 0) (λ i. ground arith) refl (omega arith) v)
  ]
]
