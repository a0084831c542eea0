-- ===== src/Shop/Night/Shelves.antt =====
-- What becomes of the shelves on the whole night.
use mathlib.Core.Path.{subst}
use sop.Prelude.{
  ℕ, zero, suc, ◌/◌, ◌<◌, ◌≡◌, ◌≢◌, refl, sym, ap, ◌∙◌, List, [], ◌∷◌, ◌++◌, arith, Bool, true,
  false, ◌==◌, get_or, replicate, length, Bool-cases, inl, inr,
}
use sop.Prelude.Count.{count}
use sop.Shop.{done, dies, work, is_sorted}
use sop.Shop.Sorting.{work_lem, is_sorted_lem}
use sop.Shop.Night.{
  Phase, resting, locking, unlocking, retired, Store, take_lock, Act, chooses, quits, locks_first,
  locks_second, works, is_killed, unlocks_second, unlocks_first, locks_next, looks, unlocks_next,
  judges, Night, acts, Reach, begin, next,
}
use sop.Shop.Night.Holding.{Local}
use sop.Shop.Night.Exclusion.{IsValid-Local, Reach-IsValid}

-- The same products, and once sorted always sorted.
record Kept (n : ℕ) (log log' : List ℕ) : Type 0 where
  size : length log' ≡ length log
  products : (c : ℕ) → count c log' ≡ count c log
  stays : is_sorted 0 n log ≡ true → is_sorted 0 n log' ≡ true

same_log : (n : ℕ) (log : List ℕ) → Kept n log log
same_log n log = record { size = refl; products = λ c. refl; stays = λ e. e }

-- A worker has nothing to do on shelves in order.
work_sorted :
    (n r x y : ℕ) (log : List ℕ)
    → is_sorted 0 n log ≡ true
    → x < n
    → y < n
    → work r x y log ≡ done log
unfolding work
work_sorted n r x y log e lx ly = elim (is_sorted_lem n log) [
  | inl (same, all) ↦ ground (arith, all x lx, all y ly)
  | inr (differ, k, lt, off) ↦ absurd (let b : true ≡ false = sym e ∙ differ in cc)
]

work-Kept :
    (n r x y : ℕ) (log log' : List ℕ)
    → length log ≡ n
    → (x < n) × (y < n) × (x ≢ y)
    → work r x y log ≡ done log'
    → Kept n log log'
work-Kept n r x y log log' size (lx, ly, ne) e =
    elim (work_lem r x y log (omega (arith, size, lx)) (omega (arith, size, ly)) ne) [
      | inl (l, made, w) ↦
          let q : done l ≡ done log' = sym made ∙ e in
          let same : l ≡ log' = cc in
          record {
            size = ap length (sym same) ∙ w.size;
            products = λ c. ap (count c) (sym same) ∙ w.products c;
            stays = λ s.
                let k : done log ≡ done log' = sym (work_sorted n r x y log s lx ly) ∙ e in
                let still : log ≡ log' = cc in ap (is_sorted 0 n) (sym still) ∙ s;
          }
      | inr (dead, z, w) ↦ absurd (let q : dies ≡ done log' = sym dead ∙ e in cc)
    ]

take-log : (i : ℕ) (s : Store) → ((take_lock i s).log ≡ s.log) × ((take_lock i s).sorted ≡ s.sorted)
take-log i s = elim (Bool-cases (get_or s.owner_dead i false)) [
  | inl d ↦ rw d (refl, refl)
  | inr d ↦ rw d (refl, refl)
]

-- What the manager has found is so.
abbrev says_sorted : Phase → Bool
says_sorted p = elim p [ unlocking k b ↦ b | _ ↦ false ]

abbrev Told : ℕ → List ℕ → Phase → Type 0
Told n log p = says_sorted p ≡ true → is_sorted 0 n log ≡ true

abbrev Closed : ℕ → Store → Type 0
Closed n s = s.sorted ≡ true → is_sorted 0 n s.log ≡ true

record Acted (n : ℕ) (s t : Store) (q : Phase) : Type 0 where
  kept : Kept n s.log t.log
  told : Told n t.log q
  closed : Closed n t

-- A step that leaves the shelves alone.
unmoved :
    (n : ℕ) (s t : Store) (q : Phase)
    → (t.log ≡ s.log) × (t.sorted ≡ s.sorted)
    → Closed n s
    → Told n t.log q
    → Acted n s t q
unmoved n s t q (l, o) c told = record {
  kept = subst (Kept n s.log) (sym l) (same_log n s.log);
  told = told;
  closed = λ e. ap (is_sorted 0 n) l ∙ c (sym o ∙ e);
}

Act-Acted :
    {n m : ℕ} {others : ℕ → ℕ} {s t : Store} {p q : Phase}
    → Act n m others s p t q
    → Local n others s p
    → length s.log ≡ n
    → Told n s.log p
    → Closed n s
    → Acted n s t q
Act-Acted {n} {s} (chooses x y open_shop lx ly ne) v size told c =
    unmoved n s s _ (refl, refl) c (λ e. cc)
Act-Acted {n} {s} (quits over) v size told c = unmoved n s s _ (refl, refl) c (λ e. cc)
Act-Acted {n} {s} (locks_first x y free) v size told c = unmoved n s _ _ (take-log _ s) c (λ e. cc)
Act-Acted {n} {s} (locks_second x y free) v size told c = unmoved n s _ _ (take-log _ s) c (λ e. cc)
Act-Acted {n} {s} (works x y r log e) v size told c =
    let k : Kept n s.log log = work-Kept n r x y s.log log size v.fits e in
    record { kept = k; told = λ q. cc; closed = λ o. k.stays (c o) }
Act-Acted {n} {s} (is_killed x y r e) v size told c = unmoved n s _ _ (refl, refl) c (λ e. cc)
Act-Acted {n} {s} (unlocks_second x y) v size told c = unmoved n s s _ (refl, refl) c (λ e. cc)
Act-Acted {n} {s} (unlocks_first x y) v size told c = unmoved n s s _ (refl, refl) c (λ e. cc)
Act-Acted {n} {s} (locks_next i lt free) v size told c = unmoved n s _ _ (take-log i s) c (λ e. cc)
Act-Acted {n} {s} looks v size told c = unmoved n s s _ (refl, refl) c (λ e. e)
Act-Acted {n} {s} (unlocks_next i b lt) v size told c = unmoved n s s _ (refl, refl) c told
Act-Acted {n} {m} {s} (judges b) v size told c = elim (Bool-cases (s.dead / 2 == m)) [
  | inl e ↦ rw e (unmoved n s s retired (refl, refl) c (λ e. cc))
  | inr f ↦ elim (Bool-cases b) [
    | inl e ↦ rw (f, e) (record { kept = same_log n s.log; told = λ q. cc; closed = λ o. told e })
    | inr g ↦ rw (f, g) (unmoved n s s (locking 0) (refl, refl) c (λ e. cc))
  ]
]

abbrev AllTold : ℕ → List ℕ → List Phase → Type 0
AllTold n log [] = Unit
AllTold n log (p ∷ ps) = Told n log p × AllTold n log ps

AllTold-at :
    (n : ℕ) (log : List ℕ) (ps : List Phase) (p : Phase) (qs : List Phase)
    → AllTold n log (ps ++ p ∷ qs)
    → Told n log p
AllTold-at n log [] p qs h = h.0
AllTold-at n log (r ∷ ps) p qs h = AllTold-at n log ps p qs h.1

AllTold-Kept :
    (n : ℕ) (log log' : List ℕ) (ps : List Phase)
    → Kept n log log'
    → AllTold n log ps
    → AllTold n log' ps
AllTold-Kept n log log' [] k h = tt
AllTold-Kept n log log' (p ∷ ps) k h = ((λ e. k.stays (h.0 e)), AllTold-Kept n log log' ps k h.1)

AllTold-change :
    (n : ℕ) (log : List ℕ) (ps : List Phase) (p q : Phase) (qs : List Phase)
    → AllTold n log (ps ++ p ∷ qs)
    → Told n log q
    → AllTold n log (ps ++ q ∷ qs)
AllTold-change n log [] p q qs h f = (f, h.1)
AllTold-change n log (r ∷ ps) p q qs h f = (h.0, AllTold-change n log ps p q qs h.1 f)

record Inv (n : ℕ) (log : List ℕ) (s : Night) : Type 0 where
  size : length s.store.log ≡ n
  products : (c : ℕ) → count c s.store.log ≡ count c log
  told : AllTold n s.store.log s.procs
  closed : Closed n s.store

resting_told : (n m : ℕ) (log : List ℕ) → AllTold n log (replicate m resting)
resting_told n zero log = tt
resting_told n (suc m) log = ((λ e. cc), resting_told n m log)

Reach-Inv : (n m : ℕ) (log : List ℕ) {s : Night} → length log ≡ n → Reach n m log s → Inv n log s
Reach-Inv n m log size begin = record {
  size = size;
  products = λ c. refl;
  told = ((λ e. cc), resting_told n m log);
  closed = λ e. cc;
}
Reach-Inv n m log size (next {s} r (acts ps p qs t q e a)) =
    let v = Reach-Inv n m log size r in
    let told = subst (AllTold n s.store.log) e v.told in
    let d : Acted n s.store t q =
      Act-Acted a (IsValid-Local n s ps p qs (Reach-IsValid n m log r) e) v.size
        (AllTold-at n s.store.log ps p qs told) v.closed in
    record {
      size = d.kept.size ∙ v.size;
      products = λ c. d.kept.products c ∙ v.products c;
      told =
          AllTold-change n t.log ps p q qs (AllTold-Kept n s.store.log t.log _ d.kept told) d.told;
      closed = d.closed;
    }

-- Whatever the workers and the manager do and whichever workers die: the shelves always hold the
-- products that they held at first, and once the manager has set `sorted` they are in order, for good.
pub shelves_lem :
    (n m : ℕ) (log : List ℕ) (s : Night)
    → length log ≡ n
    → Reach n m log s
    → ((c : ℕ) → count c s.store.log ≡ count c log)
      × (s.store.sorted ≡ true → is_sorted 0 n s.store.log ≡ true)
shelves_lem n m log s size r = let v = Reach-Inv n m log size r in (v.products, v.closed)
