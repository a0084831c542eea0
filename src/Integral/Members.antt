-- ===== src/Integral/Members.antt =====
-- What the count of processes says of those that live.
use sop.Prelude.{ℕ, ◌+◌, ◌≡◌, ◌↔◌, refl, ap, List, [], ◌∷◌, ◌++◌, arith, Bool, true, false, not}
use sop.Prelude.Int.{
  ℤ, pos, ◌+ℤ◌, ◌-ℤ◌, pos_part, neg_part, same_int, +ℤ_parts, -ℤ_parts, eq_of_parts,
}
use sop.Integral.{Shared, count_section, register, announce, leave, report, randomize_points}
use sop.Integral.System.{
  Phase, arriving, announcing, computing, System, Step, attaches, registers, dies_registering,
  announces, dies_announcing, reports, dies_reporting, leaves, dies_leaving, Reach, begin, next,
}

abbrev one_of : Bool → ℕ
one_of true = 1
one_of false = 0

-- The deaths that no process has found.
abbrev pub unfound : Shared → ℕ
unfound m = one_of m.count_dead + one_of m.results_dead

abbrev is_counted : Phase → ℕ
is_counted arriving = 0
is_counted announcing = 1
is_counted (computing i) = 1

-- The processes that live and are counted.
unfoldable pub counted : List Phase → ℕ
counted [] = 0
counted (p ∷ ps) = is_counted p + counted ps

counted-append : (ps qs : List Phase) → counted (ps ++ qs) ≡ counted ps + counted qs
unfolding counted
counted-append [] qs = omega arith
counted-append (p ∷ ps) qs = omega (arith, counted-append ps qs)

counted-insert :
    (ps : List Phase) (p : Phase) (qs : List Phase)
    → counted (ps ++ p ∷ qs) ≡ is_counted p + counted (ps ++ qs)
unfolding counted
counted-insert ps p qs = omega (arith, counted-append ps (p ∷ qs), counted-append ps qs)

-- `proc_count + lost = n + deaths not found`
abbrev Balanced : Shared → ℕ → ℕ → Type 0
Balanced m lost n = pos_part m.proc_count + lost ≡ n + unfound m + neg_part m.proc_count

-- What a section does to the count, as a difference of two numbers.
abbrev Shifts : (ℤ → ℤ) → ℕ → ℕ → Type 0
Shifts change plus minus =
    (c : ℤ) → pos_part (change c) + minus + neg_part c ≡ neg_part (change c) + pos_part c + plus

section-Balanced :
    (change : ℤ → ℤ) (plus minus rand : ℕ) (m m' : Shared) (lost n : ℕ)
    → Shifts change plus minus
    → Balanced m lost (n + minus)
    → count_section change rand m ≡ (m', true)
    → Balanced m' lost (n + plus)
section-Balanced change plus minus rand m m' lost n law b e =
    ground
      (arith, law m.proc_count, law (m.proc_count -ℤ pos 1), -ℤ_parts m.proc_count (pos 1), b, e)

section-dies :
    (change : ℤ → ℤ) (rand : ℕ) (m m' : Shared) (lost n : ℕ)
    → Balanced m lost (n + 1)
    → count_section change rand m ≡ (m', false)
    → Balanced m' lost n
section-dies change rand m m' lost n b e = ground (arith, b, e)

one_more : Shifts (λ c. c +ℤ pos 1) 1 0
one_more c = omega (arith, +ℤ_parts c (pos 1))

one_less : Shifts (λ c. c -ℤ pos 1) 0 1
one_less c = omega (arith, -ℤ_parts c (pos 1))

same_count : Shifts (λ c. c) 0 0
same_count c = omega arith

report-Balanced :
    (points hits rand rand' : ℕ) (m m' : Shared) (lost n : ℕ)
    → Balanced m lost n
    → report points hits rand rand' m ≡ (m', true)
    → Balanced m' lost n
unfolding report
report-Balanced points hits rand rand' m m' lost n b e =
    ground (arith, -ℤ_parts m.proc_count (pos 1), -ℤ_parts (m.proc_count -ℤ pos 1) (pos 1), b, e)

report-dies :
    (points hits rand rand' : ℕ) (m m' : Shared) (lost n : ℕ)
    → Balanced m lost (n + 1)
    → report points hits rand rand' m ≡ (m', false)
    → Balanced m' lost n
unfolding report
report-dies points hits rand rand' m m' lost n b e = ground (arith, b, e)

abbrev Inv : System → Type 0
Inv s = Balanced s.mem s.lost (counted s.procs)

-- The number of the others, when a process stands at its place.
placed :
    (s : System) (ps : List Phase) (p : Phase) (qs : List Phase)
    → Inv s
    → s.procs ≡ ps ++ p ∷ qs
    → Balanced s.mem s.lost (is_counted p + counted (ps ++ qs))
placed s ps p qs v e = omega (arith, v, ap counted e, counted-insert ps p qs)

Step-Inv : {s t : System} → Step s t → Inv s → Inv t
unfolding counted register announce leave
Step-Inv (attaches up) v = omega (arith, v)
Step-Inv {s} (registers ps qs rand m up at e) v = omega (
  arith,
  section-Balanced (λ c. c +ℤ pos 1) 1 0 rand s.mem m s.lost (counted (ps ++ qs)) one_more
      (omega (arith, placed s ps arriving qs v at)) e,
  counted-insert ps announcing qs,
)
Step-Inv {s} (dies_registering ps qs rand m up at e) v =
    section-dies (λ c. c +ℤ pos 1) rand s.mem m (s.lost + 1) (counted (ps ++ qs))
      (omega (arith, placed s ps arriving qs v at)) e
Step-Inv {s} (announces ps qs rand m up at e) v = omega (
  arith,
  section-Balanced (λ c. c) 0 0 rand s.mem m s.lost (1 + counted (ps ++ qs)) same_count
      (omega (arith, placed s ps announcing qs v at)) e,
  counted-insert ps (computing 0) qs,
)
Step-Inv {s} (dies_announcing ps qs rand m up at e) v =
    section-dies (λ c. c) rand s.mem m s.lost (counted (ps ++ qs))
      (omega (arith, placed s ps announcing qs v at)) e
Step-Inv {s} (reports ps qs i n hit rand rand' m up at lt e) v = omega (
  arith,
  report-Balanced n (randomize_points n hit) rand rand' s.mem m s.lost (1 + counted (ps ++ qs))
      (placed s ps (computing i) qs v at) e,
  counted-insert ps (computing (i + 1)) qs,
)
Step-Inv {s} (dies_reporting ps qs i n hit rand rand' m up at lt e) v =
    report-dies n (randomize_points n hit) rand rand' s.mem m s.lost (counted (ps ++ qs))
      (omega (arith, placed s ps (computing i) qs v at)) e
Step-Inv {s} (leaves ps qs i rand m up at e) v = omega (
  arith,
  section-Balanced (λ c. c -ℤ pos 1) 0 1 rand s.mem m s.lost (counted (ps ++ qs)) one_less
      (omega (arith, placed s ps (computing i) qs v at)) e,
)
Step-Inv {s} (dies_leaving ps qs i rand m up at e) v =
    section-dies (λ c. c -ℤ pos 1) rand s.mem m s.lost (counted (ps ++ qs))
      (omega (arith, placed s ps (computing i) qs v at)) e

Reach-Inv : {s : System} → Reach s → Inv s
unfolding counted
Reach-Inv begin = refl
Reach-Inv (next r st) = Step-Inv st (Reach-Inv r)

-- In every reachable state: `proc_count`, with the processes that died before they were counted, is
-- the number of counted processes that live, with the deaths that no process has found.
pub proc_count_lem :
    {s : System} → Reach s → s.mem.proc_count +ℤ pos s.lost ≡ pos (counted s.procs + unfound s.mem)
proc_count_lem {s} r =
    eq_of_parts _ _ (omega (arith, +ℤ_parts s.mem.proc_count (pos s.lost), Reach-Inv r))

leave-proc_count :
    (rand : ℕ) (m m' : Shared) (n : ℕ)
    → Balanced m' 0 n
    → leave rand m ≡ (m', true)
    → (same_int m'.proc_count (pos 0) ≡ true) ↔ ((n ≡ 0) × (m'.results_dead ≡ false))
unfolding leave same_int
leave-proc_count rand m m' n b e = ground (arith, b, e)

-- If no process died before it was counted, a process that leaves finds that no process remains
-- exactly if no other counted process lives and no death under `mxResults` is left to be found.
pub leave_lem :
    {s : System} (before after : List Phase) (i rand : ℕ) (m : Shared)
    → Reach s
    → s.lost ≡ 0
    → s.procs ≡ before ++ computing i ∷ after
    → leave rand s.mem ≡ (m, true)
    → (same_int m.proc_count (pos 0) ≡ true)
      ↔ ((counted (before ++ after) ≡ 0) × (m.results_dead ≡ false))
unfolding leave
leave_lem {s} ps qs i rand m r none at e =
    leave-proc_count rand s.mem m (counted (ps ++ qs))
      (omega (
        arith,
        section-Balanced (λ c. c -ℤ pos 1) 0 1 rand s.mem m 0 (counted (ps ++ qs)) one_less
            (omega (arith, none, placed s ps (computing i) qs (Reach-Inv r) at)) e,
      ))
      e

-- The memory is removed with the count at 0 and `mxprocCount` in order.
abbrev Removal : System → Type 0
Removal s = s.linked ≡ false → (s.mem.proc_count ≡ pos 0) × (s.mem.count_dead ≡ false)

leave-Removal :
    (rand : ℕ) (m m' : Shared)
    → leave rand m ≡ (m', true)
    → not (same_int m'.proc_count (pos 0)) ≡ false
    → (m'.proc_count ≡ pos 0) × (m'.count_dead ≡ false)
unfolding leave same_int
leave-Removal rand m m' e z = ground (arith, e, z)

-- Every step is one of a system whose memory is there.
Step-Removal : {s t : System} → Step s t → Removal t
Step-Removal (attaches up) z = cc
Step-Removal (registers ps qs rand m up at e) z = cc
Step-Removal (dies_registering ps qs rand m up at e) z = cc
Step-Removal (announces ps qs rand m up at e) z = cc
Step-Removal (dies_announcing ps qs rand m up at e) z = cc
Step-Removal (reports ps qs i n hit rand rand' m up at lt e) z = cc
Step-Removal (dies_reporting ps qs i n hit rand rand' m up at lt e) z = cc
Step-Removal {s} (leaves ps qs i rand m up at e) z = leave-Removal rand s.mem m e z
Step-Removal (dies_leaving ps qs i rand m up at e) z = cc

Reach-Removal : {s : System} → Reach s → Removal s
Reach-Removal begin z = cc
Reach-Removal (next r st) z = Step-Removal st z

-- If no process died before it was counted, then once the memory is removed no counted process
-- lives, and no death is left to be found.
pub removed :
    {s : System}
    → Reach s
    → s.lost ≡ 0
    → s.linked ≡ false
    → (counted s.procs ≡ 0) × (s.mem.count_dead ≡ false) × (s.mem.results_dead ≡ false)
removed {s} r none gone = ground (arith, Reach-Inv r, Reach-Removal r gone, none)
