-- ===== src/Integral/Totals.antt =====
-- What the sums in the shared memory say of the batches reported.
use sop.Prelude.{ℕ, zero, suc, ◌≤◌, ◌<◌, ◌≡◌, ◌∙◌, refl, arith, Bool, true, false}
use sop.Prelude.Int.{
  ℤ, ◌+ℤ◌, ◌-ℤ◌, pos, add_int, int_value, int_value_small, int_limit, add_int-int_value,
}
use sop.Integral.{
  Shared, count_section, register, announce, leave, randomize_from, randomize_points, report,
}
use sop.Integral.System.{
  System, Step, attaches, registers, dies_registering, announces, dies_announcing, reports,
  dies_reporting, leaves, dies_leaving, Reach, begin, next,
}

-- No more points of a batch are hit than there are.
randomize_from_le : (n i : ℕ) (hit : ℕ → Bool) → randomize_from n i hit ≤ n
unfolding randomize_from
randomize_from_le zero i hit = omega arith
randomize_from_le (suc n) i hit = ground (arith, randomize_from_le n (suc i) hit)

-- The sums are those of the batches, as an int holds them, and no more is hit than was tried.
record Inv (s : System) : Type 0 where
  points : s.mem.total_points ≡ int_value s.points
  hits : s.mem.hit_points ≡ int_value s.hits
  within : s.hits ≤ s.points

section-sums :
    (change : ℤ → ℤ) (rand : ℕ) (m m' : Shared) (b : Bool)
    → count_section change rand m ≡ (m', b)
    → (m'.total_points ≡ m.total_points) × (m'.hit_points ≡ m.hit_points)
section-sums change rand m m' b e = ground (arith, e)

report-sums :
    (n h rand rand' : ℕ) (m m' : Shared)
    → report n h rand rand' m ≡ (m', true)
    → (m'.total_points ≡ add_int m.total_points (pos n))
      × (m'.hit_points ≡ add_int m.hit_points (pos h))
unfolding report
report-sums n h rand rand' m m' e = ground (arith, e)

report_dead-sums :
    (n h rand rand' : ℕ) (m m' : Shared)
    → report n h rand rand' m ≡ (m', false)
    → (m'.total_points ≡ m.total_points) × (m'.hit_points ≡ m.hit_points)
unfolding report
report_dead-sums n h rand rand' m m' e = ground (arith, e)

-- A step that leaves the sums alone.
kept :
    (s t : System)
    → (t.mem.total_points ≡ s.mem.total_points) × (t.mem.hit_points ≡ s.mem.hit_points)
    → (t.points ≡ s.points) × (t.hits ≡ s.hits)
    → Inv s
    → Inv t
kept s t e g v = record {
  points = rw (e.0, g.0) v.points;
  hits = rw (e.1, g.1) v.hits;
  within = rw (g.0, g.1) v.within;
}

Step-Inv : {s t : System} → Step s t → Inv s → Inv t
unfolding register announce leave
Step-Inv (attaches up) v = kept _ _ (refl, refl) (refl, refl) v
Step-Inv {s} (registers ps qs rand m up at e) v =
    kept s _ (section-sums (λ c. c +ℤ pos 1) rand s.mem m true e) (refl, refl) v
Step-Inv {s} (dies_registering ps qs rand m up at e) v =
    kept s _ (section-sums (λ c. c +ℤ pos 1) rand s.mem m false e) (refl, refl) v
Step-Inv {s} (announces ps qs rand m up at e) v =
    kept s _ (section-sums (λ c. c) rand s.mem m true e) (refl, refl) v
Step-Inv {s} (dies_announcing ps qs rand m up at e) v =
    kept s _ (section-sums (λ c. c) rand s.mem m false e) (refl, refl) v
Step-Inv {s} (reports ps qs i n hit rand rand' m up at lt e) v =
    let sums = report-sums n (randomize_points n hit) rand rand' s.mem m e in
    record {
      points = rw (sums.0, v.points) (add_int-int_value s.points n);
      hits = rw (sums.1, v.hits) (add_int-int_value s.hits (randomize_points n hit));
      within = omega (arith, v.within, randomize_from_le n 0 hit);
    }
Step-Inv {s} (dies_reporting ps qs i n hit rand rand' m up at lt e) v =
    kept s _ (report_dead-sums n (randomize_points n hit) rand rand' s.mem m e) (refl, refl) v
Step-Inv {s} (leaves ps qs i rand m up at e) v =
    kept s _ (section-sums (λ c. c -ℤ pos 1) rand s.mem m true e) (refl, refl) v
Step-Inv {s} (dies_leaving ps qs i rand m up at e) v =
    kept s _ (section-sums (λ c. c -ℤ pos 1) rand s.mem m false e) (refl, refl) v

Reach-Inv : {s : System} → Reach s → Inv s
unfolding int_value int_limit
Reach-Inv begin = record { points = refl; hits = refl; within = omega arith }
Reach-Inv (next r st) = Step-Inv st (Reach-Inv r)

-- In every reachable state in which fewer than 2 ^ 31 points have been reported, the two ints in the
-- memory are the points of the batches reported and the hits among them, whichever processes died;
-- and no more is hit than was tried.
pub total_points_lem :
    {s : System}
    → Reach s
    → s.points < int_limit
    → (s.mem.total_points ≡ pos s.points) × (s.mem.hit_points ≡ pos s.hits) × (s.hits ≤ s.points)
total_points_lem {s} r lt =
    let v = Reach-Inv r in
    (
      v.points ∙ int_value_small s.points lt,
      v.hits ∙ int_value_small s.hits (omega (arith, v.within, lt)),
      v.within,
    )
