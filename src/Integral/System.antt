-- ===== src/Integral/System.antt =====
-- The processes at one shared memory, each a step at a time, in any order. SIGINT may come at any
-- time, so a process may leave after any number of batches.
use sop.Prelude.{ℕ, ◌+◌, ◌<◌, ◌≡◌, List, [], ◌∷◌, ◌++◌, Bool, true, false, not}
use sop.Prelude.Int.{pos, same_int}
use sop.Integral.{Shared, created, register, announce, leave, randomize_points, report}

-- Where a process stands: it has mapped the memory, it is counted, it has reported some batches.
pub data Phase : Type 0 where
  arriving announcing : Phase
  computing : ℕ → Phase

pub record System : Type 0 where
  pub mem : Shared
  pub procs : List Phase  -- the processes that live
  pub linked : Bool  -- the memory has not been removed
  pub lost : ℕ  -- the processes that died before they were counted
  pub points : ℕ  -- the points of the batches reported, and those hit
  pub hits : ℕ

-- A process at a place, with the memory that its step leaves behind.
abbrev pub goes : System → Shared → List Phase → System
goes s m ps = record s { mem = m; procs = ps }

pub data Step (s : System) : System → Type 0 where
  attaches : s.linked ≡ true → Step s (goes s s.mem (arriving ∷ s.procs))
  registers :
      (before after : List Phase) (rand : ℕ) (m : Shared)
      → s.linked ≡ true
      → s.procs ≡ before ++ arriving ∷ after
      → register rand s.mem ≡ (m, true)
      → Step s (goes s m (before ++ announcing ∷ after))
  dies_registering :
      (before after : List Phase) (rand : ℕ) (m : Shared)
      → s.linked ≡ true
      → s.procs ≡ before ++ arriving ∷ after
      → register rand s.mem ≡ (m, false)
      → Step s (record (goes s m (before ++ after)) { lost = s.lost + 1 })
  announces :
      (before after : List Phase) (rand : ℕ) (m : Shared)
      → s.linked ≡ true
      → s.procs ≡ before ++ announcing ∷ after
      → announce rand s.mem ≡ (m, true)
      → Step s (goes s m (before ++ computing 0 ∷ after))
  dies_announcing :
      (before after : List Phase) (rand : ℕ) (m : Shared)
      → s.linked ≡ true
      → s.procs ≡ before ++ announcing ∷ after
      → announce rand s.mem ≡ (m, false)
      → Step s (goes s m (before ++ after))
  reports :
      (before after : List Phase) (i n : ℕ) (hit : ℕ → Bool) (rand rand' : ℕ) (m : Shared)
      → s.linked ≡ true
      → s.procs ≡ before ++ computing i ∷ after
      → i < 3
      → report n (randomize_points n hit) rand rand' s.mem ≡ (m, true)
      → Step s (record (goes s m (before ++ computing (i + 1) ∷ after)) {
        points = s.points + n;
        hits = s.hits + randomize_points n hit;
      })
  dies_reporting :
      (before after : List Phase) (i n : ℕ) (hit : ℕ → Bool) (rand rand' : ℕ) (m : Shared)
      → s.linked ≡ true
      → s.procs ≡ before ++ computing i ∷ after
      → i < 3
      → report n (randomize_points n hit) rand rand' s.mem ≡ (m, false)
      → Step s (goes s m (before ++ after))
  leaves :
      (before after : List Phase) (i rand : ℕ) (m : Shared)
      → s.linked ≡ true
      → s.procs ≡ before ++ computing i ∷ after
      → leave rand s.mem ≡ (m, true)
      → Step s
          (record (goes s m (before ++ after)) { linked = not (same_int m.proc_count (pos 0)) })
  dies_leaving :
      (before after : List Phase) (i rand : ℕ) (m : Shared)
      → s.linked ≡ true
      → s.procs ≡ before ++ computing i ∷ after
      → leave rand s.mem ≡ (m, false)
      → Step s (goes s m (before ++ after))

-- The first process creates the memory, counted.
abbrev pub start : System
start = record {
  mem = created;
  procs = announcing ∷ [];
  linked = true;
  lost = 0;
  points = 0;
  hits = 0;
}

pub data Reach : System → Type 0 where
  begin : Reach start
  next : {s t : System} → Reach s → Step s t → Reach t
