-- ===== src/Napoleon/Adjutants.antt =====
-- The shared state is sound whatever the adjutants do at the same time.
use mathlib.Core.Path.{subst}
use sop.Prelude.{
  ℕ, zero, suc, ◌≡◌, refl, sym, List, ◌∷◌, ◌++◌, arith, Option, none, ltb, length, Bool-cases, inl,
  inr, replicate, length-replicate,
}
use sop.Napoleon.{
  Message, State, Scan, idle, Staff, Step, receives, works, Reach, begin, next, push, stack_size,
}
use sop.Napoleon.Report.{Cells, Rows, AllAtWork, Sound, AllAtWork-more, AllAtWork-at, AllAtWork-set}
use sop.Napoleon.Sections.{section-Kept}

pub record IsValid (w : Staff) : Type 0 where
  pub sound : Sound w.state
  pub busy : AllAtWork (length w.state.divisions) w.adjutants

push-Sound :
    (m : Message) (s : State) → Sound s → Sound (push m s) × ((push m s).divisions ≡ s.divisions)
unfolding push
push-Sound m s v = elim (Bool-cases (ltb s.top stack_size)) [
  | inl room ↦
      rw (push, room)
        (record { size = v.size; rows = v.rows; bound = v.bound; distinct = v.distinct }, refl)
  | inr full ↦ rw (push, full) (v, refl)
]

Step-IsValid : (scan : Scan) {v w : Staff} → Step scan v w → IsValid v → IsValid w
Step-IsValid scan {v} (receives m) i =
    let (sound, same) = push-Sound m v.state i.sound in
    record {
      sound = sound;
      busy = subst (λ ds. AllAtWork (length ds) v.adjutants) (sym same) i.busy;
    }
Step-IsValid scan {v} (works before a after e) i =
    let all = subst (AllAtWork (length v.state.divisions)) e i.busy in
    let k =
      section-Kept scan a v.state i.sound
        (AllAtWork-at (length v.state.divisions) before a after all) in
    record {
      sound = k.sound;
      busy =
          AllAtWork-set _ before a _ after k.busy
            (AllAtWork-more _ _ (before ++ a ∷ after) k.grown all);
    }

idle-AtWork : (k : ℕ) → AllAtWork 0 (replicate k idle)
idle-AtWork zero = tt
idle-AtWork (suc k) = (tt, idle-AtWork k)

none-Cells : (n : ℕ) → Cells 0 (replicate n none)
none-Cells zero = tt
none-Cells (suc n) = (tt, none-Cells n)

none-Rows : (n : ℕ) → Rows 0 (replicate n (replicate 100 none))
none-Rows zero = tt
none-Rows (suc n) = (length-replicate {A = Option ℕ} 100 none, none-Cells 100, none-Rows n)

pub Reach-IsValid : (scan : Scan) (k : ℕ) {w : Staff} → Reach scan k w → IsValid w
Reach-IsValid scan k begin = record {
  sound = record {
    size = length-replicate {A = List (Option ℕ)} 100 (replicate 100 none);
    rows = none-Rows 100;
    bound = omega arith;
    distinct = tt;
  };
  busy = idle-AtWork k;
}
Reach-IsValid scan k (next r st) = Step-IsValid scan st (Reach-IsValid scan k r)
