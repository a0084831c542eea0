-- ===== src/Shop/Night/Progress.antt =====
-- Whether the night can get stuck.
use sop.Prelude.{ℕ, ◌≤◌, ◌≡◌, ◌⊎◌, refl, ap, List, [], ◌∷◌, ◌++◌, arith, leb, Bool-cases, inl, inr}
use sop.Prelude.Count.{sum_of, sum_of-insert}
use sop.Shop.Night.{
  Phase, resting, left, died, wants, has_first, has_both, worked, has_one, locking, unlocking,
  retired, holds, Night, held, Step, acts, Reach,
}
use sop.Shop.Night.Holding.{Fits, lower-ne}
use sop.Shop.Night.Exclusion.{AllFit, IsValid-Local, Reach-IsValid}
use sop.Shop.Night.Moves.{Kind, ready, finished, waiting, kind, ready-Moves, waiting-Moves}

-- A process that is at its end, or waits for no mutex above `w`, does not have `w`.
abbrev Below : ℕ → ℕ → Phase → Type 0
Below n w p = (kind n p ≡ finished) ⊎ ((v : ℕ) × (kind n p ≡ waiting v) × (v ≤ w))

Below-holds : (n w : ℕ) (p : Phase) → Fits n p → Below n w p → holds n w p ≡ 0
Below-holds n w resting f b = refl
Below-holds n w left f b = refl
Below-holds n w died f b = refl
Below-holds n w retired f b = refl
Below-holds n w (wants x y) f b = refl
Below-holds n w (has_first x y) f b = let lt = lower-ne x y f.2 in ground (arith, b, lt)
Below-holds n w (has_both x y) f b = elim b [ inl e ↦ cc | inr (v, e, le) ↦ cc ]
Below-holds n w (worked x y) f b = elim b [ inl e ↦ cc | inr (v, e, le) ↦ cc ]
Below-holds n w (has_one x y) f b = elim b [ inl e ↦ cc | inr (v, e, le) ↦ cc ]
Below-holds n w (locking k) f b = ground (arith, b)
Below-holds n w (unlocking k c) f b = elim b [ inl e ↦ cc | inr (v, e, le) ↦ cc ]

Below-le : (n w v : ℕ) (p : Phase) → w ≤ v → Below n w p → Below n v p
Below-le n w v p le b = elim b [
  | inl e ↦ inl e
  | inr (u, e, lt) ↦ inr (u, e, omega (arith, le, lt))
]

abbrev AllBelow : ℕ → ℕ → List Phase → Type 0
AllBelow n w [] = Unit
AllBelow n w (p ∷ ps) = Below n w p × AllBelow n w ps

-- All are at their end.
abbrev pub AllOver : ℕ → List Phase → Type 0
AllOver n [] = Unit
AllOver n (p ∷ ps) = (kind n p ≡ finished) × AllOver n ps

AllBelow-le : (n w v : ℕ) (ps : List Phase) → w ≤ v → AllBelow n w ps → AllBelow n v ps
AllBelow-le n w v [] le b = tt
AllBelow-le n w v (p ∷ ps) le b = (Below-le n w v p le b.0, AllBelow-le n w v ps le b.1)

AllOver-AllBelow : (n w : ℕ) (ps : List Phase) → AllOver n ps → AllBelow n w ps
AllOver-AllBelow n w [] h = tt
AllOver-AllBelow n w (p ∷ ps) h = (inl h.0, AllOver-AllBelow n w ps h.1)

AllBelow-held : (n w : ℕ) (ps : List Phase) → AllFit n ps → AllBelow n w ps → held n ps w ≡ 0
unfolding sum_of
AllBelow-held n w [] f b = refl
AllBelow-held n w (p ∷ ps) f b =
    omega (arith, Below-holds n w p f.0 b.0, AllBelow-held n w ps f.1 b.1)

-- Some process can go on at once, or all are at their end, or one waits for the highest mutex that
-- any of them waits for.
data Look (n : ℕ) (ps : List Phase) : Type 0 where
  can_go :
      (before : List Phase) (p : Phase) (after : List Phase)
      → ps ≡ before ++ p ∷ after
      → kind n p ≡ ready
      → Look n ps
  all_over : AllOver n ps → Look n ps
  highest :
      (before : List Phase) (p : Phase) (after : List Phase) (w : ℕ)
      → ps ≡ before ++ p ∷ after
      → kind n p ≡ waiting w
      → AllBelow n w ps
      → Look n ps

Kind-cases : (k : Kind) → (k ≡ ready) ⊎ (k ≡ finished) ⊎ ((w : ℕ) × (k ≡ waiting w))
Kind-cases ready = inl refl
Kind-cases finished = inr (inl refl)
Kind-cases (waiting w) = inr (inr (w, refl))

look_waiting :
    (n : ℕ) (p : Phase) (ps : List Phase) (v : ℕ)
    → kind n p ≡ waiting v
    → Look n ps
    → Look n (p ∷ ps)
look_waiting n p ps v k (can_go b q a e r) = can_go (p ∷ b) q a (ap (λ l. p ∷ l) e) r
look_waiting n p ps v k (all_over h) =
    highest [] p ps v refl k (inr (v, k, omega arith), AllOver-AllBelow n v ps h)
look_waiting n p ps v k (highest b q a w e r below) = elim (Bool-cases (leb v w)) [
  | inl le ↦ highest (p ∷ b) q a w (ap (λ l. p ∷ l) e) r (inr (v, k, ground arith), below)
  | inr gt ↦
      highest [] p ps v refl k (inr (v, k, omega arith), AllBelow-le n w v ps (ground arith) below)
]

look_finished :
    (n : ℕ) (p : Phase) (ps : List Phase) → kind n p ≡ finished → Look n ps → Look n (p ∷ ps)
look_finished n p ps k (can_go b q a e r) = can_go (p ∷ b) q a (ap (λ l. p ∷ l) e) r
look_finished n p ps k (all_over h) = all_over (k, h)
look_finished n p ps k (highest b q a w e r below) =
    highest (p ∷ b) q a w (ap (λ l. p ∷ l) e) r (inl k, below)

look : (n : ℕ) (ps : List Phase) → Look n ps
look n [] = all_over tt
look n (p ∷ ps) = elim (Kind-cases (kind n p)) [
  | inl r ↦ can_go [] p ps refl r
  | inr (inl f) ↦ look_finished n p ps f (look n ps)
  | inr (inr (w, k)) ↦ look_waiting n p ps w k (look n ps)
]

-- With two shelves or more the night cannot get stuck: in every reachable state, all workers and the
-- manager have come to their end, by going home or by death, or some of them can make a step,
-- whatever mutexes are held and whoever died with one.
pub no_deadlock :
    (n m : ℕ) (log : List ℕ) (s : Night)
    → 2 ≤ n
    → Reach n m log s
    → AllOver n s.procs ⊎ ((t : Night) × Step n m s t)
no_deadlock n m log s big r =
    let v = Reach-IsValid n m log r in
    elim (look n s.procs) [
      | can_go b p a e k ↦
          let l = IsValid-Local n s b p a v e in
          let (t, q, act) = ready-Moves n m (held n (b ++ a)) s.store p big l.fits k in
          inr (_, acts b p a t q e act)
      | all_over h ↦ inl h
      | highest b p a w e k below ↦
          let free : held n (b ++ a) w ≡ 0 = omega (
            arith,
            AllBelow-held n w s.procs v.fit below,
            ap (λ l. held n l w) e,
            sum_of-insert (holds n w) b p a,
          ) in
          let (t, q, act) = waiting-Moves n m (held n (b ++ a)) s.store p w free k in
          inr (_, acts b p a t q e act)
    ]
