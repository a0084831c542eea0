-- ===== src/Napoleon/Stack.antt =====
-- The stack of messages, an array and its top, as a bounded list.
use sop.Prelude.{
  ℕ, ◌-◌, ◌≤◌, ◌≡◌, refl, sym, ap, ◌∙◌, List, [], ◌∷◌, arith, Option, none, some, true, false,
  if◌then◌else◌, ltb, ◌==◌, length, get_or, set, Bool-cases, inl, inr, get_or-set_self,
  get_or-set_ne, length-set,
}
use sop.Napoleon.{Message, State, no_message, stack_size, push, pop}

pub data Call : Type 0 where
  pushed : Message → Call
  popped : Call

-- What the calls of `pop` give; one that finds the stack empty leaves it alone.
pub run : List Call → State → List (Option Message)
run [] s = []
run (pushed m ∷ calls) s = run calls (push m s)
run (popped ∷ calls) s = elim (pop s) [
  | none ↦ none ∷ run calls s
  | some (m, t) ↦ some m ∷ run calls t
]

-- The same for a list of messages, the last one first, of which a push above the bound is dropped.
pub run_list : List Call → List Message → List (Option Message)
run_list [] ms = []
run_list (pushed m ∷ calls) ms = run_list calls (if ltb (length ms) stack_size then m ∷ ms else ms)
run_list (popped ∷ calls) [] = none ∷ run_list calls []
run_list (popped ∷ calls) (m ∷ ms) = some m ∷ run_list calls ms

-- The array holds the list, its last element in front.
abbrev pub Holds : List Message → List Message → Type 0
Holds array [] = Unit
Holds array (m ∷ ms) = (get_or array (length ms) no_message ≡ m) × Holds array ms

pub record Stacked (s : State) (ms : List Message) : Type 0 where
  pub size : length s.stack ≡ stack_size
  pub bounded : length ms ≤ stack_size
  pub top : s.top ≡ length ms
  pub held : Holds s.stack ms

Holds-set :
    (array : List Message) (m : Message) (i : ℕ) (ms : List Message)
    → length ms ≤ i
    → Holds array ms
    → Holds (set array i m) ms
Holds-set array m i [] h held = tt
Holds-set array m i (k ∷ ms) h held = (
  get_or-set_ne array i (length ms) m no_message (λ e. omega (arith, e)) ∙ held.0,
  Holds-set array m i ms (omega arith) held.1,
)

push-Stacked :
    (m : Message) (s : State) (ms : List Message)
    → Stacked s ms
    → Stacked (push m s) (if ltb (length ms) stack_size then m ∷ ms else ms)
unfolding push
push-Stacked m s ms h = elim (Bool-cases (ltb s.top stack_size)) [
  | inl room ↦
      let room' : ltb (length ms) stack_size ≡ true =
        ap (λ k. ltb k stack_size) (sym h.top) ∙ room in
      rw (room, room')
        (record {
          size = length-set s.stack s.top m ∙ h.size;
          bounded = ground arith;
          top = omega (arith, h.top);
          held = (
            ap (λ k. get_or (set s.stack s.top m) k no_message) (sym h.top)
                ∙ get_or-set_self s.stack s.top m no_message (ground (arith, h.size)),
            Holds-set s.stack m s.top ms (omega (arith, h.top)) h.held,
          );
        })
  | inr full ↦
      let full' : ltb (length ms) stack_size ≡ false =
        ap (λ k. ltb k stack_size) (sym h.top) ∙ full in
      rw (full, full') h
]

pop-cons :
    (s : State) (m : Message) (ms : List Message)
    → Stacked s (m ∷ ms)
    → pop s ≡ some (m, record s { top = length ms })
unfolding pop
pop-cons s m ms h = elim (Bool-cases (s.top == 0)) [
  | inl empty ↦ absurd (ground (arith, h.top))
  | inr more ↦ rw more (
      let less : s.top - 1 ≡ length ms = omega (arith, h.top) in
      λ i.
        some ((ap (λ k. get_or s.stack k no_message) less ∙ h.held.0) i, record s { top = less i }))
]

pop-nil : (s : State) → Stacked s [] → pop s ≡ none
unfolding pop
pop-nil s h = ground (arith, h.top)

-- Whatever sequence of calls is made: if the array and its top represent a list of messages, the
-- last one first, then the calls of `pop` give what they give for the list, to which `push` adds in
-- front as long as it has fewer than STACK_SIZE messages.
pub run_lem :
    (calls : List Call) (s : State) (ms : List Message)
    → Stacked s ms
    → run calls s ≡ run_list calls ms
unfolding run run_list
run_lem [] s ms h = refl
run_lem (pushed m ∷ calls) s ms h = run_lem calls (push m s) _ (push-Stacked m s ms h)
run_lem (popped ∷ calls) s [] h = rw (run, pop-nil s h) (ap (λ r. none ∷ r) (run_lem calls s [] h))
run_lem (popped ∷ calls) s (m ∷ ms) h =
    rw (run, pop-cons s m ms h)
      (ap (λ r. some m ∷ r)
        (run_lem calls (record s { top = length ms }) ms
          (record {
            size = h.size;
            bounded = omega (arith, h.bounded);
            top = refl;
            held = h.held.1;
          })))
