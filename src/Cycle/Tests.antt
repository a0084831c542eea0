-- ===== src/Cycle/Tests.antt =====
-- Three processes.
use sop.Prelude.{ℕ, ◌<◌, ◌≤◌, ◌≡◌, ◌⊎◌, refl, List, [], ◌∷◌, arith}
use sop.Prelude.Int.{ℤ, pos, pos_part, ◌+ℤ◌, ◌-ℤ◌, same_int}
use sop.Cycle.{Text, reading, ended, writing, Ring, proc, Step, starts, reads, Reach, begin, next}
use sop.Cycle.Tokens.{tokens, over, tokens_lem}
use sop.Cycle.Progress.{runs_on}

-- A text in which a number above 0 is one byte.
abbrev read_byte : List ℕ → ℤ
read_byte [] = pos 0
read_byte (b ∷ bs) = pos b

abbrev bytes : Text
bytes = record { print = λ v. pos_part v ∷ []; atoi = read_byte }

abbrev sent_one : Ring
sent_one = record {
  pipes = ((1 ∷ []) ∷ []) ∷ [] ∷ [] ∷ [];
  procs = reading ∷ reading ∷ reading ∷ [];
}

sent_one-Reach : Reach bytes 2 sent_one
sent_one-Reach = next begin (starts 0 1 (omega arith) (omega arith) refl refl (λ e. cc))

-- Process 1 reads the number and raises it by 5.
abbrev read_one : Ring
read_one = record { pipes = [] ∷ [] ∷ [] ∷ []; procs = reading ∷ writing (6 ∷ []) ∷ reading ∷ [] }

read_one-Reach : Reach bytes 2 read_one
unfolding same_int ◌+ℤ◌ ◌-ℤ◌
read_one-Reach = next sent_one-Reach (reads 1 15 (1 ∷ []) [] (omega arith) refl refl)

tokens_lem_example : (tokens read_one ≤ 1) × ((tokens read_one ≡ 1) ⊎ (0 < over read_one))
tokens_lem_example = tokens_lem bytes 2 read_one read_one-Reach

runs_on_example :
    ((k : ℕ) → k < 3 → proc sent_one k ≡ ended) ⊎ ((u : Ring) × Step bytes 3 sent_one u)
runs_on_example = runs_on bytes 2 sent_one sent_one-Reach
