-- ===== src/Cycle.antt =====
-- lab05/sop-cycle/sop-cycle.c: processes that pass a number around a ring of pipes. The pipe `i` is
-- written by the process `i`; the steps begin when every process has closed the ends it does not
-- keep.
pub mod Tokens
pub mod Places
pub mod Progress
mod Tests
use sop.Prelude.{
  ℕ, zero, suc, ◌+◌, ◌-◌, ◌%◌, ◌<◌, ◌≡◌, ◌≢◌, List, [], ◌∷◌, ◌++◌, Bool, true, false, if◌then◌else◌,
  get_or, set, replicate,
}
use sop.Prelude.Int.{ℤ, pos, ◌+ℤ◌, ◌-ℤ◌, same_int}

-- What `snprintf` writes for a number, and what `atoi` reads.
pub record Text : Type 0 where
  pub print : ℤ → List ℕ
  pub atoi : List ℕ → ℤ

-- Process 0 has its first message to send; a process reads, has a message to write, or has ended.
pub data Proc : Type 0 where
  starting reading ended : Proc
  writing : List ℕ → Proc

-- `readid` of the process `id` of `n`; its `writeid` is `id`.
abbrev pub readid : ℕ → ℕ → ℕ
readid n id = (id + n - 1) % n

-- What a process does with a message that it has read: it ends at a 0, and otherwise changes the
-- number by what `rand` gives, from -10 to 10.
abbrev pub receive : Text → ℕ → List ℕ → Proc
receive t rand buf =
    if same_int (t.atoi buf) (pos 0)
    then ended
    else writing (t.print (t.atoi buf +ℤ pos (rand % 21) -ℤ pos 10))

pub record Ring : Type 0 where
  pub pipes : List (List (List ℕ))
  pub procs : List Proc

abbrev pub pipe : Ring → ℕ → List (List ℕ)
pipe s i = get_or s.pipes i []

abbrev pub proc : Ring → ℕ → Proc
proc s k = get_or s.procs k ended

abbrev pub becomes : Ring → ℕ → Proc → Ring
becomes s k p = record s { procs = set s.procs k p }

-- A step of the process `k` of `n`.
pub data Step (t : Text) (n : ℕ) (s : Ring) : Ring → Type 0 where
  starts :
      (k j : ℕ)
      → k < n
      → j < n
      → readid n j ≡ k
      → proc s k ≡ starting
      → proc s j ≢ ended
      → Step t n s (record (becomes s k reading) {
        pipes = set s.pipes k (pipe s k ++ t.print (pos 1) ∷ []);
      })
  fails :
      (k j : ℕ)
      → k < n
      → j < n
      → readid n j ≡ k
      → proc s k ≡ starting
      → proc s j ≡ ended
      → Step t n s (becomes s k ended)
  reads :
      (k rand : ℕ) (buf : List ℕ) (rest : List (List ℕ))
      → k < n
      → proc s k ≡ reading
      → pipe s (readid n k) ≡ buf ∷ rest
      → Step t n s
          (record (becomes s k (receive t rand buf)) { pipes = set s.pipes (readid n k) rest })
  reads_end :
      (k : ℕ)
      → k < n
      → proc s k ≡ reading
      → pipe s (readid n k) ≡ []
      → proc s (readid n k) ≡ ended
      → Step t n s (becomes s k ended)
  writes :
      (k j : ℕ) (buf : List ℕ)
      → k < n
      → j < n
      → readid n j ≡ k
      → proc s k ≡ writing buf
      → proc s j ≢ ended
      → Step t n s (record (becomes s k reading) { pipes = set s.pipes k (pipe s k ++ buf ∷ []) })
  breaks :
      (k j : ℕ) (buf : List ℕ)
      → k < n
      → j < n
      → readid n j ≡ k
      → proc s k ≡ writing buf
      → proc s j ≡ ended
      → Step t n s (becomes s k ended)

-- SIGINT ends a process where it would read.
pub data Signal (n : ℕ) (s : Ring) : Ring → Type 0 where
  interrupted : (k : ℕ) → k < n → proc s k ≡ reading → Signal n s (becomes s k ended)

-- `n + 1` processes, of which the first one has something to send.
abbrev pub start : ℕ → Ring
start n = record { pipes = replicate (suc n) []; procs = starting ∷ replicate n reading }

pub data Reach (t : Text) (n : ℕ) : Ring → Type 0 where
  begin : Reach t n (start n)
  next : {s u : Ring} → Reach t n s → Step t (suc n) s u → Reach t n u
  signal : {s u : Ring} → Reach t n s → Signal (suc n) s u → Reach t n u
