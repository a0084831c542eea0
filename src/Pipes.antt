-- ===== src/Pipes.antt =====
-- lab05/sop-cards/pipe-utils.h: which ends of an array of pipes a process closes.
pub mod Ends
mod Tests
use sop.Prelude.{
  ℕ, zero, suc, List, [], ◌∷◌, Bool, true, false, Option, none, some, if◌then◌else◌, ◌==◌, get_or,
  set, replicate, ◌>>=◌,
}

-- The ends of a pipe that a process has open: for reading, for writing.
abbrev pub Open : Type 0
Open = Bool × Bool

pub data End : Type 0 where
  reading writing : End

abbrev pub is_open : Open → End → Bool
is_open o reading = o.0
is_open o writing = o.1

-- `WRITE - pipe_end`
abbrev pub other : End → End
other reading = writing
other writing = reading

abbrev pub shut : Open → End → Open
shut o reading = (false, o.1)
shut o writing = (o.0, false)

abbrev pub at : List Open → ℕ → Open
at ps i = get_or ps i (false, false)

-- `close`, where ERR ends the process if the descriptor is not open.
unfoldable pub close_pipe : List Open → ℕ → End → Option (List Open)
close_pipe ps i e = if is_open (at ps i) e then some (set ps i (shut (at ps i) e)) else none

-- The pipes of `create_pipes`.
abbrev pub create_pipes : ℕ → List Open
create_pipes n = replicate n (true, true)

-- The loop of `close_pipes_except`, from `i` on, `n` in number.
unfoldable pub close_others : List Open → ℕ → ℕ → ℕ → Option (List Open)
close_others ps i zero except_idx = some ps
close_others ps i (suc n) except_idx =
    if i == except_idx
    then close_others ps (suc i) n except_idx
    else (close_pipe ps i reading
        >>= (λ qs. close_pipe qs i writing >>= (λ rs. close_others rs (suc i) n except_idx)))

unfoldable pub close_pipes_except : List Open → ℕ → ℕ → End → Option (List Open)
close_pipes_except ps n except_idx pipe_end =
    close_others ps 0 n except_idx >>= (λ qs. close_pipe qs except_idx (other pipe_end))

-- The loop of `close_pipes_all_one_end`, from `i` on.
unfoldable pub close_one_end : List Open → ℕ → ℕ → End → Option (List Open)
close_one_end ps i zero one_end = some ps
close_one_end ps i (suc n) one_end =
    close_pipe ps i one_end >>= (λ qs. close_one_end qs (suc i) n one_end)

unfoldable pub close_pipes_all_one_end : List Open → ℕ → End → Option (List Open)
close_pipes_all_one_end ps n one_end = close_one_end ps 0 n one_end
