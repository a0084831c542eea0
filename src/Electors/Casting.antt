-- ===== src/Electors/Casting.antt =====
-- What a vote does.
use sop.Prelude.{ℕ, List, [], ◌∷◌, Option, none, if◌then◌else◌}
use sop.Electors.{Elector, is_fd}

-- The vote of the elector with a descriptor, if it has voted.
pub vote_of : ℕ → List Elector → Option ℕ
vote_of fd [] = none
vote_of fd (e ∷ es) = let rest = vote_of fd es in if is_fd fd e then e.vote else rest
