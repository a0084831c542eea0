-- ===== src/Flood.antt =====
-- lab05/generated/generated.c: provinces that pass every letter on to all their neighbours, unless it
-- is the letter that they had last.
pub mod Network
pub mod Spread
pub mod Coverage
pub mod Settling
mod Tests
use sop.Prelude.{
  ℕ, zero, suc, ◌+◌, ◌*◌, List, [], ◌∷◌, ◌++◌, Bool, true, false, not, ◌&&◌, ◌||◌, Option, none,
  some, if◌then◌else◌, ltb, ◌==◌, get_or, length,
}

abbrev pub max_n : ℕ
max_n = 10

-- The numbers of the matrix, row by row.
pub record Graph : Type 0 where
  pub n : ℕ
  pub entries : List ℕ

-- The numbers that `fscanf` finds after the first one, `n`; `none` is the exit.
unfoldable pub load_graph : ℕ → List ℕ → Option Graph
load_graph n entries =
    if ltb n 2 || ltb max_n n
    then none
    else if ltb (length entries) (n * n)
    then none
    else some (record { n = n; entries = entries })

-- `matrix[i][j] == 1`
abbrev pub edge : Graph → ℕ → ℕ → Bool
edge g i j = get_or g.entries (i * g.n + j) 0 == 1

-- A letter in a pipe, from a province or from the government (`none`).
pub record Hop : Type 0 where
  pub from : Option ℕ
  pub to : ℕ
  pub letter : ℕ

-- What province `k` writes to its neighbours from `j` on, `d` in number. A pipe to itself has no
-- reader: the write fails with EPIPE and the descriptor is closed.
unfoldable pub spread : Graph → ℕ → ℕ → ℕ → ℕ → List Hop
spread g k c j zero = []
spread g k c j (suc d) =
    let rest = spread g k c (suc j) d in
    if edge g k j && not (j == k) then record { from = some k; to = j; letter = c } ∷ rest else rest

-- The letters in the pipes, each pipe in its order; `last_char` of every province; and how many letters
-- the government has sent.
pub record Flood : Type 0 where
  pub flight : List Hop
  pub last_char : ℕ → ℕ
  pub sent : ℕ

abbrev pub put : (ℕ → ℕ) → ℕ → ℕ → ℕ → ℕ
put f k v = λ i. if i == k then v else f i

-- A province has read the letter of a hop, `rest` being what is left in the pipes.
abbrev pub receive : Graph → Hop → List Hop → Flood → Flood
receive g h rest s = if h.letter == s.last_char h.to then record s { flight = rest } else record s {
  flight = rest ++ spread g h.to h.letter 0 g.n;
  last_char = put s.last_char h.to h.letter;
}

-- The government's own test.
abbrev pub is_directive : ℕ → Bool
is_directive c = not (ltb c b'a') && not (ltb b'z' c)

abbrev pub direct : ℕ → Flood → Flood
direct c s = record s {
  flight = s.flight ++ record { from = none; to = 0; letter = c } ∷ [];
  sent = suc s.sent;
}
