-- ===== src/Routing.antt =====
-- lab05/generated_harder/generated_harder.c: provinces that pass packets on along routes, through
-- pipes from one province to another.
pub mod Network
pub mod Loading
pub mod Flight
pub mod Delivery
pub mod Shutdown
mod Tests
use sop.Prelude.{
  ℕ, suc, ◌+◌, ◌-◌, List, [], ◌∷◌, ◌++◌, Bool, true, false, ◌&&◌, Option, none, some, length,
  get_elem?, if◌then◌else◌, ltb, ◌==◌, ◌>>=◌,
}

abbrev pub max_n : ℕ
max_n = 10

abbrev pub max_path : ℕ
max_path = 15

abbrev pub max_routes : ℕ
max_routes = 20

-- A packet, with the first `path_len` entries of its path.
pub record Packet : Type 0 where
  pub path : List ℕ
  pub current_step : ℕ
  pub message : List ℕ

-- `matrix[i][j]`
abbrev pub Matrix : Type 0
Matrix = ℕ → ℕ → Bool

pub record Config : Type 0 where
  pub n_provinces : ℕ
  pub routes : List Packet
  pub matrix : Matrix

-- A line of the map after the first: one with no colon, or the numbers before the colon and the word
-- after it.
pub data Line : Type 0 where
  no_colon : Line
  route : List ℕ → List ℕ → Line

abbrev pub set_edge : Matrix → ℕ → ℕ → Matrix
set_edge m a b = λ i j. if (i == a) && (j == b) then true else m i j

-- The edge from the node before, if there is one; `none` is a write outside the matrix.
abbrev pub link : Matrix → Option ℕ → ℕ → Option Matrix
link m none node = some m
link m (some prev) node =
    if ltb prev max_n && ltb node max_n then some (set_edge m prev node) else none

-- The numbers of one line; `none` is a write outside an array.
unfoldable pub add_nodes : List ℕ → Packet → Matrix → Option (Packet × Matrix)
add_nodes [] p m = some (p, m)
add_nodes (node ∷ nodes) p m =
    if ltb (length p.path) max_path
    then (link m (get_elem? p.path (length p.path - 1)) node
        >>= (λ m'. add_nodes nodes (record p { path = p.path ++ node ∷ [] }) m'))
    else none

-- The lines after the first.
unfoldable pub load_lines : List Line → Config → Option Config
load_lines [] cfg = some cfg
load_lines (no_colon ∷ lines) cfg = load_lines lines cfg
load_lines (route nodes message ∷ lines) cfg =
    if ltb (length cfg.routes) max_routes
    then (add_nodes nodes (record { path = []; current_step = 0; message = message }) cfg.matrix
        >>= (λ pm.
            load_lines lines (record cfg { routes = cfg.routes ++ pm.0 ∷ []; matrix = pm.1 })))
    else none

unfoldable pub load_config : ℕ → List Line → Option Config
load_config n lines =
    load_lines lines (record { n_provinces = n; routes = []; matrix = λ i j. false })

-- The pipes that are made: those of the matrix between provinces that there are.
abbrev pub pipes : Config → Matrix
pipes cfg i j = cfg.matrix i j && (ltb i cfg.n_provinces && ltb j cfg.n_provinces)

-- The ends of the pipe from `i` to `j` that province `k` keeps open: for reading, for writing.
abbrev pub keeps : ℕ → ℕ → ℕ → Bool × Bool
keeps k i j = if i == k then (false, true) else if j == k then (true, false) else (false, false)

-- A packet on its way into a province: from the government or from another province.
pub data Source : Type 0 where
  boss : Source
  province : ℕ → Source

pub record Hop : Type 0 where
  pub from : Source
  pub to : ℕ
  pub packet : Packet

-- What becomes of a packet that a province has read: it stays, it goes on, it is lost to EPIPE; or
-- there is no pipe, and the write uses a descriptor that was never made.
pub data Sent : Type 0 where
  stays lost no_pipe : Sent
  goes : Hop → Sent

abbrev pub write_next : Config → ℕ → Packet → ℕ → Sent
write_next cfg k p next =
    if pipes cfg k next
    then if (keeps next k next).0
      then goes (record { from = province k; to = next; packet = p })
      else lost
    else no_pipe

unfoldable pub relay : Config → ℕ → Packet → Sent
relay cfg k p =
    if ltb (p.current_step + 1) (length p.path)
    then elim (get_elem? p.path (p.current_step + 1)) [
      | some next ↦ write_next cfg k (record p { current_step = p.current_step + 1 }) next
      | none ↦ stays
    ]
    else stays
