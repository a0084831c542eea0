-- ===== src/Electors.antt =====
-- lab07/prelab/sop-hre.c: seven electors connect, name themselves and vote for one of three candidates.
pub mod Votes
pub mod Casting
mod Tests
use sop.Prelude.{
  ℕ, zero, suc, ◌+◌, ◌-◌, List, [], ◌∷◌, ◌++◌, Bool, true, false, ◌&&◌, Option, none, some,
  if◌then◌else◌, leb, ◌==◌, get_or, set, length, replicate, ◌>>=◌,
}

-- `client_state`. -1 as a descriptor, or as a vote, is `none`.
pub record Elector : Type 0 where
  pub connected : Bool
  pub fd : Option ℕ
  pub vote : Option ℕ

-- The electors, and the descriptors that were closed.
pub record Server : Type 0 where
  pub electors : List Elector
  pub closed : List ℕ

abbrev pub is_fd : ℕ → Elector → Bool
is_fd fd e = elim e.fd [ none ↦ false | some f ↦ f == fd ]

-- The loop over the electors when a client has disconnected.
pub disconnect : ℕ → List Elector → List Elector
disconnect fd [] = []
disconnect fd (e ∷ es) =
    (if is_fd fd e then record e { connected = false; fd = none } else e) ∷ disconnect fd es

abbrev pub between : ℕ → ℕ → ℕ → Bool
between a b c = leb a c && leb c b

abbrev pub voted : ℕ → Elector → Elector
voted msg e = if between b'0' b'2' msg then record e { vote = some (msg - b'0') } else e

-- The loop over the electors for a message: those after it, and `registered_elector`.
pub vote_loop : ℕ → ℕ → List Elector → List Elector × Bool
vote_loop fd msg [] = ([], false)
vote_loop fd msg (e ∷ es) =
    let (rest, found) = vote_loop fd msg es in
    if is_fd fd e then (voted msg e ∷ es, true) else (e ∷ rest, found)

abbrev pub nobody : Elector
nobody = record { connected = false; fd = none; vote = none }

-- The electors as `main` sets them up.
abbrev pub initial : Server
initial = record { electors = replicate 7 nobody; closed = [] }

-- A client that is no elector yet; `welcomed`: the `write` of the welcome succeeds, else ERR ends the
-- process.
pub enter : ℕ → ℕ → Bool → Server → Option Server
enter fd msg welcomed s =
    let i = msg - b'1' in
    let e = get_or s.electors i nobody in
    if between b'1' b'7' msg
    then (if e.connected
        then some (record s { closed = s.closed ++ fd ∷ [] })
        else (if welcomed
            then some (record s {
              electors = set s.electors i (record e { connected = true; fd = some fd });
            })
            else none))
    else some s

-- What is done with the byte `msg`, disconnected or not.
pub use_byte : ℕ → ℕ → Bool → Server → Option Server
use_byte fd msg welcomed s =
    let (es, registered) = vote_loop fd msg s.electors in
    let t = record s { electors = es } in if registered then some t else enter fd msg welcomed t

-- What `read` reports: a byte; the end, with what the variable `msg` happens to hold; an error.
pub data Input : Type 0 where
  byte : ℕ → Input
  ended : ℕ → Input
  failed : Input

-- An event on a client's socket.
pub client_event : ℕ → Input → Bool → Server → Option Server
client_event fd (byte msg) welcomed s = use_byte fd msg welcomed s
client_event fd (ended msg) welcomed s =
    use_byte fd msg welcomed
      (record { electors = disconnect fd s.electors; closed = s.closed ++ fd ∷ [] })
client_event fd failed welcomed s = none

-- The events of clients in the order in which they are handled: the descriptor, what `read` reports,
-- and whether the welcome can be written.
pub record Event : Type 0 where
  pub fd : ℕ
  pub input : Input
  pub welcomed : Bool

pub serve_clients : List Event → Server → Option Server
serve_clients [] s = some s
serve_clients (e ∷ es) s = client_event e.fd e.input e.welcomed s >>= serve_clients es
