-- ===== src/Feud.antt =====
-- lab07/aigen/aigen.c: messengers of two families, 'M' and 'C', connect and send their name; the
-- server brings two of different families together and lets the others wait.
pub mod Waiting
pub mod Meeting
mod Tests
use sop.Prelude.{
  ℕ, zero, suc, ◌+◌, List, [], ◌∷◌, ◌++◌, Bool, true, false, not, ◌&&◌, ◌||◌, Option, none, some,
  if◌then◌else◌, ◌==◌, take, length, ◌>>=◌,
}

-- `client_state`. -1 as a descriptor is `none`.
pub record Client : Type 0 where
  pub fd : Option ℕ
  pub family : ℕ
  pub name : List ℕ

-- The table, the descriptors closed, and the messages written, each with its descriptor.
pub record Server : Type 0 where
  pub clients : List Client
  pub closed : List ℕ
  pub sent : List (ℕ × List ℕ)

abbrev pub holds : ℕ → Client → Bool
holds fd c = elim c.fd [ none ↦ false | some f ↦ f == fd ]

abbrev pub vacant : Client
vacant = record { fd = none; family = 0; name = [] }

-- The loop of `remove_client`.
pub clear_slot : ℕ → List Client → List Client
clear_slot fd [] = []
clear_slot fd (c ∷ cs) = let rest = clear_slot fd cs in if holds fd c then vacant ∷ cs else c ∷ rest

pub remove_client : ℕ → Server → Server
remove_client fd s = record s { clients = clear_slot fd s.clients; closed = s.closed ++ fd ∷ [] }

-- The descriptor and the name of the first client of the other family.
unfoldable pub find_match : ℕ → List Client → Option (ℕ × List ℕ)
find_match family [] = none
find_match family (c ∷ cs) = elim c.fd [
  | none ↦ find_match family cs
  | some f ↦
      if not (c.family == 0) && not (c.family == family)
      then some (f, c.name)
      else find_match family cs
]

-- The loop that lets a client wait in the first free slot.
pub store : Client → List Client → List Client
store new [] = []
store new (c ∷ cs) = elim c.fd [ none ↦ new ∷ cs | some f ↦ c ∷ store new cs ]

-- What `write` reports: an error other than EPIPE ends the process.
pub data Written : Type 0 where
  delivered epipe failed : Written

pub write_to : ℕ → List ℕ → (ℕ → Written) → Server → Option Server
write_to fd msg write s = elim (write fd) [
  | delivered ↦ some (record s { sent = s.sent ++ (fd, msg) ∷ [] })
  | epipe ↦ some s
  | failed ↦ none
]

-- "MATCH: "
abbrev pub match_text : List ℕ
match_text = b'M' ∷ b'A' ∷ b'T' ∷ b'C' ∷ b'H' ∷ b':' ∷ b' ' ∷ []

-- The one that waited is removed, and the new one closed.
pub close_both : ℕ → ℕ → Server → Option Server
close_both fd other s =
    let v = remove_client other s in some (record v { closed = v.closed ++ fd ∷ [] })

pub tell_waiting : ℕ → List ℕ → ℕ → (ℕ → Written) → Server → Option Server
tell_waiting fd buf other write s =
    write_to other (match_text ++ buf) write s >>= close_both fd other

-- The two are told of each other.
pub meet : ℕ → List ℕ → ℕ → List ℕ → (ℕ → Written) → Server → Option Server
meet fd buf other name write s =
    write_to fd (match_text ++ name) write s >>= tell_waiting fd buf other write

abbrev pub is_family : ℕ → Bool
is_family b = b == b'M' || b == b'C'

-- A message of a client of a family.
pub take_name : ℕ → ℕ → List ℕ → (ℕ → Written) → Server → Option Server
take_name fd family buf write s = elim (find_match family s.clients) [
  | some (other, name) ↦ meet fd buf other name write s
  | none ↦ some (record s {
    clients = store (record { fd = some fd; family = family; name = take 15 buf }) s.clients;
  })
]

-- An event on a client's socket: -1 (`none`), or what was read. `buf` is the text read, which has no
-- NUL before its end here.
pub client_event : ℕ → Option (List ℕ) → (ℕ → Written) → Server → Option Server
client_event fd none write s = some (remove_client fd s)
client_event fd (some []) write s = some (remove_client fd s)
client_event fd (some (b ∷ bs)) write s =
    if is_family b then take_name fd b (b ∷ bs) write s else some (remove_client fd s)

-- What is counted at the end: the clients of a family that still wait.
pub count_family : ℕ → List Client → ℕ
count_family family [] = 0
count_family family (c ∷ cs) = elim c.fd [
  | none ↦ count_family family cs
  | some f ↦ (if c.family == family then 1 else 0) + count_family family cs
]
