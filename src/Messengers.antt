-- ===== src/Messengers.antt =====
-- lab07/poslancy/poslancy.c: a server that keeps which side owns each of twenty cities, takes
-- orders of four bytes from at most four messengers, and passes a change on to the others.
pub mod Slots
pub mod Inv
pub mod Broadcast
pub mod Orders
mod Tests
use sop.Prelude.{
  ℕ, zero, suc, ◌+◌, ◌-◌, ◌*◌, List, [], ◌∷◌, ◌++◌, Bool, true, false, not, ◌&&◌, ◌||◌, Option,
  none, some, if◌then◌else◌, ltb, leb, ◌==◌, length, get_or, set, ◌>>=◌,
}
use sop.Prelude.Int.{ℤ, pos, ◌+ℤ◌, ◌-ℤ◌, ltb_ℤ}

-- `city`
pub record City : Type 0 where
  pub owner : ℕ
  pub num : ℕ

-- The locals of `main`. A slot of `clients` that holds -1 is `none`. The last two fields record
-- what the process asked of the system: the descriptors that it closed, and the messages that it
-- wrote, each with its descriptor.
pub record Server : Type 0 where
  pub cities : List City
  pub clients : List (Option ℕ)
  pub current_clients : ℤ
  pub closed : List ℕ
  pub sent : List (ℕ × List ℕ)

abbrev pub max_clients : ℕ
max_clients = 4

-- `clients[i] == fd`
abbrev pub holds : Option ℕ → ℕ → Bool
holds none fd = false
holds (some c) fd = c == fd

-- The loop of `remove_client`: the first slot that holds `fd` is freed.
pub clear_slot : ℕ → List (Option ℕ) → List (Option ℕ)
clear_slot fd [] = []
clear_slot fd (c ∷ cs) = if holds c fd then none ∷ cs else c ∷ clear_slot fd cs

pub remove_client : ℕ → Server → Server
remove_client fd s = record s {
  clients = clear_slot fd s.clients;
  current_clients = s.current_clients -ℤ pos 1;
  closed = s.closed ++ fd ∷ [];
}

-- The loop that puts a new descriptor into the first free slot.
pub store_client : ℕ → List (Option ℕ) → List (Option ℕ)
store_client fd [] = []
store_client fd (none ∷ cs) = some fd ∷ cs
store_client fd (some c ∷ cs) = some c ∷ store_client fd cs

-- An event on the listening socket. `none` is the -1 of `add_new_client`.
pub accept_client : Option ℕ → Server → Server
accept_client none s = s
accept_client (some fd) s =
    if ltb_ℤ s.current_clients (pos max_clients)
    then record s {
      clients = store_client fd s.clients;
      current_clients = s.current_clients +ℤ pos 1;
    }
    else record s { closed = s.closed ++ fd ∷ [] }

-- What `write` reports: all went out; EPIPE; another error, after which ERR ends the process.
pub data Written : Type 0 where
  delivered epipe failed : Written

-- One round of the broadcast, with the slot's content.
pub send_to : Option ℕ → ℕ → (ℕ → Written) → List ℕ → Server → Option Server
send_to none fd write msg s = some s
send_to (some target) fd write msg s = if target == fd then some s else elim (write target) [
  | delivered ↦ some (record s { sent = s.sent ++ (target, msg) ∷ [] })
  | epipe ↦ some (remove_client target s)
  | failed ↦ none
]

-- The broadcast from slot `k` on, with `n` slots to go. The slots are read as it goes along.
pub broadcast : ℕ → ℕ → ℕ → (ℕ → Written) → List ℕ → Server → Option Server
broadcast zero k fd write msg s = some s
broadcast (suc n) k fd write msg s =
    send_to (get_or s.clients k none) fd write msg s >>= broadcast n (k + 1) fd write msg

abbrev pub is_digit : ℕ → Bool
is_digit b = not (ltb b b'0' || ltb b'9' b)

-- `is_valid`
pub is_valid : ℕ → ℕ → ℕ → ℕ → Bool
is_valid b0 b1 b2 b3 = (b0 == b'p' || b0 == b'g') && (is_digit b1 && (is_digit b2 && b3 == b'\n'))

pub city_index : ℕ → ℕ → ℕ
city_index b1 b2 = (b1 - b'0') * 10 + (b2 - b'0')

abbrev pub no_city : City
no_city = record { owner = 0; num = 0 }

abbrev pub owner_of : List City → ℕ → ℕ
owner_of cities i = (get_or cities (i - 1) no_city).owner

-- `cities[i - 1].owner = o`
pub set_owner : List City → ℕ → ℕ → List City
set_owner cities i o = set cities (i - 1) (record (get_or cities (i - 1) no_city) { owner = o })

-- A valid order for a city in range.
pub obey : ℕ → (ℕ → Written) → List ℕ → ℕ → ℕ → Server → Option Server
obey fd write msg i o s =
    if owner_of s.cities i == o
    then some s
    else broadcast max_clients 0 fd write msg (record s { cities = set_owner s.cities i o })

-- An event on a client's socket. `none` is the -1 of `read`; else the bytes read, four at most.
pub client_event : ℕ → (ℕ → Written) → Option (List ℕ) → Server → Option Server
client_event fd write (some (b0 ∷ b1 ∷ b2 ∷ b3 ∷ [])) s =
    if is_valid b0 b1 b2 b3
    then (if leb 1 (city_index b1 b2) && leb (city_index b1 b2) 20
        then obey fd write (b0 ∷ b1 ∷ b2 ∷ b3 ∷ []) (city_index b1 b2) b0 s
        else some (remove_client fd s))
    else some (remove_client fd s)
client_event fd write read s = some (remove_client fd s)

-- One entry of `events`, with what the calls that its handling makes report.
pub record Event : Type 0 where
  pub fd : ℕ
  pub accepted : Option ℕ
  pub read : Option (List ℕ)
  pub write : ℕ → Written

-- The body of the loop over `events`.
pub handle : ℕ → Event → Server → Option Server
handle sfd e s =
    if e.fd == sfd then some (accept_client e.accepted s) else client_event e.fd e.write e.read s

-- The loop over the events of one `epoll_pwait`.
pub handle_events : ℕ → List Event → Server → Option Server
handle_events sfd [] s = some s
handle_events sfd (e ∷ es) s = handle sfd e s >>= handle_events sfd es

-- `cities` from number `i + 1` on, with `n` to go
pub new_cities : ℕ → ℕ → List City
new_cities i zero = []
new_cities i (suc n) = record { owner = b'g'; num = i + 1 } ∷ new_cities (i + 1) n

-- The state before the event loop.
pub fresh : Server
fresh = record {
  cities = new_cities 0 20;
  clients = none ∷ none ∷ none ∷ none ∷ [];
  current_clients = pos 0;
  closed = [];
  sent = [];
}
