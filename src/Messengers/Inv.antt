-- ===== src/Messengers/Inv.antt =====
-- The invariant of the server, and what keeps it.
use sop.Prelude.{
  ℕ, zero, suc, ◌+◌, ◌-◌, ◌<◌, ◌≡◌, ◌≢◌, refl, ◌∙◌, List, [], ◌∷◌, arith, true, false, Option, none,
  some, length, get_or, length-set, ◌==◌, >>=-eq-some, ◌⊎◌, inl, inr, Bool-cases, along_some,
}
use sop.Prelude.Int.{pos, ◌-ℤ◌, ◌+ℤ◌, ltb_ℤ}
use sop.Messengers.{
  Server, City, max_clients, store_client, remove_client, accept_client, Written, send_to,
  broadcast, city_index, obey, owner_of, client_event, Event, handle, set_owner, fresh, new_cities,
}
use sop.Messengers.Slots.{
  registered, used, NoRepeat, length-clear_slot, length-store_client, used-clear_slot,
  used-store_client, store_client-NoRepeat, clear_slot-NoRepeat, get_or-registered,
  clear_slot_absent,
}

-- Four slots and twenty cities; `current_clients` counts the slots taken; nobody has two.
pub record IsValid (s : Server) : Type 0 where
  pub slots : length s.clients ≡ max_clients
  pub towns : length s.cities ≡ 20
  pub counted : s.current_clients ≡ pos (used s.clients)
  pub distinct : NoRepeat s.clients

pub remove_client-IsValid :
    (fd : ℕ) (s : Server)
    → registered fd s.clients ≡ true
    → IsValid s
    → IsValid (remove_client fd s)
unfolding remove_client ◌-ℤ◌
remove_client-IsValid fd s r v = record {
  slots = length-clear_slot fd s.clients ∙ v.slots;
  towns = v.towns;
  counted = ground (arith, used-clear_slot fd s.clients r);
  distinct = clear_slot-NoRepeat fd s.clients v.distinct;
}

accept_client-IsValid :
    (o : Option ℕ) (s : Server)
    → ((fd : ℕ) → o ≡ some fd → registered fd s.clients ≡ false)
    → IsValid s
    → IsValid (accept_client o s)
unfolding accept_client ◌+ℤ◌
accept_client-IsValid none s new v = v
accept_client-IsValid (some fd) s new v =
    elim (Bool-cases (ltb_ℤ s.current_clients (pos max_clients))) [
      | inl free ↦ rw free (stored (ground arith))
      | inr full ↦
          rw full (record {
            slots = v.slots;
            towns = v.towns;
            counted = v.counted;
            distinct = v.distinct;
          })
    ]
  where
    stored :
        used s.clients < length s.clients
        → IsValid (record s {
          clients = store_client fd s.clients;
          current_clients = s.current_clients +ℤ pos 1;
        })
    stored room = record {
      slots = length-store_client fd s.clients ∙ v.slots;
      towns = v.towns;
      counted = rw (used-store_client fd s.clients room) (ground arith);
      distinct = store_client-NoRepeat fd s.clients (new fd refl) v.distinct room;
    }

send_to-IsValid :
    (c : Option ℕ) (fd : ℕ) (write : ℕ → Written) (msg : List ℕ) (s : Server) {t : Server}
    → ((target : ℕ) → c ≡ some target → registered target s.clients ≡ true)
    → IsValid s
    → send_to c fd write msg s ≡ some t
    → IsValid t
unfolding send_to
send_to-IsValid none fd write msg s r v h = along_some IsValid h v
send_to-IsValid (some target) fd write msg s r v h =
    ground (arith, remove_client-IsValid target s (r target refl) v)

broadcast-IsValid :
    (n k fd : ℕ) (write : ℕ → Written) (msg : List ℕ) (s : Server) {t : Server}
    → IsValid s
    → broadcast n k fd write msg s ≡ some t
    → IsValid t
unfolding broadcast
broadcast-IsValid zero k fd write msg s v h = along_some IsValid h v
broadcast-IsValid (suc n) k fd write msg s {t} v h =
    let (m, sent, rest) = >>=-eq-some (send_to (get_or s.clients k none) fd write msg s) _ h in
    broadcast-IsValid n (k + 1) fd write msg m
      (send_to-IsValid _ fd write msg s (get_or-registered s.clients k) v sent) rest

length-set_owner : (cities : List City) (i o : ℕ) → length (set_owner cities i o) ≡ length cities
unfolding set_owner
length-set_owner cities i o = length-set cities (i - 1) _

obey-IsValid :
    (fd : ℕ) (write : ℕ → Written) (msg : List ℕ) (i o : ℕ) (s : Server) {t : Server}
    → IsValid s
    → obey fd write msg i o s ≡ some t
    → IsValid t
unfolding obey
obey-IsValid fd write msg i o s {t} v h = elim (Bool-cases (owner_of s.cities i == o)) [
  | inl same ↦ along_some IsValid (rw same at h) v
  | inr other ↦ broadcast-IsValid max_clients 0 fd write msg _ changed (rw other at h)
]
  where
    changed : IsValid (record s { cities = set_owner s.cities i o })
    changed = record {
      slots = v.slots;
      towns = length-set_owner s.cities i o ∙ v.towns;
      counted = v.counted;
      distinct = v.distinct;
    }

pub client_event-IsValid :
    (fd : ℕ) (write : ℕ → Written) (read : Option (List ℕ)) (s : Server) {t : Server}
    → registered fd s.clients ≡ true
    → IsValid s
    → client_event fd write read s ≡ some t
    → IsValid t
unfolding client_event
client_event-IsValid fd write (some (b0 ∷ b1 ∷ b2 ∷ b3 ∷ [])) s {t = t} r v h = ground (
  arith,
  remove_client-IsValid fd s r v,
  obey-IsValid fd write (b0 ∷ b1 ∷ b2 ∷ b3 ∷ []) (city_index b1 b2) b0 s {t = t} v,
)
client_event-IsValid fd write read s {t = t} r v h =
    along_some IsValid h (remove_client-IsValid fd s r v)

-- What the system guarantees of an event: it is on the listening socket or on the descriptor of a
-- client that is connected, and a newly accepted descriptor is not one that a client has.
pub record Genuine (sfd : ℕ) (e : Event) (s : Server) : Type 0 where
  pub known : e.fd ≢ sfd → registered e.fd s.clients ≡ true
  pub new : e.fd ≡ sfd → (fd : ℕ) → e.accepted ≡ some fd → registered fd s.clients ≡ false

-- The server's invariant is kept: if it holds, the event is on the listening socket or on the
-- descriptor of a connected client, a newly accepted descriptor is no client's, and the process
-- goes on, then afterwards there are four slots and twenty cities, `current_clients` is the number
-- of slots taken, and no descriptor has two slots.
pub handle-IsValid :
    (sfd : ℕ) (e : Event) (s : Server) {t : Server}
    → Genuine sfd e s
    → IsValid s
    → handle sfd e s ≡ some t
    → IsValid t
unfolding handle
handle-IsValid sfd e s g v h = elim (Bool-cases (e.fd == sfd)) [
  | inl listening ↦
      along_some IsValid (rw listening at h)
        (accept_client-IsValid e.accepted s (g.new (ground arith)) v)
  | inr client ↦
      client_event-IsValid e.fd e.write e.read s (g.known (ground arith)) v (rw client at h)
]

pub fresh-IsValid : IsValid fresh
unfolding fresh new_cities used
fresh-IsValid = record { slots = refl; towns = refl; counted = refl; distinct = tt }

-- A descriptor that is no client's (any more) has the count go wrong: if the invariant holds and a
-- read on such a descriptor fails or finds the end of file, then the process goes on with the same
-- slots and with one client fewer counted than there are slots taken.
pub absent_event-count :
    (fd : ℕ) (write : ℕ → Written) (read : Option (List ℕ)) (s : Server)
    → IsValid s
    → registered fd s.clients ≡ false
    → (read ≡ none) ⊎ (read ≡ some [])
    → (t : Server) × (client_event fd write read s ≡ some t)
      × (t.clients ≡ s.clients)
      × (t.current_clients +ℤ pos 1 ≡ pos (used t.clients))
unfolding client_event remove_client ◌-ℤ◌ ◌+ℤ◌
absent_event-count fd write read s v r e = (
  remove_client fd s,
  ground arith,
  clear_slot_absent fd s.clients r,
  rw (clear_slot_absent fd s.clients r) (ground arith),
)
