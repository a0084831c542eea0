-- ===== src/Messengers/Orders.antt =====
-- Which messages are orders, and what an order and any other message do.
use sop.Prelude.{
  ℕ, ◌+◌, ◌-◌, ◌*◌, ◌/◌, ◌%◌, ◌≤◌, ◌≡◌, ◌≢◌, ◌⊎◌, refl, ap, ◌∙◌, List, [], ◌∷◌, ◌++◌, arith, true,
  Option, some, length, get_or, get_or-set_self, get_or-set_ne, ◌==◌, leb, if◌then◌else◌,
  Bool-cases, inl, inr, ◌&&◌, ◌||◌, false, none,
}
use mathlib.Core.Path.{subst}
use sop.Messengers.{
  Server, City, remove_client, holds, Written, delivered, epipe, failed, broadcast, is_valid,
  city_index, owner_of, set_owner, obey, client_event, no_city,
}
use sop.Prelude.Int.{pos, ◌+ℤ◌}
use sop.Messengers.Slots.{registered, used}
use sop.Messengers.Inv.{IsValid, client_event-IsValid, absent_event-count}
use sop.Messengers.Broadcast.{NoneFails, broadcast_lem, deliveries, remaining}

-- The sides are 'p' and 'g'.
abbrev pub IsSide : ℕ → Type 0
IsSide o = (o ≡ b'p') ⊎ (o ≡ b'g')

abbrev pub IsCity : ℕ → Type 0
IsCity i = (1 ≤ i) × (i ≤ 20)

-- The message by which side `o` claims city `i`: the side, two decimal digits, a line feed.
abbrev pub order : ℕ → ℕ → List ℕ
order o i = o ∷ (b'0' + i / 10) ∷ (b'0' + i % 10) ∷ b'\n' ∷ []

order-is_valid :
    (o i : ℕ) → IsSide o → IsCity i → is_valid o (b'0' + i / 10) (b'0' + i % 10) b'\n' ≡ true
unfolding is_valid
order-is_valid o i side c = ground arith

order-city_index : (i : ℕ) → city_index (b'0' + i / 10) (b'0' + i % 10) ≡ i
unfolding city_index
order-city_index i = omega arith

-- An order for a city from 1 to 20 is read as that order, whatever the state.
order-accepted :
    (fd : ℕ) (write : ℕ → Written) (s : Server) (o i : ℕ)
    → IsSide o
    → IsCity i
    → client_event fd write (some (order o i)) s ≡ obey fd write (order o i) i o s
unfolding client_event
order-accepted fd write s o i side c =
    rw (order-is_valid o i side c, order-city_index) (rw both_ways)
  where
    both_ways : (leb 1 i && leb i 20) ≡ true
    both_ways = ground arith

valid_parts :
    (b0 b1 b2 b3 : ℕ)
    → is_valid b0 b1 b2 b3 ≡ true
    → IsSide b0 × (b'0' ≤ b1) × (b1 ≤ b'9') × (b'0' ≤ b2) × (b2 ≤ b'9') × (b3 ≡ b'\n')
unfolding is_valid
valid_parts b0 b1 b2 b3 h =
    (ground arith, ground arith, ground arith, ground arith, ground arith, ground arith)

-- The four bytes of an accepted message are an order.
accepted-order :
    (b0 b1 b2 b3 : ℕ)
    → is_valid b0 b1 b2 b3 ≡ true
    → b0 ∷ b1 ∷ b2 ∷ b3 ∷ [] ≡ order b0 (city_index b1 b2)
unfolding city_index
accepted-order b0 b1 b2 b3 h = ground (arith, tens, units, p.5)
  where
    p : IsSide b0 × (b'0' ≤ b1) × (b1 ≤ b'9') × (b'0' ≤ b2) × (b2 ≤ b'9') × (b3 ≡ b'\n')
    p = valid_parts b0 b1 b2 b3 h

    tens : b1 ≡ b'0' + ((b1 - b'0') * 10 + (b2 - b'0')) / 10
    tens = omega (arith, p.1, p.2, p.3, p.4)

    units : b2 ≡ b'0' + ((b1 - b'0') * 10 + (b2 - b'0')) % 10
    units = omega (arith, p.1, p.2, p.3, p.4)

-- Whatever was read, be it too short, an error, or four bytes: if it is no order by which side 'p'
-- or 'g' claims a city from 1 to 20, the only thing that happens is that the sender is removed.
pub client_event-rejected :
    (fd : ℕ) (write : ℕ → Written) (read : Option (List ℕ)) (s : Server)
    → ((o i : ℕ) → IsSide o → IsCity i → read ≢ some (order o i))
    → client_event fd write read s ≡ some (remove_client fd s)
unfolding client_event
client_event-rejected fd write (some (b0 ∷ b1 ∷ b2 ∷ b3 ∷ [])) s other =
    elim (Bool-cases (is_valid b0 b1 b2 b3)) [
      | inl valid ↦ rw valid (elim (Bool-cases (leb 1 n && leb n 20)) [
        | inl inside ↦ absurd (
            other b0 n (valid_parts b0 b1 b2 b3 valid).0 (ground arith)
              (ap some (accepted-order b0 b1 b2 b3 valid)))
        | inr outside ↦ rw outside
      ])
      | inr bad ↦ rw bad
    ]
  where
    n : ℕ
    n = city_index b1 b2
client_event-rejected fd write read s other = refl

owner_of-set_owner :
    (cities : List City) (i j o : ℕ)
    → IsCity i
    → IsCity j
    → length cities ≡ 20
    → owner_of (set_owner cities i o) j ≡ (if i == j then o else owner_of cities j)
unfolding set_owner
owner_of-set_owner cities i j o ci cj l = elim (Bool-cases (i == j)) [
  | inl same ↦ ground (
    arith,
    get_or-set_self cities (i - 1) (record (get_or cities (i - 1) no_city) { owner = o }) no_city,
  )
  | inr other ↦ ground (
    arith,
    get_or-set_ne cities (i - 1) (j - 1) (record (get_or cities (i - 1) no_city) { owner = o })
        no_city,
  )
]

-- What an order of client `fd` for city `i` and side `o` has made of `s`.
pub record Ordered (fd : ℕ) (write : ℕ → Written) (o i : ℕ) (s t : Server) : Type 0 where
  pub owners :
      (j : ℕ) → IsCity j → owner_of t.cities j ≡ (if i == j then o else owner_of s.cities j)
  pub messages : t.sent ≡ (
      if owner_of s.cities i == o
      then s.sent
      else s.sent ++ deliveries fd write (order o i) s.clients)
  pub slots :
      t.clients ≡ (if owner_of s.cities i == o then s.clients else remaining fd write s.clients)

obey-Ordered :
    (fd : ℕ) (write : ℕ → Written) (o i : ℕ) (s : Server)
    → IsCity i
    → IsValid s
    → NoneFails fd write s.clients
    → (t : Server) × (obey fd write (order o i) i o s ≡ some t) × Ordered fd write o i s t
unfolding obey
obey-Ordered fd write o i s c v ok = elim (Bool-cases (owner_of s.cities i == o)) [
  | inl same ↦
      (s, rw same, record { owners = λ j cj. ground arith; messages = rw same; slots = rw same })
  | inr other ↦
      let s' : Server = record s { cities = set_owner s.cities i o } in
      let (t, went, out) = broadcast_lem fd write (order o i) s' v.distinct ok in
      (
        t,
        rw other (subst (λ n. broadcast n 0 fd write (order o i) s' ≡ some t) v.slots went),
        record {
          owners = λ j cj.
              ap (λ cs. owner_of cs j) out.towns ∙ owner_of-set_owner s.cities i j o c cj v.towns;
          messages = rw other out.messages;
          slots = rw other out.slots;
        },
      )
]

-- If the server's invariant holds and no `write` to another client ends in an error other than
-- EPIPE, then an order of client `fd` by which side `o` ('p' or 'g') claims city `i` (1 to 20) goes
-- through. City `i` then belongs to `o`, and every other city to whom it belonged. If `i` belonged
-- to `o` already, nothing is written and the slots stay; if not, the order is written to every
-- other client whose `write` succeeds, in the order of the slots, and exactly the slots of the other
-- clients whose `write` ends in EPIPE become free.
pub client_event-order :
    (fd : ℕ) (write : ℕ → Written) (o i : ℕ) (s : Server)
    → IsSide o
    → IsCity i
    → IsValid s
    → NoneFails fd write s.clients
    → (t : Server) × (client_event fd write (some (order o i)) s ≡ some t)
      × Ordered fd write o i s t
client_event-order fd write o i s side c v ok =
    let (t, e, out) = obey-Ordered fd write o i s c v ok in
    (t, order-accepted fd write s o i side c ∙ e, out)

-- A client whose `write` ends in EPIPE loses its slot.
remaining_dropped :
    (fd b : ℕ) (write : ℕ → Written) (cs : List (Option ℕ))
    → b ≢ fd
    → write b ≡ epipe
    → registered b (remaining fd write cs) ≡ false
unfolding registered remaining
remaining_dropped fd b write [] ne e = refl
remaining_dropped fd b write (none ∷ cs) ne e = remaining_dropped fd b write cs ne e
remaining_dropped fd b write (some c ∷ cs) ne e = elim (Bool-cases (c == fd)) [
  | inl own ↦ rw own (ground (arith, remaining_dropped fd b write cs ne e))
  | inr other ↦ rw other (by_write (remaining_dropped fd b write cs ne e) (write c) refl)
]
  where
    kept :
        registered b (remaining fd write cs) ≡ false
        → write c ≢ epipe
        → (holds (some c) b || registered b (remaining fd write cs)) ≡ false
    kept rest w = let d : c ≢ b = λ q. w (ap write q ∙ e) in ground (arith, d, rest)

    by_write :
        registered b (remaining fd write cs) ≡ false
        → (w : Written) → write c ≡ w
        → (holds (elim w [ epipe ↦ none | _ ↦ some c ]) b || registered b (remaining fd write cs))
          ≡ false
    by_write rest epipe q = rest
    by_write rest delivered q = kept rest (λ z. cc)
    by_write rest failed q = kept rest (λ z. cc)

-- Two events of one batch, in a state with the invariant: a client orders a city to the side that does
-- not own it, and the broadcast to another client, `b`, ends in EPIPE, none with another error; then
-- the read on `b`, whose descriptor was closed, fails or finds the end of file. The server goes on
-- from both, and then counts one client fewer than there are slots taken.
pub stale_event-count :
    (fd b : ℕ) (write write' : ℕ → Written) (o i : ℕ) (read : Option (List ℕ)) (s : Server)
    → IsSide o
    → IsCity i
    → IsValid s
    → registered fd s.clients ≡ true
    → NoneFails fd write s.clients
    → (owner_of s.cities i == o) ≡ false
    → b ≢ fd
    → write b ≡ epipe
    → (read ≡ none) ⊎ (read ≡ some [])
    → (t : Server) × (u : Server) × (client_event fd write (some (order o i)) s ≡ some t)
      × (client_event b write' read t ≡ some u)
      × (u.current_clients +ℤ pos 1 ≡ pos (used u.clients))
stale_event-count fd b write write' o i read s side c v known ok new ne gone stale =
    let (t, went, out) = client_event-order fd write o i s side c v ok in
    let valid = client_event-IsValid fd write (some (order o i)) s known v went in
    let slots : t.clients ≡ remaining fd write s.clients = out.slots ∙ rw new refl in
    let absent : registered b t.clients ≡ false =
      ap (registered b) slots ∙ remaining_dropped fd b write s.clients ne gone in
    let (u, next, same, count) = absent_event-count b write' read t valid absent stale in
    (t, u, went, next, count)
