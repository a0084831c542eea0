-- ===== src/Feud/Meeting.antt =====
-- What a client's name brings about.
use sop.Prelude.{
  ℕ, ◌+◌, ◌≡◌, refl, ap, ◌∙◌, List, [], ◌∷◌, ◌++◌, arith, Bool, true, false, not, ◌&&◌, none, some,
  if◌then◌else◌, ◌==◌, take, Bool-cases, Option-cases, inl, inr, ◌>>=◌, some-eq,
}
use sop.Feud.{
  Client, Server, holds, clear_slot, remove_client, find_match, store, Written, delivered, write_to,
  match_text, close_both, tell_waiting, meet, is_family, take_name, client_event,
}

-- The number of slots that hold a descriptor.
unfoldable pub slots : ℕ → List Client → ℕ
slots fd [] = 0
slots fd (c ∷ cs) = (if holds fd c then 1 else 0) + slots fd cs

unfoldable pub has_room : List Client → Bool
has_room [] = false
has_room (c ∷ cs) = elim c.fd [ none ↦ true | some f ↦ has_room cs ]

write_to-delivered :
    (fd : ℕ) (msg : List ℕ) (write : ℕ → Written) (s : Server)
    → write fd ≡ delivered
    → write_to fd msg write s ≡ some (record s { sent = s.sent ++ (fd, msg) ∷ [] })
unfolding write_to
write_to-delivered fd msg write s ok = rw (write_to, ok) refl

find_match-slot :
    (b : ℕ) (cs : List Client) (other : ℕ) (name : List ℕ)
    → find_match b cs ≡ some (other, name)
    → slots other (clear_slot other cs) + 1 ≡ slots other cs
unfolding find_match slots clear_slot
find_match-slot b [] other name e = cc
find_match-slot b (c ∷ cs) other name e = elim (Bool-cases (holds other c)) [
  | inl here ↦ rw (here) (omega arith)
  | inr elsewhere ↦
      rw (elsewhere, elsewhere) (omega (arith, find_match-slot b cs other name (later elsewhere)))
]
  where
    wrong : (k : ℕ) → k ≡ other → c.fd ≡ some k → holds other c ≡ false → ⊥
    wrong k same taken h = ground (arith, rw taken at h)

    later : holds other c ≡ false → find_match b cs ≡ some (other, name)
    later h = elim (Option-cases c.fd) [
      | inl free ↦ rw free at e
      | inr (k, taken) ↦ elim (Bool-cases (not (c.family == 0) && not (c.family == b))) [
        | inl match ↦
            let same : k ≡ other = ap (λ p. p.0) (some-eq (rw (taken, match) at e)) in
            absurd (wrong k same taken h)
        | inr not_match ↦ rw (taken, not_match) at e
      ]
    ]

-- A message that begins with the letter of a family, when somebody of the other family waits and both
-- `write`s succeed: the sender is told the name of the first such client, that client is told what
-- the sender has sent, both are closed, and one slot that held that client is freed.
pub client_event-meet :
    (fd b : ℕ) (bs : List ℕ) (write : ℕ → Written) (s : Server) (other : ℕ) (name : List ℕ)
    → is_family b ≡ true
    → find_match b s.clients ≡ some (other, name)
    → write fd ≡ delivered
    → write other ≡ delivered
    → (t : Server) × (client_event fd (some (b ∷ bs)) write s ≡ some t)
      × (t.sent ≡ (s.sent ++ (fd, match_text ++ name) ∷ []) ++ (other, match_text ++ b ∷ bs) ∷ [])
      × (t.closed ≡ (s.closed ++ other ∷ []) ++ fd ∷ [])
      × (slots other t.clients + 1 ≡ slots other s.clients)
unfolding client_event take_name meet tell_waiting close_both remove_client
client_event-meet fd b bs write s other name known found ok ok' = (
  record {
    clients = clear_slot other s.clients;
    closed = (s.closed ++ other ∷ []) ++ fd ∷ [];
    sent = (s.sent ++ (fd, match_text ++ name) ∷ []) ++ (other, match_text ++ b ∷ bs) ∷ [];
  },
  rw (client_event, known, take_name, found, meet)
      (ap (λ o. o >>= tell_waiting fd (b ∷ bs) other write)
          (write_to-delivered fd (match_text ++ name) write s ok)
        ∙ ap (λ o. o >>= close_both fd other)
            (write_to-delivered other (match_text ++ b ∷ bs) write
              (record s { sent = s.sent ++ (fd, match_text ++ name) ∷ [] }) ok')),
  refl,
  refl,
  find_match-slot b s.clients other name found,
)

slots-store :
    (fd b : ℕ) (name : List ℕ) (cs : List Client)
    → has_room cs ≡ true
    → slots fd (store (record { fd = some fd; family = b; name = name }) cs) ≡ slots fd cs + 1
unfolding slots store has_room
slots-store fd b name [] h = cc
slots-store fd b name (c ∷ cs) h = elim (Option-cases c.fd) [
  | inl free ↦ ground arith
  | inr (k, taken) ↦ ground (arith, slots-store fd b name cs)
]

-- If nobody of the other family waits and there is a free slot, a message that begins with the letter
-- of a family takes one slot more for its sender, also when the sender has one already; nothing is
-- sent or closed.
pub client_event-wait :
    (fd b : ℕ) (bs : List ℕ) (write : ℕ → Written) (s : Server)
    → is_family b ≡ true
    → find_match b s.clients ≡ none
    → has_room s.clients ≡ true
    → (t : Server) × (client_event fd (some (b ∷ bs)) write s ≡ some t)
      × (slots fd t.clients ≡ slots fd s.clients + 1)
      × (t.sent ≡ s.sent)
      × (t.closed ≡ s.closed)
unfolding client_event take_name
client_event-wait fd b bs write s known nobody room = (
  record s {
    clients = store (record { fd = some fd; family = b; name = take 15 (b ∷ bs) }) s.clients;
  },
  rw (client_event, known, take_name, nobody) refl,
  slots-store fd b (take 15 (b ∷ bs)) s.clients room,
  refl,
  refl,
)
