-- ===== src/Messengers/Tests.antt =====
-- Clients 5 and 6, and a listening socket 3.
use sop.Prelude.{ℕ, ◌≡◌, ◌≢◌, ◌⊎◌, inl, refl, [], ◌∷◌, none, some, arith, if◌then◌else◌, ◌==◌}
use sop.Prelude.Int.{pos, ◌+ℤ◌}
use sop.Messengers.{
  Server, Written, delivered, epipe, Event, fresh, new_cities, client_event, handle, remove_client,
  broadcast,
}
use sop.Messengers.Slots.{used, registered}
use sop.Messengers.Inv.{IsValid, Genuine, handle-IsValid}
use sop.Messengers.Broadcast.{NoneFails, Sent, broadcast_lem}
use sop.Messengers.Orders.{
  order, Ordered, client_event-rejected, client_event-order, stale_event-count,
}

abbrev two_clients : Server
two_clients = record fresh { clients = none ∷ some 5 ∷ some 6 ∷ none ∷ []; current_clients = pos 2 }

two_clients-IsValid : IsValid two_clients
unfolding fresh new_cities used registered
two_clients-IsValid = record {
  slots = refl;
  towns = refl;
  counted = refl;
  distinct = (refl, (refl, tt));
}

-- Client 6 is gone.
abbrev answers : ℕ → Written
answers fd = if fd == 6 then epipe else delivered

abbrev order_3 : Event
order_3 = record { fd = 5; accepted = none; read = some (order b'p' 3); write = answers }

order_3-Genuine : Genuine 3 order_3 two_clients
unfolding registered fresh
order_3-Genuine = record { known = λ _. refl; new = λ e. absurd (omega arith) }

none_fails : NoneFails 5 answers two_clients.clients
none_fails = (λ n. absurd (n refl), (λ n. λ e. cc, tt))

order_3_done :
    (t : Server) × (handle 3 order_3 two_clients ≡ some t) × Ordered 5 answers b'p' 3 two_clients t
unfolding handle
order_3_done =
    client_event-order 5 answers b'p' 3 two_clients (inl refl) (omega arith) two_clients-IsValid
      none_fails

handle-IsValid_example : IsValid order_3_done.0
handle-IsValid_example =
    handle-IsValid 3 order_3 two_clients order_3-Genuine two_clients-IsValid order_3_done.1

client_event-order_example :
    (t : Server) × (client_event 5 answers (some (order b'p' 3)) two_clients ≡ some t)
    × Ordered 5 answers b'p' 3 two_clients t
client_event-order_example =
    client_event-order 5 answers b'p' 3 two_clients (inl refl) (omega arith) two_clients-IsValid
      none_fails

-- A message without its line feed is no order.
short : (o i : ℕ) → ((o ≡ b'p') ⊎ (o ≡ b'g')) → some (b'p' ∷ b'0' ∷ b'3' ∷ []) ≢ some (order o i)
short o i _ e = cc

client_event-rejected_example :
    client_event 5 answers (some (b'p' ∷ b'0' ∷ b'3' ∷ [])) two_clients
    ≡ some (remove_client 5 two_clients)
client_event-rejected_example =
    client_event-rejected 5 answers (some (b'p' ∷ b'0' ∷ b'3' ∷ [])) two_clients
      (λ o i s _. short o i s)

broadcast_lem_example :
    (t : Server) × (broadcast 4 0 5 answers (order b'p' 3) two_clients ≡ some t)
    × Sent 5 answers (order b'p' 3) two_clients [] two_clients.clients t
broadcast_lem_example =
    broadcast_lem 5 answers (order b'p' 3) two_clients two_clients-IsValid.distinct none_fails

-- Client 5 takes city 3; the broadcast to client 6 ends in EPIPE; then the read on 6 fails.
stale_event-count_example :
    (t : Server) × (u : Server) × (client_event 5 answers (some (order b'p' 3)) two_clients
      ≡ some t)
    × (client_event 6 answers none t ≡ some u)
    × (u.current_clients +ℤ pos 1 ≡ pos (used u.clients))
unfolding registered fresh new_cities
stale_event-count_example =
    stale_event-count 5 6 answers answers b'p' 3 none two_clients (inl refl) (omega arith)
      two_clients-IsValid refl none_fails refl (λ e. omega (arith, e)) refl (inl refl)
