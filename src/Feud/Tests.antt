-- ===== src/Feud/Tests.antt =====
-- A Montague waits; a Capulet comes, or another message of the Montague.
use sop.Prelude.{ℕ, ◌+◌, ◌≡◌, inl, refl, List, [], ◌∷◌, ◌++◌, true, none, some}
use sop.Feud.{Client, Server, vacant, delivered, match_text, find_match, client_event}
use sop.Feud.Waiting.{AllOf, OneFamily, client_event-OneFamily}
use sop.Feud.Meeting.{slots, has_room, client_event-meet, client_event-wait}

abbrev romeo : List ℕ
romeo = b'M' ∷ b'r' ∷ []

abbrev juliet : List ℕ
juliet = b'C' ∷ b'j' ∷ []

abbrev waiting : Client
waiting = record { fd = some 7; family = b'M'; name = romeo }

abbrev server : Server
server = record { clients = vacant ∷ waiting ∷ []; closed = []; sent = [] }

someone : find_match b'C' server.clients ≡ some (7, romeo)
unfolding find_match
someone = refl

messengers_meet :
    (t : Server) × (client_event 8 (some juliet) (λ _. delivered) server ≡ some t)
    × (t.sent ≡ ([] ++ (8, match_text ++ romeo) ∷ []) ++ (7, match_text ++ juliet) ∷ [])
    × (t.closed ≡ ([] ++ 7 ∷ []) ++ 8 ∷ [])
    × (slots 7 t.clients + 1 ≡ slots 7 server.clients)
messengers_meet =
    client_event-meet 8 b'C' (b'j' ∷ []) (λ _. delivered) server 7 romeo refl someone refl refl

nobody : find_match b'M' server.clients ≡ none
unfolding find_match
nobody = refl

room : has_room server.clients ≡ true
unfolding has_room
room = refl

again :
    (t : Server) × (client_event 7 (some romeo) (λ _. delivered) server ≡ some t)
    × (slots 7 t.clients ≡ slots 7 server.clients + 1)
    × (t.sent ≡ [])
    × (t.closed ≡ [])
again = client_event-wait 7 b'M' (b'r' ∷ []) (λ _. delivered) server refl nobody room

messenger_waits :
    (t : Server) × (client_event 7 (some romeo) (λ _. delivered) server ≡ some t)
    × (slots 7 t.clients ≡ slots 7 server.clients + 1)
    × (t.sent ≡ [])
    × (t.closed ≡ [])
messenger_waits = client_event-wait 7 b'M' (b'r' ∷ []) (λ _. delivered) server refl nobody room

server-OneFamily : OneFamily server.clients
unfolding OneFamily AllOf
server-OneFamily = inl ((λ f e. cc), ((λ f e. refl), tt))

client_event-OneFamily_example : OneFamily again.0.clients
client_event-OneFamily_example =
    client_event-OneFamily 7 (some romeo) (λ _. delivered) server server-OneFamily again.1
