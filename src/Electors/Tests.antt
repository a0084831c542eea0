-- ===== src/Electors/Tests.antt =====
-- Elector 2 is connected through descriptor 8.
use sop.Prelude.{◌≡◌, refl, [], ◌∷◌, true, some, List, replicate}
use sop.Electors.{
  Elector, Server, Event, initial, serve_clients, nobody, client_event, byte, ended, use_byte,
  vote_loop, enter, disconnect,
}
use sop.Electors.Votes.{IsValid, serve_clients-IsValid}

abbrev second : Elector
second = record { connected = true; fd = some 8; vote = some 1 }

abbrev server : Server
server = record {
  electors = nobody ∷ second ∷ nobody ∷ nobody ∷ nobody ∷ nobody ∷ nobody ∷ [];
  closed = [];
}

-- A client that becomes elector 3 votes for candidate 1, and goes.
abbrev session : List Event
session =
    record { fd = 9; input = byte b'3'; welcomed = true }
    ∷ record { fd = 9; input = byte b'1'; welcomed = true }
    ∷ record { fd = 9; input = ended b'0'; welcomed = true }
    ∷ []

abbrev third_voted : Server
third_voted = record {
  electors = nobody ∷ nobody ∷ record nobody { vote = some 1 } ∷ replicate 4 nobody;
  closed = 9 ∷ [];
}

session_served : serve_clients session initial ≡ some third_voted
unfolding serve_clients client_event use_byte vote_loop enter disconnect
session_served = refl

serve_clients-IsValid_example : IsValid third_voted
serve_clients-IsValid_example = serve_clients-IsValid session session_served
