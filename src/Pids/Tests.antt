-- ===== src/Pids/Tests.antt =====
-- The pid 1234.
use sop.Prelude.{ℕ, ◌≡◌, ◌<◌, ◌++◌, refl, List, [], ◌∷◌, some, false}
use sop.Prelude.Int.{ltb_ℤ, pos, negsuc}
use sop.Pids.{digit_sum, pid_length, Server, client_event, bytes, delivered}
use sop.Pids.Digits.{client_event_lem}

abbrev pid_1234 : List ℕ
pid_1234 = b'1' ∷ b'2' ∷ b'3' ∷ b'4' ∷ 0 ∷ b'9' ∷ []

digits_added : digit_sum pid_length pid_1234 ≡ 10
unfolding digit_sum
digits_added = refl

abbrev whole : List ℕ
whole = b'1' ∷ b'2' ∷ b'3' ∷ b'4' ∷ 0 ∷ 0 ∷ 0 ∷ 0 ∷ 0 ∷ 0 ∷ 0 ∷ []

abbrev server : Server
server = record { highest_sum = negsuc 0; closed = []; answers = [] }

pid_answered :
    let sum = digit_sum pid_length whole in
    (t : Server) × (client_event 5 (bytes whole) delivered server ≡ some t)
    × (t.answers ≡ [] ++ (5, 0 ∷ sum ∷ []) ∷ [])
    × (sum < 100)
    × (ltb_ℤ t.highest_sum (pos sum) ≡ false)
    × (ltb_ℤ t.highest_sum server.highest_sum ≡ false)
    × (t.closed ≡ [] ++ 5 ∷ [])
pid_answered = client_event_lem 5 whole server refl
