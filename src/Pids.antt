-- ===== src/Pids.antt =====
-- lab07/pidsumming/sop-server.c: the server adds up the digits of the number that a client sends.
pub mod Digits
mod Tests
use sop.Prelude.{
  ℕ, zero, suc, ◌+◌, ◌-◌, ◌/◌, ◌%◌, List, [], ◌∷◌, ◌++◌, Bool, true, false, ◌&&◌, Option, none,
  some, if◌then◌else◌, ltb, leb, ◌==◌, length,
}
use sop.Prelude.Int.{ℤ, pos, negsuc, ltb_ℤ}

abbrev pub pid_length : ℕ
pid_length = 11

-- The loop over the buffer, `n` bytes at most, up to the first NUL.
unfoldable pub digit_sum : ℕ → List ℕ → ℕ
digit_sum zero buf = 0
digit_sum (suc n) [] = 0
digit_sum (suc n) (b ∷ bs) =
    let rest = digit_sum n bs in
    if b == 0 then 0 else (if leb b'0' b && leb b b'9' then b - b'0' + rest else rest)

-- `highest_sum`, the descriptors closed, and the answers written, each with its descriptor.
pub record Server : Type 0 where
  pub highest_sum : ℤ
  pub closed : List ℕ
  pub answers : List (ℕ × List ℕ)

-- What `bulk_read` reports: the bytes read; ECONNRESET; another error, after which ERR ends the
-- process.
pub data Input : Type 0 where
  bytes : List ℕ → Input
  reset failed : Input

-- What `bulk_write` and `close` report together.
pub data Output : Type 0 where
  delivered epipe broken : Output

-- The bytes of `htons((int16_t)sum)`.
abbrev pub htons : ℕ → List ℕ
htons v = (v / 256 % 256) ∷ (v % 256) ∷ []

abbrev pub close_fd : ℕ → Server → Server
close_fd fd s = record s { closed = s.closed ++ fd ∷ [] }

abbrev pub raise : ℤ → ℕ → ℤ
raise highest sum = if ltb_ℤ highest (pos sum) then pos sum else highest

-- A whole message has come: `highest_sum` is raised, the sum is sent back, the connection closed.
pub answer : ℕ → List ℕ → Output → Server → Option Server
answer fd buf out s =
    let sum = digit_sum pid_length buf in
    let t = record s { highest_sum = raise s.highest_sum sum } in
    elim out [
      | delivered ↦ some (close_fd fd (record t { answers = t.answers ++ (fd, htons sum) ∷ [] }))
      | epipe ↦ some (close_fd fd t)
      | broken ↦ none
    ]

-- An event on a client's socket. A message of another length is left alone.
pub client_event : ℕ → Input → Output → Server → Option Server
client_event fd reset out s = some (close_fd fd s)
client_event fd failed out s = none
client_event fd (bytes buf) out s =
    if length buf == 0
    then some (close_fd fd s)
    else (if length buf == pid_length then answer fd buf out s else some s)
