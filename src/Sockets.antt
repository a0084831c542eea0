-- ===== src/Sockets.antt =====
-- lab07/l7/l7_common.h (the same text stands in common.h and l4-common.h of lab07): the loops that
-- read and write a whole buffer through calls that may transfer less, and `add_new_client`.
pub mod Read
pub mod Write
mod Tests
use sop.Prelude.{
  ℕ, zero, suc, ◌+◌, ◌-◌, List, [], ◌++◌, Bool, true, false, Option, none, some, length, take, drop,
  if◌then◌else◌, ◌==◌, ltb, ◌||◌,
}

-- What a call of `read` or `write` reports after TEMP_FAILURE_RETRY, with the state of the outside
-- world after it: `none` for -1.
abbrev pub Reading {ℓ} : Type ℓ → Type ℓ
Reading W = W → ℕ → Option (List ℕ) × W

abbrev pub Writing {ℓ} : Type ℓ → Type ℓ
Writing W = W → List ℕ → Option ℕ × W

-- `bulk_read` with `got` read and `count` bytes to go. The outer `none` means that the fuel ran out;
-- the inner one is the result -1, else the bytes read are given, whose number is the result.
unfoldable pub bulk_read {ℓ} :
    {W : Type ℓ} → Reading W → ℕ → W → ℕ → List ℕ → Option (Option (List ℕ) × W)
bulk_read read zero w count got = none
bulk_read read (suc fuel) w count got =
    let (c, w') = read w count in
    elim c [
      | none ↦ some (none, w')
      | some bytes ↦
          let left = count - length bytes in
          let rest = bulk_read read fuel w' left (got ++ bytes) in
          if length bytes == 0
          then some (some got, w')
          else if ltb 0 left
          then rest
          else some (some (got ++ bytes), w')
    ]

-- `bulk_write` of the rest `buf` of the buffer, `len` bytes being written.
unfoldable pub bulk_write {ℓ} :
    {W : Type ℓ} → Writing W → ℕ → W → List ℕ → ℕ → Option (Option ℕ × W)
bulk_write write zero w buf len = none
bulk_write write (suc fuel) w buf len =
    let (c, w') = write w buf in
    elim c [
      | none ↦ some (none, w')
      | some n ↦
          let rest = bulk_write write fuel w' (drop n buf) (len + n) in
          if ltb 0 (length buf - n) then rest else some (some (len + n), w')
    ]

-- What `accept` reports, and what `add_new_client` makes of it: the descriptor; -1 (`some none`)
-- when there is no connection to accept; with another error ERR ends the process (`none`).
pub data Accepted : Type 0 where
  connection : ℕ → Accepted
  try_again : Accepted
  error : Accepted

unfoldable pub add_new_client : Accepted → Option (Option ℕ)
add_new_client (connection fd) = some (some fd)
add_new_client try_again = some none
add_new_client error = none
