-- ===== src/Channel/Calls.antt =====
-- The structure of channel.h, the calls of channel.c and the end of ops-double-processor.c.
use sop.Prelude.{ℕ, List, Bool, true, false, ◌++◌, if◌then◌else◌, ltb, take, drop}

-- CHANNEL_UNINITIALIZED, CHANNEL_EMPTY, CHANNEL_OCCUPIED, CHANNEL_DEPLETED
pub data Status : Type 0 where
  uninitialized empty occupied depleted : Status

-- `channel_t`, without the mutex and the condition variables.
pub record Channel : Type 0 where
  pub status : Status
  pub buf : List ℕ  -- `data`
  pub len : ℕ  -- `length`

-- CHANNEL_SIZE
abbrev pub channel_size : ℕ
channel_size = 4096

-- What a call does when it holds the mutex: wait, write past the end of `data`, or return.
pub data Reply {ℓ} (A : Type ℓ) : Type ℓ where
  blocked : Reply A
  overrun : Reply A
  done : A → Reply A

abbrev pub is_occupied : Status → Bool
is_occupied occupied = true
is_occupied _ = false

-- `memcpy` of the first `n` bytes of `src` to the start of `dst`
unfoldable pub memcpy : List ℕ → List ℕ → ℕ → List ℕ
memcpy dst src n = take n src ++ drop n dst

-- `channel_open`, once the memory is mapped: the first process to come initialises it.
unfoldable pub open_channel : Channel → Channel
open_channel c = elim c.status [ uninitialized ↦ record c { status = empty; len = 0 } | _ ↦ c ]

-- `channel_produce`; the number is its return value.
unfoldable pub produce : Channel → List ℕ → ℕ → Reply (ℕ × Channel)
produce c produced_data n =
    if is_occupied c.status
    then blocked
    else if ltb channel_size n
    then overrun
    else done (0, record c { status = occupied; buf = memcpy c.buf produced_data n; len = n })

-- `channel_consume`: its return value, the bytes copied out, and the channel after it.
unfoldable pub consume : Channel → Reply (ℕ × List ℕ × Channel)
consume c = elim c.status [
  | empty ↦ blocked
  | depleted ↦ done (1, List.[], c)
  | _ ↦ done (0, take c.len c.buf, record c { status = empty })
]

-- The last critical section of ops-double-processor.c.
unfoldable pub deplete : Channel → Channel
deplete c = record c { status = depleted }
