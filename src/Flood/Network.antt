-- ===== src/Flood/Network.antt =====
-- The government and the provinces, a step at a time, until the FIFO ends or SIGINT comes.
use sop.Prelude.{ℕ, ◌≡◌, List, [], ◌∷◌, ◌++◌, Bool, true, false, Option, none, some, ◌==◌, ◌&&◌}
use sop.Flood.{Graph, Hop, Flood, receive, is_directive, direct}

abbrev pub same_sender : Option ℕ → Option ℕ → Bool
same_sender none none = true
same_sender none (some j) = false
same_sender (some i) none = false
same_sender (some i) (some j) = i == j

-- None of these is in the pipe of the hop.
abbrev pub IsFirst : List Hop → Hop → Type 0
IsFirst [] h = Unit
IsFirst (g ∷ gs) h = ((same_sender g.from h.from && (g.to == h.to)) ≡ false) × IsFirst gs h

-- The government sends a letter that is typed.
pub data Directs (s : Flood) (c : ℕ) : Flood → Type 0 where
  directs : is_directive c ≡ true → Directs s c (direct c s)

-- A province reads the first letter of a pipe.
pub data Reads (g : Graph) (s : Flood) : Flood → Type 0 where
  reads :
      (before : List Hop) (h : Hop) (after : List Hop)
      → s.flight ≡ before ++ h ∷ after
      → IsFirst before h
      → Reads g s (receive g h (before ++ after) s)

-- `last_char` is 0 at first.
abbrev pub start : Flood
start = record { flight = []; last_char = λ k. 0; sent = 0 }

-- The states that come about when only certain letters are typed.
pub data Reach (g : Graph) (Typed : ℕ → Type 0) : Flood → Type 0 where
  begin : Reach g Typed start
  more : {s t : Flood} (c : ℕ) → Reach g Typed s → Typed c → Directs s c t → Reach g Typed t
  next : {s t : Flood} → Reach g Typed s → Reads g s t → Reach g Typed t
