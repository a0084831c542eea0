-- ===== src/Routing/Network.antt =====
-- The government and the provinces, each a step at a time, until the FIFO ends or SIGINT comes.
use sop.Prelude.{
  ℕ, suc, ◌+◌, ◌≡◌, List, [], ◌∷◌, ◌++◌, Bool, true, false, ◌||◌, if◌then◌else◌, ltb, ◌==◌,
}
use sop.Routing.{Packet, Config, Source, boss, province, Hop, stays, lost, goes, relay}

-- What is in the pipes, each pipe in its order; the packets that a province has read and is writing to
-- its next pipe; the routes that the government has still to send for the last letter; the letters;
-- and `messages_relayed` of each province.
pub record Network : Type 0 where
  pub flight : List Hop
  pub held : List Hop
  pub pending : List Packet
  pub triggers : ℕ
  pub messages_relayed : ℕ → ℕ

abbrev pub bump : (ℕ → ℕ) → ℕ → ℕ → ℕ
bump f k = λ i. if i == k then f i + 1 else f i

abbrev pub from_boss : Packet → Hop
from_boss p = record { from = boss; to = 0; packet = p }

-- The pipe with this source and target.
abbrev pub same_source : Source → Source → Bool
same_source boss boss = true
same_source boss (province j) = false
same_source (province i) boss = false
same_source (province i) (province j) = i == j

-- None of these is in the pipe of the hop: the hop is the first in its pipe.
abbrev pub IsFirst : List Hop → Hop → Type 0
IsFirst [] h = Unit
IsFirst (g ∷ gs) h =
    ((if same_source g.from h.from then g.to == h.to else false) ≡ false) × IsFirst gs h

-- How many packets are in a pipe.
unfoldable pub in_pipe : Source → ℕ → List Hop → ℕ
in_pipe from to [] = 0
in_pipe from to (h ∷ hs) =
    let rest = in_pipe from to hs in
    if (if same_source h.from from then h.to == to else false) then rest + 1 else rest

-- None of these is being written by the province `k`.
abbrev pub NotWriting : ℕ → List Hop → Type 0
NotWriting k [] = Unit
NotWriting k (g ∷ gs) = (same_source g.from (province k) ≡ false) × NotWriting k gs

-- A province has read the packet of the hop.
abbrev pub after_read : Network → Hop → List Hop → Network
after_read s h rest = record s { flight = rest; messages_relayed = bump s.messages_relayed h.to }

-- `room` packets fit in a pipe: a `write` to a full one waits, and a province that is writing reads
-- nothing. Only the provinces that there are read.
pub data Step (cfg : Config) (room : ℕ) (s : Network) : Network → Type 0 where
  trigger :
      (c : ℕ)
      → s.pending ≡ []
      → ltb c b'a' || ltb b'z' c ≡ false
      → Step cfg room s (record s { pending = cfg.routes; triggers = suc s.triggers })
  sends :
      (p : Packet) (ps : List Packet)
      → s.pending ≡ p ∷ ps
      → ltb (in_pipe boss 0 s.flight) room ≡ true
      → Step cfg room s (record s { pending = ps; flight = s.flight ++ from_boss p ∷ [] })
  keeps_packet :
      (before : List Hop) (h : Hop) (after : List Hop)
      → s.flight ≡ before ++ h ∷ after
      → IsFirst before h
      → ltb h.to cfg.n_provinces ≡ true
      → NotWriting h.to s.held
      → relay cfg h.to h.packet ≡ stays
      → Step cfg room s (after_read s h (before ++ after))
  takes :
      (before : List Hop) (h : Hop) (after : List Hop) (g : Hop)
      → s.flight ≡ before ++ h ∷ after
      → IsFirst before h
      → ltb h.to cfg.n_provinces ≡ true
      → NotWriting h.to s.held
      → relay cfg h.to h.packet ≡ goes g
      → Step cfg room s (record (after_read s h (before ++ after)) { held = s.held ++ g ∷ [] })
  loses :
      (before : List Hop) (h : Hop) (after : List Hop)
      → s.flight ≡ before ++ h ∷ after
      → IsFirst before h
      → ltb h.to cfg.n_provinces ≡ true
      → NotWriting h.to s.held
      → relay cfg h.to h.packet ≡ lost
      → Step cfg room s (after_read s h (before ++ after))
  writes :
      (before : List Hop) (g : Hop) (after : List Hop)
      → s.held ≡ before ++ g ∷ after
      → ltb (in_pipe g.from g.to s.flight) room ≡ true
      → Step cfg room s (record s { flight = s.flight ++ g ∷ []; held = before ++ after })

abbrev pub start : Network
start = record { flight = []; held = []; pending = []; triggers = 0; messages_relayed = λ k. 0 }

pub data Reach (cfg : Config) (room : ℕ) : Network → Type 0 where
  begin : Reach cfg room start
  next : {s t : Network} → Reach cfg room s → Step cfg room s t → Reach cfg room t
