-- ===== src/Routing/Flight.antt =====
-- The packets in the pipes, and where they stand on their paths.
use sop.Prelude.{
  ℕ, zero, suc, ◌+◌, ◌≤◌, ◌≡◌, ◌≢◌, ◌⊎◌, refl, sym, ap, ◌∙◌, List, [], ◌∷◌, ◌++◌, arith, true, none,
  some, length, get_elem?, drop, ◌<◌, ltb, Bool-cases, Option-cases, inl, inr, some-eq,
}
use sop.Prelude.Count.{count, one_if}
use sop.Routing.{Packet, Config, pipes, province, Hop, stays, goes, write_next, relay}
use sop.Routing.Network.{bump, from_boss}
use sop.Routing.Loading.{Linked}

-- No number of the path is the one before it.
abbrev pub NoRepeat : List ℕ → Type 0
NoRepeat path = (i a b : ℕ) → get_elem? path i ≡ some a → get_elem? path (suc i) ≡ some b → a ≢ b

-- Every number of the path is below `n`.
abbrev pub Below : ℕ → List ℕ → Type 0
Below n path = (i a : ℕ) → get_elem? path i ≡ some a → a < n

-- A hop stands at its packet's place on the path, and what is left of the path has its pipes.
abbrev pub HopOk : Config → Hop → Type 0
HopOk cfg h =
    (get_elem? h.packet.path h.packet.current_step ≡ some h.to)
    × Linked (pipes cfg) h.packet.path
    × NoRepeat h.packet.path
    × Below cfg.n_provinces h.packet.path

abbrev pub Hops : Config → List Hop → Type 0
Hops cfg [] = Unit
Hops cfg (h ∷ hs) = HopOk cfg h × Hops cfg hs

abbrev pub Ready : Config → List Packet → Type 0
Ready cfg [] = Unit
Ready cfg (p ∷ ps) = HopOk cfg (from_boss p) × (p.current_step ≡ 0) × Ready cfg ps

-- How often the province `k` stands on what is left of a path, and of all of them.
abbrev pub left_of : ℕ → Packet → ℕ
left_of k p = count k (drop p.current_step p.path)

unfoldable pub left : ℕ → List Hop → ℕ
left k [] = 0
left k (h ∷ hs) = left_of k h.packet + left k hs

unfoldable pub ahead : ℕ → List Packet → ℕ
ahead k [] = 0
ahead k (p ∷ ps) = count k p.path + ahead k ps

pub left-append : (k : ℕ) (gs hs : List Hop) → left k (gs ++ hs) ≡ left k gs + left k hs
unfolding left
left-append k [] hs = omega arith
left-append k (g ∷ gs) hs = omega (arith, left-append k gs hs)

pub Hops-append :
    (cfg : Config) (gs hs : List Hop) → Hops cfg gs → Hops cfg hs → Hops cfg (gs ++ hs)
Hops-append cfg [] hs a b = b
Hops-append cfg (g ∷ gs) hs a b = (a.0, Hops-append cfg gs hs a.1 b)

Hops-left : (cfg : Config) (gs hs : List Hop) → Hops cfg (gs ++ hs) → Hops cfg gs
Hops-left cfg [] hs a = tt
Hops-left cfg (g ∷ gs) hs a = (a.0, Hops-left cfg gs hs a.1)

Hops-right : (cfg : Config) (gs hs : List Hop) → Hops cfg (gs ++ hs) → Hops cfg hs
Hops-right cfg [] hs a = a
Hops-right cfg (g ∷ gs) hs a = Hops-right cfg gs hs a.1

-- What stands at a place is counted, and then what comes after it.
count-drop :
    (k : ℕ) (xs : List ℕ) (i a : ℕ)
    → get_elem? xs i ≡ some a
    → count k (drop i xs) ≡ one_if k a + count k (drop (suc i) xs)
unfolding count
count-drop k [] i a e = cc
count-drop k (x ∷ xs) zero a e =
    let q : x ≡ a = some-eq e in
    rw (sym q)
      (let n : count k xs + one_if k x ≡ one_if k x + count k xs = omega arith in ground (arith, n))
count-drop k (x ∷ xs) (suc i) a e = count-drop k xs i a e

drop_end : (k : ℕ) (xs : List ℕ) (i : ℕ) → length xs ≤ i → count k (drop i xs) ≡ 0
unfolding count
drop_end k [] zero h = refl
drop_end k [] (suc i) h = refl
drop_end k (x ∷ xs) zero h = elim h [ ]
drop_end k (x ∷ xs) (suc i) h = drop_end k xs i (omega arith)

get_elem?-in : (xs : List ℕ) (i : ℕ) → get_elem? xs i ≡ none → length xs ≤ i
get_elem?-in [] i e = omega arith
get_elem?-in (x ∷ xs) zero e = cc
get_elem?-in (x ∷ xs) (suc i) e = omega (arith, get_elem?-in xs i e)

abbrev pub stepped : Packet → Packet
stepped p = record p { current_step = p.current_step + 1 }

abbrev pub next_hop : Hop → ℕ → Hop
next_hop h b = record { from = province h.to; to = b; packet = stepped h.packet }

-- A packet that stands on its path stays only at the end, and otherwise goes on to the next province
-- through a pipe that is there and read.
pub relay-HopOk :
    (cfg : Config) (h : Hop)
    → HopOk cfg h
    → ((relay cfg h.to h.packet ≡ stays) × (length h.packet.path ≤ h.packet.current_step + 1))
      ⊎ ((b : ℕ) × (relay cfg h.to h.packet ≡ goes (next_hop h b)) × HopOk cfg (next_hop h b))
unfolding relay
relay-HopOk cfg h (here, linked, apart, below) =
    let p : Packet = h.packet in
    elim (Bool-cases (ltb (p.current_step + 1) (length p.path))) [
      | inl more ↦ elim (Option-cases (get_elem? p.path (p.current_step + 1))) [
        | inl off ↦
            absurd
              (let n : ⊥ = ground (arith, get_elem?-in p.path (p.current_step + 1) off, more) in n)
        | inr (b, at) ↦
            let one : p.current_step + 1 ≡ suc p.current_step = omega arith in
            let after : get_elem? p.path (suc p.current_step) ≡ some b =
              ap (get_elem? p.path) (sym one) ∙ at in
            let edge : pipes cfg h.to b ≡ true = linked p.current_step h.to b here after in
            let ne : h.to ≢ b = apart p.current_step h.to b here after in
            let sent : write_next cfg h.to (stepped p) b ≡ goes (next_hop h b) =
              ground (arith, edge, ne) in
            inr (b, rw (more, at) sent, (at, linked, apart, below))
      ]
      | inr over ↦ inl (rw over refl, ground (arith, over))
    ]

-- A step along the path.
pub count-stepped :
    (k : ℕ) (p : Packet) (a : ℕ)
    → get_elem? p.path p.current_step ≡ some a
    → left_of k p ≡ one_if k a + left_of k (stepped p)
count-stepped k p a e =
    let one : p.current_step + 1 ≡ suc p.current_step = omega arith in
    count-drop k p.path p.current_step a e
    ∙ ap (λ i. one_if k a + count k (drop i p.path)) (sym one)

pub left-insert :
    (k : ℕ) (gs : List Hop) (h : Hop) (hs : List Hop)
    → left k (gs ++ h ∷ hs) ≡ left_of k h.packet + left k (gs ++ hs)
unfolding left
left-insert k gs h hs = omega (arith, left-append k gs (h ∷ hs), left-append k gs hs)

pub bump_one : (f : ℕ → ℕ) (j k : ℕ) → bump f j k ≡ f k + one_if k j
bump_one f j k = ground arith

-- A hop taken out of the flight.
pub without :
    (cfg : Config) (gs : List Hop) (h : Hop) (hs : List Hop)
    → Hops cfg (gs ++ h ∷ hs)
    → HopOk cfg h × Hops cfg (gs ++ hs)
without cfg gs h hs all =
    let rest = Hops-right cfg gs (h ∷ hs) all in
    (rest.0, Hops-append cfg gs hs (Hops-left cfg gs (h ∷ hs) all) rest.1)

-- The last step of a packet: what was left of its path is the province that has read it.
pub left_end :
    (k : ℕ) (cfg : Config) (h : Hop)
    → HopOk cfg h
    → length h.packet.path ≤ h.packet.current_step + 1
    → left_of k h.packet ≡ one_if k h.to
left_end k cfg h ok over = omega (
  arith,
  count-stepped k h.packet h.to ok.0,
  drop_end k h.packet.path (h.packet.current_step + 1) over,
)
