-- ===== src/Flood/Tests.antt =====
-- Three provinces: edges from 0 to 1, and between 1 and 2 both ways.
use sop.Prelude.{ℕ, ◌<◌, ◌≡◌, refl, [], ◌∷◌, arith, Option, none, some}
use sop.Flood.{Graph, load_graph, Hop, Flood, spread, put, receive, direct}
use sop.Flood.Network.{directs, Reads, reads, start, Reach, begin, more, next}
use sop.Flood.Coverage.{first, onward, coverage}
use sop.Flood.Settling.{weight, settles}

abbrev three : Graph
three = record { n = 3; entries = 0 ∷ 1 ∷ 0 ∷ 0 ∷ 0 ∷ 1 ∷ 0 ∷ 1 ∷ 0 ∷ [] }

three_loaded : load_graph 3 three.entries ≡ some three
unfolding load_graph
three_loaded = refl

abbrev hop : Option ℕ → ℕ → ℕ → Hop
hop i j c = record { from = i; to = j; letter = c }

abbrev sent_a : Flood
sent_a = direct b'a' start

sent_a-Reach : Reach three (λ d. d ≡ b'a') sent_a
sent_a-Reach = more b'a' begin refl (directs refl)

abbrev through_a : Flood
through_a = record { flight = hop (some 0) 1 b'a' ∷ []; last_char = put (λ k. 0) 0 b'a'; sent = 1 }

read_a : Reads three sent_a through_a
unfolding spread
read_a = reads [] (hop none 0 b'a') [] refl tt

-- All have had the letter, and the last copy of it is dropped.
abbrev rest_a : Flood
rest_a = record { flight = []; last_char = put (put (put (λ k. 0) 0 b'a') 1 b'a') 2 b'a'; sent = 1 }

rest_a-Reach : Reach three (λ d. d ≡ b'a') rest_a
unfolding spread
rest_a-Reach =
    next
      (next (next (next sent_a-Reach read_a) (reads [] (hop (some 0) 1 b'a') [] refl tt))
        (reads [] (hop (some 1) 2 b'a') [] refl tt))
      (reads [] (hop (some 2) 1 b'a') [] refl tt)

coverage_example : rest_a.last_char 2 ≡ b'a'
coverage_example =
    coverage three b'a' rest_a 2 refl rest_a-Reach (omega arith) refl
      (onward 2 (onward 1 first (omega arith) refl) (omega arith) refl)

settles_example : weight three b'a' through_a < weight three b'a' sent_a
settles_example = settles three b'a' sent_a through_a (omega arith) refl sent_a-Reach read_a

-- Two letters on a cycle go around for ever: four reads lead back to the same state.
abbrev ab : Flood
ab = record {
  flight = hop (some 2) 1 b'a' ∷ hop (some 2) 1 b'b' ∷ [];
  last_char = put (put (put (λ k. 0) 0 b'b') 1 b'b') 2 b'b';
  sent = 2;
}

abbrev ab1 : Flood
ab1 = receive three (hop (some 2) 1 b'a') (hop (some 2) 1 b'b' ∷ []) ab

abbrev ab2 : Flood
ab2 = receive three (hop (some 2) 1 b'b') (hop (some 1) 2 b'a' ∷ []) ab1

abbrev ab3 : Flood
ab3 = receive three (hop (some 1) 2 b'a') (hop (some 1) 2 b'b' ∷ []) ab2

abbrev ab4 : Flood
ab4 = receive three (hop (some 1) 2 b'b') (hop (some 2) 1 b'a' ∷ []) ab3

goes_around :
    Reads three ab ab1
    × Reads three ab1 ab2
    × Reads three ab2 ab3
    × Reads three ab3 ab4
    × (ab4.flight ≡ ab.flight)
    × ((k : ℕ) → ab4.last_char k ≡ ab.last_char k)
unfolding spread
goes_around = (
  reads [] (hop (some 2) 1 b'a') (hop (some 2) 1 b'b' ∷ []) refl tt,
  reads [] (hop (some 2) 1 b'b') (hop (some 1) 2 b'a' ∷ []) refl tt,
  reads [] (hop (some 1) 2 b'a') (hop (some 1) 2 b'b' ∷ []) refl tt,
  reads [] (hop (some 1) 2 b'b') (hop (some 2) 1 b'a' ∷ []) refl tt,
  refl,
  λ k. ground arith,
)
