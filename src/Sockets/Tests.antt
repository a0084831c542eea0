-- ===== src/Sockets/Tests.antt =====
-- A peer that sends six bytes, one, two, three and more at a time; one that takes two of each buffer.
use sop.Prelude.{ℕ, ◌≡◌, List, [], ◌∷◌, Option, some, arith}
use sop.Sockets.{bulk_read, bulk_write}
use sop.Sockets.Read.{stream, stream-ok, Outcome, bulk_read-ends, bulk_read-stream}
use sop.Sockets.Write.{sink, bulk_write-sink}

abbrev six : List ℕ
six = 1 ∷ 2 ∷ 3 ∷ 4 ∷ 5 ∷ 6 ∷ []

abbrev uneven : ℕ → ℕ
uneven i = i

read_returns :
    (r : Option (List ℕ)) × (w' : List ℕ × ℕ) × (bulk_read (stream uneven) 6 (six, 0) 5 []
      ≡ some (r, w'))
    × Outcome 5 [] r
read_returns = bulk_read-ends (stream uneven) (stream-ok uneven) 6 (six, 0) 5 [] (omega arith)

bulk_read-stream_example :
    (j : ℕ) × (bulk_read (stream uneven) 6 (six, 0) 5 []
      ≡ some (some (1 ∷ 2 ∷ 3 ∷ 4 ∷ 5 ∷ []), (6 ∷ [], j)))
bulk_read-stream_example = bulk_read-stream uneven 6 six 0 5 [] (omega arith) (omega arith)

all_written_out :
    bulk_write (sink (λ _. 1)) 4 (9 ∷ []) (1 ∷ 2 ∷ 3 ∷ []) 0 ≡ some (some 3, 9 ∷ 1 ∷ 2 ∷ 3 ∷ [])
all_written_out = bulk_write-sink (λ _. 1) 4 (9 ∷ []) (1 ∷ 2 ∷ 3 ∷ []) 0 (omega arith)
