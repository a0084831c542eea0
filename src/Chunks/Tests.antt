-- ===== src/Chunks/Tests.antt =====
-- A file of four bytes; a server that knows address 7 and has one more slot.
use sop.Prelude.{
  ℕ, ◌≡◌, ◌⊎◌, inr, refl, List, [], ◌∷◌, ◌++◌, true, false, Option, none, some, arith,
  if◌then◌else◌, ◌==◌, map,
}
use sop.Prelude.Int.{pos, ltb_ℤ}
use sop.Chunks.Frame.{NonZero, frame, ntohl_at, to_int32}
use sop.Chunks.Server.{Connection, no_connection, find_index, Server, sent, serve, receive}
use sop.Chunks.Table.{Slot, NoTwin, active, expected, has_free, find_index_lem}
use sop.Chunks.Serve.{Served, serve_lem, serve_stray, number_of}
use sop.Chunks.Client.{Transmission, Numbered, contents, do_client, do_client_lem}
use sop.Chunks.Transfer.{Reads, receive-frame, serve_all, arrivals, line_of, transfer_lem}

abbrev connected : Connection
connected = record { free = false; chunk_no = pos 1; addr = 7 }

abbrev server : Server
server = record { con = connected ∷ no_connection ∷ []; buf = []; printed = []; replies = [] }

server-NoTwin : NoTwin server.con
unfolding active
server-NoTwin = (λ _. refl, (λ _. refl, tt))

address_found :
    ((i : ℕ) × (con : List Connection) × Slot 8 server.con i con)
    ⊎ (find_index 8 server.con ≡ (none, server.con))
      × (active 8 server.con ≡ false)
      × (has_free server.con ≡ false)
address_found = find_index_lem 8 server.con server-NoTwin

abbrev hello : List ℕ
hello = b'h' ∷ b'e' ∷ b'y' ∷ b'!' ∷ []

abbrev second : List ℕ
second = frame 2 true hello

one_free : has_free server.con ≡ true
unfolding has_free
one_free = refl

serve_lem_example :
    (t : Server) × (serve 7 second sent server ≡ some t)
    × Served 7 (receive second server.buf) server t
serve_lem_example = serve_lem 7 second server server-NoTwin (inr one_free)

eight_is_new : active 8 server.con ≡ false
unfolding active
eight_is_new = refl

second_is_later : ltb_ℤ (pos 1) (number_of (receive second server.buf)) ≡ true
unfolding receive frame ntohl_at to_int32
second_is_later = refl

serve_stray_example :
    (t : Server) × (serve 8 second sent server ≡ some t)
    × (t.printed ≡ server.printed)
    × (t.replies ≡ server.replies)
    × (active 8 t.con ≡ true)
serve_stray_example =
    serve_stray 8 second server server-NoTwin eight_is_new one_free second_is_later

-- The first attempt at each chunk is lost, the second one is confirmed.
abbrev heard : ℕ → ℕ → Option ℕ
heard n k = if k == 2 then some n else none

do_client_lem_example :
    Numbered 1 (do_client heard 5 hello 0) × (contents (do_client heard 5 hello 0) ≡ hello)
do_client_lem_example =
    do_client_lem heard hello (omega arith) (λ m. (2, omega arith, omega arith, refl))

abbrev two_chunks : List Transmission
two_chunks =
    record { number = 1; last = false; chunk = hello; sends = 2 }
    ∷ record { number = 2; last = true; chunk = hello; sends = 1 }
    ∷ []

hello-NonZero : NonZero hello
hello-NonZero = (omega arith, (omega arith, (omega arith, (omega arith, tt))))

transfer_lem_example :
    (t : Server) × (serve_all 8 (arrivals (λ _. 3) two_chunks) server ≡ some t)
    × (t.printed ≡ server.printed ++ map line_of two_chunks)
    × (expected 8 t.con ≡ pos 1)
unfolding expected
transfer_lem_example =
    transfer_lem (λ _. 3) 8 two_chunks server
      (
        refl,
        refl,
        omega arith,
        omega arith,
        omega arith,
        (refl, refl, omega arith, omega arith, omega arith),
      )
      (hello-NonZero, (hello-NonZero, tt)) (omega arith) server-NoTwin (inr one_free) refl

receive-frame_example : Reads 2 true hello (receive (frame 2 true hello) (1 ∷ 2 ∷ []))
receive-frame_example =
    receive-frame 2 true hello (1 ∷ 2 ∷ []) (omega arith) (omega arith)
      ((λ e. cc), ((λ e. cc), ((λ e. cc), ((λ e. cc), tt))))
