-- ===== src/Chunks/Server.antt =====
-- l8-1_server.c: `findIndex` and the loop of `doServer`.
use sop.Prelude.{
  ℕ, ◌+◌, List, [], ◌∷◌, ◌++◌, Bool, true, false, not, ◌&&◌, Option, none, some, length, get_or,
  set, take, drop, if◌then◌else◌, ◌==◌,
}
use sop.Prelude.Int.{ℤ, pos, ltb_ℤ, same_int, add_int}
use sop.Chunks.Frame.{maxbuf, offset, ntohl_at, to_int32, text_of}

-- `struct connections`. An address is compared by `memcmp` only, so it is a number.
pub record Connection : Type 0 where
  pub free : Bool
  pub chunk_no : ℤ
  pub addr : ℕ

abbrev pub no_connection : Connection
no_connection = record { free = true; chunk_no = pos 0; addr = 0 }

-- The loop of `findIndex`, from index `i` on: `pos` and `empty` at its end, -1 being `none`.
unfoldable pub find_from : ℕ → List Connection → ℕ → Option ℕ → Option ℕ × Option ℕ
find_from a [] i empty = (none, empty)
find_from a (c ∷ cs) i empty =
    let rest = find_from a cs (i + 1) (if c.free then some i else empty) in
    if not c.free && c.addr == a then (some i, empty) else rest

-- `findIndex`, with the table after it.
unfoldable pub find_index : ℕ → List Connection → Option ℕ × List Connection
find_index a con =
    let (at, empty) = find_from a con 0 none in
    elim at [
      | some i ↦ (some i, con)
      | none ↦ elim empty [
        | some e ↦ (some e, set con e (record { free = false; chunk_no = pos 0; addr = a }))
        | none ↦ (none, con)
      ]
    ]

-- A line on the standard output: "Last Part" or "Part", the number, the text.
pub record Part : Type 0 where
  pub last : Bool
  pub number : ℤ
  pub text : List ℕ

-- What `sendto` reports: EPIPE and other errors are told apart.
pub data Sending : Type 0 where
  sent broken failed : Sending

-- The locals of `doServer`; the lines printed and the datagrams sent, in order.
pub record Server : Type 0 where
  pub con : List Connection
  pub buf : List ℕ
  pub printed : List Part
  pub replies : List (ℕ × List ℕ)

-- `recvfrom` writes the datagram, or its first MAXBUF bytes, to the start of `buf`, and a NUL is put
-- behind it.
unfoldable pub receive : List ℕ → List ℕ → List ℕ
receive datagram buf =
    let received = take maxbuf datagram in received ++ 0 ∷ drop (length received + 1) buf

-- `sendto` of the first MAXBUF bytes of `buf`, to connection `i`. After an error other than EPIPE
-- the process ends.
unfoldable pub reply : ℕ → ℕ → Sending → Server → Option Server
reply a i sending s = elim sending [
  | sent ↦ some (record s { replies = s.replies ++ (a, take maxbuf s.buf) ∷ [] })
  | broken ↦
      some (record s { con = set s.con i (record (get_or s.con i no_connection) { free = true }) })
  | failed ↦ none
]

-- The chunk is the next one of its connection: it is printed, and counted.
unfoldable pub accept : ℕ → ℤ → Server → Server
accept i n s =
    let c = get_or s.con i no_connection in
    let last = not (ntohl_at s.buf 4 == 0) in
    record s {
      con = set s.con i (record c { free = last; chunk_no = add_int c.chunk_no (pos 1) });
      printed =
          s.printed ++ record { last = last; number = n; text = text_of (drop offset s.buf) } ∷ [];
    }

-- What is done with a chunk of connection `i`.
unfoldable pub take_chunk : ℕ → ℕ → Sending → Server → Option Server
take_chunk a i sending s =
    let n = to_int32 (ntohl_at s.buf 0) in
    let next = add_int (get_or s.con i no_connection).chunk_no (pos 1) in
    if ltb_ℤ next n
    then some s
    else if same_int n next
    then reply a i sending (accept i n s)
    else reply a i sending s

-- One round of the loop of `doServer`, for a datagram of `a`.
unfoldable pub serve : ℕ → List ℕ → Sending → Server → Option Server
serve a datagram sending s =
    let (at, con) = find_index a s.con in
    let s' = record s { con = con; buf = receive datagram s.buf } in
    elim at [ none ↦ some s' | some i ↦ take_chunk a i sending s' ]
