-- ===== src/Chunks/Serve.antt =====
-- One datagram at the server: what is printed, what is confirmed, and what is expected next.
use sop.Prelude.{
  ℕ, ◌≡◌, ◌≢◌, ◌⊎◌, inl, inr, ap, ◌∙◌, List, [], ◌∷◌, ◌++◌, arith, Bool, true, false, not, ◌&&◌,
  some, get_or, set, take, drop, if◌then◌else◌, ◌==◌, Bool-cases,
}
use sop.Prelude.Int.{same_int, ℤ, pos, ltb_ℤ, add_int}
use sop.Chunks.Frame.{maxbuf, offset, ntohl_at, to_int32, text_of}
use sop.Chunks.Server.{
  Connection, no_connection, find_index, Part, Sending, sent, Server, receive, reply, accept,
  take_chunk, serve,
}
use sop.Chunks.Table.{
  active, expected, has_free, NoTwin, Slot, find_index_lem, expected-set, expected-set_ne,
  set-NoTwin, active-set, expected_absent,
}

-- The number, the flag and the text of a datagram, as the server reads them from its buffer.
abbrev pub number_of : List ℕ → ℤ
number_of buf = to_int32 (ntohl_at buf 0)

abbrev pub is_last : List ℕ → Bool
is_last buf = not (ntohl_at buf 4 == 0)

abbrev pub part_of : List ℕ → Part
part_of buf = record {
  last = is_last buf;
  number = number_of buf;
  text = text_of (drop offset buf);
}

-- The chunk is the one expected of `a`; it is a later one.
abbrev pub is_next : ℕ → List ℕ → List Connection → Bool
is_next a buf con = same_int (number_of buf) (expected a con)

abbrev pub is_ahead : ℕ → List ℕ → List Connection → Bool
is_ahead a buf con = ltb_ℤ (expected a con) (number_of buf)

-- What the server has made of a datagram of `a`, `buf` being the buffer with the datagram in it,
-- if `sendto` does not fail.
pub record Served (a : ℕ) (buf : List ℕ) (s t : Server) : Type 0 where
  pub twins : NoTwin t.con
  pub printed :
      t.printed ≡ (if is_next a buf s.con then s.printed ++ part_of buf ∷ [] else s.printed)
  pub replies :
      t.replies
      ≡ (if is_ahead a buf s.con then s.replies else s.replies ++ (a, take maxbuf buf) ∷ [])
  pub next : expected a t.con ≡ (
      if is_next a buf s.con
      then (if is_last buf then pos 1 else add_int (expected a s.con) (pos 1))
      else expected a s.con)
  pub known : active a t.con ≡ not (is_next a buf s.con && is_last buf)
  pub others : (b : ℕ) → a ≢ b → expected b t.con ≡ expected b s.con

serve_found :
    (a : ℕ) (datagram : List ℕ) (sending : Sending) (s : Server) (i : ℕ) (con : List Connection)
    → find_index a s.con ≡ (some i, con)
    → serve a datagram sending s
      ≡ take_chunk a i sending (record s { con = con; buf = receive datagram s.buf })
unfolding serve
serve_found a datagram sending s i con e = ground arith

module _ (a i : ℕ) (e : ℤ) (s : Server)
    (next : add_int (get_or s.con i no_connection).chunk_no (pos 1) ≡ e) where
  take_chunk_ahead : ltb_ℤ e (number_of s.buf) ≡ true → take_chunk a i sent s ≡ some s
  unfolding take_chunk
  take_chunk_ahead h = rw (next, h)

  take_chunk_next :
      ltb_ℤ e (number_of s.buf) ≡ false
      → same_int (number_of s.buf) e ≡ true
      → take_chunk a i sent s ≡ reply a i sent (accept i (number_of s.buf) s)
  unfolding take_chunk
  take_chunk_next h g = rw (next, h, g)

  take_chunk_behind :
      ltb_ℤ e (number_of s.buf) ≡ false
      → same_int (number_of s.buf) e ≡ false
      → take_chunk a i sent s ≡ reply a i sent s
  unfolding take_chunk
  take_chunk_behind h g = rw (next, h, g)

ahead_not_next : (n e : ℤ) → ltb_ℤ e n ≡ true → same_int n e ≡ false
unfolding same_int
ahead_not_next n e h = ground arith

serve-Slot :
    (a : ℕ) (datagram : List ℕ) (s : Server) (i : ℕ) (con : List Connection)
    → Slot a s.con i con
    → (t : Server) × (serve a datagram sent s ≡ some t) × Served a (receive datagram s.buf) s t
unfolding reply accept
serve-Slot a datagram s i con f = elim (Bool-cases (is_ahead a buf s.con)) [
  | inl ahead ↦ (
    s',
    found ∙ take_chunk_ahead a i e s' f.next ahead,
    record {
      twins = f.twins;
      printed = rw (ahead_not_next (number_of buf) e ahead);
      replies = rw ahead;
      next = rw (ahead_not_next (number_of buf) e ahead) f.same;
      known = rw (ahead_not_next (number_of buf) e ahead) f.known;
      others = f.others;
    },
  )
  | inr not_ahead ↦ elim (Bool-cases (is_next a buf s.con)) [
    | inl next ↦ (
      record s {
        con = set con i c';
        buf = buf;
        printed = s.printed ++ part_of buf ∷ [];
        replies = s.replies ++ (a, take maxbuf buf) ∷ [];
      },
      found ∙ take_chunk_next a i e s' f.next not_ahead next,
      record {
        twins = set-NoTwin a c' f.address con i f.twins f.mine;
        printed = rw next;
        replies = rw not_ahead;
        next = rw next (
            expected-set a c' f.address con i f.twins f.mine
            ∙ ap (λ n. if is_last buf then pos 1 else add_int n (pos 1)) f.next);
        known = rw next (active-set a c' f.address con i f.twins f.mine);
        others = λ b ne. expected-set_ne a c' f.address b con i ne f.mine ∙ f.others b ne;
      },
    )
    | inr behind ↦ (
      record s { con = con; buf = buf; replies = s.replies ++ (a, take maxbuf buf) ∷ [] },
      found ∙ take_chunk_behind a i e s' f.next not_ahead behind,
      record {
        twins = f.twins;
        printed = rw behind;
        replies = rw not_ahead;
        next = rw behind f.same;
        known = rw behind f.known;
        others = f.others;
      },
    )
  ]
]
  where
    buf : List ℕ
    buf = receive datagram s.buf

    e : ℤ
    e = expected a s.con

    s' : Server
    s' = record s { con = con; buf = buf }

    c' : Connection
    c' =
        let c = get_or con i no_connection in
        record c { free = is_last buf; chunk_no = add_int c.chunk_no (pos 1) }

    found : serve a datagram sent s ≡ take_chunk a i sent s'
    found = serve_found a datagram sent s i con f.found

no_room {ℓ} : {A : Type ℓ} {x y : Bool} → x ≡ false → y ≡ false → (x ≡ true) ⊎ (y ≡ true) → A
no_room p q (inl h) = absurd (ground (arith, p, h))
no_room p q (inr h) = absurd (ground (arith, q, h))

-- If no address has two slots, the sender of a datagram has one or some slot is free, and `sendto`
-- succeeds, the server prints the datagram's text if, and only if, its number is the one expected of the sender, and then
-- expects the next one, or 1 if the chunk was the last; otherwise it expects what it did. It
-- sends the datagram back unless its number is above the expected one. What it expects of other
-- senders stays, and no address has two slots afterwards.
pub serve_lem :
    (a : ℕ) (datagram : List ℕ) (s : Server)
    → NoTwin s.con
    → (active a s.con ≡ true) ⊎ (has_free s.con ≡ true)
    → (t : Server) × (serve a datagram sent s ≡ some t) × Served a (receive datagram s.buf) s t
serve_lem a datagram s t room = elim (find_index_lem a s.con t) [
  | inl (i, con, f) ↦ serve-Slot a datagram s i con f
  | inr (_, new, full) ↦ no_room new full room
]

-- If no address has two slots, some slot is free and `sendto` would succeed: a chunk with a number
-- above 1 of a sender that has no slot, such as the last chunk of a longer transfer when it is sent
-- once more because its confirmation got lost, is neither printed nor sent back; but the sender
-- has a slot afterwards.
pub serve_stray :
    (a : ℕ) (datagram : List ℕ) (s : Server)
    → NoTwin s.con
    → active a s.con ≡ false
    → has_free s.con ≡ true
    → ltb_ℤ (pos 1) (number_of (receive datagram s.buf)) ≡ true
    → (t : Server) × (serve a datagram sent s ≡ some t)
      × (t.printed ≡ s.printed)
      × (t.replies ≡ s.replies)
      × (active a t.con ≡ true)
serve_stray a datagram s t new room ahead =
    let (u, e, r) = serve_lem a datagram s t (inr room) in
    (u, e, r.printed ∙ rw not_next, r.replies ∙ rw later, r.known ∙ rw not_next)
  where
    buf : List ℕ
    buf = receive datagram s.buf

    later : is_ahead a buf s.con ≡ true
    later = rw (expected_absent a s.con new) ahead

    not_next : is_next a buf s.con ≡ false
    not_next = ahead_not_next (number_of buf) (expected a s.con) later
