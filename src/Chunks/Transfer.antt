-- ===== src/Chunks/Transfer.antt =====
-- A whole transfer: what the client sends, repetitions included, as it arrives at the server.
use mathlib.Core.Path.{subst}
use sop.Prelude.{
  sym, ℕ, zero, suc, ◌+◌, ◌-◌, ◌^◌, take, take_all, length-append, length-replicate, ◌<◌, ◌≤◌, ◌≡◌,
  ◌⊎◌, inl, refl, ap, ◌∙◌, List, [], ◌∷◌, ◌++◌, arith, Bool, true, false, Option, some, length,
  drop, replicate, if◌then◌else◌, ◌>>=◌, append_assoc, map,
}
use sop.Prelude.Int.{same_int, pos, add_int, add_int_small, int_limit}
use sop.Chunks.Frame.{
  maxbuf, offset, frame, htonl, ntohl_at, ntohl_at-htonl, to_int32_small, text_of, text_of-append,
  NonZero,
}
use sop.Chunks.Server.{Part, sent, Server, receive, serve}
use sop.Chunks.Table.{active, expected, has_free, NoTwin}
use sop.Chunks.Serve.{number_of, is_last, part_of, is_next, serve_lem}
use sop.Chunks.Client.{Transmission, datagram, Numbered, room}

text_of-zeros :
    (chunk : List ℕ) (k : ℕ) (rest : List ℕ)
    → NonZero chunk
    → text_of (chunk ++ (replicate k 0 ++ 0 ∷ rest)) ≡ chunk
text_of-zeros chunk zero rest h = text_of-append chunk rest h
text_of-zeros chunk (suc k) rest h = text_of-append chunk (replicate k 0 ++ 0 ∷ rest) h

-- What the server reads from its buffer when a datagram of the client has come in.
pub record Reads (n : ℕ) (last : Bool) (chunk buf : List ℕ) : Type 0 where
  pub number : number_of buf ≡ pos n
  pub flag : is_last buf ≡ last
  pub text : text_of (drop offset buf) ≡ chunk

is_last-htonl :
    (last : Bool) (b0 b1 b2 b3 : ℕ) (rest : List ℕ)
    → is_last (b0 ∷ b1 ∷ b2 ∷ b3 ∷ (htonl (if last then 1 else 0) ++ rest)) ≡ last
unfolding ntohl_at
is_last-htonl true b0 b1 b2 b3 rest = refl
is_last-htonl false b0 b1 b2 b3 rest = refl

-- A datagram of the client is not cut.
whole :
    (n : ℕ) (last : Bool) (chunk : List ℕ)
    → length chunk ≤ room
    → take maxbuf (frame n last chunk) ≡ frame n last chunk
unfolding frame
whole n last chunk short = take_all maxbuf (frame n last chunk) (
    omega (
      arith,
      short,
      length-append chunk (replicate (maxbuf - offset - length chunk) 0),
      length-replicate {A = ℕ} (maxbuf - offset - length chunk) 0,
    ))

-- A datagram of the client, received by the server whatever was in its buffer, reads as what was put
-- into it: the number of the chunk, if it fits an int, the mark of the last chunk, and the text of the
-- chunk, if it fits the datagram and has no byte zero.
pub receive-frame :
    (n : ℕ) (last : Bool) (chunk buf : List ℕ)
    → n < 2 ^ 31
    → length chunk ≤ room
    → NonZero chunk
    → Reads n last chunk (receive (frame n last chunk) buf)
unfolding receive frame
receive-frame n last chunk buf small short nz = subst (Reads n last chunk) (sym all) (record {
  number = rw (ntohl_at-htonl n _ (omega arith)) (to_int32_small n small);
  flag = is_last-htonl last _ _ _ _ _;
  text = ap text_of (append_assoc chunk _ _) ∙ text_of-zeros chunk _ _ nz;
})
  where
    all :
        receive (frame n last chunk) buf
        ≡ frame n last chunk ++ 0 ∷ drop (length (frame n last chunk) + 1) buf
    all = ap (λ d. d ++ 0 ∷ drop (length d + 1) buf) (whole n last chunk short)

-- The line that the server prints for a chunk.
abbrev pub line_of : Transmission → Part
line_of x = record { last = x.last; number = pos x.number; text = x.chunk }

-- A run of datagrams from one address, each of them confirmed.
pub serve_all : ℕ → List (List ℕ) → Server → Option Server
serve_all a [] s = some s
serve_all a (d ∷ ds) s = serve a d sent s >>= serve_all a ds

same_int_refl : (n : ℕ) → same_int (pos n) (pos n) ≡ true
unfolding same_int
same_int_refl n = ground arith

same_int_next : (n : ℕ) → same_int (pos n) (pos (n + 1)) ≡ false
unfolding same_int
same_int_next n = ground arith

next_int : (n : ℕ) → n + 1 < 2 ^ 31 → add_int (pos n) (pos 1) ≡ pos (n + 1)
unfolding int_limit
next_int n h = add_int_small n 1 h

-- The server is ready for the chunks of `a` from `n` on.
record Ready (a n : ℕ) (s : Server) : Type 0 where
  twins : NoTwin s.con
  place : (active a s.con ≡ true) ⊎ (has_free s.con ≡ true)
  next : expected a s.con ≡ pos n

-- The expected chunk comes in.
arrive :
    (a : ℕ) (x : Transmission) (s : Server) (n : ℕ)
    → Ready a n s
    → x.number ≡ n
    → n < 2 ^ 31
    → length x.chunk ≤ room
    → NonZero x.chunk
    → (t : Server) × (serve a (datagram x) sent s ≡ some t)
      × (t.printed ≡ s.printed ++ line_of x ∷ [])
      × (x.last ≡ false → n + 1 < 2 ^ 31 → Ready a (n + 1) t × (active a t.con ≡ true))
      × (x.last ≡ true → expected a t.con ≡ pos 1)
arrive a x s n r e small short nz =
    let (t, went, o) = serve_lem a (datagram x) s r.twins r.place in
    (
      t,
      went,
      o.printed ∙ rw next (ap (λ p. s.printed ++ p ∷ []) line),
      (λ more small_next.
          let here : active a t.con ≡ true = o.known ∙ rw (next, got.flag, more) in
          (
            record {
              twins = o.twins;
              place = inl here;
              next =
                  o.next
                  ∙ rw (next, got.flag, more)
                      (ap (λ k. add_int k (pos 1)) r.next ∙ next_int n small_next);
            },
            here,
          )),
      (λ end. o.next ∙ rw (next, got.flag, end)),
    )
  where
    got : Reads x.number x.last x.chunk (receive (datagram x) s.buf)
    got = receive-frame x.number x.last x.chunk s.buf (omega arith) short nz

    next : is_next a (receive (datagram x) s.buf) s.con ≡ true
    next = rw (got.number, r.next, e) (same_int_refl n)

    line : part_of (receive (datagram x) s.buf) ≡ line_of x
    line = λ i. record { last = got.flag i; number = got.number i; text = got.text i }

-- A chunk that came in before comes once more.
arrive_again :
    (a : ℕ) (x : Transmission) (s : Server) (n : ℕ)
    → Ready a (n + 1) s
    → active a s.con ≡ true
    → x.number ≡ n
    → n < 2 ^ 31
    → length x.chunk ≤ room
    → NonZero x.chunk
    → (t : Server) × (serve a (datagram x) sent s ≡ some t)
      × (t.printed ≡ s.printed)
      × Ready a (n + 1) t
      × (active a t.con ≡ true)
arrive_again a x s n r known e small short nz =
    let (t, went, o) = serve_lem a (datagram x) s r.twins r.place in
    let here : active a t.con ≡ true = o.known ∙ rw old in
    (
      t,
      went,
      o.printed ∙ rw old,
      record { twins = o.twins; place = inl here; next = o.next ∙ rw old r.next },
      here,
    )
  where
    got : Reads x.number x.last x.chunk (receive (datagram x) s.buf)
    got = receive-frame x.number x.last x.chunk s.buf (omega arith) short nz

    old : is_next a (receive (datagram x) s.buf) s.con ≡ false
    old = rw (got.number, r.next, e) (same_int_next n)

-- So may further copies of it.
arrive_copies :
    (k : ℕ) (a : ℕ) (x : Transmission) (rest : List (List ℕ)) (s : Server) (n : ℕ)
    → Ready a (n + 1) s
    → active a s.con ≡ true
    → x.number ≡ n
    → n < 2 ^ 31
    → length x.chunk ≤ room
    → NonZero x.chunk
    → (t : Server) × (serve_all a (replicate k (datagram x) ++ rest) s ≡ serve_all a rest t)
      × (t.printed ≡ s.printed)
      × Ready a (n + 1) t
unfolding serve_all
arrive_copies zero a x rest s n r known e small short nz = (s, refl, refl, r)
arrive_copies (suc k) a x rest s n r known e small short nz =
    let (m, went, quiet, r', known') = arrive_again a x s n r known e small short nz in
    let (t, more, quiet', r'') = arrive_copies k a x rest m n r' known' e small short nz in
    (t, rw went more, quiet' ∙ quiet, r'')

-- What arrives: each datagram in order, any number of further copies of it right behind it, but
-- none of the last one.
pub arrivals : (ℕ → ℕ) → List Transmission → List (List ℕ)
arrivals extra [] = []
arrivals extra (x ∷ []) = datagram x ∷ []
arrivals extra (x ∷ y ∷ rest) =
    datagram x ∷ (replicate (extra x.number) (datagram x) ++ arrivals extra (y ∷ rest))

abbrev pub AllNonZero : List Transmission → Type 0
AllNonZero [] = Unit
AllNonZero (x ∷ xs) = NonZero x.chunk × AllNonZero xs

transfer_from :
    (extra : ℕ → ℕ) (a : ℕ) (xs : List Transmission) (n : ℕ) (s : Server)
    → Numbered n xs
    → AllNonZero xs
    → n + length xs < 2 ^ 31
    → Ready a n s
    → (t : Server) × (serve_all a (arrivals extra xs) s ≡ some t)
      × (t.printed ≡ s.printed ++ map line_of xs)
      × (expected a t.con ≡ pos 1)
unfolding arrivals serve_all
transfer_from extra a [] n s num nz small r = absurd num
transfer_from extra a (x ∷ []) n s num nz small r =
    let (t, went, out, more, end) = arrive a x s n r num.0 (omega arith) num.2 nz.0 in
    (t, rw went, out, end num.1)
transfer_from extra a (x ∷ y ∷ rest) n s num nz small r =
    let (m, went, out, more, end) = arrive a x s n r num.0 (omega arith) num.2 nz.0 in
    let (r', known) = more num.1 (omega arith) in
    let (m', copies, quiet, r'') =
      arrive_copies (extra x.number) a x (arrivals extra (y ∷ rest)) m n r' known num.0
        (omega arith) num.2 nz.0 in
    let (t, rest_went, printed, done) =
      transfer_from extra a (y ∷ rest) (n + 1) m' num.5 nz.1 (omega arith) r'' in
    (
      t,
      rw went (copies ∙ rest_went),
      printed ∙ ap (λ p. p ++ map line_of (y ∷ rest)) (quiet ∙ out) ∙ append_assoc s.printed _ _,
      done,
    )

-- A transfer by datagrams that may be repeated on their way. Chunks numbered from 1 on without a
-- gap, fewer than 2^31, none too long, none with a NUL byte, with the flag on the last one alone:
-- if they reach the server in order from one address, each one but the last any number of times in
-- a row, no other datagram comes between, every confirmation is sent, no address has two slots, the
-- sender has one or some slot is free, and 1 is expected of it, then the server prints each chunk's
-- line once, in order, and expects 1 of that address again.
pub transfer_lem :
    (extra : ℕ → ℕ) (a : ℕ) (xs : List Transmission) (s : Server)
    → Numbered 1 xs
    → AllNonZero xs
    → 1 + length xs < 2 ^ 31
    → NoTwin s.con
    → (active a s.con ≡ true) ⊎ (has_free s.con ≡ true)
    → expected a s.con ≡ pos 1
    → (t : Server) × (serve_all a (arrivals extra xs) s ≡ some t)
      × (t.printed ≡ s.printed ++ map line_of xs)
      × (expected a t.con ≡ pos 1)
transfer_lem extra a xs s num nz small twins place next =
    transfer_from extra a xs 1 s num nz small (record { twins = twins; place = place; next = next })
