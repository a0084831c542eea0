-- ===== src/Chunks/Client.antt =====
-- l8-1_client.c: `doClient` and the attempts at one chunk.
use sop.Prelude.{
  ℕ, zero, suc, ◌+◌, ◌-◌, ◌/◌, ◌%◌, ◌^◌, ◌<◌, ◌≤◌, ◌≡◌, refl, sym, ap, ◌∙◌, List, [], ◌∷◌, ◌++◌,
  arith, Bool, true, false, not, ◌&&◌, Option, none, some, length, take, drop, if◌then◌else◌, ◌==◌,
  ltb, leb, Bool-cases, inl, inr, length-drop, length-take, take-append-drop, take_all, append-nil,
}
use sop.Prelude.Int.{int_range}
use sop.Chunks.Frame.{maxbuf, offset, frame}

-- The bytes of the file that one datagram carries.
abbrev pub room : ℕ
room = maxbuf - offset

-- `recvbuf` after an attempt: a confirmation overwrites it.
abbrev pub overwritten : Option ℕ → ℕ → ℕ
overwritten none recv = recv
overwritten (some m) recv = m

-- The attempts at chunk `n`: `heard k` is the number that the confirmation received after attempt
-- `k` holds, or `none` if the timer ran out. `recv` is the number in `recvbuf`, `counter` the
-- attempts so far. The result is the number of attempts and the number in `recvbuf`.
pub transmit : (ℕ → Option ℕ) → ℕ → ℕ → ℕ → ℕ → ℕ × ℕ
transmit heard zero counter recv n = (counter, recv)
transmit heard (suc left) counter recv n =
    let recv' = overwritten (heard (counter + 1)) recv in
    let rest = transmit heard left (counter + 1) recv' n in
    if not (recv' == n) && leb (counter + 1) 5 then rest else (counter + 1, recv')

-- One round of the outer loop: the chunk's number, its flag, its bytes, and how often it was sent.
pub record Transmission : Type 0 where
  pub number : ℕ
  pub last : Bool
  pub chunk : List ℕ
  pub sends : ℕ

-- `sendbuf`
abbrev pub datagram : Transmission → List ℕ
datagram x = frame x.number x.last x.chunk

-- `doClient` with `file` still to be read; `n` is `chunkNo`, an `int32_t`, as its 32 bits, which is all
-- that `htonl` takes of it. `heard n k` as above, for chunk `n`.
pub do_client : (ℕ → ℕ → Option ℕ) → ℕ → List ℕ → ℕ → List Transmission
do_client heard zero file n = []
do_client heard (suc fuel) file n =
    let chunk = take room file in
    let k = (n + 1) % int_range in
    let (sends, recv) = transmit (heard k) 6 0 0 k in
    let rest = do_client heard fuel (drop room file) k in
    record { number = k; last = ltb (length chunk) room; chunk = chunk; sends = sends }
    ∷ (if not (recv == k) && ltb 5 sends then [] else if length chunk == room then rest else [])

-- Some attempt out of six, after the first `counter`, is answered by a confirmation of `n`.
abbrev pub Confirmed : (ℕ → Option ℕ) → ℕ → ℕ → Type 0
Confirmed heard counter n = (k : ℕ) × (counter < k) × (k ≤ 6) × (heard k ≡ some n)

transmit-Confirmed :
    (heard : ℕ → Option ℕ) (left counter recv n : ℕ)
    → left + counter ≡ 6
    → Confirmed heard counter n
    → let out = transmit heard left counter recv n in (counter < out.0) × (out.0 ≤ 6) × (out.1 ≡ n)
unfolding transmit
transmit-Confirmed heard zero counter recv n e (k, after, six, h) = absurd (omega arith)
transmit-Confirmed heard (suc left) counter recv n e (k, after, six, h) =
    elim (Bool-cases (not (recv' == n) && leb (counter + 1) 5)) [
      | inl again ↦ rw again (
          let out =
            transmit-Confirmed heard left (counter + 1) recv' n (omega arith)
              (k, later again, six, h) in
          (omega (arith, out.0), out.1, out.2))
      | inr stop ↦ rw stop (omega arith, omega arith, stopped stop)
    ]
  where
    recv' : ℕ
    recv' = overwritten (heard (counter + 1)) recv

    now : k ≡ counter + 1 → recv' ≡ n
    now q = ap (λ o. overwritten o recv) (ap heard (sym q) ∙ h)

    later : (not (recv' == n) && leb (counter + 1) 5) ≡ true → counter + 1 < k
    later again = ground (arith, now)

    stopped : (not (recv' == n) && leb (counter + 1) 5) ≡ false → recv' ≡ n
    stopped stop = ground (arith, now)

-- Chunks with consecutive numbers from `n` on, none too long; the flag marks the last one, and each
-- one was sent at least once and at most six times.
abbrev pub Numbered : ℕ → List Transmission → Type 0
Numbered n [] = ⊥
Numbered n (x ∷ []) =
    (x.number ≡ n) × (x.last ≡ true) × (length x.chunk ≤ room) × (0 < x.sends) × (x.sends ≤ 6)
Numbered n (x ∷ y ∷ rest) =
    (x.number ≡ n)
    × (x.last ≡ false)
    × (length x.chunk ≤ room)
    × (0 < x.sends)
    × (x.sends ≤ 6)
    × Numbered (n + 1) (y ∷ rest)

pub contents : List Transmission → List ℕ
contents [] = []
contents (x ∷ xs) = x.chunk ++ contents xs

Numbered-cons :
    (n : ℕ) (x : Transmission) (rest : List Transmission)
    → (x.number ≡ n) × (x.last ≡ false) × (length x.chunk ≤ room) × (0 < x.sends) × (x.sends ≤ 6)
    → Numbered (n + 1) rest
    → Numbered n (x ∷ rest)
Numbered-cons n x [] h r = absurd r
Numbered-cons n x (y ∷ rest) h r = (h.0, h.1, h.2, h.3, h.4, r)

fewer_lem :
    (n l : ℕ) → room ≤ l → n + (l / room + 1) < 2 ^ 31 → n + 1 + ((l - room) / room + 1) < 2 ^ 31
fewer_lem n l long h = omega (arith, long, h)

wraps_not : (n : ℕ) → n + 1 < 2 ^ 31 → (n + 1) % int_range ≡ n + 1
unfolding int_range
wraps_not n h = omega (arith, h)

do_client-Numbered :
    (heard : ℕ → ℕ → Option ℕ)
    → ((m : ℕ) → Confirmed (heard m) 0 m)
    → (fuel : ℕ) (file : List ℕ) (n : ℕ) → length file < fuel
    → n + (length file / room + 1) < 2 ^ 31
    → Numbered (n + 1) (do_client heard fuel file n)
      × (contents (do_client heard fuel file n) ≡ file)
unfolding do_client contents
do_client-Numbered heard ok zero file n lt few = absurd (omega arith)
do_client-Numbered heard ok (suc fuel) file n lt few =
    rw next (elim (Bool-cases (length (take room file) == room)) [
      | inl full ↦
          let ih =
            do_client-Numbered heard ok fuel (drop room file) (n + 1) (shorter full) (fewer full) in
          rw (not_given_up, full)
            (
              Numbered-cons (n + 1) _ _ (refl, ground arith, fits, once.0, once.1) ih.0,
              ap (λ t. take room file ++ t) ih.1 ∙ take-append-drop room file,
            )
      | inr short ↦
          rw (not_given_up, short)
            (
              (refl, ground (arith, fits), fits, once.0, once.1),
              append-nil _ ∙ take_all room file (ended short),
            )
    ])
  where
    next : (n + 1) % int_range ≡ n + 1
    next = wraps_not n (omega (arith, few))

    fewer :
        (length (take room file) == room) ≡ true
        → n + 1 + (length (drop room file) / room + 1) < 2 ^ 31
    fewer full =
        let long : room ≤ length file = ground (arith, length-take room file) in
        rw (length-drop room file) (fewer_lem n (length file) long few)

    once :
        let out = transmit (heard (n + 1)) 6 0 0 (n + 1) in
        (0 < out.0) × (out.0 ≤ 6) × (out.1 ≡ n + 1)
    once = transmit-Confirmed (heard (n + 1)) 6 0 0 (n + 1) refl (ok (n + 1))

    not_given_up :
        (not ((transmit (heard (n + 1)) 6 0 0 (n + 1)).1 == n + 1)
          && ltb 5 (transmit (heard (n + 1)) 6 0 0 (n + 1)).0)
        ≡ false
    not_given_up = ground (arith, once.2)

    fits : length (take room file) ≤ room
    fits = omega (arith, length-take room file)

    shorter : (length (take room file) == room) ≡ true → length (drop room file) < fuel
    shorter full = ground (arith, length-take room file, length-drop room file)

    ended : (length (take room file) == room) ≡ false → length file ≤ room
    ended short = ground (arith, length-take room file)

-- The client sends the whole file. If the file makes fewer than 2 ^ 31 chunks, and each one is confirmed in one of the six attempts at it,
-- then, with fuel for one round more than the file has bytes, the chunks sent are numbered from 1
-- on without a gap, no one is longer than a datagram has room for, exactly the last one has the flag
-- set, each one is sent between one and six times, and their bytes put together are the file.
pub do_client_lem :
    (heard : ℕ → ℕ → Option ℕ) (file : List ℕ)
    → length file / room + 1 < 2 ^ 31
    → ((m : ℕ) → Confirmed (heard m) 0 m)
    → Numbered 1 (do_client heard (suc (length file)) file 0)
      × (contents (do_client heard (suc (length file)) file 0) ≡ file)
do_client_lem heard file few ok =
    do_client-Numbered heard ok (suc (length file)) file 0 (omega arith) (omega (arith, few))
