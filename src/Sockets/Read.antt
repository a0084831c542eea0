-- ===== src/Sockets/Read.antt =====
-- `bulk_read` ends, and reads what there is.
use sop.Prelude.{
  ℕ, zero, suc, ◌+◌, ◌-◌, ◌<◌, ◌≤◌, ◌≡◌, refl, sym, ap, ◌∙◌, List, [], ◌∷◌, ◌++◌, arith, true,
  false, Option, none, some, length, take, drop, ◌==◌, ltb, Bool-cases, inl, inr, length-take,
  append-nil, append_assoc, length-append, Option-cases, take-nil, drop-nil, some-eq,
}
use Prim.Native.Nat.{min}
use sop.Sockets.{Reading, bulk_read}

-- `read` gives no more bytes than it is asked for.
abbrev pub Bounded {ℓ} : {W : Type ℓ} → Reading W → Type ℓ
Bounded {W} read = (w : W) (c : ℕ) (bytes : List ℕ) → (read w c).0 ≡ some bytes → length bytes ≤ c

-- The result of the loop, started with `got` read and `count` to go.
abbrev pub Outcome : ℕ → List ℕ → Option (List ℕ) → Type 0
Outcome count got none = Unit
Outcome count got (some all) = (length got ≤ length all) × (length all ≤ length got + count)

wider :
    (r : Option (List ℕ)) (got bytes : List ℕ) (count : ℕ)
    → length bytes ≤ count
    → Outcome (count - length bytes) (got ++ bytes) r
    → Outcome count got r
wider none got bytes count h o = tt
wider (some all) got bytes count h o =
    (omega (arith, length-append got bytes), omega (arith, length-append got bytes))

module _ {ℓ} {W : Type ℓ} (read : Reading W) where
  bulk_read_failed :
      (fuel : ℕ) (w : W) (count : ℕ) (got : List ℕ)
      → (read w count).0 ≡ none
      → bulk_read read (suc fuel) w count got ≡ some (none, (read w count).1)
  unfolding bulk_read
  bulk_read_failed fuel w count got e = rw (e, bulk_read)

  bulk_read_end :
      (fuel : ℕ) (w : W) (count : ℕ) (got bytes : List ℕ)
      → (read w count).0 ≡ some bytes
      → (length bytes == 0) ≡ true
      → bulk_read read (suc fuel) w count got ≡ some (some got, (read w count).1)
  unfolding bulk_read
  bulk_read_end fuel w count got bytes e z = rw (e, bulk_read) (rw z)

  bulk_read_last :
      (fuel : ℕ) (w : W) (count : ℕ) (got bytes : List ℕ)
      → (read w count).0 ≡ some bytes
      → (length bytes == 0) ≡ false
      → ltb 0 (count - length bytes) ≡ false
      → bulk_read read (suc fuel) w count got ≡ some (some (got ++ bytes), (read w count).1)
  unfolding bulk_read
  bulk_read_last fuel w count got bytes e z l = rw (e, bulk_read) (rw (z, l))

  bulk_read_more :
      (fuel : ℕ) (w : W) (count : ℕ) (got bytes : List ℕ)
      → (read w count).0 ≡ some bytes
      → (length bytes == 0) ≡ false
      → ltb 0 (count - length bytes) ≡ true
      → bulk_read read (suc fuel) w count got
        ≡ bulk_read read fuel (read w count).1 (count - length bytes) (got ++ bytes)
  unfolding bulk_read
  bulk_read_more fuel w count got bytes e z l = rw (e, bulk_read) (rw (z, l))

  -- If `read` never gives more bytes than it is asked for, then with fuel above the count
  -- `bulk_read` returns: with -1, or with at most `count` bytes added to what was read before.
  pub bulk_read-ends :
      Bounded read
      → (fuel : ℕ) (w : W) (count : ℕ) (got : List ℕ) → count < fuel
      → (r : Option (List ℕ)) × (w' : W) × (bulk_read read fuel w count got ≡ some (r, w'))
        × Outcome count got r
  bulk_read-ends ok zero w count got lt = elim lt [ ]
  bulk_read-ends ok (suc fuel) w count got lt = elim (Option-cases (read w count).0) [
    | inl failed ↦ (none, (read w count).1, bulk_read_failed fuel w count got failed, tt)
    | inr (bytes, e) ↦ elim (Bool-cases (length bytes == 0)) [
      | inl ended ↦ (
        some got,
        (read w count).1,
        bulk_read_end fuel w count got bytes e ended,
        (omega arith, omega arith),
      )
      | inr more ↦ elim (Bool-cases (ltb 0 (count - length bytes))) [
        | inl left ↦
            let (r, w', done, out) =
              bulk_read-ends ok fuel (read w count).1 (count - length bytes) (got ++ bytes)
                (ground arith) in
            (
              r,
              w',
              bulk_read_more fuel w count got bytes e more left ∙ done,
              wider r got bytes count (ok w count bytes e) out,
            )
        | inr full ↦ (
          some (got ++ bytes),
          (read w count).1,
          bulk_read_last fuel w count got bytes e more full,
          (
            omega (arith, length-append got bytes),
            omega (arith, length-append got bytes, ok w count bytes e),
          ),
        )
      ]
    ]
  ]

-- A file or connection with the bytes still in it and the number of calls so far, which gives at most
-- `size i + 1` bytes in call `i`, no more than it is asked for, and at least one as long as there are any.
pub stream : (ℕ → ℕ) → Reading (List ℕ × ℕ)
stream size (w, i) c =
    (some (take (min c (suc (size i))) w), (drop (min c (suc (size i))) w, suc i))

take-take-drop :
    (count m : ℕ) (w : List ℕ)
    → m ≤ count
    → take count w ≡ take m w ++ take (count - length (take m w)) (drop m w)
take-take-drop count zero w h = ap (λ k. take k w) (omega arith)
take-take-drop zero (suc m) w h = absurd (omega arith)
take-take-drop (suc count) (suc m) [] h = sym (take-nil ℕ (suc count - 0))
take-take-drop (suc count) (suc m) (x ∷ w) h =
    ap (λ t. x ∷ t)
      (take-take-drop count m w (omega arith)
        ∙ ap (λ k. take m w ++ take k (drop m w)) (omega arith))

drop-drop-take :
    (count m : ℕ) (w : List ℕ)
    → m ≤ count
    → drop count w ≡ drop (count - length (take m w)) (drop m w)
drop-drop-take count zero w h = ap (λ k. drop k w) (omega arith)
drop-drop-take zero (suc m) w h = absurd (omega arith)
drop-drop-take (suc count) (suc m) [] h = sym (drop-nil ℕ (suc count - 0))
drop-drop-take (suc count) (suc m) (x ∷ w) h =
    drop-drop-take count m w (omega arith) ∙ ap (λ k. drop k (drop m w)) (omega arith)

-- It gives no more than it is asked for.
pub stream-ok : (size : ℕ → ℕ) → Bounded (stream size)
unfolding stream
stream-ok size (w, i) c bytes e =
    rw (sym (some-eq e)) (let h = length-take (min c (suc (size i))) w in omega (arith, h))

abbrev finished : ℕ → List ℕ → List ℕ → Option (Option (List ℕ) × (List ℕ × ℕ))
finished j got w = some (some got, (w, j))

-- A `read` of nothing: the stream has run out.
nothing_left :
    (j : ℕ) (got : List ℕ) (m count : ℕ) (w : List ℕ)
    → 0 < m
    → (length (take m w) == 0) ≡ true
    → finished j got (drop m w) ≡ finished j (got ++ take count w) (drop count w)
nothing_left j got zero count w p e = elim p [ ]
nothing_left j got (suc m) count [] p e =
    rw (take-nil ℕ count, drop-nil ℕ count, append-nil got) refl
nothing_left j got (suc m) count (x ∷ w) p e = absurd (ground arith)

-- A `read` of the `m` bytes in front, and the rest of the loop.
some_read :
    (j : ℕ) (got : List ℕ) (m count : ℕ) (w : List ℕ)
    → m ≤ count
    → finished j
        ((got ++ take m w) ++ take (count - length (take m w)) (drop m w))
        (drop (count - length (take m w)) (drop m w))
      ≡ finished j (got ++ take count w) (drop count w)
some_read j got m count w h =
    rw (sym (drop-drop-take count m w h), append_assoc got)
      (ap (λ t. finished j (got ++ t) (drop count w)) (sym (take-take-drop count m w h)))

all_read :
    (j : ℕ) (got : List ℕ) (m count : ℕ) (w : List ℕ)
    → m ≤ count
    → count - length (take m w) ≡ 0
    → finished j (got ++ take m w) (drop m w) ≡ finished j (got ++ take count w) (drop count w)
all_read j got m count w h z =
    rw (take-take-drop count m w h, drop-drop-take count m w h, z, append-nil (take m w)) refl

-- From a file or connection whose calls of `read` give, as long as there are bytes, any number of
-- them from one up to what is asked for, which may be another one in each call, and never fail: with
-- fuel above the count, `bulk_read` of at least one byte returns the bytes in front, as many as were
-- asked for or as there are, after those read before, and leaves the others.
pub bulk_read-stream :
    (size : ℕ → ℕ) (fuel : ℕ) (w : List ℕ) (i count : ℕ) (got : List ℕ)
    → 0 < count
    → count < fuel
    → (j : ℕ) × (bulk_read (stream size) fuel (w, i) count got
        ≡ some (some (got ++ take count w), (drop count w, j)))
unfolding stream
bulk_read-stream size zero w i count got p lt = elim lt [ ]
bulk_read-stream size (suc fuel) w i count got p lt = elim (Bool-cases (length bytes == 0)) [
  | inl ended ↦ (
    suc i,
    bulk_read_end (stream size) fuel (w, i) count got bytes refl ended
        ∙ nothing_left (suc i) got m count w (omega arith) ended,
  )
  | inr more ↦ elim (Bool-cases (ltb 0 (count - length bytes))) [
    | inl left ↦
        let (j, rest) =
          bulk_read-stream size fuel (drop m w) (suc i) (count - length bytes) (got ++ bytes)
            (ground arith) (ground arith) in
        (
          j,
          bulk_read_more (stream size) fuel (w, i) count got bytes refl more left
              ∙ rest
              ∙ some_read j got m count w (omega arith),
        )
    | inr full ↦ (
      suc i,
      bulk_read_last (stream size) fuel (w, i) count got bytes refl more full
          ∙ all_read (suc i) got m count w (omega arith) (ground arith),
    )
  ]
]
  where
    m : ℕ
    m = min count (suc (size i))

    bytes : List ℕ
    bytes = take m w
