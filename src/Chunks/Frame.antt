-- ===== src/Chunks/Frame.antt =====
-- A datagram: two 32-bit words in network order, the chunk's number and its "last" flag, and text.
use sop.Prelude.{
  ℕ, ◌+◌, ◌-◌, ◌*◌, ◌/◌, ◌%◌, ◌^◌, ◌<◌, ◌≡◌, ◌≢◌, refl, List, [], ◌∷◌, ◌++◌, arith, Bool, length,
  get_or, replicate, ltb, if◌then◌else◌, ◌==◌,
}
use sop.Prelude.Int.{ℤ, pos, negsuc}

abbrev pub maxbuf : ℕ
maxbuf = 576

abbrev pub offset : ℕ
offset = 8

-- `ntohl` of the word at `buf + i`
unfoldable pub ntohl_at : List ℕ → ℕ → ℕ
ntohl_at buf i =
    ((get_or buf i 0 * 256 + get_or buf (i + 1) 0) * 256 + get_or buf (i + 2) 0) * 256
    + get_or buf (i + 3) 0

-- The bytes of `htonl(v)`.
abbrev pub htonl : ℕ → List ℕ
htonl v = (v / 2 ^ 24 % 256) ∷ (v / 2 ^ 16 % 256) ∷ (v / 2 ^ 8 % 256) ∷ (v % 256) ∷ []

-- A 32-bit pattern read as `int32_t`.
unfoldable pub to_int32 : ℕ → ℤ
to_int32 v = if ltb v (2 ^ 31) then pos v else negsuc (2 ^ 32 - v - 1)

-- What `printf("%s")` prints: the bytes up to the first NUL.
unfoldable pub text_of : List ℕ → List ℕ
text_of [] = []
text_of (b ∷ bs) = let rest = text_of bs in if b == 0 then [] else b ∷ rest

abbrev pub NonZero : List ℕ → Type 0
NonZero [] = Unit
NonZero (b ∷ bs) = (b ≢ 0) × NonZero bs

-- `sendbuf`, once the client has filled it with the bytes read from the file.
unfoldable pub frame : ℕ → Bool → List ℕ → List ℕ
frame n last chunk =
    htonl n
    ++ (htonl (if last then 1 else 0) ++ (chunk ++ replicate (maxbuf - offset - length chunk) 0))

pub ntohl_at-htonl : (v : ℕ) (rest : List ℕ) → v < 2 ^ 32 → ntohl_at (htonl v ++ rest) 0 ≡ v
unfolding ntohl_at
ntohl_at-htonl v rest h = omega arith

pub text_of-append :
    (chunk : List ℕ) (rest : List ℕ) → NonZero chunk → text_of (chunk ++ 0 ∷ rest) ≡ chunk
unfolding text_of
text_of-append [] rest h = refl
text_of-append (b ∷ bs) rest h = ground (arith, text_of-append bs rest h.1)

pub to_int32_small : (v : ℕ) → v < 2 ^ 31 → to_int32 v ≡ pos v
unfolding to_int32
to_int32_small v h = ground arith
