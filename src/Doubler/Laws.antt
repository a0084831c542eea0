-- ===== src/Doubler/Laws.antt =====
-- The blocks that the doubler sends: their content, and their sizes.
use sop.Prelude.{
  ℕ, ◌+◌, ◌<◌, ◌≤◌, ◌≡◌, refl, sym, ◌∙◌, ap, List, [], ◌∷◌, ◌++◌, arith, length, take, set,
  append_assoc, append-nil, take-set_end, length-set, length-take, Bool-cases, inl, inr, ◌==◌, ltb,
  flatten, flatten-append_one,
}
use sop.Channel.{channel_size}
use sop.Doubler.{Doubler, send_rest, put_byte, double_bytes, double_block, double_blocks}

-- Every element, twice.
pub duplicate : List ℕ → List ℕ
duplicate [] = []
duplicate (b ∷ bs) = b ∷ b ∷ duplicate bs

-- A block that `channel_produce` can take whole, and that is not empty.
abbrev pub Fits : List ℕ → Type 0
Fits block = (0 < length block) × (length block ≤ channel_size)

abbrev pub All {ℓ κ} : {A : Type ℓ} → (A → Type κ) → List A → Type κ
All P [] = Unit
All P (x ∷ xs) = P x × All P xs

All-snoc : (xs : List (List ℕ)) (x : List ℕ) → All Fits xs → Fits x → All Fits (xs ++ x ∷ [])
All-snoc [] x a f = (f, tt)
All-snoc (y ∷ ys) x a f = (a.0, All-snoc ys x a.1 f)

-- What has gone out and what waits in the buffer.
abbrev output : Doubler → List ℕ
output d = flatten d.produced ++ take d.out_len d.out_buf

record Inv (d : Doubler) : Type 0 where
  room : length d.out_buf ≡ channel_size
  short : d.out_len < channel_size
  fits : All Fits d.produced

put_byte-output : (b : ℕ) (d : Doubler) → Inv d → output (put_byte b d) ≡ output d ++ b ∷ []
unfolding put_byte
put_byte-output b d v = elim (Bool-cases (d.out_len + 1 == channel_size)) [
  | inl full ↦ rw (full) (rw (append-nil, flatten-append_one) (rw (written, append_assoc)))
  | inr more ↦ rw (more) (rw (written, append_assoc))
]
  where
    written : take (d.out_len + 1) (set d.out_buf d.out_len b) ≡ take d.out_len d.out_buf ++ b ∷ []
    written = take-set_end d.out_len d.out_buf b (omega arith)

filled :
    (b : ℕ) (d : Doubler)
    → Inv d
    → length (take (d.out_len + 1) (set d.out_buf d.out_len b)) ≡ d.out_len + 1
filled b d v = omega (
  arith,
  length-take (d.out_len + 1) (set d.out_buf d.out_len b),
  length-set d.out_buf d.out_len b,
)

put_byte-Inv : (b : ℕ) (d : Doubler) → Inv d → Inv (put_byte b d)
unfolding put_byte
put_byte-Inv b d v = elim (Bool-cases (d.out_len + 1 == channel_size)) [
  | inl full ↦ rw full (record {
    room = length-set d.out_buf d.out_len b ∙ v.room;
    short = omega arith;
    fits = All-snoc d.produced _ v.fits (ground (arith, filled b d v));
  })
  | inr more ↦ rw more (record {
    room = length-set d.out_buf d.out_len b ∙ v.room;
    short = ground arith;
    fits = v.fits;
  })
]

double_bytes-Inv : (bs : List ℕ) (d : Doubler) → Inv d → Inv (double_bytes bs d)
unfolding double_bytes
double_bytes-Inv [] d v = v
double_bytes-Inv (b ∷ bs) d v = double_bytes-Inv bs _ (put_byte-Inv b _ (put_byte-Inv b d v))

double_bytes-output :
    (bs : List ℕ) (d : Doubler) → Inv d → output (double_bytes bs d) ≡ output d ++ duplicate bs
unfolding double_bytes duplicate
double_bytes-output [] d v = sym (append-nil (output d))
double_bytes-output (b ∷ bs) d v =
    double_bytes-output bs _ (put_byte-Inv b _ once)
    ∙ ap (λ t. t ++ duplicate bs)
        (put_byte-output b _ once ∙ ap (λ t. t ++ b ∷ []) (put_byte-output b d v))
    ∙ simp append_assoc
  where
    once : Inv (put_byte b d)
    once = put_byte-Inv b d v

send_rest-Inv : (d : Doubler) → Inv d → Inv (send_rest d)
unfolding send_rest
send_rest-Inv d v = elim (Bool-cases (ltb 0 d.out_len)) [
  | inl more ↦ rw more (record {
    room = v.room;
    short = v.short;
    fits = All-snoc d.produced _ v.fits (ground (arith, length-take d.out_len d.out_buf));
  })
  | inr gone ↦ rw gone v
]

-- After `send_rest` everything is in the blocks.
send_rest-output : (d : Doubler) → flatten (send_rest d).produced ≡ output d
unfolding send_rest
send_rest-output d = elim (Bool-cases (ltb 0 d.out_len)) [
  | inl more ↦ rw more (flatten-append_one d.produced _)
  | inr gone ↦ rw gone (let e : d.out_len ≡ 0 = ground arith in rw e (sym (append-nil _)))
]

restart-Inv : (d : Doubler) → Inv d → Inv (record d { out_len = 0 })
restart-Inv d v = record { room = v.room; short = omega arith; fits = v.fits }

double_block-Inv : (bs : List ℕ) (d : Doubler) → Inv d → Inv (double_block bs d)
unfolding double_block
double_block-Inv bs d v = send_rest-Inv _ (double_bytes-Inv bs _ (restart-Inv d v))

double_block-output :
    (bs : List ℕ) (d : Doubler)
    → Inv d
    → flatten (double_block bs d).produced ≡ flatten d.produced ++ duplicate bs
unfolding double_block
double_block-output bs d v =
    send_rest-output _
    ∙ double_bytes-output bs _ (restart-Inv d v)
    ∙ ap (λ t. t ++ duplicate bs) (append-nil (flatten d.produced))

duplicate-append : (xs ys : List ℕ) → duplicate (xs ++ ys) ≡ duplicate xs ++ duplicate ys
unfolding duplicate
duplicate-append [] ys = refl
duplicate-append (x ∷ xs) ys = ap (λ t. x ∷ x ∷ t) (duplicate-append xs ys)

double_blocks-output :
    (blocks : List (List ℕ)) (d : Doubler)
    → Inv d
    → flatten (double_blocks blocks d).produced ≡ flatten d.produced ++ duplicate (flatten blocks)
unfolding double_blocks duplicate flatten
double_blocks-output [] d v = sym (append-nil (flatten d.produced))
double_blocks-output (bs ∷ rest) d v =
    double_blocks-output rest _ (double_block-Inv bs d v)
    ∙ ap (λ t. t ++ duplicate (flatten rest)) (double_block-output bs d v)
    ∙ append_assoc (flatten d.produced) (duplicate bs) (duplicate (flatten rest))
    ∙ ap (λ t. flatten d.produced ++ t) (sym (duplicate-append bs (flatten rest)))

double_blocks-Fits :
    (blocks : List (List ℕ)) (d : Doubler) → Inv d → All Fits (double_blocks blocks d).produced
unfolding double_blocks
double_blocks-Fits [] d v = v.fits
double_blocks-Fits (bs ∷ rest) d v = double_blocks-Fits rest _ (double_block-Inv bs d v)

-- `main` at the start of the loop: the buffer holds CHANNEL_SIZE bytes, whatever they are.
abbrev pub doubler : List ℕ → Doubler
doubler buf = record { out_buf = buf; out_len = 0; produced = [] }

-- Whatever blocks are consumed, and whatever the buffer of CHANNEL_SIZE bytes holds at first: the
-- blocks sent to the output channel, put together, are the bytes of the consumed blocks, put
-- together, each of them twice; and no block sent is empty or longer than CHANNEL_SIZE.
pub double_blocks_lem :
    (blocks : List (List ℕ)) (buf : List ℕ)
    → length buf ≡ channel_size
    → (flatten (double_blocks blocks (doubler buf)).produced ≡ duplicate (flatten blocks))
      × All Fits (double_blocks blocks (doubler buf)).produced
unfolding duplicate flatten
double_blocks_lem blocks buf room =
    (double_blocks-output blocks _ fresh, double_blocks-Fits blocks _ fresh)
  where
    fresh : Inv (doubler buf)
    fresh = record { room = room; short = omega arith; fits = tt }
