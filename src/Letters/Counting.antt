-- ===== src/Letters/Counting.antt =====
-- What a child counts.
use sop.Prelude.{
  ℕ, zero, suc, ◌+◌, ◌-◌, ◌≤◌, ◌<◌, ◌≡◌, refl, sym, ap, ◌∙◌, List, [], ◌∷◌, arith, ◌==◌, length,
  get_or, take, drop, replicate, length-set, length-replicate, get_or-set_self, get_or-set_ne,
  Bool-cases, inl, inr,
}
use sop.Prelude.Count.{count, one_if}
use sop.Prelude.Int.{ℤ, pos, pos_part, ◌-ℤ◌, add_int, add_int_small, int_limit}
use sop.Letters.{signs_size, count_byte, count_bytes, program}

-- All the numbers are bytes.
abbrev pub Bytes : List ℕ → Type 0
Bytes [] = Unit
Bytes (b ∷ bs) = (b < signs_size) × Bytes bs

get_or-Bytes : (log : List ℕ) (i : ℕ) → Bytes log → get_or log i 0 < signs_size
get_or-Bytes [] i h = omega arith
get_or-Bytes (b ∷ bs) zero h = h.0
get_or-Bytes (b ∷ bs) (suc i) h = get_or-Bytes bs i h.1

-- The counters have these values.
abbrev Values : List ℤ → (ℕ → ℕ) → Type 0
Values signs f = (length signs ≡ signs_size) × ((c : ℕ) → get_or signs c (pos 0) ≡ pos (f c))

count_byte-Values :
    (signs : List ℤ) (f : ℕ → ℕ) (b : ℕ)
    → b < signs_size
    → f b + 1 < int_limit
    → Values signs f
    → Values (count_byte signs b) (λ c. f c + one_if c b)
count_byte-Values signs f b lt small (size, v) = (
  length-set signs b _ ∙ size,
  λ c. elim (Bool-cases (b == c)) [
    | inl e ↦
        let q : b ≡ c = ground arith in
        let one : f b + 1 ≡ f b + one_if b b = ground arith in
        rw (sym q) (
          get_or-set_self signs b _ (pos 0) (omega (arith, size, lt))
          ∙ ap (λ x. add_int x (pos 1)) (v b)
          ∙ add_int_small (f b) 1 small
          ∙ ap pos one)
    | inr ne ↦
        let none : f c ≡ f c + one_if c b = ground arith in
        get_or-set_ne signs b c _ (pos 0) (λ q. ground arith) ∙ v c ∙ ap pos none
  ],
)

count-drop :
    (c : ℕ) (log : List ℕ) (i n : ℕ)
    → i < length log
    → count c (take (suc n) (drop i log))
      ≡ one_if c (get_or log i 0) + count c (take n (drop (suc i) log))
unfolding count
count-drop c [] i n lt = elim lt [ ]
count-drop c (b ∷ bs) zero n lt = ground arith
count-drop c (b ∷ bs) (suc i) n lt = count-drop c bs i n (omega arith)

one_if_le : (c d : ℕ) → one_if c d ≤ 1
one_if_le c d = ground arith

count_bytes_lem :
    (n i : ℕ) (log : List ℕ) (signs : List ℤ) (f : ℕ → ℕ) (c : ℕ)
    → Bytes log
    → i + n ≤ length log
    → ((b : ℕ) → f b + n < int_limit)
    → Values signs f
    → get_or (count_bytes n (pos i) log signs) c (pos 0) ≡ pos (f c + count c (take n (drop i log)))
unfolding count_bytes count
count_bytes_lem zero i log signs f c bytes fits room v =
    let same : f c ≡ f c + 0 = omega arith in v.1 c ∙ ap pos same
count_bytes_lem (suc n) i log signs f c bytes fits room v =
    let b : ℕ = get_or log i 0 in
    let lt : b < signs_size = get_or-Bytes log i bytes in
    let whole : f c + one_if c b + count c (take n (drop (suc i) log))
        ≡ f c + count c (take (suc n) (drop i log)) =
      omega (arith, count-drop c log i n (omega (arith, fits))) in
    count_bytes_lem n (suc i) log (count_byte signs b) (λ d. f d + one_if d b) c bytes
      (omega (arith, fits)) (λ d. omega (arith, room d, one_if_le d b))
      (count_byte-Values signs f b lt (omega (arith, room b)) v)
    ∙ ap pos whole

get_or-replicate : (n i : ℕ) → get_or {A = ℤ} (replicate n (pos 0)) i (pos 0) ≡ pos 0
get_or-replicate zero i = refl
get_or-replicate (suc n) zero = refl
get_or-replicate (suc n) (suc i) = get_or-replicate n i

steps_lem : (a b : ℕ) → a ≤ b → pos_part (pos b -ℤ pos a) ≡ b - a
unfolding ◌-ℤ◌
steps_lem a b le = ground (arith, le)

zero_more : (n : ℕ) → 0 + n ≡ n
zero_more n = omega arith

-- A child counts its part.
pub program_lem :
    (log : List ℕ) (start end c : ℕ)
    → Bytes log
    → start ≤ end
    → end ≤ length log
    → length log < int_limit
    → get_or (program log (replicate signs_size (pos 0)) (pos start) (pos end)) c (pos 0)
      ≡ pos (count c (take (end - start) (drop start log)))
unfolding program
program_lem log start end c bytes ordered inside small =
    ap (λ n. get_or (count_bytes n (pos start) log (replicate signs_size (pos 0))) c (pos 0))
      (steps_lem start end ordered)
    ∙ count_bytes_lem (end - start) start log (replicate signs_size (pos 0)) (λ b. 0) c bytes
        (omega (arith, ordered, inside)) (λ b. omega (arith, inside, small))
        (length-replicate {A = ℤ} signs_size (pos 0), get_or-replicate signs_size)
    ∙ ap pos (zero_more (count c (take (end - start) (drop start log))))
