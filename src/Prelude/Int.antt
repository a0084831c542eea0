-- ===== src/Prelude/Int.antt =====
-- Signed integers over the native numbers, under the library's names (its ℤ stands on the unary ℕ).
-- Sums and orders go through the two parts of an integer, which are numbers that `omega` reads.
use sop.Prelude.{
  ℕ, suc, not, ◌%◌, ◌<◌, ◌∙◌, ap, ◌&&◌, ◌+◌, ◌-◌, ◌*◌, ◌≤◌, ◌≡◌, refl, ◌⊎◌, Bool, arith, ltb, leb,
  if◌then◌else◌,
}

-- `negsuc n` is -(n + 1).
pub data ℤ : Type 0 where
  pos : ℕ → ℤ
  negsuc : ℕ → ℤ

abbrev pub pos_part : ℤ → ℕ
pos_part (pos n) = n
pos_part (negsuc n) = 0

abbrev pub neg_part : ℤ → ℕ
neg_part (pos n) = 0
neg_part (negsuc n) = suc n

-- a - b, as an integer.
abbrev pub sub_ℕ : ℕ → ℕ → ℤ
sub_ℕ a b = if leb b a then pos (a - b) else negsuc (b - a - 1)

infixl 65 ◌+ℤ◌ ◌-ℤ◌
infixl 70 ◌*ℤ◌
infix 50 ◌≤ℤ◌
unfoldable pub ◌+ℤ◌ : ℤ → ℤ → ℤ
a +ℤ b = sub_ℕ (pos_part a + pos_part b) (neg_part a + neg_part b)

unfoldable pub ◌-ℤ◌ : ℤ → ℤ → ℤ
a -ℤ b = sub_ℕ (pos_part a + neg_part b) (neg_part a + pos_part b)

unfoldable pub ◌*ℤ◌ : ℤ → ℤ → ℤ
a *ℤ b =
    sub_ℕ (pos_part a * pos_part b + neg_part a * neg_part b)
      (pos_part a * neg_part b + neg_part a * pos_part b)

abbrev pub ◌≤ℤ◌ : ℤ → ℤ → Type 0
a ≤ℤ b = pos_part a + neg_part b ≤ pos_part b + neg_part a

abbrev pub ltb_ℤ : ℤ → ℤ → Bool
ltb_ℤ a b = ltb (pos_part a + neg_part b) (pos_part b + neg_part a)

-- With the operations unfolded `ground` splits on the signs.
pub +ℤ_comm : (a b : ℤ) → a +ℤ b ≡ b +ℤ a
unfolding ◌+ℤ◌
+ℤ_comm a b = ground arith

pub +ℤ_assoc : (a b c : ℤ) → a +ℤ b +ℤ c ≡ a +ℤ (b +ℤ c)
unfolding ◌+ℤ◌
+ℤ_assoc a b c = ground arith

pub +ℤ_cancel : (a b : ℤ) → a +ℤ b -ℤ b ≡ a
unfolding ◌+ℤ◌ ◌-ℤ◌
+ℤ_cancel a b = ground arith

pub ≤ℤ_total : (a b : ℤ) → (a ≤ℤ b) ⊎ (b ≤ℤ a)
≤ℤ_total a b = omega arith

-- One lemma for each operation lets `omega` work with the operations shut, at any depth.
pub +ℤ_parts :
    (a b : ℤ)
    → pos_part (a +ℤ b) + neg_part a + neg_part b ≡ neg_part (a +ℤ b) + pos_part a + pos_part b
unfolding ◌+ℤ◌
+ℤ_parts a b = ground arith

pub -ℤ_parts :
    (a b : ℤ)
    → pos_part (a -ℤ b) + neg_part a + pos_part b ≡ neg_part (a -ℤ b) + pos_part a + neg_part b
unfolding ◌-ℤ◌
-ℤ_parts a b = ground arith

pub eq_of_parts : (a b : ℤ) → pos_part a + neg_part b ≡ pos_part b + neg_part a → a ≡ b
eq_of_parts a b h = ground arith

-- `a == b`
unfoldable pub same_int : ℤ → ℤ → Bool
same_int a b = not (ltb_ℤ a b) && not (ltb_ℤ b a)

-- An int of 32 bits has so many values.
unfoldable pub int_range : ℕ
int_range = 4294967296

-- 2 ^ 31: one more than INT_MAX.
unfoldable pub int_limit : ℕ
int_limit = 2147483648

-- The int with these low 32 bits, and the bits of an int.
unfoldable pub int_value : ℕ → ℤ
unfolding int_range int_limit
int_value n = let r = n % int_range in if ltb r int_limit then pos r else negsuc (int_range - 1 - r)

unfoldable pub int_bits : ℤ → ℕ
unfolding int_range
int_bits (pos n) = n % int_range
int_bits (negsuc n) = int_range - 1 - n % int_range

-- `a + b` and `a * b` of ints, which wrap around.
unfoldable pub add_int : ℤ → ℤ → ℤ
add_int a b = int_value (int_bits a + int_bits b)

unfoldable pub mul_int : ℤ → ℤ → ℤ
mul_int a b = int_value (int_bits a * int_bits b)

pub int_value_small : (n : ℕ) → n < int_limit → int_value n ≡ pos n
unfolding int_value int_range int_limit
int_value_small n h = ground (arith, h)

int_bits-pos : (n : ℕ) → n < int_limit → int_bits (pos n) ≡ n
unfolding int_bits int_range int_limit
int_bits-pos n h = omega (arith, h)

-- A sum that fits an int.
pub add_int_small : (a b : ℕ) → a + b < int_limit → add_int (pos a) (pos b) ≡ pos (a + b)
unfolding add_int
add_int_small a b h =
    ap (λ x. int_value (x + int_bits (pos b))) (int_bits-pos a (omega (arith, h)))
    ∙ ap (λ x. int_value (a + x)) (int_bits-pos b (omega (arith, h)))
    ∙ int_value_small (a + b) h

pub mul_int_small :
    (a b : ℕ)
    → a < int_limit
    → b < int_limit
    → a * b < int_limit
    → mul_int (pos a) (pos b) ≡ pos (a * b)
unfolding mul_int
mul_int_small a b ha hb h =
    ap (λ x. int_value (x * int_bits (pos b))) (int_bits-pos a ha)
    ∙ ap (λ x. int_value (a * x)) (int_bits-pos b hb)
    ∙ int_value_small (a * b) h

int_value_mod : (m n : ℕ) → m % int_range ≡ n % int_range → int_value m ≡ int_value n
unfolding int_value
int_value_mod m n e = rw e refl

int_bits-int_value : (n : ℕ) → int_bits (int_value n) ≡ n % int_range
unfolding int_bits int_value int_range int_limit
int_bits-int_value n = ground arith

mod_sum : (m n : ℕ) → (m % int_range + n % int_range) % int_range ≡ (m + n) % int_range
unfolding int_range
mod_sum m n = omega arith

-- A sum may be wrapped at its end.
pub add_int-int_value : (m n : ℕ) → add_int (int_value m) (pos n) ≡ int_value (m + n)
unfolding add_int int_bits
add_int-int_value m n =
    ap (λ x. int_value (x + n % int_range)) (int_bits-int_value m)
    ∙ int_value_mod (m % int_range + n % int_range) (m + n) (mod_sum m n)
