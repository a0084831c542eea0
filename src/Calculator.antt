-- ===== src/Calculator.antt =====
-- lab07/l7/l7-1_server.c: the function `calculate` of the server.
pub mod Arithmetic
use sop.Prelude.{
  ℕ, zero, suc, ◌+◌, ◌-◌, ◌*◌, ◌/◌, ◌^◌, Bool, true, false, not, ◌&&◌, ◌||◌, if◌then◌else◌, ltb,
  leb, ◌==◌,
}
use sop.Prelude.Int.{ℤ, pos, negsuc, pos_part, neg_part, sub_ℕ, ◌+ℤ◌, ◌-ℤ◌, ◌*ℤ◌, ltb_ℤ, same_int}

-- Whether a number is an `int32_t`.
abbrev pub fits : ℤ → Bool
fits a = not (ltb_ℤ a (negsuc (2 ^ 31 - 1))) && ltb_ℤ a (pos (2 ^ 31))

-- `result` and `status`; an operation whose value is no `int32_t` is undefined in C.
pub data Outcome : Type 0 where
  answered : ℤ → ℕ → Outcome
  overflow : Outcome

abbrev pub checked : ℤ → Outcome
checked a = if fits a then answered a 1 else overflow

-- The division of C drops the fraction; the divisor is not 0.
pub quotient : ℤ → ℤ → ℤ
quotient a b =
    sub_ℕ
      (pos_part a / (pos_part b + neg_part b) * (if leb 1 (pos_part b) then 1 else 0)
        + neg_part a / (pos_part b + neg_part b) * (if leb 1 (neg_part b) then 1 else 0))
      (pos_part a / (pos_part b + neg_part b) * (if leb 1 (neg_part b) then 1 else 0)
        + neg_part a / (pos_part b + neg_part b) * (if leb 1 (pos_part b) then 1 else 0))

-- `calculate` for the operands and the operator's character.
pub calculate : ℤ → ℤ → ℕ → Outcome
calculate op1 op2 c =
    if c == b'+'
    then checked (op1 +ℤ op2)
    else (if c == b'-'
        then checked (op1 -ℤ op2)
        else (if c == b'*'
            then checked (op1 *ℤ op2)
            else (if c == b'/'
                then (if same_int op2 (pos 0)
                    then answered (negsuc 0) 0
                    else checked (quotient op1 op2))
                else answered (negsuc 0) 0)))
