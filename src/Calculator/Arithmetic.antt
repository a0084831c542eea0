-- ===== src/Calculator/Arithmetic.antt =====
-- What the client can rely on.
use sop.Prelude.{ℕ, ◌≡◌, ◌⊎◌, refl, arith, true, false, ◌==◌, inl, inr, ◌≢◌}
use sop.Prelude.Int.{ℤ, pos, negsuc, same_int}
use sop.Calculator.{answered, calculate}

-- A character that stands for no operation, and a division by 0, have status 0 and result -1.
pub calculate_refused :
    (op1 op2 : ℤ) (c : ℕ)
    → ((c ≢ b'+') × (c ≢ b'-') × (c ≢ b'*') × (c ≢ b'/'))
      ⊎ ((c ≡ b'/') × (same_int op2 (pos 0) ≡ true))
    → calculate op1 op2 c ≡ answered (negsuc 0) 0
unfolding calculate
calculate_refused op1 op2 c (inl (plus, minus, times, over)) =
    let p : (c == b'+') ≡ false = ground (arith, plus) in
    let m : (c == b'-') ≡ false = ground (arith, minus) in
    let t : (c == b'*') ≡ false = ground (arith, times) in
    let o : (c == b'/') ≡ false = ground (arith, over) in rw (p, m, t, o) refl
calculate_refused op1 op2 c (inr (over, zero_op)) = rw (over, zero_op) refl
