-- ===== src/Pids/Digits.antt =====
-- The sums are small, and the highest one is kept.
use sop.Prelude.{
  ℕ, zero, suc, ◌*◌, ◌/◌, ◌%◌, ◌<◌, ◌≤◌, ◌≡◌, refl, ap, List, [], ◌∷◌, ◌++◌, arith, false, some,
  length,
}
use sop.Prelude.Int.{pos, ltb_ℤ}
use sop.Pids.{pid_length, digit_sum, Server, bytes, delivered, htons, raise, answer, client_event}

pub digit_sum-bound : (n : ℕ) (buf : List ℕ) → digit_sum n buf ≤ 9 * n
unfolding digit_sum
digit_sum-bound zero buf = omega arith
digit_sum-bound (suc n) [] = omega arith
digit_sum-bound (suc n) (b ∷ bs) = ground (arith, digit_sum-bound n bs)

-- A message of PID_LENGTH bytes, when writing and closing succeed: the two bytes sent back are the sum
-- of its digits in network order, which is below 100 and so fits; the highest sum is at least that,
-- not below what it was, and one of the two; and the connection is closed.
pub client_event_lem :
    (fd : ℕ) (buf : List ℕ) (s : Server)
    → length buf ≡ pid_length
    → let sum = digit_sum pid_length buf in
      (t : Server) × (client_event fd (bytes buf) delivered s ≡ some t)
      × (t.answers ≡ s.answers ++ (fd, 0 ∷ sum ∷ []) ∷ [])
      × (sum < 100)
      × (ltb_ℤ t.highest_sum (pos sum) ≡ false)
      × (ltb_ℤ t.highest_sum s.highest_sum ≡ false)
      × (t.closed ≡ s.closed ++ fd ∷ [])
unfolding client_event answer
client_event_lem fd buf s whole = (
  record {
    highest_sum = raise s.highest_sum sum;
    closed = s.closed ++ fd ∷ [];
    answers = s.answers ++ (fd, htons sum) ∷ [];
  },
  rw whole refl,
  ap (λ p. s.answers ++ (fd, p) ∷ []) bytes_of_sum,
  small,
  (let h : ltb_ℤ (raise s.highest_sum sum) (pos sum) ≡ false = ground arith in h),
  (let h : ltb_ℤ (raise s.highest_sum sum) s.highest_sum ≡ false = ground arith in h),
  refl,
)
  where
    sum : ℕ
    sum = digit_sum pid_length buf

    small : sum < 100
    small = omega (arith, digit_sum-bound pid_length buf)

    bytes_of_sum : htons sum ≡ 0 ∷ sum ∷ []
    bytes_of_sum =
        let high : sum / 256 % 256 ≡ 0 = omega (arith, small) in
        let low : sum % 256 ≡ sum = omega (arith, small) in λ i. high i ∷ low i ∷ []
