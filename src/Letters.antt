-- ===== src/Letters.antt =====
-- lab06/sop-1/sop-1.c: processes that count the bytes of the parts of a file.
pub mod Counting
pub mod Parts
pub mod Partition
mod Tests
use sop.Prelude.{
  ℕ, zero, suc, ◌+◌, ◌-◌, ◌*◌, ◌/◌, ◌%◌, List, [], ◌∷◌, Bool, true, false, ◌||◌, if◌then◌else◌, ltb,
  ◌==◌, length, get_or, set, replicate,
}
use sop.Prelude.Int.{ℤ, pos, negsuc, pos_part, ◌-ℤ◌, int_value, add_int, mul_int}

-- The number of counters, and that of processes that the shared memory has room for.
abbrev pub signs_size : ℕ
signs_size = 256

abbrev pub max_proc : ℕ
max_proc = 10

-- `signs->count[c]++`
abbrev pub count_byte : List ℤ → ℕ → List ℤ
count_byte signs c = set signs c (add_int (get_or signs c (pos 0)) (pos 1))

-- `log[i]`; outside of the file, where the read is a fault, the model has 0.
abbrev pub byte_at : List ℕ → ℤ → ℕ
byte_at log (pos i) = get_or log i 0
byte_at log (negsuc i) = 0

-- `i++`
abbrev pub increment : ℤ → ℤ
increment (pos i) = pos (suc i)
increment (negsuc zero) = pos 0
increment (negsuc (suc i)) = negsuc i

-- The bytes from `i` on, `n` in number.
unfoldable pub count_bytes : ℕ → ℤ → List ℕ → List ℤ → List ℤ
count_bytes zero i log signs = signs
count_bytes (suc n) i log signs = count_bytes n (increment i) log (count_byte signs (byte_at log i))

-- The loop goes from `start` to `end`, not at all if `end` is not above `start`.
unfoldable pub program : List ℕ → List ℤ → ℤ → ℤ → List ℤ
program log signs start end = count_bytes (pos_part (end -ℤ start)) start log signs

-- The part of process `n` of `m` in a file of this size: where it starts and where it ends.
-- These are ints, and may be negative for a file of 2 ^ 31 bytes or more.
abbrev pub part : ℕ → ℕ → ℤ
part size m = int_value (size / m)

abbrev pub part_start : ℕ → ℕ → ℕ → ℤ
part_start size m n = mul_int (part size m) (pos n)

abbrev pub part_end : ℕ → ℕ → ℕ → ℤ
part_end size m n = if n == m - 1 then int_value size else mul_int (part size m) (pos (n + 1))

-- What a child leaves: its counters, and whether it has set `failed`.
unfoldable pub child : List ℕ → ℕ → ℕ → ℕ → List ℤ × Bool
child log m n rand =
    let size = length log in
    (
      program log (replicate signs_size (pos 0)) (part_start size m n) (part_end size m n),
      ltb (rand % 100) 3,
    )

-- The children `n - 1`, ..., 0 of `m`: `failed`, and the sum over their counters at `c`.
unfoldable pub failed : List ℕ → ℕ → ℕ → (ℕ → ℕ) → Bool
failed log m zero rand = false
failed log m (suc n) rand = (child log m n (rand n)).1 || failed log m n rand

unfoldable pub sum_counts : List ℕ → ℕ → ℕ → (ℕ → ℕ) → ℕ → ℤ
sum_counts log m zero rand c = pos 0
sum_counts log m (suc n) rand c =
    add_int (sum_counts log m n rand c) (get_or (child log m n (rand n)).0 c (pos 0))

-- `total_counts`, once all have ended.
unfoldable pub total_counts : List ℕ → ℕ → (ℕ → ℕ) → ℕ → ℤ
total_counts log m rand c = if failed log m m rand then pos 0 else sum_counts log m m rand c
