-- ===== src/Letters/Tests.antt =====
-- A file of five bytes and two processes.
use sop.Prelude.{ℕ, ◌<◌, ◌≡◌, refl, List, [], ◌∷◌, arith, false, length}
use sop.Prelude.Count.{count}
use sop.Prelude.Int.{pos, negsuc, int_range, int_limit, int_value}
use sop.Letters.{child, failed, total_counts, part_end}
use sop.Letters.Counting.{Bytes}
use sop.Letters.Partition.{total_counts_lem}

abbrev file_bytes : List ℕ
file_bytes = b'a' ∷ b'b' ∷ b'a' ∷ b'c' ∷ b'a' ∷ []

abbrev lucky : ℕ → ℕ
lucky n = 50

file_bytes-Bytes : Bytes file_bytes
file_bytes-Bytes = (omega arith, (omega arith, (omega arith, (omega arith, (omega arith, tt)))))

short_file : length file_bytes < int_limit
unfolding int_limit
short_file = omega arith

none_failed : failed file_bytes 2 2 lucky ≡ false
unfolding failed child
none_failed = refl

total_counts_lem_example : total_counts file_bytes 2 lucky b'a' ≡ pos (count b'a' file_bytes)
total_counts_lem_example =
    total_counts_lem file_bytes 2 lucky b'a' file_bytes-Bytes short_file (omega arith) (omega arith)
      none_failed

last_part : part_end 5 2 1 ≡ pos 5
unfolding int_range int_limit int_value
last_part = refl

-- The last part of a file of 3 GiB has a negative end: the loop over it does not run.
too_long : part_end 3221225472 1 0 ≡ negsuc 1073741823
unfolding int_range int_limit int_value
too_long = refl

-- A child that fails leaves nothing to print.
one_failed : total_counts file_bytes 2 (λ n. n) b'a' ≡ pos 0
unfolding total_counts failed child
one_failed = refl
