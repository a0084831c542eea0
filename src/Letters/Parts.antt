-- ===== src/Letters/Parts.antt =====
-- Where the parts start and end.
use native.Mathlib.Nat.{div-mul-le_self, mul-le-mul_left, mul-one}
use sop.Prelude.{ℕ, suc, ◌+◌, ◌*◌, ◌/◌, ◌≤◌, ◌<◌, ◌≡◌, sym, ap, ◌∙◌, arith, if◌then◌else◌, ◌==◌}
use sop.Prelude.Int.{int_limit, pos, int_value, int_value_small, mul_int, mul_int_small}
use sop.Letters.{max_proc, part, part_start, part_end}

-- Where the part of process `k` starts, and the last one ends.
abbrev pub bound : ℕ → ℕ → ℕ → ℕ
bound size m k = if k == m then size else size / m * k

bound_le : (size m k : ℕ) → k ≤ m → size / m * k ≤ size
bound_le size m k le =
    omega (arith, mul-le-mul_left {m = k} {n = m} (size / m) le, div-mul-le_self size m)

part_lem : (size m : ℕ) → size < int_limit → 1 ≤ m → part size m ≡ pos (size / m)
part_lem size m small one =
    int_value_small (size / m) (omega (arith, small, bound_le size m 1 one, mul-one (size / m)))

-- A bound before the last one, as the code computes it.
times_lem :
    (size m k : ℕ)
    → size < int_limit
    → 1 ≤ m
    → k ≤ m
    → m ≤ max_proc
    → mul_int (part size m) (pos k) ≡ pos (size / m * k)
unfolding int_limit
times_lem size m k small one le few =
    ap (λ p. mul_int p (pos k)) (part_lem size m small one)
    ∙ mul_int_small (size / m) k (omega (arith, small, bound_le size m 1 one, mul-one (size / m)))
        (omega (arith, le, few)) (omega (arith, small, bound_le size m k le))

pub part_start_lem :
    (size m k : ℕ)
    → size < int_limit
    → k < m
    → m ≤ max_proc
    → part_start size m k ≡ pos (bound size m k)
part_start_lem size m k small lt few =
    let ne : bound size m k ≡ size / m * k = ground (arith, lt) in
    times_lem size m k small (omega arith) (omega arith) few ∙ ap pos (sym ne)

pub part_end_lem :
    (size m k : ℕ)
    → size < int_limit
    → k < m
    → m ≤ max_proc
    → part_end size m k ≡ pos (bound size m (suc k))
part_end_lem size m k small lt few =
    let one : k + 1 ≡ suc k = omega arith in
    let inner : mul_int (part size m) (pos (k + 1)) ≡ pos (size / m * suc k) =
      times_lem size m (k + 1) small (omega arith) (omega (arith, lt)) few
      ∙ ap (λ j. pos (size / m * j)) one in
    let whole : int_value size ≡ pos size = int_value_small size small in
    ground (arith, inner, whole, lt)

pub bound_step :
    (size m k : ℕ) → k < m → (bound size m k ≤ bound size m (suc k)) × (bound size m (suc k) ≤ size)
bound_step size m k lt = ground (
  arith,
  lt,
  bound_le size m k (omega arith),
  bound_le size m (suc k) (omega arith),
  mul-le-mul_left {m = k} {n = suc k} (size / m) (omega arith),
)
