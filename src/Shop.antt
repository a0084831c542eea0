-- ===== src/Shop.antt =====
-- lab06/bitronka/sop-shop.c: workers sort the shelves of a shop, exchanging two products at a time
-- under the mutexes of their two shelves; a manager looks on. A worker may die with both mutexes held.
pub mod Sorting
pub mod Night
mod Tests
use sop.Prelude.{
  ℕ, zero, suc, ◌+◌, ◌-◌, ◌/◌, ◌%◌, List, [], ◌∷◌, Bool, true, false, Option, none, some,
  if◌then◌else◌, ltb, ◌==◌, get_or, length,
}
use sop.Prelude.Count.{swap}

-- `first` and `second`
abbrev pub lower : ℕ → ℕ → ℕ
lower x y = if ltb x y then x else y

abbrev pub upper : ℕ → ℕ → ℕ
upper x y = if ltb x y then y else x

-- How a worker's round ends: with the exchange made or not needed, or with its death before it.
pub data Turn : Type 0 where
  done : List ℕ → Turn
  dies : Turn

-- An exchange that is needed: with one chance in a hundred the worker dies instead.
abbrev pub exchange : ℕ → ℕ → ℕ → List ℕ → Turn
exchange r x y log = if r % 100 == 0 then dies else done (swap log x y)

-- What a worker does under the two mutexes, for the shelves `x` and `y` chosen; `r` is what `rand`
-- gives.
unfoldable pub work : ℕ → ℕ → ℕ → List ℕ → Turn
work r x y log =
    if ltb x y
    then (if ltb (get_or log y 0) (get_or log x 0) then exchange r x y log else done log)
    else (if ltb y x
        then (if ltb (get_or log x 0) (get_or log y 0) then exchange r x y log else done log)
        else done log)

-- The manager's loop over the shelves, from `i` on with `n` to go: `sorted`.
pub is_sorted : ℕ → ℕ → List ℕ → Bool
is_sorted i zero log = true
is_sorted i (suc n) log = if get_or log i 0 == i then is_sorted (i + 1) n log else false

-- What the manager makes of a look at the shelves, with `dead` counted and `m` workers hired.
pub data Verdict : Type 0 where
  all_dead in_order go_on : Verdict

pub inspect : ℕ → ℕ → ℕ → List ℕ → Verdict
inspect n m dead log =
    if dead / 2 == m then all_dead else if is_sorted 0 n log then in_order else go_on

-- The shelves at first, before they are shuffled.
pub stock : ℕ → ℕ → List ℕ
stock i zero = []
stock i (suc n) = i ∷ stock (i + 1) n

-- `shuffle` with `i` running from its argument down to 1; `rand i` is what `rand` gives.
pub shuffle : (ℕ → ℕ) → ℕ → List ℕ → List ℕ
shuffle rand zero array = array
shuffle rand (suc i) array = shuffle rand i (swap array (suc i) (rand (suc i) % (suc i + 1)))
