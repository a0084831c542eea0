-- ===== src/Deal/Drawing.antt =====
-- The cards drawn.
use sop.Prelude.{
  ℕ, zero, suc, ◌+◌, ◌-◌, ◌%◌, ◌<◌, ◌≡◌, refl, sym, ap, ◌∙◌, List, arith, length, get_or, set,
  length-set, get_or-set_ne, get_or-set_self,
}
use sop.Prelude.Count.{count, count-set, one_if}
use sop.Deal.{shift, draw_card}

-- After the shift the array has what it had, with the element at the end of the shift twice instead of
-- the one at its beginning.
shift-count :
    (c n i : ℕ) (xs : List ℕ)
    → i + n < length xs
    → (count c (shift n i xs) + one_if c (get_or xs i 0)
        ≡ count c xs + one_if c (get_or xs (i + n) 0))
      × (length (shift n i xs) ≡ length xs)
      × (get_or (shift n i xs) (i + n) 0 ≡ get_or xs (i + n) 0)
unfolding shift
shift-count c zero i xs lt = let e : i + 0 ≡ i = omega arith in rw e (refl, refl, refl)
shift-count c (suc n) i xs lt =
    let v = get_or xs (i + 1) 0 in
    let ys = set xs i v in
    let size = length-set xs i v in
    let ih = shift-count c n (i + 1) ys (omega (arith, size)) in
    let e : i + 1 + n ≡ i + suc n = omega arith in
    let next : get_or ys (i + 1) 0 ≡ v = get_or-set_ne xs i (i + 1) v 0 (λ q. omega (arith, q)) in
    let last : get_or ys (i + suc n) 0 ≡ get_or xs (i + suc n) 0 =
      get_or-set_ne xs i (i + suc n) v 0 (λ q. omega (arith, q)) in
    let end : get_or ys (i + 1 + n) 0 ≡ get_or xs (i + suc n) 0 =
      ap (λ k. get_or ys k 0) e ∙ last in
    (
      omega (arith, ih.0, count-set c i v xs (omega arith), ap (one_if c) next, ap (one_if c) end),
      ih.1 ∙ size,
      ap (λ k. get_or (shift n (i + 1) ys) k 0) (sym e) ∙ ih.2 ∙ end,
    )

-- Drawing a card only moves it behind those that are left: the array has the same cards, as many as
-- before, and the card drawn stands at index `last`, whatever `rand` gives.
pub draw_card_lem :
    (rand last : ℕ) (xs : List ℕ)
    → last < length xs
    → let (drawn, ys) = draw_card rand last xs in
      ((c : ℕ) → count c ys ≡ count c xs) × (length ys ≡ length xs) × (get_or ys last 0 ≡ drawn)
unfolding draw_card
draw_card_lem rand last xs lt = (
  (λ c. omega (
    arith,
    (moved c).0,
    count-set c last drawn (shift (last - i) i xs) (omega (arith, (moved c).1)),
    ap (one_if c) (at_last c),
  )),
  length-set (shift (last - i) i xs) last drawn ∙ (moved 0).1,
  get_or-set_self (shift (last - i) i xs) last drawn 0 (omega (arith, (moved 0).1)),
)
  where
    i : ℕ
    i = rand % (last + 1)

    drawn : ℕ
    drawn = get_or xs i 0

    sum : i + (last - i) ≡ last
    sum = omega arith

    moved :
        (c : ℕ)
        → (count c (shift (last - i) i xs) + one_if c drawn
            ≡ count c xs + one_if c (get_or xs (i + (last - i)) 0))
          × (length (shift (last - i) i xs) ≡ length xs)
          × (get_or (shift (last - i) i xs) (i + (last - i)) 0 ≡ get_or xs (i + (last - i)) 0)
    moved c = shift-count c (last - i) i xs (omega (arith, sum))

    at_last : (c : ℕ) → get_or (shift (last - i) i xs) last 0 ≡ get_or xs (i + (last - i)) 0
    at_last c = ap (λ k. get_or (shift (last - i) i xs) k 0) (sym sum) ∙ (moved c).2
