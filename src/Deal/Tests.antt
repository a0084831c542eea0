-- ===== src/Deal/Tests.antt =====
-- Three players, the second of whom has resigned.
use sop.Prelude.{ℕ, ◌<◌, ◌≡◌, inl, refl, List, [], ◌∷◌, arith, length, get_or}
use sop.Prelude.Int.{pos, negsuc}
use sop.Prelude.Count.{count}
use sop.Deal.{Player, look, draw_card}
use sop.Deal.Winners.{holders, NoneAbove, Shown, look_lem}
use sop.Deal.Drawing.{draw_card_lem}

abbrev three : List Player
three =
    record { card = pos 4; score = 0; active = 0 }
    ∷ record { card = pos 9; score = 2; active = 1 }
    ∷ record { card = pos 4; score = 1; active = 0 }
    ∷ []

three-Shown : Shown three
three-Shown = inl ((λ e. omega (arith, e)), refl)

look_lem_example :
    let out = look three (negsuc 0) 0 in
    NoneAbove out.0 three × (0 < holders out.0 three) × (out.1 ≡ holders out.0 three)
look_lem_example = look_lem three three-Shown

card_drawn :
    let (drawn, ys) = draw_card 7 2 (1 ∷ 2 ∷ 3 ∷ 4 ∷ []) in
    ((c : ℕ) → count c ys ≡ count c (1 ∷ 2 ∷ 3 ∷ 4 ∷ []))
    × (length ys ≡ 4)
    × (get_or ys 2 0 ≡ drawn)
card_drawn = draw_card_lem 7 2 (1 ∷ 2 ∷ 3 ∷ 4 ∷ []) (omega arith)
