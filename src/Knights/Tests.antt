-- ===== src/Knights/Tests.antt =====
-- A knight with two enemies.
use sop.Prelude.{◌==◌, ◌≡◌, refl, [], ◌∷◌, arith, true}
use sop.Prelude.Int.{pos, ◌-ℤ◌}
use sop.Knights.{take_blows, strike}
use sop.Knights.Blows.{Hurt, take_blows_lem}
use sop.Knights.Strikes.{Fair, strike_lem}

strike_lem_example :
    Fair (λ e. e == 8) 2 (8 ∷ 9 ∷ []) (strike (λ e. e == 8) (λ n. 0) 2 (8 ∷ 9 ∷ []))
strike_lem_example = strike_lem (λ e. e == 8) (λ n. 0) 2 (8 ∷ 9 ∷ []) (omega arith)

blows_taken : Hurt (3 ∷ 5 ∷ []) (pos 7) (take_blows (3 ∷ 5 ∷ []) (pos 7))
blows_taken = take_blows_lem (3 ∷ 5 ∷ []) (pos 7)

-- A damage above 127 is a negative char, and does a knight good.
healed : take_blows (200 ∷ []) (pos 7) ≡ (pos 63, true)
unfolding take_blows ◌-ℤ◌
healed = refl
