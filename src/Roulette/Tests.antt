-- ===== src/Roulette/Tests.antt =====
-- A player with 100, who wins once; two players at the table, one of whom leaves.
use sop.Prelude.{
  ℕ, zero, suc, ◌+◌, ◌-◌, ◌<◌, ◌≤◌, ◌≡◌, ◌≢◌, [], ◌∷◌, true, some, arith, length, get_or,
  if◌then◌else◌,
}
use sop.Roulette.{
  Turn, player_work, Offer, placed, ended, failed, delivered, broken, Croupier, serve_players,
}
use sop.Roulette.Money.{total, gains, Left, money_lem}
use sop.Roulette.Table.{has_left, serve_players_lem}

abbrev lost : Turn
lost = record { chance = 5; rand_bet = 39; rand_number = 40; lucky = 4; fine = true }

abbrev won : Turn
won = record { chance = 5; rand_bet = 9; rand_number = 41; lucky = 4; fine = true }

money_kept :
    let (bets, ending) = player_work (lost ∷ won ∷ []) 100 in
    (total bets ≤ 100 + gains bets (lost ∷ won ∷ []))
    × Left ending (100 + gains bets (lost ∷ won ∷ []) - total bets)
money_kept = money_lem (lost ∷ won ∷ []) 100

abbrev offer : ℕ → Offer
offer zero = placed 77 4 10
offer (suc i) = ended

offer_fine : (i : ℕ) → offer i ≢ failed
offer_fine zero e = cc
offer_fine (suc i) e = cc

delivered_fine : delivered ≢ broken
delivered_fine e = cc

abbrev croupier : Croupier
croupier = record { rps = 3 ∷ 5 ∷ []; wps = 4 ∷ 6 ∷ []; lines = [] }

players_served :
    (t : Croupier) × (serve_players 2 0 offer (λ _. delivered) croupier ≡ some t)
    × (length t.rps ≡ 2)
    × ((j : ℕ)
        → 0 ≤ j
        → j < 2
        → get_or t.rps j 0 ≡ (if has_left (offer j) then 0 else get_or croupier.rps j 0))
    × ((j : ℕ) → j < 0 → get_or t.rps j 0 ≡ get_or croupier.rps j 0)
players_served =
    serve_players_lem 2 0 offer (λ _. delivered) croupier offer_fine (λ _. delivered_fine)
      (omega arith)
