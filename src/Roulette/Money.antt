-- ===== src/Roulette/Money.antt =====
-- A player's money.
use sop.Prelude.{
  ℕ, ◌+◌, ◌-◌, ◌*◌, ◌%◌, ◌<◌, ◌≤◌, ◌≡◌, List, [], ◌∷◌, arith, false, if◌then◌else◌, ◌==◌,
  Bool-cases, inl, inr,
}
use sop.Roulette.{
  Turn, Ending, saved, broke, error, playing, probability, bet_of, wins, amount_after, player_work,
}

pub total : List ℕ → ℕ
total [] = 0
total (b ∷ bs) = b + total bs

-- 35 times the bets of the turns that are won, the bets made being given.
pub gains : List ℕ → List Turn → ℕ
gains [] ts = 0
gains (b ∷ bs) [] = 0
gains (b ∷ bs) (t ∷ ts) = (if wins t then 35 * b else 0) + gains bs ts

-- What a player has left in the end, ERR aside.
abbrev pub Left : Ending → ℕ → Type 0
Left (saved a) n = a ≡ n
Left broke n = 0 ≡ n
Left (playing a) n = a ≡ n
Left error n = Unit

moved : (e : Ending) (a b n : ℕ) → Left e a → a ≡ b → Left e b
moved (saved k) a b n h e = omega (arith, h, e)
moved broke a b n h e = omega (arith, h, e)
moved (playing k) a b n h e = omega (arith, h, e)
moved error a b n h e = tt

bet-le : (m : ℕ) (t : Turn) → (m == 0) ≡ false → bet_of m t ≤ m
bet-le m t p = let q : 0 < m = ground arith in omega arith

step :
    (m : ℕ) (t : Turn)
    → (m == 0) ≡ false
    → amount_after m t + bet_of m t ≡ m + (if wins t then 35 * bet_of m t else 0)
step m t p = elim (Bool-cases (wins t)) [
  | inl won ↦ rw won (omega (arith, bet-le m t p))
  | inr lost ↦ rw lost (omega (arith, bet-le m t p))
]

-- A player never bets more than it has: what it has in the end is what it began with, less all its
-- bets, plus 35 times each bet that it won, unless ERR ends it; and the bets never exceed
-- the money begun with and won.
pub money_lem :
    (ts : List Turn) (m : ℕ)
    → let (bets, ending) = player_work ts m in
      (total bets ≤ m + gains bets ts) × Left ending (m + gains bets ts - total bets)
unfolding player_work total gains
money_lem [] m = elim (Bool-cases (m == 0)) [
  | inl z ↦ rw z (omega arith, ground arith)
  | inr p ↦ rw p (omega arith, omega arith)
]
money_lem (t ∷ ts) m = elim (Bool-cases (m == 0)) [
  | inl z ↦ rw z (omega arith, ground arith)
  | inr p ↦ elim (Bool-cases (t.chance % probability == 0)) [
    | inl stop ↦ rw (p, stop) (omega arith, omega arith)
    | inr on ↦ elim (Bool-cases t.fine) [
      | inr bad ↦ rw (p, on, bad) (omega arith, tt)
      | inl fine ↦
          let ih = money_lem ts (amount_after m t) in
          rw (p, on, fine)
            (omega (arith, ih.0, step m t p), moved _ _ _ 0 ih.1 (omega (arith, ih.0, step m t p)))
    ]
  ]
]
