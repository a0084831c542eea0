-- ===== src/Knights.antt =====
-- lab05/prelab/sop-roncevaux.c: a knight who takes the blows sent to him and strikes at his enemies.
pub mod Blows
pub mod Strikes
mod Tests
use sop.Prelude.{
  ℕ, zero, suc, ◌+◌, ◌-◌, ◌%◌, List, [], ◌∷◌, Bool, true, false, Option, none, some, if◌then◌else◌,
  ltb, get_or,
}
use sop.Prelude.Int.{ℤ, pos, ◌-ℤ◌, ltb_ℤ}
use sop.Prelude.Count.{swap}

-- A char, which is signed, of a byte.
abbrev pub char : ℕ → ℤ
char b = if ltb b 128 then pos b else pos b -ℤ pos 256

-- How the reading of blows ends: for now (EAGAIN), for good, or with an error.
pub data Ending : Type 0 where
  again closed failed : Ending

-- The blows that are in the pipe: what is left of HP, and whether the knight lives.
unfoldable pub take_blows : List ℕ → ℤ → ℤ × Bool
take_blows [] hp = (hp, true)
take_blows (b ∷ bs) hp =
    let left = hp -ℤ char b in
    let rest = take_blows bs left in if ltb_ℤ left (pos 0) then (left, false) else rest

-- The descriptors of the enemies, of which the first ones are those not found dead, and the one hit.
pub record Struck : Type 0 where
  pub enemies : List ℕ
  pub alive_enemies : ℕ
  pub hit : Option ℕ

-- One strike: as long as the enemy chosen is dead (EPIPE), he is put behind those alive, and another
-- one is chosen. `rand n` is what `rand` gives when `n + 1` are left.
unfoldable pub strike : (ℕ → Bool) → (ℕ → ℕ) → ℕ → List ℕ → Struck
strike gone rand zero enemies = record { enemies = enemies; alive_enemies = 0; hit = none }
strike gone rand (suc n) enemies =
    let enemy = rand n % suc n in
    let rest = strike gone rand n (swap enemies enemy n) in
    if gone (get_or enemies enemy 0)
    then rest
    else record { enemies = enemies; alive_enemies = suc n; hit = some (get_or enemies enemy 0) }

-- A round: the blows and how their reading ends, who is dead, and what `rand` gives.
pub record Round : Type 0 where
  pub blows : List ℕ
  pub ending : Ending
  pub gone : ℕ → Bool
  pub rand : ℕ → ℕ

pub record Knight : Type 0 where
  pub hp : ℤ
  pub enemies : List ℕ
  pub alive_enemies : ℕ
  pub hits : List ℕ

-- How the fight ends: the knight dies, or has no enemies left, or ERR; or it goes on.
pub data Fight : Type 0 where
  dies wins fights error : Knight → Fight

abbrev pub after_strike : Knight → Struck → Knight
after_strike k w = record k {
  enemies = w.enemies;
  alive_enemies = w.alive_enemies;
  hits = elim w.hit [ some e ↦ e ∷ k.hits | none ↦ k.hits ];
}

abbrev pub go_on : Knight → Fight
go_on k = if ltb 0 k.alive_enemies then fights k else wins k

-- One round of the loop of `child_work`.
unfoldable pub fight_round : Round → Knight → Fight
fight_round r k =
    let (hp, lives) = take_blows r.blows k.hp in
    let hurt = record k { hp = hp } in
    if lives
    then elim r.ending [
      | failed ↦ error hurt
      | closed ↦ wins (record hurt { alive_enemies = 0 })
      | again ↦ go_on (after_strike hurt (strike r.gone r.rand k.alive_enemies k.enemies))
    ]
    else dies hurt
