-- ===== src/Cards.antt =====
-- lab05/sop-cards/sop-cards.c: a server deals rounds of a card game to players over pipes.
pub mod Rounds
pub mod Deck
mod Tests
use sop.Prelude.{
  ℕ, zero, suc, ◌+◌, ◌-◌, ◌*◌, ◌/◌, ◌%◌, List, [], ◌∷◌, Bool, true, false, not, ◌&&◌, Option, none,
  some, if◌then◌else◌, ltb, ◌==◌, length, get_or, set, ◌>>=◌,
}
use sop.Prelude.Int.{ℤ, pos, negsuc, ltb_ℤ, same_int}

-- What the server keeps of one player: `rps[i]`, `wps[i]`, `scores[i]` and `played_cards[i]`.
pub record Player : Type 0 where
  pub rp : ℕ
  pub wp : ℕ
  pub score : ℕ
  pub played : ℤ

abbrev pub closed : Player → Player
closed p = record p { rp = 0; wp = 0 }

-- What `write` reports: done; EPIPE; another error, after which ERR ends the process.
pub data Written : Type 0 where
  delivered epipe failed : Written

-- What `read` reports; of a message the number in it (`atoi`).
pub data Answer : Type 0 where
  card : ℤ → Answer
  ended failed : Answer

pub cons : Player → Option (List Player × Bool) → Option (List Player × Bool)
cons p none = none
cons p (some (ps, b)) = some (p ∷ ps, b)

-- "new_round" to the players from number `i` on. The flag: `game_server_work` returns at once.
pub announce : ℕ → (ℕ → Written) → List Player → Option (List Player × Bool)
announce i write [] = some ([], false)
announce i write (p ∷ ps) =
    let rest = cons p (announce (i + 1) write ps) in
    if p.wp == 0
    then rest
    else elim (write i) [ delivered ↦ rest | epipe ↦ some (closed p ∷ ps, true) | failed ↦ none ]

abbrev pub larger : ℤ → ℤ → ℤ
larger max c = if ltb_ℤ max c then c else max

pub cons_max : Player → Option (List Player × ℤ) → Option (List Player × ℤ)
cons_max p none = none
cons_max p (some (ps, m)) = some (p ∷ ps, m)

-- The cards of the players from number `i` on, and `max` after them.
pub collect : ℕ → (ℕ → Answer) → List Player → ℤ → Option (List Player × ℤ)
collect i read [] max = some ([], max)
collect i read (p ∷ ps) max =
    let q = record p { played = pos 0 } in
    if p.rp == 0 then cons_max q (collect (i + 1) read ps max) else elim (read i) [
      | card c ↦ cons_max (record p { played = c }) (collect (i + 1) read ps (larger max c))
      | ended ↦ cons_max (closed q) (collect (i + 1) read ps max)
      | failed ↦ none
    ]

-- `winners_count`
pub winners : ℤ → List Player → ℕ
winners max [] = 0
winners max (p ∷ ps) =
    let rest = winners max ps in if not (p.rp == 0) && same_int p.played max then rest + 1 else rest

-- `pointstogive`
pub points_to_give : ℤ → List Player → ℕ
points_to_give max ps = let w = winners max ps in if ltb 0 w then length ps / w else 0

abbrev pub no_player : Player
no_player = record { rp = 0; wp = 0; score = 0; played = pos 0 }

-- The player with the points of the round added.
abbrev pub paid : ℤ → ℕ → Player → Player
paid max points p = record p { score = p.score + (if same_int p.played max then points else 0) }

pub pay : ℕ → ℤ → ℕ → (ℕ → Written) → List Player → Option (List Player)
pay i max points write ps =
    let p = paid max points (get_or ps i no_player) in
    elim (write i) [
      | delivered ↦ some (set ps i p)
      | epipe ↦ some (set ps i (closed p))
      | failed ↦ none
    ]

-- The loop that gives the points, from number `i` on with `n` to go. Its test reads `wps[0]`.
pub give : ℕ → ℕ → ℤ → ℕ → (ℕ → Written) → List Player → Option (List Player)
give zero i max points write ps = some ps
give (suc n) i max points write ps =
    if (get_or ps 0 no_player).wp == 0
    then give n (i + 1) max points write ps
    else pay i max points write ps >>= give n (i + 1) max points write

-- What the calls of one round report.
pub record Calls : Type 0 where
  pub announced : ℕ → Written
  pub read : ℕ → Answer
  pub paid : ℕ → Written

pub score_cards : (ℕ → Written) → List Player × ℤ → Option (List Player × Bool)
score_cards write (ps, max) =
    give (length ps) 0 max (points_to_give max ps) write ps >>= (λ qs. some (qs, false))

pub after_announce : Calls → List Player × Bool → Option (List Player × Bool)
after_announce c (ps, true) = some (ps, true)
after_announce c (ps, false) = collect 0 c.read ps (negsuc 0) >>= score_cards c.paid

-- One round; the flag as for `announce`.
pub round : Calls → List Player → Option (List Player × Bool)
round c ps = announce 0 c.announced ps >>= after_announce c

pub next_rounds : (List Player → Option (List Player)) → List Player × Bool → Option (List Player)
next_rounds f (ps, true) = some ps
next_rounds f (ps, false) = f ps

-- `game_server_work`: the players with their scores at its end.
pub game_server_work : List Calls → List Player → Option (List Player)
game_server_work [] ps = some ps
game_server_work (c ∷ cs) ps = round c ps >>= next_rounds (game_server_work cs)

-- A player's cards; the first `remaining` ones are still to be played.
pub record Hand : Type 0 where
  pub cards : List ℕ
  pub remaining : ℕ

-- `cards[i] = i + 1` from `i` on, with `n` to go.
pub deck : ℕ → ℕ → List ℕ
deck i zero = []
deck i (suc n) = (i + 1) ∷ deck (i + 1) n

-- `my_card`, for what `rand` gives
abbrev pub my_card : ℕ → Hand → ℕ
my_card r h = get_or h.cards (r % h.remaining) 0

abbrev pub draw : ℕ → Hand → Hand
draw r h = record {
  cards = set h.cards (r % h.remaining) (get_or h.cards (h.remaining - 1) 0);
  remaining = h.remaining - 1;
}

-- What a player's `read` reports: a message that is "new_round" or another one, the end, or an error.
pub data Heard : Type 0 where
  new_round other_text ended failed : Heard

-- One round at a player: the first `read`, what `rand` gives (twice), the `write`, the last `read`.
pub record Turn : Type 0 where
  pub first : Heard
  pub chance : ℕ
  pub rand : ℕ
  pub written : Written
  pub last : Heard

abbrev pub resign_probability : ℕ
resign_probability = 5

-- `player_work`: the cards written, and whether the process went on to its end without ERR.
pub player_work : List Turn → Hand → List ℕ × Bool
player_work [] h = ([], true)
player_work (t ∷ ts) h =
    let c = my_card t.rand h in
    elim t.first [
      | failed ↦ ([], false)
      | ended ↦ player_work ts h
      | other_text ↦ ([], false)
      | new_round ↦ if ltb (t.chance % 100) resign_probability then ([], true) else elim t.written [
        | epipe ↦ ([], true)
        | failed ↦ ([], false)
        | delivered ↦ elim t.last [
          | failed ↦ (c ∷ [], false)
          | ended ↦ (c ∷ [], true)
          | _ ↦ let (cards, ok) = player_work ts (draw t.rand h) in (c ∷ cards, ok)
        ]
      ]
    ]
