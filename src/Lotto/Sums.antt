-- ===== src/Lotto/Sums.antt =====
-- What the totaliser takes in on one day.
use sop.Prelude.{
  ℕ, zero, suc, ◌+◌, ◌*◌, ◌<◌, ◌≤◌, ◌≡◌, ◌≢◌, ◌⊎◌, refl, sym, ap, ◌∙◌, List, [], ◌∷◌, arith, Option,
  none, some, if◌then◌else◌, ◌==◌, length, set, get_or, get_or-set_ne, Bool-cases, inl, inr,
}
use sop.Prelude.Count.{count}
use sop.Prelude.Int.{pos, add_int, int_value, int_value_small, add_int-int_value, int_limit}
use sop.Lotto.{
  numbers, bet_price, draw, compare, get_reward, Written, delivered, epipe, failed, Bet, bet, ended,
  Totaliser, sent_lucky, pay_in, take_bet, serve_player, serve_players, Day,
}
use sop.Lotto.Draw.{draw_lem}
use sop.Lotto.Compare.{compare-bound, matches_of-count}

abbrev pub is_bet : Bet → ℕ
is_bet (bet b) = 1
is_bet ended = 0
is_bet failed = 0

-- How many of the numbers of a bet are lucky, and what is paid for so many.
unfoldable pub lucky_ones : List ℕ → List ℕ → ℕ
lucky_ones lucky [] = 0
lucky_ones lucky (n ∷ b) = count n lucky + lucky_ones lucky b

abbrev pub reward_for : ℕ → ℕ
reward_for m =
    if m == 3
    then 24
    else if m == 4
    then 160
    else if m == 5
    then 6000
    else if m == 6
    then 10000000
    else 0

abbrev pub won : List ℕ → Bet → ℕ
won lucky (bet b) = reward_for (lucky_ones lucky b)
won lucky ended = 0
won lucky failed = 0

-- The sum of `f` over the players with an open pipe, from number `i` on with `n` to go.
unfoldable pub sum_open : ℕ → ℕ → List ℕ → (ℕ → ℕ) → ℕ
sum_open zero i rps f = 0
sum_open (suc n) i rps f = (if get_or rps i 0 == 0 then 0 else f i) + sum_open n (i + 1) rps f

sum_open-set :
    (n i j : ℕ) (rps : List ℕ) (v : ℕ) (f : ℕ → ℕ)
    → j < i
    → sum_open n i (set rps j v) f ≡ sum_open n i rps f
unfolding sum_open
sum_open-set zero i j rps v f lt = refl
sum_open-set (suc n) i j rps v f lt =
    let same : get_or (set rps j v) i 0 ≡ get_or rps i 0 =
      get_or-set_ne rps j i v 0 (λ e. omega (arith, e)) in
    rw (same, sum_open-set n (i + 1) j rps v f (omega arith)) refl

compare-lucky : (lucky b : List ℕ) → compare lucky b ≡ lucky_ones lucky b
unfolding compare lucky_ones
compare-lucky lucky [] = refl
compare-lucky lucky (n ∷ b) = omega (arith, matches_of-count n lucky, compare-lucky lucky b)

-- The table of rewards.
table : (m : ℕ) → m ≤ 6 → get_reward m ≡ some (reward_for m)
unfolding get_reward
table zero h = refl
table (suc zero) h = refl
table (suc (suc zero)) h = refl
table (suc (suc (suc zero))) h = refl
table (suc (suc (suc (suc zero)))) h = refl
table (suc (suc (suc (suc (suc zero))))) h = refl
table (suc (suc (suc (suc (suc (suc zero)))))) h = refl
table (suc (suc (suc (suc (suc (suc (suc m))))))) h = absurd (omega arith)

-- The sums stand at `a` and `b`, wrapped to ints.
record Sums (a b : ℕ) (s : Totaliser) : Type 0 where
  paid : s.total_bet ≡ int_value a
  reward : s.total_reward ≡ int_value b

-- What a player's turn has made of `s`: the pipes of others stay, the sums are moved on.
record Turn (i a b : ℕ) (s t : Totaliser) : Type 0 where
  pipes : (t.rps ≡ s.rps) ⊎ (t.rps ≡ set s.rps i 0)
  sums : Sums a b t

paid-Sums :
    (a b r : ℕ) (s : Totaliser) → Sums a b s → Sums (a + bet_price) (b + r) (pay_in bet_price r s)
unfolding pay_in
paid-Sums a b r s v = record {
  paid = ap (λ x. add_int x (pos bet_price)) v.paid ∙ add_int-int_value a bet_price;
  reward = ap (λ x. add_int x (pos r)) v.reward ∙ add_int-int_value b r;
}

same-Sums : (a b : ℕ) (s : Totaliser) → Sums a b s → Sums (a + 0) (b + 0) s
same-Sums a b s v =
    let ea : a ≡ a + 0 = omega arith in
    let eb : b ≡ b + 0 = omega arith in
    record { paid = v.paid ∙ ap int_value ea; reward = v.reward ∙ ap int_value eb }

take_bet-Turn :
    (i a b : ℕ) (winning x : List ℕ) (w : Written) (s : Totaliser) (r : ℕ)
    → w ≢ failed
    → get_reward (compare winning x) ≡ some r
    → Sums a b s
    → (t : Totaliser) × (take_bet i winning x w s ≡ some t) × Turn i (a + bet_price) (b + r) s t
unfolding take_bet sent_lucky pay_in
take_bet-Turn i a b winning x delivered s r ok e v =
    (pay_in bet_price r s, rw e refl, record { pipes = inl refl; sums = paid-Sums a b r s v })
take_bet-Turn i a b winning x epipe s r ok e v =
    let p = paid-Sums a b r s v in
    (
      record (pay_in bet_price r s) { wps = set s.wps i 0 },
      rw e refl,
      record { pipes = inl refl; sums = record { paid = p.paid; reward = p.reward } },
    )
take_bet-Turn i a b winning x failed s r ok e v = absurd (ok refl)

-- What `read` reports of a player: no error, and a bet of six numbers.
abbrev pub Proper : Bet → Type 0
Proper (bet b) = length b ≡ numbers
Proper ended = Unit
Proper failed = ⊥

serve_player-Turn :
    (i a b : ℕ) (winning : List ℕ) (r : Bet) (w : Written) (s : Totaliser)
    → ((c : ℕ) → count c winning ≤ 1)
    → Proper r
    → w ≢ failed
    → Sums a b s
    → (t : Totaliser) × (serve_player i winning r w s ≡ some t)
      × Turn i
          (a + (if get_or s.rps i 0 == 0 then 0 else bet_price * is_bet r))
          (b + (if get_or s.rps i 0 == 0 then 0 else won winning r))
          s
          t
unfolding serve_player
serve_player-Turn i a b winning r w s once ok ok' v = elim (Bool-cases (get_or s.rps i 0 == 0)) [
  | inl gone ↦ (s, rw gone refl, rw gone (record { pipes = inl refl; sums = same-Sums a b s v }))
  | inr here ↦ rw here (turn r ok)
]
  where
    turn :
        (r : Bet)
        → Proper r
        → (t : Totaliser) × (elim r as (λ _. Option Totaliser) [
          | bet x ↦ take_bet i winning x w s
          | ended ↦ some (record s { rps = set s.rps i 0 })
          | failed ↦ none
        ]
            ≡ some t)
          × Turn i (a + bet_price * is_bet r) (b + won winning r) s t
    turn (bet x) six =
        let bound = compare-bound winning x once in
        let paid : get_reward (compare winning x) ≡ some (reward_for (lucky_ones winning x)) =
          table (compare winning x) (omega (arith, bound, six))
          ∙ ap (λ m. some (reward_for m)) (compare-lucky winning x) in
        take_bet-Turn i a b winning x w s (reward_for (lucky_ones winning x)) ok' paid v
    turn ended six =
        let p = same-Sums a b s v in
        (
          record s { rps = set s.rps i 0 },
          refl,
          record { pipes = inr refl; sums = record { paid = p.paid; reward = p.reward } },
        )
    turn failed six = absurd six

sum_open-Turn :
    (n i a b : ℕ) (s t : Totaliser) (f : ℕ → ℕ)
    → Turn i a b s t
    → sum_open n (i + 1) t.rps f ≡ sum_open n (i + 1) s.rps f
sum_open-Turn n i a b s t f turn = elim (turn.pipes) [
  | inl e ↦ ap (λ r. sum_open n (i + 1) r f) e
  | inr e ↦ ap (λ r. sum_open n (i + 1) r f) e ∙ sum_open-set n (i + 1) i s.rps 0 f (omega arith)
]

-- The sum of the bets that are paid.
abbrev pub paid_by : ℕ → ℕ → List ℕ → (ℕ → Bet) → ℕ
paid_by n i rps read = sum_open n i rps (λ j. bet_price * is_bet (read j))

abbrev pub won_by : ℕ → ℕ → List ℕ → List ℕ → (ℕ → Bet) → ℕ
won_by n i winning rps read = sum_open n i rps (λ j. won winning (read j))

serve_players-Sums :
    (n i a b : ℕ) (winning : List ℕ) (read : ℕ → Bet) (write : ℕ → Written) (s : Totaliser)
    → ((c : ℕ) → count c winning ≤ 1)
    → ((j : ℕ) → Proper (read j))
    → ((j : ℕ) → write j ≢ failed)
    → Sums a b s
    → (t : Totaliser) × (serve_players n i winning read write s ≡ some t)
      × Sums (a + paid_by n i s.rps read) (b + won_by n i winning s.rps read) t
unfolding serve_players sum_open
serve_players-Sums zero i a b winning read write s once ok ok' v = (s, refl, same-Sums a b s v)
serve_players-Sums (suc n) i a b winning read write s once ok ok' v =
    let (m, went, turn) =
      serve_player-Turn i a b winning (read i) (write i) s once (ok i) (ok' i) v in
    let (t, rest, sums) =
      serve_players-Sums n (i + 1) _ _ winning read write m once ok ok' turn.sums in
    let ea = sum_open-Turn n i _ _ s m (λ j. bet_price * is_bet (read j)) turn in
    let eb = sum_open-Turn n i _ _ s m (λ j. won winning (read j)) turn in
    (
      t,
      rw went rest,
      record {
        paid = sums.paid ∙ ap int_value (omega (arith, ea));
        reward = sums.reward ∙ ap int_value (omega (arith, eb));
      },
    )

-- A day of the totaliser, `rand` giving numbers up to RAND_MAX: if no call fails with an error other
-- than EPIPE, every bet has six numbers, and the sums are not negative and stay below 2 ^ 31, then all players are served,
-- no reward is looked up outside of the table, the total of the bets grows by BET_PRICE for each bet
-- of a player whose pipe was open, and the total of the rewards by 24, 160, 6000 or 10000000 for each
-- of these bets in which three, four, five or six numbers are among those drawn.
pub day_lem :
    (rand_max n a b : ℕ) (d : Day) (s : Totaliser)
    → ((i : ℕ) → d.rand i ≤ rand_max)
    → ((j : ℕ) → Proper (d.read j))
    → ((j : ℕ) → d.write j ≢ failed)
    → s.total_bet ≡ pos a
    → s.total_reward ≡ pos b
    → a + paid_by n 0 s.rps d.read < int_limit
    → b + won_by n 0 (draw rand_max d.rand) s.rps d.read < int_limit
    → (t : Totaliser) × (serve_players n 0 (draw rand_max d.rand) d.read d.write s ≡ some t)
      × (t.total_bet ≡ pos (a + paid_by n 0 s.rps d.read))
      × (t.total_reward ≡ pos (b + won_by n 0 (draw rand_max d.rand) s.rps d.read))
day_lem rand_max n a b d s ok ok' ok'' ea eb small small' =
    let (t, went, sums) =
      serve_players-Sums n 0 a b (draw rand_max d.rand) d.read d.write s
        (λ c. ((draw_lem rand_max d.rand ok).1 c).0) ok' ok''
        (record {
          paid = ea ∙ sym (int_value_small a (omega (arith, small)));
          reward = eb ∙ sym (int_value_small b (omega (arith, small')));
        }) in
    (t, went, sums.paid ∙ int_value_small _ small, sums.reward ∙ int_value_small _ small')
