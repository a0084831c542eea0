-- ===== src/Roulette/Table.antt =====
-- Who stays at the table.
use sop.Prelude.{
  ℕ, zero, suc, ◌+◌, ◌<◌, ◌≤◌, ◌≡◌, ◌≢◌, refl, sym, ap, ◌∙◌, [], ◌∷◌, ◌++◌, arith, Bool, true,
  false, Option, none, some, if◌then◌else◌, ◌==◌, get_or, set, length, get_or-set_self,
  get_or-set_ne, length-set, Bool-cases, inl, inr,
}
use sop.Roulette.{
  Offer, placed, ended, failed, Written, delivered, epipe, broken, Croupier, answer, serve_player,
  serve_players,
}

abbrev pub has_left : Offer → Bool
has_left (placed pid number bet) = false
has_left ended = true
has_left failed = false

-- What a player's turn has made of `s`.
record Turned (i : ℕ) (offer : Offer) (s t : Croupier) : Type 0 where
  size : length t.rps ≡ length s.rps
  here : get_or t.rps i 0 ≡ (if has_left offer then 0 else get_or s.rps i 0)
  others : (j : ℕ) → i ≢ j → get_or t.rps j 0 ≡ get_or s.rps j 0

answer-pipes :
    (i pid number bet : ℕ) (w : Written) (s : Croupier)
    → w ≢ broken
    → (t : Croupier) × (answer i pid number bet w s ≡ some t) × (t.rps ≡ s.rps)
unfolding answer
answer-pipes i pid number bet delivered s ok =
    (record s { lines = s.lines ++ (pid, bet, number) ∷ [] }, refl, refl)
answer-pipes i pid number bet epipe s ok = elim (Bool-cases (get_or s.wps i 0 == 0)) [
  | inl gone ↦ (record s { lines = s.lines ++ (pid, bet, number) ∷ [] }, rw gone refl, refl)
  | inr there ↦ (record s { wps = set s.wps i 0 }, rw there refl, refl)
]
answer-pipes i pid number bet broken s ok = absurd (ok refl)

stays :
    (i : ℕ) (offer : Offer) (s t : Croupier)
    → has_left offer ≡ false
    → t.rps ≡ s.rps
    → Turned i offer s t
stays i offer s t h e = record {
  size = ap length e;
  here = rw h (ap (λ r. get_or r i 0) e);
  others = λ j ne. ap (λ r. get_or r j 0) e;
}

serve_player-Turned :
    (i : ℕ) (offer : Offer) (w : Written) (s : Croupier)
    → offer ≢ failed
    → w ≢ broken
    → i < length s.rps
    → (t : Croupier) × (serve_player i offer w s ≡ some t) × Turned i offer s t
unfolding serve_player
serve_player-Turned i offer w s ok ok' lt = elim (Bool-cases (get_or s.rps i 0 == 0)) [
  | inl gone ↦ (s, rw gone refl, record { size = refl; here = ground arith; others = λ j ne. refl })
  | inr there ↦ rw there (turn offer ok)
]
  where
    turn :
        (o : Offer)
        → o ≢ failed
        → (t : Croupier) × ((elim o as (λ _. Option Croupier) [
          | placed pid number bet ↦ answer i pid number bet w s
          | ended ↦ some (record s { rps = set s.rps i 0 })
          | failed ↦ none
        ])
            ≡ some t)
          × Turned i o s t
    turn (placed pid number bet) ok =
        let (t, e, same) = answer-pipes i pid number bet w s ok' in
        (t, e, stays i (placed pid number bet) s t refl same)
    turn ended ok = (
      record s { rps = set s.rps i 0 },
      refl,
      record {
        size = length-set s.rps i 0;
        here = get_or-set_self s.rps i 0 0 lt;
        others = λ j ne. get_or-set_ne s.rps i j 0 0 ne;
      },
    )
    turn failed ok = absurd (ok refl)

-- One round over the players from number `i` on, of which `n` are left, all inside the table: if no
-- `read` fails and no `write` fails with an error other than EPIPE, the round goes through;
-- afterwards the pipe from each of these players is closed if a `read` from it came to the end, and
-- as it was if not, and the pipes from the others are as they were.
pub serve_players_lem :
    (n i : ℕ) (read : ℕ → Offer) (write : ℕ → Written) (s : Croupier)
    → ((j : ℕ) → read j ≢ failed)
    → ((j : ℕ) → write j ≢ broken)
    → i + n ≤ length s.rps
    → (t : Croupier) × (serve_players n i read write s ≡ some t)
      × (length t.rps ≡ length s.rps)
      × ((j : ℕ)
          → i ≤ j
          → j < i + n
          → get_or t.rps j 0 ≡ (if has_left (read j) then 0 else get_or s.rps j 0))
      × ((j : ℕ) → j < i → get_or t.rps j 0 ≡ get_or s.rps j 0)
unfolding serve_players
serve_players_lem zero i read write s ok ok' lt =
    (s, refl, refl, (λ j le lt'. absurd (omega arith)), (λ j lt'. refl))
serve_players_lem (suc n) i read write s ok ok' lt =
    let (m, went, turn) = serve_player-Turned i (read i) (write i) s (ok i) (ok' i) (omega arith) in
    let (t, rest, size, mine, before) =
      serve_players_lem n (i + 1) read write m ok ok' (omega (arith, turn.size)) in
    (
      t,
      rw went rest,
      size ∙ turn.size,
      (λ j le lt'. elim (Bool-cases (i == j)) [
        | inl same ↦
            let e : i ≡ j = ground arith in
            ap (λ k. get_or t.rps k 0) (sym e)
            ∙ before i (omega arith)
            ∙ turn.here
            ∙ ap (λ k. if has_left (read k) then 0 else get_or s.rps k 0) e
        | inr later ↦
            mine j (ground arith) (omega arith)
            ∙ ap (λ v. if has_left (read j) then 0 else v) (turn.others j (λ e. ground arith))
      ]),
      (λ j lt'. before j (omega arith) ∙ turn.others j (λ e. omega (arith, e))),
    )
