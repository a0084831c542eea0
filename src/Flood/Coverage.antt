-- ===== src/Flood/Coverage.antt =====
-- Where a letter gets.
use mathlib.Core.Path.{subst}
use sop.Prelude.{
  ℕ, ◌+◌, ◌<◌, ◌≤◌, ◌≡◌, ◌≢◌, ◌⊎◌, refl, sym, ap, ◌∙◌, List, [], ◌∷◌, ◌++◌, arith, true, ◌==◌,
  Bool-cases, inl, inr, none,
}
use sop.Prelude.Count.{one_if, sum_of, sum_of-append, sum_of-insert}
use sop.Flood.{Graph, edge, Hop, spread, Flood, put, receive, is_directive, direct}
use sop.Flood.Network.{directs, reads, Reach, begin, more, next}
use sop.Flood.Spread.{toward, Letters, Letters-append, Letters-out, spread-Letters, spread-toward}

-- A province has had the letter `c`, or one is on its way to it.
abbrev pub Known : ℕ → Flood → ℕ → Type 0
Known c s j = (s.last_char j ≡ c) ⊎ (0 < toward j s.flight)

pub record Inv (g : Graph) (c : ℕ) (s : Flood) : Type 0 where
  pub letters : Letters c s.flight
  pub edges : (k j : ℕ) → j < g.n → edge g k j ≡ true → s.last_char k ≡ c → Known c s j
  pub asked : 0 < s.sent → Known c s 0

receive-Known :
    (g : Graph) (c : ℕ) (s : Flood) (gs : List Hop) (h : Hop) (hs : List Hop) (j : ℕ)
    → s.flight ≡ gs ++ h ∷ hs
    → h.letter ≡ c
    → Known c s j
    → Known c (receive g h (gs ++ hs) s) j
receive-Known g c s gs h hs j e l known =
    let sum : toward j s.flight ≡ one_if j h.to + toward j (gs ++ hs) =
      ap (toward j) e ∙ sum_of-insert (λ x. one_if j x.to) gs h hs in
    elim (Bool-cases (h.letter == s.last_char h.to)) [
      | inl old ↦ rw old (elim (Bool-cases (h.to == j)) [
        | inl here ↦ inl (
            ap s.last_char (let q : j ≡ h.to = ground arith in q)
            ∙ (let q : s.last_char h.to ≡ c = ground (arith, l, old) in q))
        | inr other ↦ elim known [
          | inl had ↦ inl had
          | inr coming ↦ inr (ground (arith, sum, coming, other))
        ]
      ])
      | inr fresh ↦ rw fresh (elim (Bool-cases (h.to == j)) [
        | inl here ↦
            inl (let q : put s.last_char h.to h.letter j ≡ c = ground (arith, l, here) in q)
        | inr other ↦ elim known [
          | inl had ↦
              inl (let q : put s.last_char h.to h.letter j ≡ c = ground (arith, had, other) in q)
          | inr coming ↦
              let zero_here : one_if j h.to ≡ 0 = ground (arith, other) in
              inr (
                omega (
                  arith,
                  sum,
                  coming,
                  zero_here,
                  sum_of-append (λ x. one_if j x.to) (gs ++ hs) (spread g h.to h.letter 0 g.n),
                ))
        ]
      ])
    ]

-- The neighbours of a province that has just had the letter.
receive-edges :
    (g : Graph) (c : ℕ) (s : Flood) (rest : List Hop) (h : Hop) (k j : ℕ)
    → h.letter ≡ c
    → j < g.n
    → edge g k j ≡ true
    → (receive g h rest s).last_char k ≡ c
    → (s.last_char k ≡ c) ⊎ Known c (receive g h rest s) j
receive-edges g c s rest h k j l lt e had = elim (Bool-cases (h.letter == s.last_char h.to)) [
  | inl old ↦ inl (let q : s.last_char k ≡ c = rw old at had in q)
  | inr fresh ↦
      let now : put s.last_char h.to h.letter k ≡ c = rw fresh at had in
      elim (Bool-cases (h.to == k)) [
        | inl here ↦ inr (
            rw fresh (elim (Bool-cases (j == k)) [
              | inl itself ↦ inl (
                  let q : put s.last_char h.to h.letter j ≡ c = ground (arith, l, here, itself) in
                  q)
              | inr other ↦
                  let q : k ≡ h.to = ground arith in
                  let sent : 0 < toward j (spread g h.to h.letter 0 g.n) =
                    spread-toward g h.to h.letter 0 g.n j (subst (λ x. edge g x j ≡ true) q e)
                      (λ z. ground (arith, z, q, other)) (omega arith) (omega (arith, lt)) in
                  inr (
                    omega (
                      arith,
                      sent,
                      sum_of-append (λ x. one_if j x.to) rest (spread g h.to h.letter 0 g.n),
                    ))
            ]))
        | inr other ↦ inl (let q : s.last_char k ≡ c = ground (arith, now, other) in q)
      ]
]

receive-Inv :
    (g : Graph) (c : ℕ) (s : Flood) (gs : List Hop) (h : Hop) (hs : List Hop)
    → s.flight ≡ gs ++ h ∷ hs
    → Inv g c s
    → Inv g c (receive g h (gs ++ hs) s)
receive-Inv g c s gs h hs e v =
    let (l, others) = Letters-out c gs h hs (subst (Letters c) e v.letters) in
    record {
      letters = elim (Bool-cases (h.letter == s.last_char h.to)) [
        | inl old ↦ rw old others
        | inr fresh ↦ rw fresh (
            Letters-append c (gs ++ hs) _ others (
              subst (λ x. Letters c (spread g h.to x 0 g.n)) (sym l)
                (spread-Letters g h.to c 0 g.n)))
      ];
      edges = λ k j lt out had. elim (receive-edges g c s (gs ++ hs) h k j l lt out had) [
        | inl before ↦ receive-Known g c s gs h hs j e l (v.edges k j lt out before)
        | inr known ↦ known
      ];
      asked = λ some_sent. receive-Known g c s gs h hs 0 e l (
          v.asked (elim (Bool-cases (h.letter == s.last_char h.to)) [
            | inl old ↦ rw old at some_sent
            | inr fresh ↦ rw fresh at some_sent
          ]));
    }

direct-Inv : (g : Graph) (c : ℕ) (s : Flood) → Inv g c s → Inv g c (direct c s)
unfolding sum_of
direct-Inv g c s v =
    let grown : (j : ℕ) → toward j s.flight ≤ toward j (direct c s).flight = λ j. omega (
      arith,
      sum_of-append (λ x. one_if j x.to) s.flight (record { from = none; to = 0; letter = c } ∷ []),
    ) in
    record {
      letters = Letters-append c s.flight _ v.letters (refl, tt);
      edges = λ k j lt out had. elim (v.edges k j lt out had) [
        | inl known ↦ inl known
        | inr coming ↦ inr (omega (arith, coming, grown j))
      ];
      asked = λ z. inr (
          omega (
            arith,
            sum_of-append (λ x. one_if 0 x.to) s.flight
                (record { from = none; to = 0; letter = c } ∷ []),
          ));
    }

pub Reach-Inv : (g : Graph) (c : ℕ) {s : Flood} → c ≢ 0 → Reach g (λ d. d ≡ c) s → Inv g c s
Reach-Inv g c ne begin = record {
  letters = tt;
  edges = λ k j lt out had. absurd (ne (sym had));
  asked = λ z. absurd (omega (arith, z));
}
Reach-Inv g c ne (more {s} d r same (directs ok)) =
    subst (λ x. Inv g c (direct x s)) (sym same) (direct-Inv g c s (Reach-Inv g c ne r))
Reach-Inv g c ne (next {s} r (reads gs h hs e first)) =
    receive-Inv g c s gs h hs e (Reach-Inv g c ne r)

-- The provinces to which edges lead from the province 0.
pub data Linked (g : Graph) : ℕ → Type 0 where
  first : Linked g 0
  onward : {k : ℕ} (j : ℕ) → Linked g k → j < g.n → edge g k j ≡ true → Linked g j

-- If only one letter is typed, at least once, then when the pipes are empty every province to which
-- edges lead from the province 0 has had it.
pub coverage :
    (g : Graph) (c : ℕ) (s : Flood) (k : ℕ)
    → is_directive c ≡ true
    → Reach g (λ d. d ≡ c) s
    → 0 < s.sent
    → s.flight ≡ []
    → Linked g k
    → s.last_char k ≡ c
unfolding sum_of
coverage g c s k ok r typed empty path = go path
  where
    v : Inv g c s
    v = Reach-Inv g c (λ z. ground (arith, z, ok)) r

    arrived : (j : ℕ) → Known c s j → s.last_char j ≡ c
    arrived j known = elim known [
      | inl had ↦ had
      | inr coming ↦ absurd (omega (arith, coming, ap (toward j) empty))
    ]

    go : {i : ℕ} → Linked g i → s.last_char i ≡ c
    go first = arrived 0 (v.asked typed)
    go (onward {k = i} j l lt out) = arrived j (v.edges i j lt out (go l))
