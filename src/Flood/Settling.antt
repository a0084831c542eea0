-- ===== src/Flood/Settling.antt =====
-- Whether a letter comes to rest.
use mathlib.Core.Path.{subst}
use native.Mathlib.Nat.{mul-suc}
use sop.Prelude.{
  ℕ, zero, suc, ◌+◌, ◌*◌, ◌<◌, ◌≤◌, ◌≡◌, ◌≢◌, refl, sym, ap, ◌∙◌, List, [], ◌∷◌, ◌++◌, arith, true,
  not, ◌&&◌, ◌==◌, length, length-append, Bool-cases, inl, inr,
}
use sop.Prelude.Count.{one_of}
use sop.Flood.{Graph, edge, Hop, spread, Flood, put, is_directive}
use sop.Flood.Network.{directs, Reads, reads, Reach, begin, more, next}
use sop.Flood.Spread.{Letters, Letters-out}
use sop.Flood.Coverage.{Reach-Inv}

-- The provinces that have not had the letter, of the first `n`.
unfoldable pub unseen : ℕ → (ℕ → ℕ) → ℕ → ℕ
unseen c f zero = 0
unseen c f (suc n) = one_of (not (f n == c)) + unseen c f n

unseen-above : (c : ℕ) (f : ℕ → ℕ) (k n : ℕ) → n ≤ k → unseen c (put f k c) n ≡ unseen c f n
unfolding unseen
unseen-above c f k zero le = refl
unseen-above c f k (suc n) le =
    let same : put f k c n ≡ f n = ground (arith, le) in
    omega (arith, ap (λ x. one_of (not (x == c))) same, unseen-above c f k n (omega (arith, le)))

-- One province more has had it.
unseen-put :
    (c : ℕ) (f : ℕ → ℕ) (k n : ℕ) → k < n → f k ≢ c → suc (unseen c (put f k c) n) ≡ unseen c f n
unfolding unseen
unseen-put c f k zero lt ne = elim lt [ ]
unseen-put c f k (suc n) lt ne = elim (Bool-cases (n == k)) [
  | inl here ↦
      let q : n ≡ k = ground arith in
      let now : one_of (not (put f k c n == c)) ≡ 0 = ground (arith, q) in
      let was : one_of (not (f n == c)) ≡ 1 =
        subst (λ x. one_of (not (f x == c)) ≡ 1) (sym q) (ground (arith, ne)) in
      omega (arith, now, was, unseen-above c f k n (omega (arith, q)))
  | inr other ↦
      let same : put f k c n ≡ f n = ground (arith, other) in
      omega (
        arith,
        ap (λ x. one_of (not (x == c))) same,
        unseen-put c f k n (ground (arith, lt, other)) ne,
      )
]

abbrev Inside : ℕ → List Hop → Type 0
Inside n [] = Unit
Inside n (h ∷ hs) = (h.to < n) × Inside n hs

Inside-append : (n : ℕ) (gs hs : List Hop) → Inside n gs → Inside n hs → Inside n (gs ++ hs)
Inside-append n [] hs a b = b
Inside-append n (g ∷ gs) hs a b = (a.0, Inside-append n gs hs a.1 b)

Inside-out :
    (n : ℕ) (gs : List Hop) (h : Hop) (hs : List Hop)
    → Inside n (gs ++ h ∷ hs)
    → (h.to < n) × Inside n (gs ++ hs)
Inside-out n [] h hs a = a
Inside-out n (g ∷ gs) h hs a = let rest = Inside-out n gs h hs a.1 in (rest.0, (a.0, rest.1))

spread-Inside : (g : Graph) (k c j d : ℕ) → j + d ≤ g.n → Inside g.n (spread g k c j d)
unfolding spread
spread-Inside g k c j zero le = tt
spread-Inside g k c j (suc d) le = elim (Bool-cases (edge g k j && not (j == k))) [
  | inl out ↦ rw out (omega (arith, le), spread-Inside g k c (suc j) d (omega (arith, le)))
  | inr off ↦ rw off (spread-Inside g k c (suc j) d (omega (arith, le)))
]

length-spread : (g : Graph) (k c j d : ℕ) → length (spread g k c j d) ≤ d
unfolding spread
length-spread g k c j zero = omega arith
length-spread g k c j (suc d) = elim (Bool-cases (edge g k j && not (j == k))) [
  | inl out ↦ rw out (omega (arith, length-spread g k c (suc j) d))
  | inr off ↦ rw off (omega (arith, length-spread g k c (suc j) d))
]

Reach-Inside :
    (g : Graph) (Typed : ℕ → Type 0) {s : Flood} → 0 < g.n → Reach g Typed s → Inside g.n s.flight
Reach-Inside g P pos begin = tt
Reach-Inside g P pos (more {s} c r typed (directs ok)) =
    Inside-append g.n s.flight _ (Reach-Inside g P pos r) (pos, tt)
Reach-Inside g P pos (next {s} r (reads gs h hs e first)) =
    let rest = (Inside-out g.n gs h hs (subst (Inside g.n) e (Reach-Inside g P pos r))).1 in
    elim (Bool-cases (h.letter == s.last_char h.to)) [
      | inl old ↦ rw old rest
      | inr fresh ↦
          rw fresh (
            Inside-append g.n (gs ++ hs) _ rest (spread-Inside g h.to h.letter 0 g.n (omega arith)))
    ]

-- The letters in the pipes, and those that may still be written.
abbrev pub weight : Graph → ℕ → Flood → ℕ
weight g c s = length s.flight + suc g.n * unseen c s.last_char g.n

length-middle :
    (gs : List Hop) (h : Hop) (hs : List Hop) → length (gs ++ h ∷ hs) ≡ suc (length (gs ++ hs))
length-middle gs h hs = omega (arith, length-append gs (h ∷ hs), length-append gs hs)

-- If only one letter is typed, then with every letter that a province reads, those in the pipes, with
-- `n + 1` for every province that has not had it, get fewer.
pub settles :
    (g : Graph) (c : ℕ) (s t : Flood)
    → 0 < g.n
    → is_directive c ≡ true
    → Reach g (λ d. d ≡ c) s
    → Reads g s t
    → weight g c t < weight g c s
settles g c s t pos ok r (reads gs h hs e first) =
    let (l, others) =
      Letters-out c gs h hs
        (subst (Letters c) e (Reach-Inv g c (λ z. ground (arith, z, ok)) r).letters) in
    let inside =
      (Inside-out g.n gs h hs (subst (Inside g.n) e (Reach-Inside g (λ d. d ≡ c) pos r))).0 in
    let size : length s.flight ≡ suc (length (gs ++ hs)) = ap length e ∙ length-middle gs h hs in
    elim (Bool-cases (h.letter == s.last_char h.to)) [
      | inl old ↦ rw old (omega (arith, size))
      | inr fresh ↦
          let ne : s.last_char h.to ≢ c = λ z. ground (arith, z, l, fresh) in
          let fewer : suc (unseen c (put s.last_char h.to h.letter) g.n)
              ≡ unseen c s.last_char g.n =
            subst (λ x. suc (unseen c (put s.last_char h.to x) g.n) ≡ unseen c s.last_char g.n)
              (sym l) (unseen-put c s.last_char h.to g.n inside ne) in
          rw fresh (
            omega (
              arith,
              size,
              length-append (gs ++ hs) (spread g h.to h.letter 0 g.n),
              length-spread g h.to h.letter 0 g.n,
              ap (λ u. suc g.n * u) fewer,
              mul-suc (suc g.n) (unseen c (put s.last_char h.to h.letter) g.n),
            ))
    ]
