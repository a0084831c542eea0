-- ===== src/Pipes/Ends.antt =====
-- What stays open.
use sop.Prelude.{
  ℕ, zero, suc, ◌+◌, ◌<◌, ◌≤◌, ◌≡◌, ◌≢◌, refl, sym, ap, ◌∙◌, List, arith, true, false, some, ◌==◌,
  length, set, length-set, length-replicate, get_or-set_self, get_or-set_ne, Bool-cases, inl, inr,
}
use sop.Pipes.{
  Open, End, reading, writing, is_open, other, shut, at, close_pipe, create_pipes, close_others,
  close_pipes_except, close_one_end, close_pipes_all_one_end,
}

-- An end that is open gets closed, and no other end is touched.
record Closed (ps : List Open) (i : ℕ) (e : End) (qs : List Open) : Type 0 where
  made : close_pipe ps i e ≡ some qs
  size : length qs ≡ length ps
  here : at qs i ≡ shut (at ps i) e
  there : (j : ℕ) → i ≢ j → at qs j ≡ at ps j

close_pipe_lem :
    (ps : List Open) (i : ℕ) (e : End)
    → i < length ps
    → is_open (at ps i) e ≡ true
    → (qs : List Open) × Closed ps i e qs
unfolding close_pipe
close_pipe_lem ps i e lt on = (
  set ps i (shut (at ps i) e),
  record {
    made = rw on refl;
    size = length-set ps i _;
    here = get_or-set_self ps i _ (false, false) lt;
    there = λ j ne. get_or-set_ne ps i j _ (false, false) ne;
  },
)

-- The loop closes both ends of all pipes from `i` on but one.
record Rest (ps : List Open) (i except_idx : ℕ) (qs : List Open) : Type 0 where
  size : length qs ≡ length ps
  before : (j : ℕ) → j < i → at qs j ≡ at ps j
  kept : at qs except_idx ≡ at ps except_idx
  gone : (j : ℕ) → i ≤ j → j < length ps → j ≢ except_idx → at qs j ≡ (false, false)

close_others_lem :
    (ps : List Open) (i n x : ℕ)
    → i + n ≡ length ps
    → ((j : ℕ) → i ≤ j → j < length ps → at ps j ≡ (true, true))
    → (qs : List Open) × (close_others ps i n x ≡ some qs) × Rest ps i x qs
unfolding close_others
close_others_lem ps i zero x e on = (
  ps,
  refl,
  record {
    size = refl;
    before = λ j lt. refl;
    kept = refl;
    gone = λ j le lt ne. absurd (omega (arith, le, lt, e));
  },
)
close_others_lem ps i (suc n) x e on = elim (Bool-cases (i == x)) [
  | inl mine ↦
      let (qs, made, r) =
        close_others_lem ps (suc i) n x (omega (arith, e))
          (λ j le lt. on j (omega (arith, le)) lt) in
      (
        qs,
        rw mine made,
        record {
          size = r.size;
          before = λ j lt. r.before j (omega (arith, lt));
          kept = r.kept;
          gone = λ j le lt ne. r.gone j (ground (arith, le, mine, ne)) lt ne;
        },
      )
  | inr other_pipe ↦
      let here : at ps i ≡ (true, true) = on i (omega arith) (omega (arith, e)) in
      let (qs, c) = close_pipe_lem ps i reading (omega (arith, e)) (ap (λ o. o.0) here) in
      let (rs, d) =
        close_pipe_lem qs i writing (omega (arith, e, c.size))
          (ap (λ o. o.1) (c.here ∙ ap (λ o. shut o reading) here)) in
      let dead : at rs i ≡ (false, false) =
        d.here ∙ ap (λ o. shut o writing) (c.here ∙ ap (λ o. shut o reading) here) in
      let size : length rs ≡ length ps = d.size ∙ c.size in
      let same : (j : ℕ) → i ≢ j → at rs j ≡ at ps j = λ j ne. d.there j ne ∙ c.there j ne in
      let (ts, made, r) = close_others_lem rs (suc i) n x (omega (arith, e, size)) (λ j le lt.
        same j (λ q. omega (arith, q, le)) ∙ on j (omega (arith, le)) (omega (arith, lt, size))) in
      (
        ts,
        rw (other_pipe, c.made, d.made) made,
        record {
          size = r.size ∙ size;
          before = λ j lt. r.before j (omega (arith, lt)) ∙ same j (λ q. omega (arith, q, lt));
          kept = r.kept ∙ same x (λ q. ground (arith, q, other_pipe));
          gone = λ j le lt ne. elim (Bool-cases (i == j)) [
            | inl this ↦
                let q : j ≡ i = ground arith in r.before j (omega (arith, q)) ∙ ap (at rs) q ∙ dead
            | inr later ↦ r.gone j (ground (arith, le, later)) (omega (arith, lt, size)) ne
          ];
        },
      )
]

at-create : (n i : ℕ) → i < n → at (create_pipes n) i ≡ (true, true)
at-create zero i lt = elim lt [ ]
at-create (suc n) zero lt = refl
at-create (suc n) (suc i) lt = at-create n i (omega arith)

-- A process with one end of one pipe to itself.
abbrev only : End → Open
only reading = (true, false)
only writing = (false, true)

shut-other : (e : End) → shut (true, true) (other e) ≡ only e
shut-other reading = refl
shut-other writing = refl

is_open-other : (e : End) → is_open (true, true) (other e) ≡ true
is_open-other reading = refl
is_open-other writing = refl

-- Only the end `e` of the pipe `x` stays open.
close_pipes_except_lem :
    (n x : ℕ) (e : End)
    → x < n
    → (qs : List Open) × (close_pipes_except (create_pipes n) n x e ≡ some qs)
      × (at qs x ≡ only e)
      × ((j : ℕ) → j < n → j ≢ x → at qs j ≡ (false, false))
unfolding close_pipes_except
close_pipes_except_lem n x e lt =
    let ps : List Open = create_pipes n in
    let size : length ps ≡ n = length-replicate n (true, true) in
    let (qs, made, r) =
      close_others_lem ps 0 n x (omega (arith, size))
        (λ j le l. at-create n j (omega (arith, l, size))) in
    let kept : at qs x ≡ (true, true) = r.kept ∙ at-create n x lt in
    let (rs, c) =
      close_pipe_lem qs x (other e) (omega (arith, r.size, size, lt))
        (ap (λ o. is_open o (other e)) kept ∙ is_open-other e) in
    (
      rs,
      rw made c.made,
      c.here ∙ ap (λ o. shut o (other e)) kept ∙ shut-other e,
      λ j l ne. c.there j (λ q. ne (sym q)) ∙ r.gone j (omega arith) (omega (arith, l, size)) ne,
    )

all_open : (e : End) → is_open (true, true) e ≡ true
all_open reading = refl
all_open writing = refl

close_one_end_lem :
    (ps : List Open) (i n : ℕ) (e : End)
    → i + n ≡ length ps
    → ((j : ℕ) → i ≤ j → j < length ps → at ps j ≡ (true, true))
    → (qs : List Open) × (close_one_end ps i n e ≡ some qs)
      × ((j : ℕ) → j < i → at qs j ≡ at ps j)
      × ((j : ℕ) → i ≤ j → j < length ps → at qs j ≡ shut (true, true) e)
unfolding close_one_end
close_one_end_lem ps i zero e z on =
    (ps, refl, (λ j lt. refl), λ j le lt. absurd (omega (arith, le, lt, z)))
close_one_end_lem ps i (suc n) e z on =
    let here : at ps i ≡ (true, true) = on i (omega arith) (omega (arith, z)) in
    let (qs, c) =
      close_pipe_lem ps i e (omega (arith, z)) (ap (λ o. is_open o e) here ∙ all_open e) in
    let (rs, made, before, shut_all) =
      close_one_end_lem qs (suc i) n e (omega (arith, z, c.size)) (λ j le lt.
        c.there j (λ q. omega (arith, q, le))
        ∙ on j (omega (arith, le)) (omega (arith, lt, c.size))) in
    (
      rs,
      rw c.made made,
      (λ j lt. before j (omega (arith, lt)) ∙ c.there j (λ q. omega (arith, q, lt))),
      λ j le lt. elim (Bool-cases (i == j)) [
        | inl this ↦
            let q : j ≡ i = ground arith in
            before j (omega (arith, q)) ∙ ap (at qs) q ∙ c.here ∙ ap (λ o. shut o e) here
        | inr later ↦ shut_all j (ground (arith, le, later)) (omega (arith, lt, c.size))
      ],
    )

-- Of `n` pipes just made, of which a child `x` keeps one end with `close_pipes_except` and the parent
-- closes this end of all with `close_pipes_all_one_end`: no `close` fails; the child has that end of
-- its own pipe open and nothing else; and the parent has exactly the other end of each.
pub ends_lem :
    (n x : ℕ) (e : End)
    → x < n
    → (child : List Open) × (parent : List Open) × (close_pipes_except (create_pipes n) n x e
        ≡ some child)
      × (close_pipes_all_one_end (create_pipes n) n e ≡ some parent)
      × (at child x ≡ shut (true, true) (other e))
      × ((j : ℕ) → j < n → j ≢ x → at child j ≡ (false, false))
      × ((j : ℕ) → j < n → at parent j ≡ shut (true, true) e)
unfolding close_pipes_all_one_end
ends_lem n x e lt =
    let (child, made, mine, rest) = close_pipes_except_lem n x e lt in
    let size : length (create_pipes n) ≡ n = length-replicate n (true, true) in
    let (parent, done_all, before, shut_all) =
      close_one_end_lem (create_pipes n) 0 n e (omega (arith, size))
        (λ j le l. at-create n j (omega (arith, l, size))) in
    (
      child,
      parent,
      made,
      done_all,
      mine ∙ sym (shut-other e),
      rest,
      λ j l. shut_all j (omega arith) (omega (arith, l, size)),
    )
