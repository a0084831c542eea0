-- ===== src/Napoleon/Sections.antt =====
-- What one critical section of an adjutant keeps.
use mathlib.Core.Path.{subst}
use sop.Prelude.{
  ℕ, ◌+◌, ◌-◌, ◌<◌, ◌≤◌, ◌≡◌, refl, sym, ap, ◌∙◌, List, [], ◌∷◌, ◌++◌, arith, Bool, true, false,
  Option, none, some, if◌then◌else◌, ◌==◌, ltb, length, get_or, set, length-set, length-append,
  Bool-cases, Option-cases, inl, inr,
}
use sop.Prelude.Int.{ℤ, pos, negsuc}
use sop.Napoleon.{
  Message, Division, State, no_division, division_names_size, coordinate, side, find_division,
  register, clear_row, put, Scan, Adjutant, idle, reporting, clearing, placing, read_report,
  entered, next_row, section, pop, no_message,
}
use sop.Napoleon.Report.{
  Distinct, AtWork, Sound, Rows-more, clear_row-Cells, length-clear_row, set-Cells, set-Rows,
  find_division-some, find_division-none, Distinct-set, Distinct-append,
}

-- A section keeps the state sound, the divisions do not become fewer, and the adjutant has a division
-- and a cell as it should.
pub record Kept (s : State) (out : Adjutant × State) : Type 0 where
  pub sound : Sound out.1
  pub grown : length s.divisions ≤ length out.1.divisions
  pub busy : AtWork (length out.1.divisions) out.0

coordinate-small : (z : ℤ) (n : ℕ) → coordinate z ≡ some n → n < 100
unfolding coordinate
coordinate-small (pos m) n e = ground (arith, e)
coordinate-small (negsuc m) n e = absurd (let q : none ≡ some n = e in cc)

read_report-AtWork : (scan : Scan) (m : Message) (n : ℕ) → AtWork n (read_report scan m)
unfolding read_report
read_report-AtWork scan m n = elim (Option-cases (scan m.buf)) [
  | inl bad ↦ dropped (rw (read_report, bad) refl)
  | inr ((x, y, p, name), e) ↦ elim (Option-cases (coordinate x)) [
    | inl bad ↦ dropped (rw (read_report, e, bad) refl)
    | inr (x', ex) ↦ elim (Option-cases (coordinate y)) [
      | inl bad ↦ dropped (rw (read_report, e, ex, bad) refl)
      | inr (y', ey) ↦ elim (Option-cases (side p)) [
        | inl bad ↦ dropped (rw (read_report, e, ex, ey, bad) refl)
        | inr (p', ep) ↦
            let taken : read_report scan m ≡ reporting x' y' p' name m.addr =
              rw (read_report, e, ex, ey, ep) refl in
            subst (AtWork n) (sym taken) (coordinate-small x x' ex, coordinate-small y y' ey)
      ]
    ]
  ]
]
  where
    dropped : read_report scan m ≡ idle → AtWork n (read_report scan m)
    dropped e = subst (AtWork n) (sym e) tt

idle_waits : (scan : Scan) (s : State) → (s.top == 0) ≡ true → section scan idle s ≡ (idle, s)
unfolding section pop
idle_waits scan s e = rw (section, pop, e) refl

idle_takes :
    (scan : Scan) (s : State)
    → (s.top == 0) ≡ false
    → section scan idle s
      ≡ (read_report scan (get_or s.stack (s.top - 1) no_message), record s { top = s.top - 1 })
unfolding section pop
idle_takes scan s e = rw (section, pop, e) refl

idle-Kept : (scan : Scan) (s : State) → Sound s → Kept s (section scan idle s)
idle-Kept scan s v = elim (Bool-cases (s.top == 0)) [
  | inl empty ↦
      subst (Kept s) (sym (idle_waits scan s empty))
        (record { sound = v; grown = omega arith; busy = tt })
  | inr more ↦ subst (Kept s) (sym (idle_takes scan s more)) (record {
    sound = record { size = v.size; rows = v.rows; bound = v.bound; distinct = v.distinct };
    grown = omega arith;
    busy = read_report-AtWork scan (get_or s.stack (s.top - 1) no_message) (length s.divisions);
  })
]

register_known :
    (name : List ℕ) (addr p : ℕ) (ds : List Division) (j : ℕ)
    → find_division name ds 0 ≡ some j
    → register name addr p ds ≡ (some j, set ds j (record { name = name; addr = addr; p = p }))
unfolding register
register_known name addr p ds j e = rw (register, e) refl

register_new :
    (name : List ℕ) (addr p : ℕ) (ds : List Division)
    → find_division name ds 0 ≡ none
    → register name addr p ds ≡ (
        if ltb (length ds) division_names_size
        then (some (length ds), ds ++ record { name = name; addr = addr; p = p } ∷ [])
        else (none, ds))
unfolding register
register_new name addr p ds e = rw (register, e) refl

module _ (s : State) (v : Sound s) (x y : ℕ) (inside : (x < 100) × (y < 100)) where
  entered-some :
      (d : ℕ) (ds : List Division)
      → d < length ds
      → length s.divisions ≤ length ds
      → length ds ≤ division_names_size
      → Distinct ds
      → Kept s (entered x y s (some d, ds))
  unfolding entered
  entered-some d ds lt le bound distinct = record {
    sound = record {
      size = v.size;
      rows = Rows-more (length s.divisions) (length ds) s.map le v.rows;
      bound = bound;
      distinct = distinct;
    };
    grown = le;
    busy = (lt, omega arith, inside.0, inside.1);
  }

  entered-none : Kept s (entered x y s (none, s.divisions))
  unfolding entered
  entered-none = record {
    sound = record { size = v.size; rows = v.rows; bound = v.bound; distinct = v.distinct };
    grown = omega arith;
    busy = tt;
  }

  register-Kept :
      (name : List ℕ) (addr p : ℕ) → Kept s (entered x y s (register name addr p s.divisions))
  register-Kept name addr p = elim (Option-cases (find_division name s.divisions 0)) [
    | inr (j, e) ↦
        let (k, at, lt, named) = find_division-some name s.divisions 0 j e in
        let here : j ≡ k = omega (arith, at) in
        done (register_known name addr p s.divisions j e) (
          entered-some j (set s.divisions j new)
            (omega (arith, here, lt, length-set s.divisions j new))
            (omega (arith, length-set s.divisions j new))
            (omega (arith, v.bound, length-set s.divisions j new))
            (Distinct-set s.divisions j new
              (ap (λ i. (get_or s.divisions i no_division).name) here ∙ named) v.distinct))
    | inl e ↦ elim (Bool-cases (ltb (length s.divisions) division_names_size)) [
      | inl room ↦
          let longer : length (s.divisions ++ new ∷ []) ≡ length s.divisions + 1 =
            length-append s.divisions (new ∷ []) in
          done (register_new name addr p s.divisions e ∙ rw room refl) (
            entered-some (length s.divisions) (s.divisions ++ new ∷ []) (omega (arith, longer))
              (omega (arith, longer)) (ground (arith, longer, room))
              (Distinct-append s.divisions new (find_division-none name s.divisions 0 e)
                v.distinct))
      | inr full ↦ done (register_new name addr p s.divisions e ∙ rw full refl) entered-none
    ]
  ]
    where
      new : Division
      new = record { name = name; addr = addr; p = p }

      done :
          {out : Option ℕ × List Division}
          → register name addr p s.divisions ≡ out
          → Kept s (entered x y s out)
          → Kept s (entered x y s (register name addr p s.divisions))
      done e = subst (λ o. Kept s (entered x y s o)) (sym e)

clearing-Kept :
    (scan : Scan) (s : State) (d r x y : ℕ)
    → Sound s
    → AtWork (length s.divisions) (clearing d r x y)
    → Kept s (section scan (clearing d r x y) s)
unfolding section
clearing-Kept scan s d r x y v (lt, in_row, in_x, in_y) = record {
  sound = record {
    size = length-set s.map r _ ∙ v.size;
    rows =
        set-Rows (length s.divisions) r s.map (λ q. (clear_row d q).0) (length-clear_row d)
          (clear_row-Cells (length s.divisions) d) v.rows;
    bound = v.bound;
    distinct = v.distinct;
  };
  grown = omega arith;
  busy = after (clear_row d (get_or s.map r [])).1;
}
  where
    after : (found : Bool) → AtWork (length s.divisions) (next_row d r x y found)
    after true = (lt, in_x, in_y)
    after false = elim (Bool-cases (r + 1 == 100)) [
      | inl last ↦
          let e : next_row d r x y false ≡ placing d x y = rw last refl in
          subst (AtWork (length s.divisions)) (sym e) (lt, in_x, in_y)
      | inr more ↦
          let e : next_row d r x y false ≡ clearing d (r + 1) x y = rw more refl in
          subst (AtWork (length s.divisions)) (sym e) (lt, ground (arith, more, in_row), in_x, in_y)
    ]

placing-Kept :
    (scan : Scan) (s : State) (d x y : ℕ)
    → Sound s
    → AtWork (length s.divisions) (placing d x y)
    → Kept s (section scan (placing d x y) s)
unfolding section put
placing-Kept scan s d x y v (lt, in_x, in_y) = record {
  sound = record {
    size = length-set s.map x _ ∙ v.size;
    rows =
        set-Rows (length s.divisions) x s.map (λ q. set q y (some d)) (λ q. length-set q y (some d))
          (λ q. set-Cells (length s.divisions) y d q lt) v.rows;
    bound = v.bound;
    distinct = v.distinct;
  };
  grown = omega arith;
  busy = tt;
}

pub section-Kept :
    (scan : Scan) (a : Adjutant) (s : State)
    → Sound s
    → AtWork (length s.divisions) a
    → Kept s (section scan a s)
unfolding section
section-Kept scan idle s v w = idle-Kept scan s v
section-Kept scan (reporting x y p name addr) s v w = register-Kept s v x y w name addr p
section-Kept scan (clearing d r x y) s v w = clearing-Kept scan s d r x y v w
section-Kept scan (placing d x y) s v w = placing-Kept scan s d x y v w
