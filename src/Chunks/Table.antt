-- ===== src/Chunks/Table.antt =====
-- The server's table of connections as a map from addresses to the number of the next chunk.
use sop.Prelude.{
  ℕ, zero, suc, ◌+◌, ◌<◌, ◌≡◌, ◌≢◌, ◌⊎◌, inl, inr, refl, ap, ◌∙◌, List, [], ◌∷◌, arith, Bool, true,
  false, not, ◌&&◌, ◌||◌, Option, none, some, length, get_or, set, get_or-set_self, length-set, sym,
  if◌then◌else◌, ◌==◌, Bool-cases,
}
use sop.Prelude.Int.{ℤ, pos, add_int, add_int_small, int_limit}
use sop.Chunks.Server.{Connection, no_connection, find_from, find_index}

abbrev pub is_of : ℕ → Connection → Bool
is_of a c = not c.free && c.addr == a

-- Some slot is taken by address `a`.
unfoldable pub active : ℕ → List Connection → Bool
active a [] = false
active a (c ∷ cs) = is_of a c || active a cs

-- The number of the chunk that is next for address `a`; 1 for an address that has no slot.
unfoldable pub expected : ℕ → List Connection → ℤ
expected a [] = pos 1
expected a (c ∷ cs) =
    let rest = expected a cs in if is_of a c then add_int c.chunk_no (pos 1) else rest

unfoldable pub has_free : List Connection → Bool
has_free [] = false
has_free (c ∷ cs) = c.free || has_free cs

-- No address has two slots.
abbrev pub NoTwin : List Connection → Type 0
NoTwin [] = Unit
NoTwin (c ∷ cs) = (c.free ≡ false → active c.addr cs ≡ false) × NoTwin cs

-- Slot `i` may be written for address `a`: it is the first one of `a`, or a free one and `a` has
-- none.
abbrev pub Mine : ℕ → List Connection → ℕ → Type 0
Mine a [] i = ⊥
Mine a (c ∷ cs) zero = ((c.free ≡ false) × (c.addr ≡ a)) ⊎ ((c.free ≡ true) × (active a cs ≡ false))
Mine a (c ∷ cs) (suc i) = (is_of a c ≡ false) × Mine a cs i

pub record Found (a : ℕ) (cs : List Connection) (k : ℕ) : Type 0 where
  pub mine : Mine a cs k
  pub inside : k < length cs
  pub next : add_int (get_or cs k no_connection).chunk_no (pos 1) ≡ expected a cs
  pub address : (get_or cs k no_connection).addr ≡ a
  pub taken : (get_or cs k no_connection).free ≡ false

find_from-active :
    (a : ℕ) (cs : List Connection) (i : ℕ) (empty : Option ℕ)
    → active a cs ≡ true
    → (k : ℕ) × ((find_from a cs i empty).0 ≡ some (i + k)) × Found a cs k
unfolding find_from active expected
find_from-active a [] i empty h = cc
find_from-active a (c ∷ cs) i empty h = elim (Bool-cases (is_of a c)) [
  | inl here ↦ (
    0,
    rw here (ap some (omega arith)),
    record {
      mine = inl (ground arith, ground arith);
      inside = omega arith;
      next = rw here;
      address = ground arith;
      taken = ground arith;
    },
  )
  | inr later ↦
      let (k, e, f) =
        find_from-active a cs (i + 1) (if c.free then some i else empty) (rw later at h) in
      (
        suc k,
        rw later (e ∙ ap some (omega arith)),
        record {
          mine = (later, f.mine);
          inside = omega (arith, f.inside);
          next = rw later f.next;
          address = f.address;
          taken = f.taken;
        },
      )
]

-- No slot of `a`: the last free slot is taken, if there is one.
find_from-new :
    (a : ℕ) (cs : List Connection) (i : ℕ) (empty : Option ℕ)
    → active a cs ≡ false
    → (has_free cs ≡ false) × (find_from a cs i empty ≡ (none, empty))
      ⊎ (k : ℕ) × (find_from a cs i empty ≡ (none, some (i + k))) × (k < length cs) × Mine a cs k
unfolding find_from active has_free
find_from-new a [] i empty h = inl (refl, refl)
find_from-new a (c ∷ cs) i empty h =
    elim (find_from-new a cs (i + 1) (if c.free then some i else empty) none_later) [
      | inr (k, e, lt, m) ↦ inr (
        suc k,
        rw other (e ∙ ap (λ x. (none, some x)) (omega arith)),
        omega (arith, lt),
        (other, m),
      )
      | inl (full, e) ↦ elim (Bool-cases c.free) [
        | inl free ↦ inr (0, rw (other) (e ∙ ground arith), omega arith, inr (free, none_later))
        | inr taken ↦ inl (ground arith, rw other (e ∙ ground arith))
      ]
    ]
  where
    other : is_of a c ≡ false
    other = ground arith

    none_later : active a cs ≡ false
    none_later = ground arith

pub expected_absent : (a : ℕ) (cs : List Connection) → active a cs ≡ false → expected a cs ≡ pos 1
unfolding expected active
expected_absent a [] h = refl
expected_absent a (c ∷ cs) h = ground (arith, expected_absent a cs)

-- Writing a slot for `a` in the table: the map changes at `a` only.
module _ (a : ℕ) (c' : Connection) (own : c'.addr ≡ a) where
  pub expected-set :
      (cs : List Connection) (i : ℕ)
      → NoTwin cs
      → Mine a cs i
      → expected a (set cs i c') ≡ (if c'.free then pos 1 else add_int c'.chunk_no (pos 1))
  unfolding expected active
  expected-set [] i t m = absurd m
  expected-set (c ∷ cs) zero t m = ground (arith, expected_absent a cs)
  expected-set (c ∷ cs) (suc i) t m = ground (arith, expected-set cs i t.1 m.1)

  pub active-set :
      (cs : List Connection) (i : ℕ)
      → NoTwin cs
      → Mine a cs i
      → active a (set cs i c') ≡ not c'.free
  unfolding active
  active-set [] i t m = absurd m
  active-set (c ∷ cs) zero t m = ground arith
  active-set (c ∷ cs) (suc i) t m = ground (arith, active-set cs i t.1 m.1)

  pub expected-set_ne :
      (b : ℕ) (cs : List Connection) (i : ℕ)
      → a ≢ b
      → Mine a cs i
      → expected b (set cs i c') ≡ expected b cs
  unfolding expected
  expected-set_ne b [] i ne m = refl
  expected-set_ne b (c ∷ cs) zero ne m = ground arith
  expected-set_ne b (c ∷ cs) (suc i) ne m = ground (arith, expected-set_ne b cs i ne m.1)

  active-set_ne :
      (b : ℕ) (cs : List Connection) (i : ℕ)
      → a ≢ b
      → Mine a cs i
      → active b (set cs i c') ≡ active b cs
  unfolding active
  active-set_ne b [] i ne m = refl
  active-set_ne b (c ∷ cs) zero ne m = ground arith
  active-set_ne b (c ∷ cs) (suc i) ne m = ground (arith, active-set_ne b cs i ne m.1)

  pub set-NoTwin : (cs : List Connection) (i : ℕ) → NoTwin cs → Mine a cs i → NoTwin (set cs i c')
  set-NoTwin [] i t m = tt
  set-NoTwin (c ∷ cs) zero t m = (λ f. ground arith, t.1)
  set-NoTwin (c ∷ cs) (suc i) t m =
      (λ f. active-set_ne c.addr cs i (ground arith) m.1 ∙ t.0 f, set-NoTwin cs i t.1 m.1)

Mine-set :
    (a : ℕ) (c' : Connection) (cs : List Connection) (i : ℕ)
    → c'.addr ≡ a
    → c'.free ≡ false
    → Mine a cs i
    → Mine a (set cs i c') i
Mine-set a c' [] i own f m = m
Mine-set a c' (c ∷ cs) zero own f m = inl (f, own)
Mine-set a c' (c ∷ cs) (suc i) own f m = (m.0, Mine-set a c' cs i own f m.1)

abbrev fresh : ℕ → Connection
fresh a = record { free = false; chunk_no = pos 0; addr = a }

-- What `findIndex` has done for address `a` when it returns index `i` and the table `con`.
pub record Slot (a : ℕ) (cs : List Connection) (i : ℕ) (con : List Connection) : Type 0 where
  pub found : find_index a cs ≡ (some i, con)
  pub mine : Mine a con i
  pub inside : i < length con
  pub next : add_int (get_or con i no_connection).chunk_no (pos 1) ≡ expected a cs
  pub address : (get_or con i no_connection).addr ≡ a
  pub twins : NoTwin con
  pub same : expected a con ≡ expected a cs
  pub known : active a con ≡ true
  pub others : (b : ℕ) → a ≢ b → expected b con ≡ expected b cs

first_chunk : add_int (pos 0) (pos 1) ≡ pos 1
unfolding int_limit
first_chunk = add_int_small 0 1 (omega arith)

find_index_old :
    (a : ℕ) (cs : List Connection) (k : ℕ)
    → (find_from a cs 0 none).0 ≡ some (0 + k)
    → Found a cs k
    → active a cs ≡ true
    → NoTwin cs
    → Slot a cs k cs
unfolding find_index
find_index_old a cs k e f known t = record {
  found = ground arith;
  mine = f.mine;
  inside = f.inside;
  next = f.next;
  address = f.address;
  twins = t;
  same = refl;
  known = known;
  others = λ b ne. refl;
}

find_index_new :
    (a : ℕ) (cs : List Connection) (k : ℕ)
    → find_from a cs 0 none ≡ (none, some (0 + k))
    → k < length cs
    → Mine a cs k
    → active a cs ≡ false
    → NoTwin cs
    → Slot a cs k (set cs k (fresh a))
unfolding find_index
find_index_new a cs k e lt m new t = record {
  found = ground arith;
  mine = Mine-set a (fresh a) cs k refl refl m;
  inside = omega (arith, length-set cs k (fresh a));
  next = rw stored (first_chunk ∙ sym absent);
  address = rw stored;
  twins = set-NoTwin a (fresh a) refl cs k t m;
  same = expected-set a (fresh a) refl cs k t m ∙ first_chunk ∙ sym absent;
  known = active-set a (fresh a) refl cs k t m;
  others = λ b ne. expected-set_ne a (fresh a) refl b cs k ne m;
}
  where
    stored : get_or (set cs k (fresh a)) k no_connection ≡ fresh a
    stored = get_or-set_self cs k (fresh a) no_connection lt

    absent : expected a cs ≡ pos 1
    absent = expected_absent a cs new

-- A table in which no address has two slots keeps that under `findIndex`. If the address has a slot,
-- or some slot is free, its index is returned: the slot is the address's own, and the number after
-- the slot's is the one expected of it; what is expected of any address stays as it was. If not, -1
-- is returned and the table stays.
pub find_index_lem :
    (a : ℕ) (cs : List Connection)
    → NoTwin cs
    → ((i : ℕ) × (con : List Connection) × Slot a cs i con)
      ⊎ (find_index a cs ≡ (none, cs)) × (active a cs ≡ false) × (has_free cs ≡ false)
unfolding find_index
find_index_lem a cs t = elim (Bool-cases (active a cs)) [
  | inl known ↦
      let (k, e, f) = find_from-active a cs 0 none known in
      inl (k, cs, find_index_old a cs k e f known t)
  | inr new ↦ elim (find_from-new a cs 0 none new) [
    | inl (full, e) ↦ inr (ground arith, new, full)
    | inr (k, e, lt, m) ↦ inl (k, set cs k (fresh a), find_index_new a cs k e lt m new t)
  ]
]
