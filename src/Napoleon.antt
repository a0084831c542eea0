-- ===== src/Napoleon.antt =====
-- lab08/napoleon/napoleon.c: reports that come by UDP are put on a stack; adjutants take them off and
-- move the divisions on a map; Napoleon sends orders to the divisions that are ours.
pub mod Stack
pub mod Report
pub mod Sections
pub mod Adjutants
pub mod Orders
mod Tests
use sop.Prelude.{
  ℕ, zero, suc, ◌+◌, ◌-◌, ◌%◌, List, [], ◌∷◌, ◌++◌, Bool, true, false, ◌&&◌, ◌||◌, Option, none,
  some, if◌then◌else◌, ltb, leb, ◌==◌, length, get_or, set, replicate, ◌≡◌,
}
use sop.Prelude.Int.{ℤ, pos, negsuc}

-- `message_t`
pub record Message : Type 0 where
  pub buf : List ℕ
  pub addr : ℕ

-- One entry of `div_names`, `div_addr` and `div_p`.
pub record Division : Type 0 where
  pub name : List ℕ
  pub addr : ℕ
  pub p : ℕ

-- The threads' shared state: the stack's array and its top, the divisions (`num_divs` is their
-- number), and the map, in which `none` is -1.
pub record State : Type 0 where
  pub stack : List Message
  pub top : ℕ
  pub divisions : List Division
  pub map : List (List (Option ℕ))

abbrev pub stack_size : ℕ
stack_size = 16

abbrev pub division_names_size : ℕ
division_names_size = 128

abbrev pub no_message : Message
no_message = record { buf = []; addr = 0 }

-- `main` has received a datagram.
pub push : Message → State → State
push m s =
    if ltb s.top stack_size then record s { stack = set s.stack s.top m; top = s.top + 1 } else s

-- An adjutant takes a message; with an empty stack it waits (`none`).
pub pop : State → Option (Message × State)
pop s =
    if s.top == 0
    then none
    else some (get_or s.stack (s.top - 1) no_message, record s { top = s.top - 1 })

-- A coordinate from 0 to 99; a side, 0 or 1.
pub coordinate : ℤ → Option ℕ
coordinate (pos n) = if leb n 99 then some n else none
coordinate (negsuc n) = none

pub side : ℤ → Option ℕ
side (pos n) = if n == 0 || n == 1 then some n else none
side (negsuc n) = none

-- `strcmp` of two names gives 0.
abbrev pub same_name : List ℕ → List ℕ → Bool
same_name [] [] = true
same_name [] (b ∷ bs) = false
same_name (a ∷ xs) [] = false
same_name (a ∷ xs) (b ∷ bs) = a == b && same_name xs bs

-- The search for a name among the divisions from number `i` on.
pub find_division : List ℕ → List Division → ℕ → Option ℕ
find_division name [] i = none
find_division name (d ∷ ds) i =
    let rest = find_division name ds (i + 1) in if same_name d.name name then some i else rest

-- `div_idx`, and the divisions after the name is entered, the address and the side being stored.
pub register : List ℕ → ℕ → ℕ → List Division → Option ℕ × List Division
register name addr p ds =
    let d : Division = record { name = name; addr = addr; p = p } in
    elim (find_division name ds 0) [
      | some i ↦ (some i, set ds i d)
      | none ↦
          if ltb (length ds) division_names_size
          then (some (length ds), ds ++ d ∷ [])
          else (none, ds)
    ]

abbrev pub stands : ℕ → Option ℕ → Bool
stands d none = false
stands d (some e) = e == d

-- The search for a division in a row: the row with its first cell freed, and `found`.
pub clear_row : ℕ → List (Option ℕ) → List (Option ℕ) × Bool
clear_row d [] = ([], false)
clear_row d (c ∷ cs) =
    let (rest, found) = clear_row d cs in
    if stands d c then (none ∷ cs, true) else (c ∷ rest, found)

-- `map[x][y] = d`
pub put : ℕ → ℕ → ℕ → List (List (Option ℕ)) → List (List (Option ℕ))
put x y d map = set map x (set (get_or map x []) y (some d))

-- `sscanf`: it gives the three numbers and the name when it has found all four.
abbrev pub Scan : Type 0
Scan = List ℕ → Option (ℤ × ℤ × ℤ × List ℕ)

-- Where an adjutant stands: before it takes a message; before it enters a report, with the position,
-- the side, the name and the address; before it searches a row for a division, with the division, the
-- row and the position reported; before it puts the division on the position.
pub data Adjutant : Type 0 where
  idle : Adjutant
  reporting : ℕ → ℕ → ℕ → List ℕ → ℕ → Adjutant
  clearing : ℕ → ℕ → ℕ → ℕ → Adjutant
  placing : ℕ → ℕ → ℕ → Adjutant

-- The tests of a message.
pub read_report : Scan → Message → Adjutant
read_report scan m = elim (scan m.buf) [
  | none ↦ idle
  | some (x, y, p, name) ↦ elim (coordinate x) [
    | none ↦ idle
    | some x' ↦ elim (coordinate y) [
      | none ↦ idle
      | some y' ↦ elim (side p) [ none ↦ idle | some p' ↦ reporting x' y' p' name m.addr ]
    ]
  ]
]

-- After the section under `div_mutex`: without a number for the name the report is dropped.
pub entered : ℕ → ℕ → State → Option ℕ × List Division → Adjutant × State
entered x y s (none, ds) = (idle, record s { divisions = ds })
entered x y s (some d, ds) = (clearing d 0 x y, record s { divisions = ds })

-- After the section under a row's mutex.
abbrev pub next_row : ℕ → ℕ → ℕ → ℕ → Bool → Adjutant
next_row d r x y found =
    if found then placing d x y else if r + 1 == 100 then placing d x y else clearing d (r + 1) x y

-- What an adjutant does in its next critical section, and where it stands then: the sections are those
-- under `stack_mutex`, `div_mutex`, the mutex of each row searched, and the one of the row reported.
pub section : Scan → Adjutant → State → Adjutant × State
section scan idle s = elim (pop s) [ none ↦ (idle, s) | some (m, t) ↦ (read_report scan m, t) ]
section scan (reporting x y p name addr) s = entered x y s (register name addr p s.divisions)
section scan (clearing d r x y) s =
    let (row, found) = clear_row d (get_or s.map r []) in
    (next_row d r x y found, record s { map = set s.map r row })
section scan (placing d x y) s = (idle, record s { map = put x y d s.map })

-- The adjutants at the shared state.
pub record Staff : Type 0 where
  pub state : State
  pub adjutants : List Adjutant

-- `main` has received a message; one of the adjutants goes through its next section.
pub data Step (scan : Scan) (w : Staff) : Staff → Type 0 where
  receives : (m : Message) → Step scan w (record w { state = push m w.state })
  works :
      (before : List Adjutant) (a : Adjutant) (after : List Adjutant)
      → w.adjutants ≡ before ++ a ∷ after
      → Step scan w (record {
        state = (section scan a w.state).1;
        adjutants = before ++ (section scan a w.state).0 ∷ after;
      })

-- The state that `main` sets up, with `k` adjutants.
abbrev pub start : ℕ → Staff
start k = record {
  state = record {
    stack = replicate stack_size no_message;
    top = 0;
    divisions = [];
    map = replicate 100 (replicate 100 none);
  };
  adjutants = replicate k idle;
}

pub data Reach (scan : Scan) (k : ℕ) : Staff → Type 0 where
  begin : Reach scan k (start k)
  next : {v w : Staff} → Reach scan k v → Step scan v w → Reach scan k w

-- The numbers of the divisions that are ours, from number `i` on.
pub allies : List Division → ℕ → List ℕ
allies [] i = []
allies (d ∷ ds) i = let rest = allies ds (i + 1) in if d.p == 1 then i ∷ rest else rest

-- An order: where it is sent, the position, the name.
pub record Order : Type 0 where
  pub to : ℕ
  pub x : ℕ
  pub y : ℕ
  pub name : List ℕ

abbrev pub no_division : Division
no_division = record { name = []; addr = 0; p = 0 }

-- What Napoleon sends in one round; `r0`, `r1` and `r2` are what `rand` gives.
pub command : ℕ → ℕ → ℕ → List Division → Option Order
command r0 r1 r2 ds =
    let ours = allies ds 0 in
    if ltb 0 (length ours)
    then (let d = get_or ds (get_or ours (r0 % length ours) 0) no_division in
        some (record { to = d.addr; x = r1 % 100; y = r2 % 100; name = d.name }))
    else none
