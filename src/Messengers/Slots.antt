-- ===== src/Messengers/Slots.antt =====
-- The table of clients: how many slots are taken, by whom, and that nobody has two.
use sop.Prelude.{
  ℕ, zero, suc, ◌+◌, ◌<◌, ◌≤◌, ◌≡◌, ◌≢◌, refl, ap, List, [], ◌∷◌, arith, Bool, true, false, ◌||◌,
  Option, none, some, length, get_or, ◌==◌,
}
use sop.Messengers.{holds, clear_slot, store_client}

-- Some slot holds `fd`.
unfoldable pub registered : ℕ → List (Option ℕ) → Bool
registered fd [] = false
registered fd (c ∷ cs) = holds c fd || registered fd cs

-- The number of slots that are taken.
unfoldable pub used : List (Option ℕ) → ℕ
used [] = 0
used (none ∷ cs) = used cs
used (some c ∷ cs) = suc (used cs)

-- No descriptor stands in two slots.
abbrev pub NoRepeat : List (Option ℕ) → Type 0
NoRepeat [] = Unit
NoRepeat (none ∷ cs) = NoRepeat cs
NoRepeat (some c ∷ cs) = (registered c cs ≡ false) × NoRepeat cs

pub length-clear_slot : (fd : ℕ) (cs : List (Option ℕ)) → length (clear_slot fd cs) ≡ length cs
unfolding clear_slot
length-clear_slot fd [] = refl
length-clear_slot fd (c ∷ cs) = ground (arith, length-clear_slot fd cs)

pub length-store_client : (fd : ℕ) (cs : List (Option ℕ)) → length (store_client fd cs) ≡ length cs
unfolding store_client
length-store_client fd [] = refl
length-store_client fd (none ∷ cs) = refl
length-store_client fd (some c ∷ cs) = ap suc (length-store_client fd cs)

pub used-le-length : (cs : List (Option ℕ)) → used cs ≤ length cs
unfolding used
used-le-length [] = omega arith
used-le-length (none ∷ cs) = omega (arith, used-le-length cs)
used-le-length (some c ∷ cs) = omega (arith, used-le-length cs)

pub used-clear_slot :
    (fd : ℕ) (cs : List (Option ℕ))
    → registered fd cs ≡ true
    → used (clear_slot fd cs) + 1 ≡ used cs
unfolding used clear_slot registered
used-clear_slot fd [] h = cc
used-clear_slot fd (none ∷ cs) h = used-clear_slot fd cs h
used-clear_slot fd (some c ∷ cs) h = ground (arith, used-clear_slot fd cs)

pub clear_slot_absent :
    (fd : ℕ) (cs : List (Option ℕ)) → registered fd cs ≡ false → clear_slot fd cs ≡ cs
unfolding clear_slot registered
clear_slot_absent fd [] h = refl
clear_slot_absent fd (c ∷ cs) h = ground (arith, clear_slot_absent fd cs)

pub used-store_client :
    (fd : ℕ) (cs : List (Option ℕ)) → used cs < length cs → used (store_client fd cs) ≡ used cs + 1
unfolding used store_client
used-store_client fd [] h = elim h [ ]
used-store_client fd (none ∷ cs) h = omega arith
used-store_client fd (some c ∷ cs) h = omega (arith, used-store_client fd cs (omega arith))

pub registered-clear_slot :
    (fd j : ℕ) (cs : List (Option ℕ)) → fd ≢ j → registered j (clear_slot fd cs) ≡ registered j cs
unfolding clear_slot registered
registered-clear_slot fd j [] h = refl
registered-clear_slot fd j (none ∷ cs) h = registered-clear_slot fd j cs h
registered-clear_slot fd j (some c ∷ cs) h = ground (arith, registered-clear_slot fd j cs h)

pub registered-clear_slot_self :
    (fd : ℕ) (cs : List (Option ℕ)) → NoRepeat cs → registered fd (clear_slot fd cs) ≡ false
unfolding clear_slot registered
registered-clear_slot_self fd [] n = refl
registered-clear_slot_self fd (none ∷ cs) n = registered-clear_slot_self fd cs n
registered-clear_slot_self fd (some c ∷ cs) n = ground (arith, registered-clear_slot_self fd cs n.1)

-- Clearing a slot registers nobody.
clear_slot_only :
    (fd j : ℕ) (cs : List (Option ℕ))
    → registered j cs ≡ false
    → registered j (clear_slot fd cs) ≡ false
unfolding clear_slot registered
clear_slot_only fd j [] h = refl
clear_slot_only fd j (none ∷ cs) h = clear_slot_only fd j cs h
clear_slot_only fd j (some c ∷ cs) h = ground (arith, clear_slot_only fd j cs)

pub clear_slot-NoRepeat :
    (fd : ℕ) (cs : List (Option ℕ)) → NoRepeat cs → NoRepeat (clear_slot fd cs)
unfolding clear_slot
clear_slot-NoRepeat fd [] n = tt
clear_slot-NoRepeat fd (none ∷ cs) n = clear_slot-NoRepeat fd cs n
clear_slot-NoRepeat fd (some c ∷ cs) n =
    ground (arith, clear_slot-NoRepeat fd cs n.1, clear_slot_only fd c cs n.0)

pub registered-store_client :
    (fd j : ℕ) (cs : List (Option ℕ))
    → used cs < length cs
    → registered j (store_client fd cs) ≡ (fd == j || registered j cs)
unfolding store_client registered used
registered-store_client fd j [] h = elim h [ ]
registered-store_client fd j (none ∷ cs) h = refl
registered-store_client fd j (some c ∷ cs) h =
    ground (arith, registered-store_client fd j cs (omega arith))

pub store_client-NoRepeat :
    (fd : ℕ) (cs : List (Option ℕ))
    → registered fd cs ≡ false
    → NoRepeat cs
    → used cs < length cs
    → NoRepeat (store_client fd cs)
unfolding store_client registered used
store_client-NoRepeat fd [] r n h = tt
store_client-NoRepeat fd (none ∷ cs) r n h = (r, n)
store_client-NoRepeat fd (some c ∷ cs) r n h = (
  ground (arith, registered-store_client fd c cs (omega arith)),
  store_client-NoRepeat fd cs (ground arith) n.1 (omega arith),
)

-- What a slot holds is registered.
pub get_or-registered :
    (cs : List (Option ℕ)) (k t : ℕ) → get_or cs k none ≡ some t → registered t cs ≡ true
unfolding registered
get_or-registered [] k t h = cc
get_or-registered (c ∷ cs) zero t h = ground arith
get_or-registered (c ∷ cs) (suc k) t h = ground (arith, get_or-registered cs k t h)
