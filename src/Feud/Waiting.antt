-- ===== src/Feud/Waiting.antt =====
-- Those who wait are all of one family.
use sop.Prelude.{
  ℕ, ◌≡◌, ◌⊎◌, refl, sym, ap, ◌∙◌, List, [], ◌∷◌, ◌++◌, arith, true, false, not, ◌&&◌, Option, none,
  some, ◌==◌, take, Bool-cases, Option-cases, inl, inr, some-eq, >>=-eq-some,
}
use mathlib.Core.Path.{subst}
use sop.Feud.{
  Client, Server, holds, clear_slot, remove_client, find_match, store, Written, write_to,
  match_text, close_both, tell_waiting, meet, is_family, take_name, client_event,
}

-- A slot is free, or its client is of the family.
abbrev pub OfFamily : ℕ → Client → Type 0
OfFamily family c = (f : ℕ) → c.fd ≡ some f → c.family ≡ family

unfoldable pub AllOf : ℕ → List Client → Type 0
AllOf family [] = Unit
AllOf family (c ∷ cs) = OfFamily family c × AllOf family cs

unfoldable pub OneFamily : List Client → Type 0
OneFamily cs = AllOf b'M' cs ⊎ AllOf b'C' cs

vacant-OfFamily : (family f : ℕ) → none ≡ some f → 0 ≡ family
vacant-OfFamily family f e = cc

clear_slot-AllOf :
    (family fd : ℕ) (cs : List Client) → AllOf family cs → AllOf family (clear_slot fd cs)
unfolding clear_slot AllOf
clear_slot-AllOf family fd [] h = h
clear_slot-AllOf family fd (c ∷ cs) h = elim (Bool-cases (holds fd c)) [
  | inl here ↦ rw here ((λ f e. vacant-OfFamily family f e), h.1)
  | inr other ↦ rw other (h.0, clear_slot-AllOf family fd cs h.1)
]

pub clear_slot-OneFamily : (fd : ℕ) (cs : List Client) → OneFamily cs → OneFamily (clear_slot fd cs)
unfolding OneFamily
clear_slot-OneFamily fd cs (inl h) = inl (clear_slot-AllOf b'M' fd cs h)
clear_slot-OneFamily fd cs (inr h) = inr (clear_slot-AllOf b'C' fd cs h)

store-AllOf :
    (family fd : ℕ) (name : List ℕ) (cs : List Client)
    → AllOf family cs
    → AllOf family (store (record { fd = some fd; family = family; name = name }) cs)
unfolding store AllOf
store-AllOf family fd name [] h = h
store-AllOf family fd name (c ∷ cs) h = elim (Option-cases c.fd) [
  | inl free ↦ rw free ((λ f e. refl), h.1)
  | inr (k, taken) ↦ rw taken (h.0, store-AllOf family fd name cs h.1)
]

abbrev pub IsFamily : ℕ → Type 0
IsFamily family = (family ≡ b'M') ⊎ (family ≡ b'C')

different_family :
    (family k : ℕ) → IsFamily k → (not (k == 0) && not (k == family)) ≡ false → k ≡ family
different_family family k (inl e) h = ground (arith, e)
different_family family k (inr e) h = ground (arith, e)

-- If the search finds nobody of the other family, those who wait are of this one.
find_match-none :
    (family k : ℕ) (cs : List Client)
    → IsFamily k
    → AllOf k cs
    → find_match family cs ≡ none
    → AllOf family cs
unfolding find_match AllOf
find_match-none family k [] o h e = tt
find_match-none family k (c ∷ cs) o h e = elim (Option-cases c.fd) [
  | inl free ↦
      ((λ f q. absurd (no_fd f (sym free ∙ q))), find_match-none family k cs o h.1 (rw free at e))
  | inr (j, taken) ↦ elim (Bool-cases (not (c.family == 0) && not (c.family == family))) [
    | inl match ↦ absurd (found _ (rw (taken, match) at e))
    | inr same ↦ (
      (λ f q.
          let own : c.family ≡ k = h.0 j taken in
          own
          ∙ different_family family k o
              (ap (λ g. not (g == 0) && not (g == family)) (sym own) ∙ same)),
      find_match-none family k cs o h.1 (rw (taken, same) at e),
    )
  ]
]
  where
    no_fd : (f : ℕ) → none ≡ some f → ⊥
    no_fd f e = cc

    found : (p : ℕ × List ℕ) → some p ≡ none → ⊥
    found p e = cc

write_to-clients :
    (fd : ℕ) (msg : List ℕ) (write : ℕ → Written) (s : Server) {t : Server}
    → write_to fd msg write s ≡ some t
    → t.clients ≡ s.clients
unfolding write_to
write_to-clients fd msg write s e = ground arith

meet-clients :
    (fd : ℕ) (buf : List ℕ) (other : ℕ) (name : List ℕ) (write : ℕ → Written) (s : Server)
    {t : Server}
    → meet fd buf other name write s ≡ some t
    → t.clients ≡ clear_slot other s.clients
unfolding meet tell_waiting close_both remove_client
meet-clients fd buf other name write s e =
    let (a, first, more) =
      >>=-eq-some (write_to fd (match_text ++ name) write s) (tell_waiting fd buf other write) e in
    let (b, second, done) =
      >>=-eq-some (write_to other (match_text ++ buf) write a) (close_both fd other) more in
    sym (ap (λ k. k.clients) (some-eq done))
    ∙ ap (clear_slot other) (
        write_to-clients other (match_text ++ buf) write a second
        ∙ write_to-clients fd (match_text ++ name) write s first)

is_family-IsFamily : (b : ℕ) → is_family b ≡ true → IsFamily b
is_family-IsFamily b h = ground arith

take_name-OneFamily :
    (fd b : ℕ) (buf : List ℕ) (write : ℕ → Written) (s : Server) {t : Server}
    → IsFamily b
    → OneFamily s.clients
    → take_name fd b buf write s ≡ some t
    → OneFamily t.clients
unfolding take_name OneFamily
take_name-OneFamily fd b buf write s {t} k o e = elim (Option-cases (find_match b s.clients)) [
  | inr ((other, name), found) ↦
      rw (meet-clients fd buf other name write s {t = t} (rw (take_name, found) at e))
        (clear_slot-OneFamily other s.clients o)
  | inl nobody ↦
      rw (sym (ap (λ u. u.clients) (some-eq (rw (take_name, nobody) at e))))
        (stored _ (store-AllOf b fd (take 15 buf) s.clients (all nobody)))
]
  where
    all : find_match b s.clients ≡ none → AllOf b s.clients
    all none_found = elim o [
      | inl h ↦ find_match-none b b'M' s.clients (inl refl) h none_found
      | inr h ↦ find_match-none b b'C' s.clients (inr refl) h none_found
    ]

    along : (cs : List Client) (c : ℕ) → b ≡ c → AllOf b cs → AllOf c cs
    along cs c e h = subst (λ f. AllOf f cs) e h

    stored : (cs : List Client) → AllOf b cs → OneFamily cs
    stored cs h = elim k [ inl e ↦ inl (along cs b'M' e h) | inr e ↦ inr (along cs b'C' e h) ]

-- The families never wait for each other: if all who wait are of one family and the process goes on,
-- that is so after any event on a client's socket.
pub client_event-OneFamily :
    (fd : ℕ) (read : Option (List ℕ)) (write : ℕ → Written) (s : Server) {t : Server}
    → OneFamily s.clients
    → client_event fd read write s ≡ some t
    → OneFamily t.clients
unfolding client_event remove_client
client_event-OneFamily fd none write s o e =
    rw (sym (ap (λ u. u.clients) (some-eq e))) (clear_slot-OneFamily fd s.clients o)
client_event-OneFamily fd (some []) write s o e =
    rw (sym (ap (λ u. u.clients) (some-eq e))) (clear_slot-OneFamily fd s.clients o)
client_event-OneFamily fd (some (b ∷ bs)) write s o e = elim (Bool-cases (is_family b)) [
  | inl known ↦
      take_name-OneFamily fd b (b ∷ bs) write s (is_family-IsFamily b known) o (rw known at e)
  | inr unknown ↦
      rw (sym (ap (λ u. u.clients) (some-eq (rw unknown at e))))
        (clear_slot-OneFamily fd s.clients o)
]
