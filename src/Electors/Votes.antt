-- ===== src/Electors/Votes.antt =====
-- Who is registered and what the votes are.
use sop.Prelude.{
  ℕ, zero, suc, ◌-◌, ◌<◌, ◌≡◌, refl, sym, ap, ◌∙◌, List, [], ◌∷◌, arith, Bool, true, false, ◌||◌,
  Option, none, some, ◌==◌, get_or, set, length, length-set, Bool-cases, inl, inr, along_some,
  >>=-eq-some, replicate,
}
use sop.Electors.{
  Elector, Server, Event, initial, serve_clients, is_fd, disconnect, between, voted, vote_loop,
  nobody, enter, use_byte, Input, byte, ended, failed, client_event,
}

-- No vote, or one for a candidate.
abbrev pub Candidate : Option ℕ → Type 0
Candidate none = Unit
Candidate (some v) = v < 3

-- Whether some elector has a descriptor.
unfoldable pub has : ℕ → List Elector → Bool
has fd [] = false
has fd (e ∷ es) = is_fd fd e || has fd es

-- An elector's descriptor is that of its connection; votes are for candidates; no two electors share a
-- descriptor.
unfoldable pub Sound : List Elector → Type 0
Sound [] = Unit
Sound (e ∷ es) =
    (e.connected ≡ false → e.fd ≡ none)
    × Candidate e.vote
    × ((f : ℕ) → is_fd f e ≡ true → has f es ≡ false)
    × Sound es

pub record IsValid (s : Server) : Type 0 where
  pub seven : length s.electors ≡ 7
  pub sound : Sound s.electors

length-disconnect : (fd : ℕ) (es : List Elector) → length (disconnect fd es) ≡ length es
unfolding disconnect
length-disconnect fd [] = refl
length-disconnect fd (e ∷ es) = ap suc (length-disconnect fd es)

has-disconnect_self : (fd : ℕ) (es : List Elector) → has fd (disconnect fd es) ≡ false
unfolding disconnect has
has-disconnect_self fd [] = refl
has-disconnect_self fd (e ∷ es) = elim (Bool-cases (is_fd fd e)) [
  | inl own ↦ rw own (has-disconnect_self fd es)
  | inr other ↦ rw (other, other) (has-disconnect_self fd es)
]

has-disconnect :
    (f fd : ℕ) (es : List Elector) → has f es ≡ false → has f (disconnect fd es) ≡ false
unfolding disconnect has
has-disconnect f fd [] h = refl
has-disconnect f fd (e ∷ es) h = elim (Bool-cases (is_fd fd e)) [
  | inl own ↦ rw own (has-disconnect f fd es (ground arith))
  | inr other ↦ rw other (ground (arith, has-disconnect f fd es))
]

disconnect-Sound : (fd : ℕ) (es : List Elector) → Sound es → Sound (disconnect fd es)
unfolding disconnect Sound
disconnect-Sound fd [] h = h
disconnect-Sound fd (e ∷ es) h = elim (Bool-cases (is_fd fd e)) [
  | inl own ↦ rw own ((λ _. refl), h.1, (λ f q. ground arith), disconnect-Sound fd es h.3)
  | inr other ↦
      rw other (h.0, h.1, (λ f q. has-disconnect f fd es (h.2 f q)), disconnect-Sound fd es h.3)
]

length-vote_loop : (fd msg : ℕ) (es : List Elector) → length (vote_loop fd msg es).0 ≡ length es
unfolding vote_loop
length-vote_loop fd msg [] = refl
length-vote_loop fd msg (e ∷ es) = ground (arith, length-vote_loop fd msg es)

pub is_fd-voted : (f msg : ℕ) (e : Elector) → is_fd f (voted msg e) ≡ is_fd f e
is_fd-voted f msg e = elim (Bool-cases (between b'0' b'2' msg)) [
  | inl h ↦ rw h refl
  | inr h ↦ rw h refl
]

pub has-vote_loop : (f fd msg : ℕ) (es : List Elector) → has f (vote_loop fd msg es).0 ≡ has f es
unfolding vote_loop has
has-vote_loop f fd msg [] = refl
has-vote_loop f fd msg (e ∷ es) = elim (Bool-cases (is_fd fd e)) [
  | inl own ↦ rw own (ap (λ b. b || has f es) (is_fd-voted f msg e))
  | inr other ↦ rw other (ap (λ b. is_fd f e || b) (has-vote_loop f fd msg es))
]

vote_loop-found : (fd msg : ℕ) (es : List Elector) → (vote_loop fd msg es).1 ≡ has fd es
unfolding vote_loop has
vote_loop-found fd msg [] = refl
vote_loop-found fd msg (e ∷ es) = ground (arith, vote_loop-found fd msg es)

vote_loop-Sound : (fd msg : ℕ) (es : List Elector) → Sound es → Sound (vote_loop fd msg es).0
unfolding vote_loop Sound
vote_loop-Sound fd msg [] h = h
vote_loop-Sound fd msg (e ∷ es) h = elim (Bool-cases (is_fd fd e)) [
  | inl own ↦ elim (Bool-cases (between b'0' b'2' msg)) [
    | inl v ↦ rw (own, v) (h.0, ground arith, h.2, h.3)
    | inr v ↦ rw (own, v) h
  ]
  | inr other ↦
      rw other
        (h.0, h.1, (λ f q. has-vote_loop f fd msg es ∙ h.2 f q), vote_loop-Sound fd msg es h.3)
]

abbrev entered : ℕ → Elector → Elector
entered fd e = record e { connected = true; fd = some fd }

has-set :
    (f fd i : ℕ) (es : List Elector)
    → (fd == f) ≡ false
    → has f es ≡ false
    → has f (set es i (entered fd (get_or es i nobody))) ≡ false
unfolding has
has-set f fd i [] ne h = refl
has-set f fd zero (e ∷ es) ne h = ground arith
has-set f fd (suc i) (e ∷ es) ne h = ground (arith, has-set f fd i es ne)

set-Sound :
    (fd i : ℕ) (es : List Elector)
    → has fd es ≡ false
    → Sound es
    → Sound (set es i (entered fd (get_or es i nobody)))
unfolding Sound has
set-Sound fd i [] h s = s
set-Sound fd zero (e ∷ es) h s = (
  (λ q. cc),
  s.1,
  (λ f q. ap (λ k. has k es) (let e : f ≡ fd = ground arith in e) ∙ ground arith),
  s.3,
)
set-Sound fd (suc i) (e ∷ es) h s = (
  s.0,
  s.1,
  (λ f q. has-set f fd i es (ground arith) (s.2 f q)),
  set-Sound fd i es (ground arith) s.3,
)

enter-IsValid :
    (fd msg : ℕ) (welcomed : Bool) (s : Server) {t : Server}
    → IsValid s
    → has fd s.electors ≡ false
    → enter fd msg welcomed s ≡ some t
    → IsValid t
unfolding enter
enter-IsValid fd msg welcomed s v new e = elim (Bool-cases (between b'1' b'7' msg)) [
  | inr no_number ↦ along_some IsValid (rw no_number at e) v
  | inl number ↦ elim (Bool-cases ((get_or s.electors (msg - b'1') nobody).connected)) [
    | inl taken ↦
        along_some IsValid (rw (number, taken) at e) (record { seven = v.seven; sound = v.sound })
    | inr free ↦ elim (Bool-cases welcomed) [
      | inl ok ↦ along_some IsValid (rw (number, free, ok) at e) (record {
        seven =
            length-set s.electors (msg - b'1') (entered fd (get_or s.electors (msg - b'1') nobody))
            ∙ v.seven;
        sound = set-Sound fd (msg - b'1') s.electors new v.sound;
      })
      | inr bad ↦ absurd (let n : none ≡ some _ = rw (number, free, bad) at e in cc)
    ]
  ]
]

pub use_byte_known :
    (fd msg : ℕ) (welcomed : Bool) (s : Server)
    → has fd s.electors ≡ true
    → use_byte fd msg welcomed s ≡ some (record s { electors = (vote_loop fd msg s.electors).0 })
unfolding use_byte
use_byte_known fd msg welcomed s h = rw (use_byte, vote_loop-found fd msg s.electors, h) refl

vote_loop_absent :
    (fd msg : ℕ) (es : List Elector) → has fd es ≡ false → (vote_loop fd msg es).0 ≡ es
unfolding vote_loop has
vote_loop_absent fd msg [] h = refl
vote_loop_absent fd msg (e ∷ es) h =
    let other : is_fd fd e ≡ false = ground arith in
    rw other (ap (λ t. e ∷ t) (vote_loop_absent fd msg es (ground arith)))

use_byte_new :
    (fd msg : ℕ) (welcomed : Bool) (s : Server)
    → has fd s.electors ≡ false
    → use_byte fd msg welcomed s ≡ enter fd msg welcomed s
unfolding use_byte
use_byte_new fd msg welcomed s h =
    rw (use_byte, vote_loop-found fd msg s.electors, h, vote_loop_absent fd msg s.electors h) refl

use_byte-IsValid :
    (fd msg : ℕ) (welcomed : Bool) (s : Server) {t : Server}
    → IsValid s
    → use_byte fd msg welcomed s ≡ some t
    → IsValid t
use_byte-IsValid fd msg welcomed s v e = elim (Bool-cases (has fd s.electors)) [
  | inl known ↦ along_some IsValid (sym (use_byte_known fd msg welcomed s known) ∙ e) (record {
    seven = length-vote_loop fd msg s.electors ∙ v.seven;
    sound = vote_loop-Sound fd msg s.electors v.sound;
  })
  | inr new ↦ enter-IsValid fd msg welcomed s v new (sym (use_byte_new fd msg welcomed s new) ∙ e)
]

client_event-IsValid :
    (fd : ℕ) (input : Input) (welcomed : Bool) (s : Server) {t : Server}
    → IsValid s
    → client_event fd input welcomed s ≡ some t
    → IsValid t
unfolding client_event
client_event-IsValid fd (byte msg) welcomed s v e = use_byte-IsValid fd msg welcomed s v e
client_event-IsValid fd (ended msg) welcomed s v e =
    use_byte-IsValid fd msg welcomed _
      (record {
        seven = length-disconnect fd s.electors ∙ v.seven;
        sound = disconnect-Sound fd s.electors v.sound;
      })
      e
client_event-IsValid fd failed welcomed s v e = absurd (none_some e)
  where
    none_some : {t : Server} → none ≡ some t → ⊥
    none_some e = cc

pub initial-IsValid : IsValid initial
unfolding Sound has
initial-IsValid = record { seven = refl; sound = nobodies 7 }
  where
    empty_slot : (f : ℕ) → is_fd f nobody ≡ true → ⊥
    empty_slot f q = cc

    nobodies : (n : ℕ) → Sound (replicate n nobody)
    nobodies zero = tt
    nobodies (suc n) = ((λ _. refl), tt, (λ f q. absurd (empty_slot f q)), nobodies n)

serve_clients-from :
    (es : List Event) (s : Server) {t : Server}
    → IsValid s
    → serve_clients es s ≡ some t
    → IsValid t
unfolding serve_clients
serve_clients-from [] s v e = along_some IsValid e v
serve_clients-from (x ∷ es) s v e =
    let (m, first, rest) =
      >>=-eq-some (client_event x.fd x.input x.welcomed s) (serve_clients es) e in
    serve_clients-from es m (client_event-IsValid x.fd x.input x.welcomed s v first) rest

-- From the state that `main` sets up, whatever events come on the clients' sockets and in whatever
-- order, as long as the process goes on: there are seven electors, one that is not connected has no
-- descriptor, no two have the same, and every elector has not voted or has voted for one of the three
-- candidates.
pub serve_clients-IsValid :
    (events : List Event) {t : Server} → serve_clients events initial ≡ some t → IsValid t
serve_clients-IsValid events e = serve_clients-from events initial initial-IsValid e
