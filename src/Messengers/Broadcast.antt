-- ===== src/Messengers/Broadcast.antt =====
-- The broadcast of a change of owner, against a description that reads the table once.
use sop.Prelude.{
  ℕ, suc, ◌+◌, ◌≡◌, ◌≢◌, ◌⊎◌, refl, sym, ap, ◌∙◌, List, [], ◌∷◌, ◌++◌, arith, true, Option, none,
  some, length, get_or, length-append, append_assoc, append-nil, ◌==◌, if◌then◌else◌, Bool-cases,
  inl, inr,
}
use mathlib.Core.Path.{subst}
use sop.Messengers.{
  Server, clear_slot, remove_client, Written, delivered, epipe, failed, send_to, broadcast,
}
use sop.Messengers.Slots.{registered, NoRepeat, clear_slot-NoRepeat}

module _ (fd : ℕ) (write : ℕ → Written) where
  -- What is written, to whom: every client but the sender of the order, in the order of the slots,
  -- if its `write` succeeds.
  pub deliveries : List ℕ → List (Option ℕ) → List (ℕ × List ℕ)
  deliveries msg [] = []
  deliveries msg (none ∷ cs) = deliveries msg cs
  deliveries msg (some c ∷ cs) =
      let rest = deliveries msg cs in
      if c == fd then rest else elim (write c) [ delivered ↦ (c, msg) ∷ rest | _ ↦ rest ]

  -- The clients whose `write` ends in EPIPE.
  pub dropped : List (Option ℕ) → List ℕ
  dropped [] = []
  dropped (none ∷ cs) = dropped cs
  dropped (some c ∷ cs) =
      let rest = dropped cs in
      if c == fd then rest else elim (write c) [ epipe ↦ c ∷ rest | _ ↦ rest ]

  -- The slots afterwards: those of dropped clients are free.
  unfoldable pub remaining : List (Option ℕ) → List (Option ℕ)
  remaining [] = []
  remaining (none ∷ cs) = none ∷ remaining cs
  remaining (some c ∷ cs) =
      (if c == fd then some c else elim (write c) [ epipe ↦ none | _ ↦ some c ]) ∷ remaining cs

  -- No `write` to another client ends in an error other than EPIPE.
  abbrev pub NoneFails : List (Option ℕ) → Type 0
  NoneFails [] = Unit
  NoneFails (none ∷ cs) = NoneFails cs
  NoneFails (some c ∷ cs) = (c ≢ fd → write c ≢ failed) × NoneFails cs

  -- What the broadcast of `msg` over the slots `post` makes of the server `s`, with `pre` before.
  pub record Sent (msg : List ℕ) (s : Server) (pre post : List (Option ℕ)) (t : Server)
      : Type 0 where
    pub slots : t.clients ≡ pre ++ remaining post
    pub messages : t.sent ≡ s.sent ++ deliveries msg post
    pub hung_up : t.closed ≡ s.closed ++ dropped post
    pub towns : t.cities ≡ s.cities

get_or-append :
    (pre post : List (Option ℕ)) (c : Option ℕ) → get_or (pre ++ c ∷ post) (length pre) none ≡ c
get_or-append [] post c = refl
get_or-append (x ∷ pre) post c = get_or-append pre post c

registered-append :
    (pre post : List (Option ℕ)) (c : ℕ) → registered c (pre ++ some c ∷ post) ≡ true
unfolding registered
registered-append [] post c = ground arith
registered-append (none ∷ pre) post c = registered-append pre post c
registered-append (some x ∷ pre) post c = ground (arith, registered-append pre post c)

-- In a table without repetition the slot that is cleared is the one that was read.
clear_slot-append :
    (pre post : List (Option ℕ)) (c : ℕ)
    → NoRepeat (pre ++ some c ∷ post)
    → clear_slot c (pre ++ some c ∷ post) ≡ pre ++ none ∷ post
unfolding clear_slot
clear_slot-append [] post c n = ground arith
clear_slot-append (none ∷ pre) post c n = ap (λ t. none ∷ t) (clear_slot-append pre post c n)
clear_slot-append (some x ∷ pre) post c n =
    ground (arith, clear_slot-append pre post c n.1, registered-append pre post c)

-- Freeing a slot, or not, repeats nothing.
free-NoRepeat :
    (pre post : List (Option ℕ)) (c : ℕ)
    → NoRepeat (pre ++ some c ∷ post)
    → NoRepeat (pre ++ none ∷ post)
free-NoRepeat pre post c n =
    subst NoRepeat (clear_slot-append pre post c n) (clear_slot-NoRepeat c (pre ++ some c ∷ post) n)

snoc-append :
    (pre post : List (Option ℕ)) (c : Option ℕ) → (pre ++ c ∷ []) ++ post ≡ pre ++ c ∷ post
snoc-append pre post c = append_assoc pre (c ∷ []) post

answers : (w : Written) → ((w ≡ delivered) ⊎ (w ≡ epipe)) ⊎ (w ≡ failed)
answers delivered = inl (inl refl)
answers epipe = inl (inr refl)
answers failed = inr refl

-- One round: the slot `c` between `pre` and `post` becomes `c'`.
module _ (fd : ℕ) (write : ℕ → Written) (msg : List ℕ) where
  record Round (s : Server) (pre post : List (Option ℕ)) (c c' : Option ℕ) (t : Server)
      : Type 0 where
    table : t.clients ≡ pre ++ c' ∷ post
    kept : NoRepeat (pre ++ c' ∷ post)
    slot : remaining fd write (c ∷ post) ≡ c' ∷ remaining fd write post
    messages : t.sent ++ deliveries fd write msg post ≡ s.sent ++ deliveries fd write msg (c ∷ post)
    hung_up : t.closed ++ dropped fd write post ≡ s.closed ++ dropped fd write (c ∷ post)
    towns : t.cities ≡ s.cities

  round :
      (c : Option ℕ) (s : Server) (pre post : List (Option ℕ))
      → s.clients ≡ pre ++ c ∷ post
      → NoRepeat (pre ++ c ∷ post)
      → NoneFails fd write (c ∷ post)
      → (c' : Option ℕ) × (t : Server) × (send_to c fd write msg s ≡ some t)
        × Round s pre post c c' t
  unfolding send_to remaining deliveries dropped remove_client
  round none s pre post e n ok = (
    none,
    s,
    refl,
    record { table = e; kept = n; slot = refl; messages = refl; hung_up = refl; towns = refl },
  )
  round (some c) s pre post e n ok = elim (Bool-cases (c == fd)) [
    | inl own ↦ (
      some c,
      s,
      rw own,
      record {
        table = e;
        kept = n;
        slot = rw own;
        messages = rw own;
        hung_up = rw own;
        towns = refl;
      },
    )
    | inr other ↦ elim (answers (write c)) [
      | inl (inl went) ↦ (
        some c,
        record s { sent = s.sent ++ (c, msg) ∷ [] },
        rw (other, went),
        record {
          table = e;
          kept = n;
          slot = rw (other, went);
          messages = rw (other, went) (append_assoc s.sent _ _);
          hung_up = rw (other, went);
          towns = refl;
        },
      )
      | inl (inr broken) ↦ (
        none,
        remove_client c s,
        rw (other, broken),
        record {
          table = ap (clear_slot c) e ∙ clear_slot-append pre post c n;
          kept = free-NoRepeat pre post c n;
          slot = rw (other, broken);
          messages = rw (other, broken);
          hung_up = rw (other, broken) (append_assoc s.closed _ _);
          towns = refl;
        },
      )
      | inr bad ↦ absurd (ok.0 (ground arith) bad)
    ]
  ]

  join :
      {s m t : Server} (pre post : List (Option ℕ)) (c c' : Option ℕ)
      → Round s pre post c c' m
      → Sent fd write msg m (pre ++ c' ∷ []) post t
      → Sent fd write msg s pre (c ∷ post) t
  join pre post c c' r o = record {
    slots = o.slots ∙ snoc-append pre _ c' ∙ ap (λ x. pre ++ x) (sym r.slot);
    messages = o.messages ∙ r.messages;
    hung_up = o.hung_up ∙ r.hung_up;
    towns = o.towns ∙ r.towns;
  }

  rest_answers :
      (c : Option ℕ) (post : List (Option ℕ))
      → NoneFails fd write (c ∷ post)
      → NoneFails fd write post
  rest_answers none post ok = ok
  rest_answers (some c) post ok = ok.1

  broadcast_next :
      (n k : ℕ) (c : Option ℕ) (s : Server) {m t : Server}
      → get_or s.clients k none ≡ c
      → send_to c fd write msg s ≡ some m
      → broadcast n (k + 1) fd write msg m ≡ some t
      → broadcast (suc n) k fd write msg s ≡ some t
  unfolding broadcast
  broadcast_next n k c s slot sent rest = rw (slot, sent) rest

  broadcast_from :
      (post pre : List (Option ℕ)) (k : ℕ) (s : Server)
      → k ≡ length pre
      → s.clients ≡ pre ++ post
      → NoRepeat (pre ++ post)
      → NoneFails fd write post
      → (t : Server) × (broadcast (length post) k fd write msg s ≡ some t)
        × Sent fd write msg s pre post t
  unfolding broadcast deliveries dropped remaining
  broadcast_from [] pre k s l e n ok = (
    s,
    refl,
    record { slots = e; messages = sym (append-nil _); hung_up = sym (append-nil _); towns = refl },
  )
  broadcast_from (c ∷ post) pre k s l e n ok =
      let (c', m, sent, r) = round c s pre post e n ok in
      let (t, rest, out) =
        broadcast_from post (pre ++ c' ∷ []) (k + 1) m (omega (arith, length-append pre (c' ∷ [])))
          (r.table ∙ sym (snoc-append pre post c'))
          (subst NoRepeat (sym (snoc-append pre post c')) r.kept) (rest_answers c post ok) in
      (
        t,
        broadcast_next (length post) k c s (rw (e, l) (get_or-append pre post c)) sent rest,
        join pre post c c' r out,
      )

-- If no descriptor has two slots, and no `write` to another client ends in an error other than
-- EPIPE, then the broadcast over all slots of a table goes through. The message is written, in the
-- order of the slots, to every client but the sender whose `write` succeeds; the clients whose
-- `write` ends in EPIPE are closed and their slots freed; the other slots and the cities stay.
pub broadcast_lem :
    (fd : ℕ) (write : ℕ → Written) (msg : List ℕ) (s : Server)
    → NoRepeat s.clients
    → NoneFails fd write s.clients
    → (t : Server) × (broadcast (length s.clients) 0 fd write msg s ≡ some t)
      × Sent fd write msg s [] s.clients t
broadcast_lem fd write msg s n ok = broadcast_from fd write msg s.clients [] 0 s refl refl n ok
