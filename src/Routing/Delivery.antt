-- ===== src/Routing/Delivery.antt =====
-- Where the packets get.
use mathlib.Core.Path.{subst}
use native.Mathlib.Nat.{suc-mul}
use sop.Prelude.{
  ℕ, ◌+◌, ◌*◌, ◌≡◌, ◌≢◌, refl, sym, ap, ◌∙◌, List, [], ◌∷◌, ◌++◌, arith, some, suc, true, ◌<◌,
  get_elem?, drop, inl, inr,
}
use sop.Prelude.Count.{count}
use sop.Routing.{
  Packet, Matrix, Config, pipes, Line, Hop, stays, lost, no_pipe, goes, relay, load_config,
}
use sop.Routing.Network.{
  Network, from_boss, Step, trigger, sends, keeps_packet, takes, loses, writes, Reach, begin, next,
}
use sop.Routing.Loading.{Linked, Loaded, paths, load_config_lem, load_config-n_provinces}
use sop.Routing.Flight.{
  NoRepeat, Below, HopOk, Hops, Ready, left_of, left, ahead, left-append, Hops-append, next_hop,
  relay-HopOk, count-stepped, left-insert, bump_one, without, left_end,
}

pub record Inv (cfg : Config) (s : Network) : Type 0 where
  pub hops : Hops cfg s.flight
  helds : Hops cfg s.held
  ready : Ready cfg s.pending
  relayed :
      (k : ℕ)
      → s.messages_relayed k + left k s.flight + left k s.held + ahead k s.pending
        ≡ s.triggers * ahead k cfg.routes

Step-Inv :
    (cfg : Config) (room : ℕ) {s t : Network}
    → Ready cfg cfg.routes
    → Step cfg room s t
    → Inv cfg s
    → Inv cfg t
unfolding left ahead
Step-Inv cfg room {s} ok (trigger c none_left letter) v = record {
  hops = v.hops;
  helds = v.helds;
  ready = ok;
  relayed = λ k.
      omega (arith, v.relayed k, ap (ahead k) none_left, suc-mul s.triggers (ahead k cfg.routes));
}
Step-Inv cfg room {s} ok (sends p ps e fits) v =
    let r : Ready cfg (p ∷ ps) = subst (Ready cfg) e v.ready in
    record {
      hops = Hops-append cfg s.flight (from_boss p ∷ []) v.hops (r.0, tt);
      helds = v.helds;
      ready = r.2;
      relayed = λ k.
          let whole : left_of k p ≡ count k p.path = ap (λ i. count k (drop i p.path)) r.1 in
          omega
            (arith, v.relayed k, ap (ahead k) e, left-append k s.flight (from_boss p ∷ []), whole);
    }
Step-Inv cfg room {s} ok (keeps_packet gs h hs e first there free stay) v =
    let (here, rest) = without cfg gs h hs (subst (Hops cfg) e v.hops) in
    elim (relay-HopOk cfg h here) [
      | inl (same, over) ↦ record {
        hops = rest;
        helds = v.helds;
        ready = v.ready;
        relayed = λ k. omega (
          arith,
          v.relayed k,
          ap (left k) e,
          left-insert k gs h hs,
          left_end k cfg h here over,
          bump_one s.messages_relayed h.to k,
        );
      }
      | inr (b, gone, good) ↦ absurd (let n : stays ≡ goes (next_hop h b) = sym stay ∙ gone in cc)
    ]
Step-Inv cfg room {s} ok (takes gs h hs g e first there free passed) v =
    let (here, rest) = without cfg gs h hs (subst (Hops cfg) e v.hops) in
    elim (relay-HopOk cfg h here) [
      | inl (same, over) ↦ absurd (let n : stays ≡ goes g = sym same ∙ passed in cc)
      | inr (b, gone, good) ↦
          let q : goes g ≡ goes (next_hop h b) = sym passed ∙ gone in
          let same : g ≡ next_hop h b = cc in
          record {
            hops = rest;
            helds = Hops-append cfg s.held (g ∷ []) v.helds (subst (HopOk cfg) (sym same) good, tt);
            ready = v.ready;
            relayed = λ k. omega (
              arith,
              v.relayed k,
              ap (left k) e,
              left-insert k gs h hs,
              left-append k s.held (g ∷ []),
              ap (λ x. left_of k x.packet) same,
              count-stepped k h.packet h.to here.0,
              bump_one s.messages_relayed h.to k,
            );
          }
    ]
Step-Inv cfg room {s} ok (loses gs h hs e first there free gone) v =
    let (here, rest) = without cfg gs h hs (subst (Hops cfg) e v.hops) in
    elim (relay-HopOk cfg h here) [
      | inl (same, over) ↦ absurd (let n : stays ≡ lost = sym same ∙ gone in cc)
      | inr (b, went, good) ↦ absurd (let n : lost ≡ goes (next_hop h b) = sym gone ∙ went in cc)
    ]
Step-Inv cfg room {s} ok (writes gs g hs e fits) v =
    let (here, rest) = without cfg gs g hs (subst (Hops cfg) e v.helds) in
    record {
      hops = Hops-append cfg s.flight (g ∷ []) v.hops (here, tt);
      helds = rest;
      ready = v.ready;
      relayed = λ k. omega (
        arith,
        v.relayed k,
        ap (left k) e,
        left-insert k gs g hs,
        left-append k s.flight (g ∷ []),
      );
    }

-- The routes of a map of `n` provinces that start at the province 0, to which the government writes,
-- have no other provinces than the `n`, and in which no province follows itself.
abbrev pub Proper : ℕ → List (List ℕ) → Type 0
Proper n [] = Unit
Proper n (l ∷ ls) = (get_elem? l 0 ≡ some 0) × Below n l × NoRepeat l × Proper n ls

-- The hops between provinces that there are have their pipes.
Linked-pipes :
    (cfg : Config) (path : List ℕ)
    → Below cfg.n_provinces path
    → Linked cfg.matrix path
    → Linked (pipes cfg) path
Linked-pipes cfg path below linked i a b ea eb =
    let edge : cfg.matrix a b ≡ true = linked i a b ea eb in
    ground (arith, edge, below i a ea, below (suc i) b eb)

pub Ready-Proper :
    (cfg : Config) (ps : List Packet) (ls : List (List ℕ))
    → Loaded cfg.matrix ps ls
    → Proper cfg.n_provinces ls
    → Ready cfg ps
Ready-Proper cfg [] [] h g = tt
Ready-Proper cfg [] (l ∷ ls) h g = absurd h
Ready-Proper cfg (p ∷ ps) [] h g = absurd h
Ready-Proper cfg (p ∷ ps) (l ∷ ls) (path, step, linked, rest) (zero_first, below, apart, more) =
    let first : get_elem? p.path p.current_step ≡ some 0 =
      ap (λ q. get_elem? q p.current_step) path ∙ ap (get_elem? l) step ∙ zero_first in
    (
      (
        first,
        subst (Linked (pipes cfg)) (sym path) (Linked-pipes cfg l below linked),
        subst NoRepeat (sym path) apart,
        subst (Below cfg.n_provinces) (sym path) below,
      ),
      step,
      Ready-Proper cfg ps ls rest more,
    )

-- How often a province stands on the routes.
unfoldable pub times : ℕ → List (List ℕ) → ℕ
times k [] = 0
times k (l ∷ ls) = count k l + times k ls

ahead-times :
    (k : ℕ) (m : Matrix) (ps : List Packet) (ls : List (List ℕ))
    → Loaded m ps ls
    → ahead k ps ≡ times k ls
unfolding ahead times
ahead-times k m [] [] h = refl
ahead-times k m [] (l ∷ ls) h = absurd h
ahead-times k m (p ∷ ps) [] h = absurd h
ahead-times k m (p ∷ ps) (l ∷ ls) (path, step, linked, rest) =
    omega (arith, ap (count k) path, ahead-times k m ps ls rest)

Reach-Inv :
    (cfg : Config) (room : ℕ) {s : Network} → Ready cfg cfg.routes → Reach cfg room s → Inv cfg s
unfolding left ahead
Reach-Inv cfg room ok begin = record {
  hops = tt;
  helds = tt;
  ready = tt;
  relayed = λ k. omega arith;
}
Reach-Inv cfg room ok (next r st) = Step-Inv cfg room ok st (Reach-Inv cfg room ok r)

loaded-Inv :
    (n room : ℕ) (lines : List Line) (cfg : Config) {s : Network}
    → load_config n lines ≡ some cfg
    → Proper n (paths lines)
    → Reach cfg room s
    → Inv cfg s
loaded-Inv n room lines cfg loaded proper r =
    let as_many = load_config-n_provinces n lines cfg loaded in
    Reach-Inv cfg room
      (Ready-Proper cfg cfg.routes (paths lines) (load_config_lem n lines cfg loaded)
        (subst (λ k. Proper k (paths lines)) (sym as_many) proper))
      r

-- On a map whose routes are proper, no packet is ever on its way to a province that there is not, and
-- no province ever writes a packet to a pipe that was not made, or that nobody reads: whatever packet
-- is in a pipe, in every reachable state and however many packets a pipe takes, it is on its
-- way to one of the `n` provinces, which keeps it or passes it on.
pub relay_lem :
    (n room : ℕ) (lines : List Line) (cfg : Config) (s : Network) (gs : List Hop) (h : Hop)
    (hs : List Hop)
    → load_config n lines ≡ some cfg
    → Proper n (paths lines)
    → Reach cfg room s
    → s.flight ≡ gs ++ h ∷ hs
    → (h.to < n) × (relay cfg h.to h.packet ≢ no_pipe) × (relay cfg h.to h.packet ≢ lost)
relay_lem n room lines cfg s gs h hs loaded proper r e =
    let v = loaded-Inv n room lines cfg loaded proper r in
    let ok = (without cfg gs h hs (subst (Hops cfg) e v.hops)).0 in
    let there : h.to < n =
      omega
        (arith, ok.3 h.packet.current_step h.to ok.0, load_config-n_provinces n lines cfg loaded) in
    elim (relay-HopOk cfg h ok) [
      | inl (same, over) ↦ (there, (λ q. cc), (λ q. cc))
      | inr (b, went, good) ↦ (there, (λ q. cc), (λ q. cc))
    ]

-- On a map whose routes are proper, when the government has sent everything, the pipes are empty and
-- no province is writing: every province has relayed as many messages as there were letters, times
-- how often it stands on the routes. No packet was lost, repeated or led astray.
pub messages_relayed_lem :
    (n room : ℕ) (lines : List Line) (cfg : Config) (s : Network) (k : ℕ)
    → load_config n lines ≡ some cfg
    → Proper n (paths lines)
    → Reach cfg room s
    → s.flight ≡ []
    → s.held ≡ []
    → s.pending ≡ []
    → s.messages_relayed k ≡ s.triggers * times k (paths lines)
unfolding left ahead
messages_relayed_lem n room lines cfg s k loaded proper r empty idle sent =
    let v = loaded-Inv n room lines cfg loaded proper r in
    let all : s.messages_relayed k ≡ s.triggers * ahead k cfg.routes =
      omega (arith, v.relayed k, ap (left k) empty, ap (left k) idle, ap (ahead k) sent) in
    all
    ∙ ap (λ x. s.triggers * x)
        (ahead-times k cfg.matrix cfg.routes (paths lines) (load_config_lem n lines cfg loaded))
