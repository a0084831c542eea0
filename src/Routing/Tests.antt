-- ===== src/Routing/Tests.antt =====
-- A map with one route, and the end of small networks.
use sop.Prelude.{
  ℕ, suc, arith, ◌≢◌, zero, ◌*◌, ◌<◌, ◌≡◌, refl, List, [], ◌∷◌, false, some, if◌then◌else◌, ◌==◌,
  ◌⊎◌, ltb, some-eq, inl, inr, Bool, Bool-cases, true,
}
use sop.Routing.{
  Packet, Config, Line, no_colon, route, Hop, boss, lost, no_pipe, relay, add_nodes, load_lines,
  load_config, set_edge, province, Matrix,
}
use sop.Routing.Network.{
  Network, from_boss, after_read, trigger, sends, keeps_packet, takes, writes, in_pipe, Reach,
  begin, next,
}
use sop.Routing.Loading.{Loaded, paths, load_config_lem}
use sop.Routing.Flight.{NoRepeat, Below}
use sop.Routing.Delivery.{Proper, times, relay_lem, messages_relayed_lem}
use sop.Routing.Shutdown.{active_inputs, ends_too, Ends, leaves_loop, Shut, cascade, cycle_hangs}

abbrev map_lines : List Line
map_lines = no_colon ∷ route (0 ∷ 1 ∷ []) (b'a' ∷ []) ∷ []

abbrev packet_a : Packet
packet_a = record { path = 0 ∷ 1 ∷ []; current_step = 0; message = b'a' ∷ [] }

abbrev config_a : Config
config_a = record { n_provinces = 2; routes = packet_a ∷ []; matrix = set_edge (λ i j. false) 0 1 }

map_loaded : load_config 2 map_lines ≡ some config_a
unfolding load_config load_lines add_nodes
map_loaded = refl

map_as_written : Loaded config_a.matrix config_a.routes (paths map_lines)
map_as_written = load_config_lem 2 map_lines config_a map_loaded

apart : NoRepeat (0 ∷ 1 ∷ [])
apart zero a b ea eb q = cc
apart (suc zero) a b ea eb q = cc
apart (suc (suc i)) a b ea eb q = cc

below : Below 2 (0 ∷ 1 ∷ [])
below zero a e = ground (arith, some-eq e)
below (suc zero) a e = ground (arith, some-eq e)
below (suc (suc i)) a e = cc

map-Proper : Proper 2 (paths map_lines)
map-Proper = (refl, below, apart, tt)

-- A letter, the packet sent, read by the province 0 and by the province 1.
abbrev sent_a : Network
sent_a = record {
  flight = from_boss packet_a ∷ [];
  held = [];
  pending = [];
  triggers = 1;
  messages_relayed = λ k. 0;
}

one_fits : ltb (in_pipe boss 0 []) 1 ≡ true
unfolding in_pipe
one_fits = refl

sent_a-Reach : Reach config_a 1 sent_a
sent_a-Reach = next (next begin (trigger b'x' refl refl)) (sends packet_a [] refl one_fits)

abbrev second_hop : Hop
second_hop = record { from = province 0; to = 1; packet = record packet_a { current_step = 1 } }

abbrev read_a : Network
read_a = record (after_read sent_a (from_boss packet_a) []) { held = second_hop ∷ [] }

abbrev written_a : Network
written_a = record read_a { flight = second_hop ∷ []; held = [] }

abbrev arrived_a : Network
arrived_a = after_read written_a second_hop []

arrived_a-Reach : Reach config_a 1 arrived_a
unfolding relay in_pipe
arrived_a-Reach =
    next
      (next (next sent_a-Reach (takes [] (from_boss packet_a) [] second_hop refl tt refl tt refl))
        (writes [] second_hop [] refl refl))
      (keeps_packet [] second_hop [] refl tt refl tt refl)

relay_lem_example :
    (0 < 2) × (relay config_a 0 packet_a ≢ no_pipe) × (relay config_a 0 packet_a ≢ lost)
relay_lem_example =
    relay_lem 2 1 map_lines config_a sent_a [] (from_boss packet_a) [] map_loaded map-Proper
      sent_a-Reach refl

messages_relayed_lem_example : arrived_a.messages_relayed 1 ≡ 1 * times 1 (paths map_lines)
messages_relayed_lem_example =
    messages_relayed_lem 2 1 map_lines config_a arrived_a 1 map_loaded map-Proper arrived_a-Reach
      refl refl refl

-- A route that does not start at 0 is written to 0 all the same, which has no pipe for it; a route
-- that stays at a province is lost there; and a route to a province that there is not has no pipe.
abbrev map_of : ℕ → ℕ → ℕ → Config
map_of n i j = record { n_provinces = n; routes = []; matrix = set_edge (λ a b. false) i j }

stray : relay (map_of 3 1 2) 0 (record packet_a { path = 1 ∷ 2 ∷ [] }) ≡ no_pipe
unfolding relay
stray = refl

to_itself : relay (map_of 3 0 0) 0 (record packet_a { path = 0 ∷ 0 ∷ [] }) ≡ lost
unfolding relay
to_itself = refl

too_far : relay (map_of 1 0 1) 0 packet_a ≡ no_pipe
unfolding relay
too_far = refl

-- Three provinces in a row, and three of which two are on a cycle.
abbrev row : Matrix
row i j = suc i == j

row_up : (i j : ℕ) → row i j ≡ true → i ≢ j → i < j
row_up i j e ne = ground (arith, e)

cascade_example : ((k : ℕ) → k < 3 → false ≡ true) ⊎ ((f : ℕ → Bool) × Ends row 3 (λ k. false) f)
cascade_example = cascade row 3 (λ k. k) (λ k. false) row_up

abbrev looped : Matrix
looped i j = if i == 2 then j == 1 else suc i == j

abbrev on_loop : ℕ → Bool
on_loop k = if k == 1 then true else k == 2

loop_fed :
    (i : ℕ)
    → on_loop i ≡ true
    → (j : ℕ) × (j < 3) × (j ≢ i) × (looped j i ≡ true) × (on_loop j ≡ true)
loop_fed i on = elim (Bool-cases (i == 1)) [
  | inl one ↦ (2, omega arith, (λ e. ground (arith, one, e)), ground (arith, one), refl)
  | inr other ↦ (1, omega arith, (λ e. ground (arith, other, e)), ground (arith, on, other), refl)
]

-- Province 0 ends, and then no other.
zero_ended : Shut looped 3 (ends_too (λ k. false) 0)
unfolding active_inputs
zero_ended = Shut.next Shut.begin (leaves_loop 0 (omega arith) refl refl)

cycle_hangs_example : ends_too (λ k. false) 0 1 ≡ false
cycle_hangs_example =
    cycle_hangs looped 3 on_loop (ends_too (λ k. false) 0) 1 loop_fed zero_ended refl
