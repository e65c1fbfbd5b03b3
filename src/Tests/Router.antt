-- ===== src/Tests/Router.antt =====
-- Runs and examples for the dedup cache, routing and relaying.
use meshtastic_lora_rs.Common.{
  ℕ, zero, suc, ◌-◌, ◌≤◌, ◌≡◌, refl, true, false, List, [], ◌∷◌, length, replicate, arith,
}
use meshtastic_lora_rs.Mac.Packet.{MeshFrame, broadcast}
use meshtastic_lora_rs.Mesh.Router.{
  Key, new, contains, check_and_insert, dedup_capacity, route, deliver_and_forward,
}
use meshtastic_lora_rs.Mesh.Router.Dedup.{new-IsValid, last_n}
use meshtastic_lora_rs.Mesh.Router.Window.{
  after, answers, spec_after, spec_answers, answers-refines, check-after, check-forgets,
}
use meshtastic_lora_rs.Mesh.Router.Relay.{Relays, here, hop, with_hop_limit, Relays-hop_limit}

-- The keys (1, 0) to (1, n - 1), highest first.
abbrev burst : ℕ → List Key
burst zero = []
burst (suc n) = (1, n) ∷ burst n

burst_then_first : answers new ((1, 0) ∷ (1, 1) ∷ (1, 0) ∷ []) ≡ false ∷ false ∷ true ∷ []
unfolding check_and_insert contains
burst_then_first = refl

fifty_one : length (after new (burst 51)).entries ≡ 50
unfolding check_and_insert contains
fifty_one = refl

answers-refines_example :
    (answers new (burst 3) ≡ spec_answers [] (burst 3))
    × ((after new (burst 3)).entries ≡ last_n dedup_capacity (spec_after [] (burst 3)))
answers-refines_example = answers-refines (burst 3)

check-after_example : (check_and_insert (after new ((2, 9) ∷ burst 49)) 2 9).0 ≡ true
check-after_example =
    check-after new (2, 9) (burst 49) new-IsValid (unfold check_and_insert contains in refl)
      (omega arith)

fifty_new : answers new (burst 50) ≡ replicate dedup_capacity false
unfolding check_and_insert contains
fifty_new = refl

check-forgets_example :
    ((after new (burst 50)).entries ≡ burst 50)
    × ((check_and_insert (after new (burst 50)) 2 9).0 ≡ false)
check-forgets_example =
    check-forgets new (2, 9) (burst 50) new-IsValid fifty_new (unfold contains in refl)

-- Packet 7 from node 1 to all, three hops left.
abbrev hello : MeshFrame
hello = record {
  header = record {
    to = broadcast;
    from = 1;
    id = 7;
    hop_limit = 3;
    want_ack = false;
    via_mqtt = false;
    hop_start = 3;
    channel_hash = 0;
  };
  payload = 5 ∷ [];
}

hello_routed :
    (route hello 2 (9 ∷ []) new).0 ≡ deliver_and_forward (9 ∷ []) (with_hop_limit hello 2)
unfolding route check_and_insert contains
hello_routed = refl

two-Relays : Relays hello 2 (with_hop_limit hello 1)
unfolding route check_and_insert contains
two-Relays = hop 3 [] new (hop 2 [] new here refl) refl

Relays-hop_limit_example :
    (2 ≤ hello.header.hop_limit) × (with_hop_limit hello 1 ≡ with_hop_limit hello (3 - 2))
Relays-hop_limit_example = Relays-hop_limit two-Relays
