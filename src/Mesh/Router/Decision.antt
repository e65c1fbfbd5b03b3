-- ===== src/Mesh/Router/Decision.antt =====
-- What a routing decision delivers and what it forwards, on every branch.
use meshtastic_lora_rs.Common.{
  ℕ, ◌-◌, ◌≡◌, Bool, ◌||◌, List, ◌==◌, if◌then◌else◌, Option, none, some, arith,
}
use meshtastic_lora_rs.Mac.Packet.{MeshFrame, broadcast}
use meshtastic_lora_rs.Mesh.Router.{
  RouteDecision, deliver, forward, deliver_and_forward, drop, DedupCache, contains,
  check_and_insert, route, decide,
}

abbrev pub delivered : RouteDecision → Option (List ℕ)
delivered (deliver p) = some p
delivered (forward f) = none
delivered (deliver_and_forward p f) = some p
delivered drop = none

abbrev pub forwarded : RouteDecision → Option MeshFrame
forwarded (deliver p) = none
forwarded (forward f) = some f
forwarded (deliver_and_forward p f) = some f
forwarded drop = none

-- The frame with one hop less, all else as it was.
abbrev pub one_hop_less : MeshFrame → MeshFrame
one_hop_less f = record f { header = record (f.header) { hop_limit = f.header.hop_limit - 1 } }

abbrev pub for_us : MeshFrame → ℕ → Bool
for_us f node_id = f.header.to == node_id || f.header.to == broadcast

abbrev pub seen : DedupCache → MeshFrame → Bool
seen dedup f = contains dedup.entries (f.header.from, f.header.id)

check_answer :
    (c : DedupCache) (from id : ℕ) → (check_and_insert c from id).0 ≡ contains c.entries (from, id)
unfolding check_and_insert
check_answer c from id = ground arith

-- A duplicate is dropped; any other frame is decided by its address and its hop limit.
pub route_split :
    (f : MeshFrame) (node_id : ℕ) (plaintext : List ℕ) (dedup : DedupCache)
    → route f node_id plaintext dedup ≡ (
      if seen dedup f then drop else decide f node_id plaintext,
      (check_and_insert dedup f.header.from f.header.id).1,
    )
unfolding route
route_split f node_id plaintext dedup = rw (check_answer dedup f.header.from f.header.id)

-- A frame is delivered exactly if its key is not in the cache and it is addressed to the node or to
-- all; it is forwarded, with one hop less, exactly if its key is not in the cache and hops are left.
-- The new cache is that of the dedup check.
pub route_lem :
    (f : MeshFrame) (node_id : ℕ) (plaintext : List ℕ) (dedup : DedupCache)
    → (delivered (route f node_id plaintext dedup).0
        ≡ (if seen dedup f then none else if for_us f node_id then some plaintext else none))
      × (forwarded (route f node_id plaintext dedup).0 ≡ (
          if seen dedup f
          then none
          else if f.header.hop_limit == 0
          then none
          else some (one_hop_less f)))
      × ((route f node_id plaintext dedup).1 ≡ (check_and_insert dedup f.header.from f.header.id).1)
unfolding route check_and_insert
route_lem f node_id plaintext dedup = ground arith
