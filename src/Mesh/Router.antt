-- ===== src/Mesh/Router.antt =====
-- mesh/src/mesh/router.rs: the dedup cache and the routing decision for one received frame.
pub mod Dedup
pub mod Window
pub mod Decision
pub mod Relay
use meshtastic_lora_rs.Common.{
  ℕ, ◌-◌, Bool, true, false, ◌&&◌, ◌||◌, List, [], ◌∷◌, ◌++◌, ◌==◌, if◌then◌else◌, length, Option,
  none, some,
}
use meshtastic_lora_rs.Mac.Packet.{MeshFrame, MeshHeader, broadcast}

abbrev pub dedup_capacity : ℕ
dedup_capacity = 50

-- A sender and a packet id.
abbrev pub Key : Type 0
Key = ℕ × ℕ

abbrev pub key_eq : Key → Key → Bool
key_eq a b = a.0 == b.0 && a.1 == b.1

-- `VecDeque::contains`, and `pop_front` with its result thrown away.
unfoldable pub contains : List Key → Key → Bool
contains [] k = false
contains (x ∷ xs) k = key_eq x k || contains xs k

abbrev pub pop_front {ℓ} : {A : Type ℓ} → List A → List A
pop_front [] = []
pop_front (x ∷ xs) = xs

-- Oldest first.
pub record DedupCache : Type 0 where
  pub entries : List Key

abbrev pub new : DedupCache
new = record { entries = [] }

unfoldable pub check_and_insert : DedupCache → ℕ → ℕ → Bool × DedupCache
check_and_insert c from id = if contains c.entries (from, id) then (true, c) else (
  false,
  record {
    entries =
        (if length c.entries == dedup_capacity then pop_front c.entries else c.entries)
        ++ ((from, id) ∷ []);
  },
)

pub data RouteDecision : Type 0 where
  deliver : List ℕ → RouteDecision
  forward : MeshFrame → RouteDecision
  deliver_and_forward : List ℕ → MeshFrame → RouteDecision
  drop : RouteDecision

-- What `route` decides once the frame is known to be new.
unfoldable pub decide : MeshFrame → ℕ → List ℕ → RouteDecision
decide frame node_id plaintext =
    let h = frame.header in
    let for_us = h.to == node_id || h.to == broadcast in
    let fwd_header : MeshHeader = record h { hop_limit = h.hop_limit - 1 } in
    let fwd_frame : MeshFrame = record { header = fwd_header; payload = frame.payload } in
    if h.hop_limit == 0
    then (if for_us then deliver plaintext else drop)
    else (if for_us then deliver_and_forward plaintext fwd_frame else forward fwd_frame)

unfoldable pub route : MeshFrame → ℕ → List ℕ → DedupCache → RouteDecision × DedupCache
unfolding decide
route frame node_id plaintext dedup =
    let (seen, dedup') = check_and_insert dedup frame.header.from frame.header.id in
    (if seen then drop else decide frame node_id plaintext, dedup')
