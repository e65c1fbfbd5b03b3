-- ===== src/Mesh/Node.antt =====
-- mesh/src/mesh/node.rs: node identity and the neighbour table. A Rust string is its list of UTF-8
-- bytes. `rand::thread_rng` is not part of the repository: the id it draws is an argument.
pub mod Table
use meshtastic_lora_rs.Common.Int.{ℤ}
use meshtastic_lora_rs.Common.{ℕ, List, [], ◌∷◌, map, Option, none, some, ◌==◌, if◌then◌else◌}

pub record NodeInfo : Type 0 where
  pub node_id : ℕ
  pub short_name : List ℕ
  pub long_name : List ℕ
  pub last_rssi : Option ℤ

pub record LocalNode : Type 0 where
  pub node_id : ℕ
  pub short_name : List ℕ
  pub long_name : List ℕ

-- `LocalNode::new` with the id that the random generator drew.
abbrev pub with_random_id : ℕ → List ℕ → List ℕ → LocalNode
with_random_id drawn short_name long_name = record {
  node_id = drawn;
  short_name = short_name;
  long_name = long_name;
}

abbrev pub with_id : ℕ → List ℕ → List ℕ → LocalNode
with_id node_id short_name long_name = record {
  node_id = node_id;
  short_name = short_name;
  long_name = long_name;
}

unfoldable pub node_info : LocalNode → NodeInfo
node_info n = record {
  node_id = n.node_id;
  short_name = n.short_name;
  long_name = n.long_name;
  last_rssi = none;
}

-- `HashMap<u32, NodeInfo>` as an association list with one entry for a key. The order in which a
-- HashMap lists its values is not specified; here it is the order of the first insertions.
pub record NeighbourTable : Type 0 where
  pub nodes : List (ℕ × NodeInfo)

abbrev pub empty : NeighbourTable
empty = record { nodes = [] }

put_under : ℕ → NodeInfo → List (ℕ × NodeInfo) → List (ℕ × NodeInfo)
put_under key info [] = (key, info) ∷ []
put_under key info (entry ∷ entries) =
    let rest = put_under key info entries in
    if entry.0 == key then (key, info) ∷ entries else entry ∷ rest

found_under : ℕ → List (ℕ × NodeInfo) → Option NodeInfo
found_under key [] = none
found_under key (entry ∷ entries) =
    let rest = found_under key entries in if entry.0 == key then some entry.1 else rest

unfoldable pub update : NeighbourTable → NodeInfo → NeighbourTable
unfolding put_under
update t info = record { nodes = put_under info.node_id info t.nodes }

unfoldable pub all : NeighbourTable → List NodeInfo
all t = map (λ e. e.1) t.nodes

unfoldable pub get : NeighbourTable → ℕ → Option NodeInfo
unfolding found_under
get t node_id = found_under node_id t.nodes
