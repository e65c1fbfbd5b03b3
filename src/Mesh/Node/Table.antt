-- ===== src/Mesh/Node/Table.antt =====
-- The neighbour table keeps one entry for each node, the latest.
use meshtastic_lora_rs.Common.{
  ℕ, ◌≡◌, ◌≢◌, refl, inl, inr, List, [], ◌∷◌, some, arith, ◌==◌, ==_iff, Bool-cases, if◌then◌else◌,
  All,
}
use meshtastic_lora_rs.Mesh.Node.{NodeInfo, NeighbourTable, put_under, found_under, update, get}

found_under-put_under :
    (key : ℕ) (info : NodeInfo) (entries : List (ℕ × NodeInfo)) (j : ℕ)
    → found_under j (put_under key info entries)
      ≡ (if key == j then some info else found_under j entries)
unfolding found_under put_under
found_under-put_under key info [] j = refl
found_under-put_under key info (entry ∷ entries) j =
    ground (arith, found_under-put_under key info entries j)

-- After an update the table answers with the new entry for its node, and as before for any other.
pub get-update :
    (t : NeighbourTable) (info : NodeInfo) (j : ℕ)
    → get (update t info) j ≡ (if info.node_id == j then some info else get t j)
unfolding get update
get-update t info j = found_under-put_under info.node_id info t.nodes j

-- No key stands twice, and each entry stands under its own node id.
abbrev Absent : ℕ → List (ℕ × NodeInfo) → Type 0
Absent k m = All (λ e. e.0 ≢ k) m

abbrev Distinct : List (ℕ × NodeInfo) → Type 0
Distinct [] = Unit {0}
Distinct (e ∷ m) = Absent e.0 m × Distinct m

pub record IsValid (t : NeighbourTable) : Type 0 where
  pub distinct : Distinct t.nodes
  pub own_key : All (λ e. e.0 ≡ e.1.node_id) t.nodes

put_under-Absent :
    (j k : ℕ) (v : NodeInfo) (m : List (ℕ × NodeInfo))
    → k ≢ j
    → Absent j m
    → Absent j (put_under k v m)
unfolding put_under
put_under-Absent j k v [] h a = (h, tt)
put_under-Absent j k v ((i, w) ∷ m) h a = elim (Bool-cases (i == k)) [
  | inl e ↦ rw e (h, a.1)
  | inr e ↦ rw e (a.0, put_under-Absent j k v m h a.1)
]

put_under-Distinct :
    (k : ℕ) (v : NodeInfo) (m : List (ℕ × NodeInfo)) → Distinct m → Distinct (put_under k v m)
unfolding put_under
put_under-Distinct k v [] d = (tt, tt)
put_under-Distinct k v ((i, w) ∷ m) d = elim (Bool-cases (i == k)) [
  | inl e ↦ rw e (rw (← (==_iff i k).0 e) d.0, d.1)
  | inr e ↦ rw e (put_under-Absent i k v m (ground arith) d.0, put_under-Distinct k v m d.1)
]

put_under-own_key :
    (k : ℕ) (v : NodeInfo) (m : List (ℕ × NodeInfo))
    → k ≡ v.node_id
    → All (λ e. e.0 ≡ e.1.node_id) m
    → All (λ e. e.0 ≡ e.1.node_id) (put_under k v m)
unfolding put_under
put_under-own_key k v [] h a = (h, tt)
put_under-own_key k v ((i, w) ∷ m) h a = elim (Bool-cases (i == k)) [
  | inl e ↦ rw e (h, a.1)
  | inr e ↦ rw e (a.0, put_under-own_key k v m h a.1)
]

-- An update keeps the table's keys distinct, and every entry under its own node id.
pub update-IsValid : (t : NeighbourTable) (info : NodeInfo) → IsValid t → IsValid (update t info)
unfolding update
update-IsValid t info v = record {
  distinct = put_under-Distinct info.node_id info t.nodes v.distinct;
  own_key = put_under-own_key info.node_id info t.nodes refl v.own_key;
}
