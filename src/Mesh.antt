-- ===== src/Mesh.antt =====
-- mesh/src/mesh: the flood router with its dedup cache, node identity, the neighbour table.
pub mod Router
pub mod Node
