-- ===== src/Mesh/Router/Relay.antt =====
-- A frame on its way through a chain of nodes: the hop limit bounds the number of relays.
use meshtastic_lora_rs.Common.{ℕ, suc, ◌-◌, ◌≤◌, ◌<◌, ◌≡◌, ap, ◌∙◌, List, some, arith, false}
use meshtastic_lora_rs.Mac.Packet.{MeshFrame}
use meshtastic_lora_rs.Mesh.Router.{DedupCache, route}
use meshtastic_lora_rs.Mesh.Router.Decision.{forwarded, one_hop_less, seen, route_lem}

-- `Relays f n g`: `n` nodes in a row, each in any state, forwarded what came from the one before;
-- the first received `f` and the last sent `g`.
pub data Relays (f : MeshFrame) : ℕ → MeshFrame → Type 0 where
  here : Relays f 0 f
  hop :
      {n : ℕ} {g g' : MeshFrame} (node_id : ℕ) (plaintext : List ℕ) (dedup : DedupCache)
      → Relays f n g
      → forwarded (route g node_id plaintext dedup).0 ≡ some g'
      → Relays f (suc n) g'

forwarded_inv :
    (g g' : MeshFrame) (node_id : ℕ) (plaintext : List ℕ) (dedup : DedupCache)
    → forwarded (route g node_id plaintext dedup).0 ≡ some g'
    → (seen dedup g ≡ false) × (0 < g.header.hop_limit) × (g' ≡ one_hop_less g)
forwarded_inv g g' node_id plaintext dedup e =
    ground (arith, (route_lem g node_id plaintext dedup).1)

-- The frame `f` with the hop limit `n`.
abbrev pub with_hop_limit : MeshFrame → ℕ → MeshFrame
with_hop_limit f n = record f { header = record (f.header) { hop_limit = n } }

-- After `n` relays the hop limit has fallen by `n` and nothing else of the frame has changed; so no
-- chain has more relays than the hop limit of the frame that started it.
pub Relays-hop_limit :
    {f g : MeshFrame} {n : ℕ}
    → Relays f n g
    → (n ≤ f.header.hop_limit) × (g ≡ with_hop_limit f (f.header.hop_limit - n))
Relays-hop_limit {f} here =
    let e : f.header.hop_limit ≡ f.header.hop_limit - 0 = omega arith in
    (omega arith, ap (with_hop_limit f) e)
Relays-hop_limit {f} {g} {n = suc n} (hop {g = g₀} node_id plaintext dedup r e) =
    let (fits, before) = Relays-hop_limit r in
    let (_, left, sent) = forwarded_inv g₀ g node_id plaintext dedup e in
    let limit : g₀.header.hop_limit ≡ f.header.hop_limit - n =
      ap (λ h. h.header.hop_limit) before in
    let less : f.header.hop_limit - n - 1 ≡ f.header.hop_limit - suc n = omega arith in
    (omega arith, sent ∙ ap one_hop_less before ∙ ap (with_hop_limit f) less)
