-- ===== src/App/Safety.antt =====
-- What the receive path never does: forward what it must not, deliver what is not addressed to it,
-- or take a frame twice.
use meshtastic_lora_rs.Common.{
  ℕ, ◌<◌, ◌≡◌, ◌≢◌, ap, sym, ◌∙◌, true, false, List, Option, none, some, arith, ◌⊎◌, inl, inr,
}
use meshtastic_lora_rs.Common.Result.{Result, ok, err}
use meshtastic_lora_rs.Mac.Packet.{MeshFrame, from_bytes, broadcast}
use meshtastic_lora_rs.Mac.Crypto.{Cipher}
use meshtastic_lora_rs.Mesh.Router.Decision.{seen, for_us, one_hop_less}
use meshtastic_lora_rs.Proto.{Proto}
use meshtastic_lora_rs.App.{MeshNode, MeshMessage, node_id, Outcome, process_rx_frame}
use meshtastic_lora_rs.App.Receive.{
  accepts, relay, plaintext, message, delivery, expected, Verdict, refused, duplicate, ours, theirs,
  verdict, process_rx_frame_lem,
}

module _ (pr : Proto) (c : Cipher) where
  open pr use {Data, DecodeError}

  -- The relayed frame of an outcome, and the delivered message.
  abbrev pub sends : Outcome pr c → Option MeshFrame
  sends (ok (o, f)) = f
  sends (err e) = none

  abbrev pub delivers : Outcome pr c → Option (MeshMessage Data)
  delivers (ok (o, f)) = o
  delivers (err e) = none

  -- What the node may relay.
  pub record MayRelay (n : MeshNode) (f g : MeshFrame) : Type 0 where
    pub accepted : accepts n f ≡ true
    pub unseen : seen n.dedup f ≡ false
    pub not_own : f.header.from ≢ node_id n
    pub hops_left : 0 < f.header.hop_limit
    pub lowered : g ≡ one_hop_less f

  relay_inv :
      (n : MeshNode) (f g : MeshFrame)
      → relay n f ≡ some g
      → (f.header.from ≢ node_id n) × (0 < f.header.hop_limit) × (g ≡ one_hop_less f)
  relay_inv n f g e = ground arith

  delivery-sends :
      (n : MeshNode) (f g : MeshFrame) (r : Result DecodeError Data)
      → sends (delivery pr c n f r).0 ≡ some g
      → relay n f ≡ some g
  delivery-sends n f g (ok d) e = e
  delivery-sends n f g (err x) e = cc

  Verdict-sends :
      (n : MeshNode) (f g : MeshFrame)
      → Verdict pr c n f
      → sends (expected pr c n f).0 ≡ some g
      → (accepts n f ≡ true) × (seen n.dedup f ≡ false) × (relay n f ≡ some g)
  Verdict-sends n f g (refused _ x) e = cc (ap (λ r. sends r.0) x)
  Verdict-sends n f g (duplicate _ _ x) e = cc (ap (λ r. sends r.0) x)
  Verdict-sends n f g (ours a u _ x) e = (
    a,
    u,
    delivery-sends n f g (pr.decode_data (plaintext pr c n f)) (ap (λ r. sends r.0) (sym x) ∙ e),
  )
  Verdict-sends n f g (theirs a u _ x) e = (a, u, ap (λ r. sends r.0) (sym x) ∙ e)

  -- A frame is forwarded only if the input parses to a frame that passes the channel check, has not
  -- been seen, is not the node's own and has hops left; what is forwarded is that frame with one hop
  -- less.
  pub process-MayRelay :
      (n : MeshNode) (raw : List ℕ) (g : MeshFrame)
      → sends (process_rx_frame pr c n raw).0 ≡ some g
      → (f : MeshFrame) × (from_bytes raw ≡ some f) × MayRelay n f g
  process-MayRelay n raw g e = elim (process_rx_frame_lem pr c n raw) [
    | inl (_, x) ↦ cc (ap (λ r. sends r.0) x)
    | inr (f, parse, x) ↦
        let (a, u, r) = Verdict-sends n f g (verdict pr c n f) (ap (λ r. sends r.0) (sym x) ∙ e) in
        let (own, hops, low) = relay_inv n f g r in
        (
          f,
          parse,
          record { accepted = a; unseen = u; not_own = own; hops_left = hops; lowered = low },
        )
  ]

  -- What the node may deliver: `d` is the decoded content of the message `msg`.
  pub record MayDeliver (n : MeshNode) (f : MeshFrame) (msg : MeshMessage Data) : Type 0 where
    pub accepted : accepts n f ≡ true
    pub unseen : seen n.dedup f ≡ false
    pub addressed : (f.header.to ≡ node_id n) ⊎ (f.header.to ≡ broadcast)
    pub readable : pr.decode_data (plaintext pr c n f) ≡ ok msg.content
    pub complete : msg ≡ message pr c n f msg.content

  delivery-delivers :
      (n : MeshNode) (f : MeshFrame) (msg : MeshMessage Data) (r : Result DecodeError Data)
      → delivers (delivery pr c n f r).0 ≡ some msg
      → (r ≡ ok msg.content) × (msg ≡ message pr c n f msg.content)
  delivery-delivers n f msg (ok d) e =
      let same : message pr c n f d ≡ msg = cc in
      (
        ap (λ (m : MeshMessage Data). ok m.content) same,
        sym same ∙ ap (λ (m : MeshMessage Data). message pr c n f m.content) same,
      )
  delivery-delivers n f msg (err x) e = cc

  for_us_inv :
      (f : MeshFrame) (id : ℕ) → for_us f id ≡ true → (f.header.to ≡ id) ⊎ (f.header.to ≡ broadcast)
  for_us_inv f id h = ground arith

  Verdict-delivers :
      (n : MeshNode) (f : MeshFrame) (msg : MeshMessage Data)
      → Verdict pr c n f
      → delivers (expected pr c n f).0 ≡ some msg
      → MayDeliver n f msg
  Verdict-delivers n f msg (refused _ x) e = cc (ap (λ r. delivers r.0) x)
  Verdict-delivers n f msg (duplicate _ _ x) e = cc (ap (λ r. delivers r.0) x)
  Verdict-delivers n f msg (theirs _ _ _ x) e = cc (ap (λ r. delivers r.0) x)
  Verdict-delivers n f msg (ours a u us x) e =
      let (readable, complete) =
        delivery-delivers n f msg (pr.decode_data (plaintext pr c n f))
          (ap (λ r. delivers r.0) (sym x) ∙ e) in
      record {
        accepted = a;
        unseen = u;
        addressed = for_us_inv f (node_id n) us;
        readable = readable;
        complete = complete;
      }

  -- A message is delivered only if the input parses to a frame that passes the channel check, has not
  -- been seen, is addressed to the node or to all, and decodes; the message has the frame's sender,
  -- address and hop limit and the decoded content, and is marked as own exactly by its sender.
  pub process-MayDeliver :
      (n : MeshNode) (raw : List ℕ) (msg : MeshMessage Data)
      → delivers (process_rx_frame pr c n raw).0 ≡ some msg
      → (f : MeshFrame) × (from_bytes raw ≡ some f) × MayDeliver n f msg
  process-MayDeliver n raw msg e = elim (process_rx_frame_lem pr c n raw) [
    | inl (_, x) ↦ cc (ap (λ r. delivers r.0) x)
    | inr (f, parse, x) ↦
        (f, parse, Verdict-delivers n f msg (verdict pr c n f) (ap (λ r. delivers r.0) (sym x) ∙ e))
  ]
