-- ===== src/App/Content.antt =====
-- What the content helpers mean to the receiver: a text is read back, a node info is learned.
use meshtastic_lora_rs.Common.{
  ℕ, ◌≡◌, refl, ap, ◌∙◌, true, false, ◌++◌, Option, none, some, ◌==◌, ==_refl, arith, ◌⊎◌, inr,
}
use meshtastic_lora_rs.Common.Bytes.{IsU32}
use meshtastic_lora_rs.Common.Hex.{hex8}
use meshtastic_lora_rs.Common.Result.{Str, codes, ok, is_utf8}
use meshtastic_lora_rs.Mac.Packet.{MeshFrame, to_bytes, broadcast}
use meshtastic_lora_rs.Mac.Crypto.{Cipher, IsStreamCipher}
use meshtastic_lora_rs.Mesh.Node
use meshtastic_lora_rs.Mesh.Node.{NodeInfo, node_info}
use meshtastic_lora_rs.Mesh.Node.Table.{get-update}
use meshtastic_lora_rs.Mesh.Router.Decision.{seen}
use meshtastic_lora_rs.Mesh.Router.Relay.{Relays}
use meshtastic_lora_rs.Proto.{Proto, IsCodec, text, encode_to_data, decode_user}
use meshtastic_lora_rs.App.{
  MeshNode, MeshMessage, node_id, build_text_frame, build_nodeinfo_frame, note_user,
  process_rx_frame,
}
use meshtastic_lora_rs.App.Receive.{marked}
use meshtastic_lora_rs.App.Delivery.{IsTypedNode, process-build_frame}
use meshtastic_lora_rs.App.Safety.{delivers}

module _ (pr : Proto) where
  -- The sender and the text of a delivered message.
  abbrev pub heard : Option (MeshMessage pr.Data) → Option (ℕ × Option Str)
  heard none = none
  heard (some msg) = some (msg.from, text pr msg.content)

module _ (pr : Proto) (c : Cipher) (codec : IsCodec pr) where
  open pr use {Data}

  pub text-new_data :
      (s : Str) → is_utf8 s ≡ true → text pr (pr.new_data pr.text_message_app s) ≡ some s
  unfolding text
  text-new_data s h = rw (
    codec.portnum-new_data pr.text_message_app s,
    codec.payload-new_data pr.text_message_app s,
    ==_refl pr.text_message_app,
    h,
  )

  decode_user-encode_to_data : (u : pr.User) → decode_user pr (encode_to_data pr u) ≡ ok u
  unfolding decode_user encode_to_data
  decode_user-encode_to_data u =
      ap pr.decode_user_bytes (codec.payload-new_data pr.nodeinfo_app (pr.encode_user u))
      ∙ codec.decode-encode_user u

  portnum-encode_to_data :
      (u : pr.User) → (pr.portnum (encode_to_data pr u) == pr.nodeinfo_app) ≡ true
  unfolding encode_to_data
  portnum-encode_to_data u =
      rw (codec.portnum-new_data pr.nodeinfo_app (pr.encode_user u)) (==_refl pr.nodeinfo_app)

  -- What a node learns from a user message.
  note_user-encode_to_data :
      (m : MeshNode) (from : ℕ) (i l s : Str)
      → Node.get (note_user pr c m from (encode_to_data pr (pr.new_user i l s))).neighbours from
        ≡ some (record { node_id = from; short_name = s; long_name = l; last_rssi = none })
  unfolding note_user
  note_user-encode_to_data m from i l s =
      let u = pr.new_user i l s in
      let info : NodeInfo = record {
        node_id = from;
        short_name = pr.short_name u;
        long_name = pr.long_name u;
        last_rssi = none;
      } in
      rw (portnum-encode_to_data u, decode_user-encode_to_data u)
        (get-update m.neighbours info from
          ∙ rw (==_refl from, codec.short_name-new_user i l s, codec.long_name-new_user i l s))

  module _ (cipher : IsStreamCipher c) where
    -- A text that a node sends is read back by every addressed node on the channel that a chain of
    -- relays reaches and that has not seen it: the message delivered has that text, from that sender.
    pub text_arrives :
        (n m : MeshNode) (drawn to : ℕ) (s : Str) (f g : MeshFrame) (relays : ℕ)
        → IsTypedNode n
        → IsU32 drawn
        → IsU32 to
        → m.channel ≡ n.channel
        → m.crypto ≡ n.crypto
        → (to ≡ node_id m) ⊎ (to ≡ broadcast)
        → is_utf8 s ≡ true
        → build_text_frame pr c n drawn to s ≡ some f
        → Relays f relays g
        → seen m.dedup g ≡ false
        → heard pr (delivers pr c (process_rx_frame pr c m (to_bytes g)).0)
          ≡ some (node_id n, some s)
    unfolding build_text_frame
    text_arrives n m drawn to s f g relays t hd ht ch k ours u e r first =
        let d = pr.new_data pr.text_message_app s in
        let (_, outcome) =
          process-build_frame pr c codec cipher n m drawn to d f g relays t hd ht ch k ours e r
            first in
        ap (λ o. heard pr (delivers pr c o.0)) outcome
        ∙ ap (λ s'. some (node_id n, s')) (text-new_data s u)

    -- A node info that a node broadcasts is learned by every node on the channel that a chain of
    -- relays reaches and that has not seen it: the table then answers for the sender with its id and
    -- its two names.
    pub nodeinfo_learned :
        (n m : MeshNode) (drawn : ℕ) (f g : MeshFrame) (relays : ℕ)
        → IsTypedNode n
        → IsU32 drawn
        → m.channel ≡ n.channel
        → m.crypto ≡ n.crypto
        → build_nodeinfo_frame pr c n drawn ≡ some f
        → Relays f relays g
        → seen m.dedup g ≡ false
        → Node.get (process_rx_frame pr c m (to_bytes g)).1.neighbours (node_id n)
          ≡ some (node_info n.local)
    unfolding build_nodeinfo_frame node_info
    nodeinfo_learned n m drawn f g relays t hd ch k e r first =
        let i = codes "!" ++ hex8 (node_id n) in
        let d = encode_to_data pr (pr.new_user i n.local.long_name n.local.short_name) in
        let (_, outcome) =
          process-build_frame pr c codec cipher n m drawn broadcast d f g relays t hd (omega arith)
            ch k (inr refl) e r first in
        ap (λ o. Node.get o.1.neighbours (node_id n)) outcome
        ∙ note_user-encode_to_data (marked m g) (node_id n) i n.local.long_name n.local.short_name
