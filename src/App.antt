-- ===== src/App.antt =====
-- mesh/src/app.rs: the mesh node, its transmit helpers and its receive path. The node is passed as
-- a value and returned changed; the cipher and the message types are parameters, and the numbers
-- that `rand` draws are arguments.
pub mod Receive
pub mod Delivery
pub mod Safety
pub mod Bytes
pub mod State
pub mod Transmit
pub mod Content
use meshtastic_lora_rs.Common.{
  ℕ, ◌+◌, ◌%◌, bit_xor, Bool, true, false, not, ◌&&◌, List, [], ◌∷◌, ◌++◌, foldl, Option, none,
  some, ltb, ◌==◌, if◌then◌else◌, length, get_or,
}
use meshtastic_lora_rs.Common.Result.{Result, ok, err, Str, codes}
use meshtastic_lora_rs.Common.Hex.{hex8}
use meshtastic_lora_rs.Mac.Packet.{MeshHeader, MeshFrame, max_payload, broadcast, from_bytes}
use meshtastic_lora_rs.Mac.Crypto.{Cipher, MeshCrypto, public_psk, encrypt, decrypt}
use meshtastic_lora_rs.Mesh.Node
use meshtastic_lora_rs.Mesh.Node.{LocalNode, NodeInfo, NeighbourTable}
use meshtastic_lora_rs.Mesh.Router
use meshtastic_lora_rs.Mesh.Router.{DedupCache, RouteDecision, route}
use meshtastic_lora_rs.Proto.{Proto, encode_to_data, decode_user}

pub record ChannelConfig : Type 0 where
  pub name : Str
  pub psk : List ℕ

-- `ChannelConfig::default`.
abbrev pub default_channel : ChannelConfig
default_channel = record { name = codes "LongFast"; psk = public_psk }

-- The sum of the name's bytes, wrapping at 8 bits, joined by exclusive or to the last key byte.
unfoldable pub channel_hash : ChannelConfig → ℕ
channel_hash c = bit_xor (foldl (λ a b. (a + b) % 256) 0 c.name) (get_or c.psk 31 0)

pub record MeshMessage (D : Type 0) : Type 0 where
  pub from : ℕ
  pub to : ℕ
  pub content : D
  pub hop_limit : ℕ
  pub self_origin : Bool

pub data ProcessError (E : Type 0) : Type 0 where
  malformed : ProcessError E
  wrong_channel : ProcessError E
  proto : E → ProcessError E

pub record MeshNode : Type 0 where
  pub local : LocalNode
  pub crypto : MeshCrypto
  pub channel : ChannelConfig
  pub dedup : DedupCache
  pub neighbours : NeighbourTable

-- The fields that the three constructors share.
abbrev fresh : ChannelConfig → LocalNode → MeshNode
fresh channel local = record {
  local = local;
  crypto = record { psk = channel.psk };
  channel = channel;
  dedup = Router.new;
  neighbours = Node.empty;
}

abbrev pub new : ChannelConfig → ℕ → MeshNode
new channel drawn =
    fresh channel (Node.with_random_id drawn (codes "mesh") (codes "Meshtastic-rs node"))

abbrev pub with_identity : ChannelConfig → ℕ → Str → Str → MeshNode
with_identity channel drawn short_name long_name =
    fresh channel (Node.with_random_id drawn short_name long_name)

abbrev pub with_id : ChannelConfig → ℕ → Str → Str → MeshNode
with_id channel node_id short_name long_name =
    fresh channel (Node.with_id node_id short_name long_name)

abbrev pub node_id : MeshNode → ℕ
node_id n = n.local.node_id

unfoldable pub neighbour_list : MeshNode → List NodeInfo
neighbour_list n = Node.all n.neighbours

module _ (pr : Proto) (c : Cipher) where
  open pr use {Data, User, DecodeError}

  unfoldable pub build_frame : MeshNode → ℕ → ℕ → Data → Option MeshFrame
  build_frame n drawn to d =
      let plaintext = pr.encode_data d in
      let header : MeshHeader = record {
        to = to;
        from = node_id n;
        id = drawn;
        hop_limit = 3;
        want_ack = false;
        via_mqtt = false;
        hop_start = 3;
        channel_hash = channel_hash n.channel;
      } in
      let ciphertext = encrypt c n.crypto drawn (node_id n) plaintext in
      if ltb max_payload (length plaintext)
      then none
      else some (record { header = header; payload = ciphertext })

  unfoldable pub build_text_frame : MeshNode → ℕ → ℕ → Str → Option MeshFrame
  build_text_frame n drawn to s = build_frame n drawn to (pr.new_data pr.text_message_app s)

  unfoldable pub build_nodeinfo_frame : MeshNode → ℕ → Option MeshFrame
  build_nodeinfo_frame n drawn =
      let user = pr.new_user (codes "!" ++ hex8 (node_id n)) n.local.long_name n.local.short_name in
      build_frame n drawn broadcast (encode_to_data pr user)

  -- The table entry that a decoded payload leads to, if it is a readable NODEINFO_APP.
  unfoldable pub note_user : MeshNode → ℕ → Data → MeshNode
  note_user n from d =
      if pr.portnum d == pr.nodeinfo_app
      then (elim (decode_user pr d) [
        | ok user ↦ record n {
          neighbours = Node.update n.neighbours (record {
            node_id = from;
            short_name = pr.short_name user;
            long_name = pr.long_name user;
            last_rssi = none;
          });
        }
        | err e ↦ n
      ])
      else n

  decode_payload :
      MeshNode
      → ℕ
      → ℕ
      → ℕ
      → List ℕ
      → Result (ProcessError DecodeError) (MeshMessage Data) × MeshNode
  unfolding note_user
  decode_payload n to from hop_limit plaintext = elim (pr.decode_data plaintext) [
    | err e ↦ (err (proto e), n)
    | ok d ↦ (
      ok (record { from = from; to = to; content = d; hop_limit = hop_limit; self_origin = false }),
      note_user n from d,
    )
  ]

  -- What the receive path returns: a message to deliver and a frame to forward.
  abbrev pub Outcome : Type 0
  Outcome = Result (ProcessError DecodeError) (Option (MeshMessage Data) × Option MeshFrame)

  -- A delivery: decode the payload, mark the message, and hand on `fwd`.
  deliver_with : MeshNode → MeshHeader → Bool → List ℕ → Option MeshFrame → Outcome × MeshNode
  unfolding decode_payload
  deliver_with n h is_self plaintext fwd =
      let (r, n') = decode_payload n h.to h.from h.hop_limit plaintext in
      (
        elim r [ err e ↦ err e | ok msg ↦ ok (some (record msg { self_origin = is_self }), fwd) ],
        n',
      )

  -- The `match` on the routing decision.
  respond : MeshNode → MeshHeader → Bool → RouteDecision → Outcome × MeshNode
  unfolding deliver_with
  respond n h is_self RouteDecision.drop = (ok (none, none), n)
  respond n h is_self (RouteDecision.forward fwd) =
      (ok (none, if is_self then none else some fwd), n)
  respond n h is_self (RouteDecision.deliver plaintext) = deliver_with n h is_self plaintext none
  respond n h is_self (RouteDecision.deliver_and_forward plaintext fwd) =
      deliver_with n h is_self plaintext (if is_self then none else some fwd)

  -- The receive path behind the parsing of the frame.
  unfoldable pub receive : MeshNode → MeshFrame → Outcome × MeshNode
  unfolding respond
  receive n frame =
      let h = frame.header in
      let plaintext = decrypt c n.crypto h.id h.from frame.payload in
      let is_self = h.from == node_id n in
      let (decision, dedup) = route frame (node_id n) plaintext n.dedup in
      if not h.via_mqtt && not (h.channel_hash == channel_hash n.channel)
      then (err wrong_channel, n)
      else respond (record n { dedup = dedup }) h is_self decision

  unfoldable pub process_rx_frame : MeshNode → List ℕ → Outcome × MeshNode
  unfolding receive
  process_rx_frame n raw = elim (from_bytes raw) [
    | none ↦ (err malformed, n)
    | some frame ↦ receive n frame
  ]

  -- `Display for ProcessError`.
  unfoldable pub error_text : ProcessError DecodeError → Str
  error_text malformed = codes "malformed frame"
  error_text wrong_channel = codes "wrong channel"
  error_text (proto e) = codes "proto decode: " ++ pr.error_text e
