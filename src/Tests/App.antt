-- ===== src/Tests/App.antt =====
-- Runs and examples for the mesh node: Alice and Bob on the default channel.
use meshtastic_lora_rs.Common.{
  ℕ, ◌≤◌, ◌<◌, ◌≡◌, refl, false, List, [], ◌∷◌, ◌++◌, ap, length, none, some, arith, ◌⊎◌, inr,
}
use meshtastic_lora_rs.Common.Result.{ok, err, codes}
use meshtastic_lora_rs.Mac.Packet.{
  MeshFrame, IsOnAir, broadcast, to_bytes, from_bytes, encode, decode, header_len,
}
use meshtastic_lora_rs.Mac.Crypto.{encrypt, decrypt}
use meshtastic_lora_rs.Mesh.Node
use meshtastic_lora_rs.Mesh.Router
use meshtastic_lora_rs.Mesh.Router.{route, check_and_insert, contains}
use meshtastic_lora_rs.Mesh.Router.Dedup.{new-IsValid}
use meshtastic_lora_rs.Mesh.Router.Relay.{Relays, here, hop, with_hop_limit}
use meshtastic_lora_rs.Proto.{encode_to_data}
use meshtastic_lora_rs.Common.Hex.{hex8}
use meshtastic_lora_rs.App.{
  MeshMessage, node_id, malformed, channel_hash, default_channel, build_frame, build_nodeinfo_frame,
  note_user, process_rx_frame,
}
use meshtastic_lora_rs.App.Receive.{relay, marked, expected, process_rx_frame_lem, process_parsed}
use meshtastic_lora_rs.App.Delivery.{built, IsTypedNode, process-build_frame}
use meshtastic_lora_rs.App.Safety.{
  sends, delivers, MayRelay, MayDeliver, process-MayRelay, process-MayDeliver,
}
use meshtastic_lora_rs.App.State.{IsValid, process_twice, process-IsValid}
use meshtastic_lora_rs.App.Transmit.{build_frame-some}
use meshtastic_lora_rs.App.Content.{nodeinfo_learned}
use meshtastic_lora_rs.Tests.Concrete.{
  toy_cipher, toy_cipher-IsStreamCipher, toy_proto, toy_proto-IsCodec, alice, bob,
}

default_hash : channel_hash default_channel ≡ 0x1e
unfolding channel_hash
default_hash = refl

pub alice-IsTypedNode : IsTypedNode alice
alice-IsTypedNode = record { id_u32 = omega arith; key_byte = omega arith }

-- Alice's text to all, as it is built and as it leaves the first relay.
abbrev pub hi : ℕ × List ℕ
hi = (1, codes "hi")

abbrev pub sent_frame : MeshFrame
sent_frame = built toy_proto toy_cipher alice 7 broadcast hi

abbrev pub relayed_frame : MeshFrame
relayed_frame = with_hop_limit sent_frame 2

pub one_relay : Relays sent_frame 1 relayed_frame
unfolding route check_and_insert contains
one_relay = hop 3 [] Router.new here refl

pub build_hi : build_frame toy_proto toy_cipher alice 7 broadcast hi ≡ some sent_frame
unfolding build_frame
build_hi = refl

process-build_frame_example :
    (1 ≤ 3)
    × (process_rx_frame toy_proto toy_cipher bob (to_bytes relayed_frame) ≡ (
      ok (
        some
            (record { from = 1; to = broadcast; content = hi; hop_limit = 2; self_origin = false }),
        relay bob relayed_frame,
      ),
      note_user toy_proto toy_cipher (marked bob relayed_frame) 1 hi,
    ))
process-build_frame_example =
    process-build_frame toy_proto toy_cipher toy_proto-IsCodec toy_cipher-IsStreamCipher alice bob 7
      broadcast hi sent_frame relayed_frame 1 alice-IsTypedNode (omega arith) (omega arith) refl
      refl (inr refl) build_hi one_relay (unfold contains in refl)

abbrev info_frame : MeshFrame
unfolding hex8
info_frame = built toy_proto toy_cipher alice 8 broadcast (4, 5 ∷ codes "Alice" ++ codes "AL")

build_info : build_nodeinfo_frame toy_proto toy_cipher alice 8 ≡ some info_frame
unfolding build_nodeinfo_frame build_frame encode_to_data info_frame
build_info = refl

nodeinfo_learned_example :
    Node.get (process_rx_frame toy_proto toy_cipher bob (to_bytes info_frame)).1.neighbours 1
    ≡ some (Node.node_info alice.local)
nodeinfo_learned_example =
    nodeinfo_learned toy_proto toy_cipher toy_proto-IsCodec toy_cipher-IsStreamCipher alice bob 8
      info_frame info_frame 0 alice-IsTypedNode (omega arith) refl refl build_info here
      (unfold contains in refl)

parses : from_bytes (to_bytes relayed_frame) ≡ some relayed_frame
unfolding from_bytes to_bytes encode decode channel_hash encrypt
parses = refl

bob_outcome :
    process_rx_frame toy_proto toy_cipher bob (to_bytes relayed_frame)
    ≡ expected toy_proto toy_cipher bob relayed_frame
bob_outcome = process_parsed toy_proto toy_cipher bob (to_bytes relayed_frame) relayed_frame parses

bob-sends :
    sends toy_proto toy_cipher
      (process_rx_frame toy_proto toy_cipher bob (to_bytes relayed_frame)).0
    ≡ some (with_hop_limit sent_frame 1)
unfolding contains encrypt decrypt channel_hash
bob-sends = ap (λ r. sends toy_proto toy_cipher r.0) bob_outcome

process-MayRelay_example :
    (f : MeshFrame) × (from_bytes (to_bytes relayed_frame) ≡ some f)
    × MayRelay toy_proto toy_cipher bob f (with_hop_limit sent_frame 1)
process-MayRelay_example =
    process-MayRelay toy_proto toy_cipher bob (to_bytes relayed_frame) (with_hop_limit sent_frame 1)
      bob-sends

abbrev heard_hi : MeshMessage (ℕ × List ℕ)
heard_hi = record { from = 1; to = broadcast; content = hi; hop_limit = 2; self_origin = false }

bob-delivers :
    delivers toy_proto toy_cipher
      (process_rx_frame toy_proto toy_cipher bob (to_bytes relayed_frame)).0
    ≡ some heard_hi
unfolding contains encrypt decrypt channel_hash
bob-delivers = ap (λ r. delivers toy_proto toy_cipher r.0) bob_outcome

process-MayDeliver_example :
    (f : MeshFrame) × (from_bytes (to_bytes relayed_frame) ≡ some f)
    × MayDeliver toy_proto toy_cipher bob f heard_hi
process-MayDeliver_example =
    process-MayDeliver toy_proto toy_cipher bob (to_bytes relayed_frame) heard_hi bob-delivers

process_twice_example :
    process_rx_frame toy_proto toy_cipher
      (process_rx_frame toy_proto toy_cipher bob (to_bytes relayed_frame)).1
      (to_bytes relayed_frame)
    ≡ (ok (none, none), (process_rx_frame toy_proto toy_cipher bob (to_bytes relayed_frame)).1)
process_twice_example =
    process_twice toy_proto toy_cipher bob (to_bytes relayed_frame) relayed_frame parses
      (unfold channel_hash in refl)

process_rx_frame_lem_example :
    ((1 < header_len) × (process_rx_frame toy_proto toy_cipher bob (9 ∷ []) ≡ (err malformed, bob)))
    ⊎ ((f : MeshFrame) × (from_bytes (9 ∷ []) ≡ some f)
        × (process_rx_frame toy_proto toy_cipher bob (9 ∷ [])
            ≡ expected toy_proto toy_cipher bob f))
process_rx_frame_lem_example = process_rx_frame_lem toy_proto toy_cipher bob (9 ∷ [])

short_input : (process_rx_frame toy_proto toy_cipher bob (9 ∷ [])).0 ≡ err malformed
unfolding process_rx_frame from_bytes decode
short_input = refl

bob-IsValid : IsValid bob
bob-IsValid = record {
  dedup_valid = new-IsValid;
  table_valid = record { distinct = tt; own_key = tt };
}

process-IsValid_example :
    IsValid (process_rx_frame toy_proto toy_cipher bob (to_bytes relayed_frame)).1
process-IsValid_example =
    process-IsValid toy_proto toy_cipher bob (to_bytes relayed_frame) bob-IsValid

build_frame-some_example :
    (length (to_bytes sent_frame) ≤ 253)
    × IsOnAir sent_frame.header
    × (sent_frame.header.hop_limit ≡ 3)
    × (sent_frame.header.hop_start ≡ 3)
    × (sent_frame.header.from ≡ node_id alice)
    × (sent_frame.header.channel_hash ≡ channel_hash alice.channel)
build_frame-some_example =
    build_frame-some toy_proto toy_cipher alice 7 broadcast hi sent_frame toy_cipher-IsStreamCipher
      alice-IsTypedNode (omega arith) (omega arith) build_hi
