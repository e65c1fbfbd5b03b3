-- ===== src/App/Delivery.antt =====
-- From one node to another, over any number of relays: what is sent arrives.
use meshtastic_lora_rs.Common.{
  ℕ, ◌+◌, ◌%◌, ◌-◌, ◌≤◌, ◌<◌, ◌≡◌, ap, sym, subst, ◌∙◌, true, false, ◌||◌, List, [], some, ◌==◌,
  ==_refl, get_or, foldl, ◌∷◌, arith, ◌⊎◌,
}
use meshtastic_lora_rs.Common.Bytes.{IsByte, IsU32}
use meshtastic_lora_rs.Common.Xor.{bit_xor-lt}
use meshtastic_lora_rs.Common.Result.{ok}
use meshtastic_lora_rs.Mac.Packet.{MeshFrame, IsOnAir, to_bytes, broadcast}
use meshtastic_lora_rs.Mac.Packet.RoundTrip.{from_bytes-to_bytes-IsOnAir}
use meshtastic_lora_rs.Mac.Crypto.{Cipher, IsStreamCipher, encrypt, decrypt}
use meshtastic_lora_rs.Mac.Crypto.Laws.{decrypt-encrypt}
use meshtastic_lora_rs.Mesh.Router.Decision.{seen, for_us}
use meshtastic_lora_rs.Mesh.Router.Relay.{Relays, with_hop_limit, Relays-hop_limit}
use meshtastic_lora_rs.Proto.{Proto, IsCodec}
use meshtastic_lora_rs.App.{
  MeshNode, ChannelConfig, node_id, channel_hash, build_frame, note_user, process_rx_frame,
}
use meshtastic_lora_rs.App.Receive.{relay, marked, message, expected_ours, process_parsed}

hash_sum-IsByte :
    (acc : ℕ) (bs : List ℕ) → IsByte acc → IsByte (foldl (λ a b. (a + b) % 256) acc bs)
hash_sum-IsByte acc [] h = h
hash_sum-IsByte acc (b ∷ bs) h = hash_sum-IsByte ((acc + b) % 256) bs (omega arith)

-- The channel hash fits its byte of the header.
pub channel_hash-IsByte : (c : ChannelConfig) → IsByte (get_or c.psk 31 0) → IsByte (channel_hash c)
unfolding channel_hash
channel_hash-IsByte c h = bit_xor-lt 8 _ _ (hash_sum-IsByte 0 c.name (omega arith)) h

addressed : (to id : ℕ) → (to ≡ id) ⊎ (to ≡ broadcast) → (to == id || to == broadcast) ≡ true
addressed to id h = ground arith

-- What a node needs for its frames to fit the header format.
pub record IsTypedNode (n : MeshNode) : Type 0 where
  pub id_u32 : IsU32 (node_id n)
  pub key_byte : IsByte (get_or n.channel.psk 31 0)

module _ (pr : Proto) (c : Cipher) where
  open pr use {Data}

  -- The frame that `build_frame` makes of a payload that fits.
  abbrev pub built : MeshNode → ℕ → ℕ → Data → MeshFrame
  built n drawn to d = record {
    header = record {
      to = to;
      from = node_id n;
      id = drawn;
      hop_limit = 3;
      want_ack = false;
      via_mqtt = false;
      hop_start = 3;
      channel_hash = channel_hash n.channel;
    };
    payload = encrypt c n.crypto drawn (node_id n) (pr.encode_data d);
  }

  pub build_frame_inv :
      (n : MeshNode) (drawn to : ℕ) (d : Data) (f : MeshFrame)
      → build_frame pr c n drawn to d ≡ some f
      → built n drawn to d ≡ f
  unfolding build_frame
  build_frame_inv n drawn to d f e = ground arith

  pub built-IsOnAir :
      (n : MeshNode) (drawn to : ℕ) (d : Data) (hops : ℕ)
      → IsTypedNode n
      → IsU32 drawn
      → IsU32 to
      → hops < 8
      → IsOnAir (with_hop_limit (built n drawn to d) hops).header
  built-IsOnAir n drawn to d hops t hd ht h = record {
    typed = record {
      to_u32 = ht;
      from_u32 = t.id_u32;
      id_u32 = hd;
      hop_limit_u8 = omega arith;
      hop_start_u8 = omega arith;
      channel_hash_u8 = channel_hash-IsByte n.channel t.key_byte;
    };
    hop_limit_3 = h;
    hop_start_3 = omega arith;
  }

  module _ (codec : IsCodec pr) (cipher : IsStreamCipher c) where
    decoded :
        (n m : MeshNode) (drawn to : ℕ) (d : Data)
        → m.crypto ≡ n.crypto
        → pr.decode_data (
            decrypt c m.crypto drawn
              (node_id n)
              (encrypt c n.crypto drawn (node_id n) (pr.encode_data d)))
          ≡ ok d
    decoded n m drawn to d k =
        rw (k, decrypt-encrypt c cipher n.crypto drawn (node_id n) (pr.encode_data d))
          (codec.decode-encode_data d)

    arrives :
        (n m : MeshNode) (drawn to : ℕ) (d : Data) (hops : ℕ)
        → IsTypedNode n
        → IsU32 drawn
        → IsU32 to
        → hops < 8
        → m.channel ≡ n.channel
        → m.crypto ≡ n.crypto
        → for_us (built n drawn to d) (node_id m) ≡ true
        → seen m.dedup (built n drawn to d) ≡ false
        → let g = with_hop_limit (built n drawn to d) hops in
          process_rx_frame pr c m (to_bytes g)
          ≡ (ok (some (message pr c m g d), relay m g), note_user pr c (marked m g) (node_id n) d)
    arrives n m drawn to d hops t hd ht h ch k ours first =
        let g = with_hop_limit (built n drawn to d) hops in
        let parse = from_bytes-to_bytes-IsOnAir g (built-IsOnAir n drawn to d hops t hd ht h) in
        let same : (channel_hash n.channel == channel_hash m.channel) ≡ true =
          rw ch (==_refl (channel_hash n.channel)) in
        process_parsed pr c m (to_bytes g) g parse
        ∙ expected_ours pr c m g d same first ours (decoded n m drawn to d k)

    -- A frame that a node builds and that any chain of relays hands on is delivered with its content
    -- by every node that has the same channel and key, is addressed, and has not seen the frame. The
    -- message carries the sender, the address and the hops that are left; the node marks the frame
    -- as seen, takes note of a node info, and relays the frame as the rules say.
    pub process-build_frame :
        (n m : MeshNode) (drawn to : ℕ) (d : Data) (f g : MeshFrame) (relays : ℕ)
        → IsTypedNode n
        → IsU32 drawn
        → IsU32 to
        → m.channel ≡ n.channel
        → m.crypto ≡ n.crypto
        → (to ≡ node_id m) ⊎ (to ≡ broadcast)
        → build_frame pr c n drawn to d ≡ some f
        → Relays f relays g
        → seen m.dedup g ≡ false
        → (relays ≤ 3)
          × (process_rx_frame pr c m (to_bytes g) ≡ (
            ok (
              some (record {
                from = node_id n;
                to = to;
                content = d;
                hop_limit = 3 - relays;
                self_origin = node_id n == node_id m;
              }),
              relay m g,
            ),
            note_user pr c (marked m g) (node_id n) d,
          ))
    process-build_frame n m drawn to d f g relays t hd ht ch k ours e r first =
        let origin = build_frame_inv n drawn to d f e in
        let (few, last) = Relays-hop_limit r in
        let three : 3 ≡ f.header.hop_limit = ap (λ (h : MeshFrame). h.header.hop_limit) origin in
        let exact : g ≡ with_hop_limit (built n drawn to d) (3 - relays) =
          last
          ∙ ap (λ (h : MeshFrame). with_hop_limit h (h.header.hop_limit - relays)) (sym origin) in
        let for_m = addressed to (node_id m) ours in
        (
          omega arith,
          subst
              (λ h.
                seen m.dedup h ≡ false
                → process_rx_frame pr c m (to_bytes h) ≡ (
                  ok (
                    some (record {
                      from = node_id n;
                      to = to;
                      content = d;
                      hop_limit = 3 - relays;
                      self_origin = node_id n == node_id m;
                    }),
                    relay m h,
                  ),
                  note_user pr c (marked m h) (node_id n) d,
                ))
              (sym exact) (arrives n m drawn to d (3 - relays) t hd ht (omega arith) ch k for_m)
              first,
        )
