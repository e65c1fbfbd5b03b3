-- ===== src/App/Transmit.antt =====
-- What the transmit helpers build.
use meshtastic_lora_rs.Common.{ℕ, ◌≤◌, ◌<◌, ◌≡◌, refl, subst, none, some, length, arith, ◌↔◌}
use meshtastic_lora_rs.Common.Bytes.{IsU32}
use meshtastic_lora_rs.Mac.Packet.{MeshFrame, IsOnAir, to_bytes, max_payload}
use meshtastic_lora_rs.Mac.Packet.Shape.{length-to_bytes}
use meshtastic_lora_rs.Mac.Crypto.{Cipher, IsStreamCipher}
use meshtastic_lora_rs.Mac.Crypto.Laws.{length-encrypt}
use meshtastic_lora_rs.Proto.{Proto}
use meshtastic_lora_rs.App.{MeshNode, node_id, channel_hash, build_frame}
use meshtastic_lora_rs.App.Delivery.{built, build_frame_inv, IsTypedNode, built-IsOnAir}

module _ (pr : Proto) (c : Cipher) where
  open pr use {Data}

  -- A frame is built exactly if the encoded payload has at most 237 bytes.
  pub build_frame-none :
      (n : MeshNode) (drawn to : ℕ) (d : Data)
      → (build_frame pr c n drawn to d ≡ none) ↔ (max_payload < length (pr.encode_data d))
  unfolding build_frame
  build_frame-none n drawn to d = ground arith

  fits :
      (n : MeshNode) (drawn to : ℕ) (d : Data) (f : MeshFrame)
      → build_frame pr c n drawn to d ≡ some f
      → length (pr.encode_data d) ≤ max_payload
  unfolding build_frame
  fits n drawn to d f e = ground arith

  -- A frame that is built has at most 253 bytes on the air, fits the header format, starts with three
  -- of three hops, and carries the node as its sender and the channel's hash.
  pub build_frame-some :
      (n : MeshNode) (drawn to : ℕ) (d : Data) (f : MeshFrame)
      → IsStreamCipher c
      → IsTypedNode n
      → IsU32 drawn
      → IsU32 to
      → build_frame pr c n drawn to d ≡ some f
      → (length (to_bytes f) ≤ 253)
        × IsOnAir f.header
        × (f.header.hop_limit ≡ 3)
        × (f.header.hop_start ≡ 3)
        × (f.header.from ≡ node_id n)
        × (f.header.channel_hash ≡ channel_hash n.channel)
  build_frame-some n drawn to d f cipher t hd ht e =
      let origin = build_frame_inv pr c n drawn to d f e in
      let sealed = length-encrypt c cipher n.crypto drawn (node_id n) (pr.encode_data d) in
      let bound : length (to_bytes (built pr c n drawn to d)) ≤ 253 =
        omega (arith, length-to_bytes (built pr c n drawn to d), sealed, fits n drawn to d f e) in
      subst Frame origin
        (bound, built-IsOnAir pr c n drawn to d 3 t hd ht (omega arith), refl, refl, refl, refl)
    where
      Frame : MeshFrame → Type 0
      Frame g =
          (length (to_bytes g) ≤ 253)
          × IsOnAir g.header
          × (g.header.hop_limit ≡ 3)
          × (g.header.hop_start ≡ 3)
          × (g.header.from ≡ node_id n)
          × (g.header.channel_hash ≡ channel_hash n.channel)
