-- ===== src/App/Bytes.antt =====
-- Whatever a node puts on the air is a string of bytes.
use meshtastic_lora_rs.Common.{
  ℕ, ◌≤◌, ◌≡◌, sym, ap, subst, ◌∙◌, List, some, All, All-append, All-drop, arith, inl, inr, length,
}
use meshtastic_lora_rs.Common.Bytes.{IsByte, IsU32, to_le_bytes-IsByte}
use meshtastic_lora_rs.Mac.Packet.{
  MeshHeader, MeshFrame, IsTyped, flags, encode, to_bytes, header_len,
}
use meshtastic_lora_rs.Mac.Packet.Shape.{parsed, from_bytes_cases}
use meshtastic_lora_rs.Mac.Packet.RoundTrip.{flags_sum, bit-lt}
use meshtastic_lora_rs.Mac.Packet.Canonical.{read_header-IsOnAir}
use meshtastic_lora_rs.Mac.Crypto.{Cipher, IsStreamCipher}
use meshtastic_lora_rs.Mac.Crypto.Laws.{encrypt-IsByte}
use meshtastic_lora_rs.Mesh.Router.Decision.{one_hop_less}
use meshtastic_lora_rs.Proto.{Proto}
use meshtastic_lora_rs.App.{MeshNode, node_id, build_frame, process_rx_frame}
use meshtastic_lora_rs.App.Delivery.{built, build_frame_inv, IsTypedNode, built-IsOnAir}
use meshtastic_lora_rs.App.Safety.{sends, process-MayRelay}

flags-IsByte : (h : MeshHeader) → IsTyped h → IsByte (flags h)
flags-IsByte h t =
    subst IsByte (sym (flags_sum h t)) (omega (arith, bit-lt h.want_ack, bit-lt h.via_mqtt))

encode-IsByte : (h : MeshHeader) → IsTyped h → All IsByte (encode h)
unfolding encode
encode-IsByte h t =
    let (a, (b, (c, (d, _)))) = to_le_bytes-IsByte h.to in
    let (e, (f, (g, (i, _)))) = to_le_bytes-IsByte h.from in
    let (j, (k, (l, (m, _)))) = to_le_bytes-IsByte h.id in
    (
      a,
      (
        b,
        (
          c,
          (
            d,
            (
              e,
              (
                f,
                (
                  g,
                  (
                    i,
                    (
                      j,
                      (
                        k,
                        (
                          l,
                          (
                            m,
                            (
                              flags-IsByte h t,
                              (t.channel_hash_u8, (omega arith, (omega arith, tt))),
                            ),
                          ),
                        ),
                      ),
                    ),
                  ),
                ),
              ),
            ),
          ),
        ),
      ),
    )

to_bytes-IsByte :
    (f : MeshFrame) → IsTyped f.header → All IsByte f.payload → All IsByte (to_bytes f)
unfolding to_bytes
to_bytes-IsByte f t p = All-append IsByte (encode f.header) f.payload (encode-IsByte f.header t) p

module _ (pr : Proto) (c : Cipher) where
  open pr use {Data}

  -- If the node's id, the drawn id and the destination are u32 values, the key is of bytes and the
  -- message's encoding is of bytes, then every byte of a frame that is built is one: no field of the
  -- header is cut off on the air.
  build_frame-IsByte :
      (n : MeshNode) (drawn to : ℕ) (d : Data) (f : MeshFrame)
      → IsStreamCipher c
      → IsTypedNode n
      → IsU32 drawn
      → IsU32 to
      → All IsByte (pr.encode_data d)
      → build_frame pr c n drawn to d ≡ some f
      → All IsByte (to_bytes f)
  build_frame-IsByte n drawn to d f cipher t hd ht encoded e =
      subst (λ g. All IsByte (to_bytes g)) (build_frame_inv pr c n drawn to d f e)
        (to_bytes-IsByte (built pr c n drawn to d)
          (built-IsOnAir pr c n drawn to d 3 t hd ht (omega arith)).typed
          (encrypt-IsByte c cipher n.crypto drawn (node_id n) (pr.encode_data d) encoded))

  parsed-IsByte :
      (raw : List ℕ)
      → All IsByte raw
      → header_len ≤ length raw
      → All IsByte (to_bytes (one_hop_less (parsed raw)))
  parsed-IsByte raw bytes long =
      let typed = (read_header-IsOnAir raw bytes long).typed in
      to_bytes-IsByte (one_hop_less (parsed raw))
        (record {
          to_u32 = typed.to_u32;
          from_u32 = typed.from_u32;
          id_u32 = typed.id_u32;
          hop_limit_u8 = omega (arith, typed.hop_limit_u8);
          hop_start_u8 = typed.hop_start_u8;
          channel_hash_u8 = typed.channel_hash_u8;
        })
        (All-drop IsByte header_len raw bytes)

  -- A node that receives bytes forwards bytes, whatever they are.
  process-IsByte :
      (n : MeshNode) (raw : List ℕ) (g : MeshFrame)
      → All IsByte raw
      → sends pr c (process_rx_frame pr c n raw).0 ≡ some g
      → All IsByte (to_bytes g)
  process-IsByte n raw g bytes e =
      let (f, parse, may) = process-MayRelay pr c n raw g e in
      elim (from_bytes_cases raw) [
        | inl (_, short) ↦ cc
        | inr (long, whole) ↦
            let same : parsed raw ≡ f = cc in
            subst (λ g'. All IsByte (to_bytes g')) (ap one_hop_less same ∙ sym may.lowered)
              (parsed-IsByte raw bytes long)
      ]
