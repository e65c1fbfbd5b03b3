-- ===== src/Mac/Packet/Canonical.antt =====
-- Serialising a parsed frame: the input comes back, with its reserved bytes cleared.
use meshtastic_lora_rs.Common.{
  ℕ, ◌/◌, ◌≤◌, ◌≡◌, refl, subst, inl, inr, bit_and, true, List, [], ◌∷◌, ◌++◌, some, arith, length,
  All, ◌==◌, ==_iff, not, copy_at,
}
use meshtastic_lora_rs.Common.Bytes.{IsByte, to_le_bytes-from_le_bytes, from_le_bytes-IsU32}
use meshtastic_lora_rs.Common.Bits.{holds_below, holds_at, low_three}
use meshtastic_lora_rs.Mac.Packet.Shape.{parsed, from_bytes_cases}
use meshtastic_lora_rs.Mac.Packet.{
  MeshHeader, MeshFrame, IsOnAir, flags, read_header, encode, to_bytes, from_bytes, header_len,
}

abbrev header_of_flags : ℕ → MeshHeader
header_of_flags x = record {
  to = 0;
  from = 0;
  id = 0;
  hop_limit = bit_and x 0x07;
  want_ack = not (bit_and x 0x08 == 0);
  via_mqtt = not (bit_and x 0x10 == 0);
  hop_start = bit_and (x / 32) 0x07;
  channel_hash = 0;
}

flags_table : holds_below 256 (λ x. flags (header_of_flags x) == x) ≡ true
unfolding holds_below flags
flags_table = refl

flags-header_of_flags : (x : ℕ) → IsByte x → flags (header_of_flags x) ≡ x
flags-header_of_flags x h = (==_iff _ _).0 (holds_at 256 _ h flags_table)

-- Every header that is read from bytes fits the header format.
pub read_header-IsOnAir :
    (raw : List ℕ) → All IsByte raw → header_len ≤ length raw → IsOnAir (read_header raw)
unfolding read_header
read_header-IsOnAir
      (t0 ∷ t1 ∷ t2 ∷ t3 ∷ f0 ∷ f1 ∷ f2 ∷ f3 ∷ i0 ∷ i1 ∷ i2 ∷ i3 ∷ fl ∷ ch ∷ r0 ∷ r1 ∷ rest)
      (
        ht0,
        (
          ht1,
          (
            ht2,
            (
              ht3,
              (
                hf0,
                (hf1, (hf2, (hf3, (hi0, (hi1, (hi2, (hi3, (hfl, (hch, (hr0, (hr1, hrest))))))))))),
              ),
            ),
          ),
        ),
      )
      l =
    let low = low_three fl hfl in
    let start = low_three (fl / 32) (omega arith) in
    record {
      typed = record {
        to_u32 = from_le_bytes-IsU32 t0 t1 t2 t3 ht0 ht1 ht2 ht3;
        from_u32 = from_le_bytes-IsU32 f0 f1 f2 f3 hf0 hf1 hf2 hf3;
        id_u32 = from_le_bytes-IsU32 i0 i1 i2 i3 hi0 hi1 hi2 hi3;
        hop_limit_u8 = omega arith;
        hop_start_u8 = omega arith;
        channel_hash_u8 = hch;
      };
      hop_limit_3 = omega arith;
      hop_start_3 = omega arith;
    }
read_header-IsOnAir raw h l = absurd (omega arith)

to_bytes-parsed :
    (raw : List ℕ)
    → All IsByte raw
    → header_len ≤ length raw
    → to_bytes (parsed raw) ≡ copy_at 14 (0 ∷ 0 ∷ []) raw
unfolding to_bytes encode read_header flags
to_bytes-parsed
      (t0 ∷ t1 ∷ t2 ∷ t3 ∷ f0 ∷ f1 ∷ f2 ∷ f3 ∷ i0 ∷ i1 ∷ i2 ∷ i3 ∷ fl ∷ ch ∷ r0 ∷ r1 ∷ rest)
      (
        ht0,
        (
          ht1,
          (
            ht2,
            (
              ht3,
              (
                hf0,
                (hf1, (hf2, (hf3, (hi0, (hi1, (hi2, (hi3, (hfl, (hch, (hr0, (hr1, hrest))))))))))),
              ),
            ),
          ),
        ),
      )
      l =
    let to = to_le_bytes-from_le_bytes t0 t1 t2 t3 ht0 ht1 ht2 ht3 in
    let from = to_le_bytes-from_le_bytes f0 f1 f2 f3 hf0 hf1 hf2 hf3 in
    let id = to_le_bytes-from_le_bytes i0 i1 i2 i3 hi0 hi1 hi2 hi3 in
    let flag = flags-header_of_flags fl hfl in
    λ i. to i ++ (from i ++ (id i ++ (flag i ∷ ch ∷ 0 ∷ 0 ∷ rest)))
to_bytes-parsed raw h l = absurd (omega arith)

-- Bytes that parse are given back by serialising, except that the two reserved bytes at offset 14
-- become zero; the parsed header fits the header format.
pub to_bytes-from_bytes :
    (raw : List ℕ) (f : MeshFrame)
    → All IsByte raw
    → from_bytes raw ≡ some f
    → (to_bytes f ≡ copy_at 14 (0 ∷ 0 ∷ []) raw) × IsOnAir f.header
to_bytes-from_bytes raw f bytes e = elim (from_bytes_cases raw) [
  | inl (short, none_) ↦ cc
  | inr (long, some_) ↦
      let same : parsed raw ≡ f = cc in
      subst (λ (g : MeshFrame). (to_bytes g ≡ copy_at 14 (0 ∷ 0 ∷ []) raw) × IsOnAir g.header) same
        (to_bytes-parsed raw bytes long, read_header-IsOnAir raw bytes long)
]
