-- ===== src/Mac/Packet/RoundTrip.antt =====
-- Encoding and decoding of headers and frames undo one another, up to what the format drops.
use meshtastic_lora_rs.Common.{
  ℕ, ◌+◌, ◌*◌, ◌/◌, ◌%◌, ◌<◌, ◌≡◌, refl, ap, ◌∙◌, bit_and, Bool, true, false, List, ◌++◌, Option,
  some, arith, if◌then◌else◌, length-append, ◌==◌, not,
}
use meshtastic_lora_rs.Common.Bytes.{from_le_bytes-to_le_bytes}
use meshtastic_lora_rs.Common.Bits.{low_three, bit_three, bit_four, bit_or_fields}
use meshtastic_lora_rs.Mac.Packet.Shape.{decode_long, length-encode}
use meshtastic_lora_rs.Mac.Packet.{
  MeshHeader, MeshFrame, IsTyped, IsOnAir, flags, read_header, encode, decode, to_bytes, from_bytes,
}

-- The number that a Boolean flag is worth.
abbrev bit : Bool → ℕ
bit b = if b then 1 else 0

scaled_bit : (b : Bool) (k : ℕ) → (if b then k else 0) ≡ bit b * k
scaled_bit true k = omega arith
scaled_bit false k = omega arith

pub bit-lt : (b : Bool) → bit b < 2
bit-lt true = omega arith
bit-lt false = omega arith

-- The flag byte as a sum.
pub flags_sum :
    (h : MeshHeader)
    → IsTyped h
    → flags h ≡ h.hop_limit % 8 + bit h.want_ack * 8 + bit h.via_mqtt * 16 + h.hop_start % 8 * 32
unfolding flags
flags_sum h t =
    rw
      (
        low_three h.hop_limit t.hop_limit_u8,
        low_three h.hop_start t.hop_start_u8,
        scaled_bit h.want_ack 8,
        scaled_bit h.via_mqtt 16,
      )
      (bit_or_fields (h.hop_limit % 8) (bit h.want_ack) (bit h.via_mqtt) (h.hop_start % 8)
        (omega arith) (bit-lt h.want_ack) (bit-lt h.via_mqtt) (omega arith))

test_eight : (b : Bool) → not (bit b * 8 == 0) ≡ b
test_eight true = refl
test_eight false = refl

test_sixteen : (b : Bool) → not (bit b * 16 == 0) ≡ b
test_sixteen true = refl
test_sixteen false = refl

-- The flag byte gives its four fields back.
flags_fields :
    (h : MeshHeader)
    → IsTyped h
    → (bit_and (flags h) 0x07 ≡ h.hop_limit % 8)
      × (not (bit_and (flags h) 0x08 == 0) ≡ h.want_ack)
      × (not (bit_and (flags h) 0x10 == 0) ≡ h.via_mqtt)
      × (bit_and (flags h / 32) 0x07 ≡ h.hop_start % 8)
flags_fields h t =
    let sum = flags_sum h t in
    let ack = bit-lt h.want_ack in
    let mqtt = bit-lt h.via_mqtt in
    let byte : flags h < 256 = omega arith in
    let ack_digit : flags h / 8 % 2 ≡ bit h.want_ack = omega arith in
    let mqtt_digit : flags h / 16 % 2 ≡ bit h.via_mqtt = omega arith in
    (
      rw (low_three (flags h) byte) (omega arith),
      rw (bit_three (flags h) byte, ack_digit) (test_eight h.want_ack),
      rw (bit_four (flags h) byte, mqtt_digit) (test_sixteen h.via_mqtt),
      rw (low_three (flags h / 32) (omega arith)) (omega arith),
    )

-- What the air keeps of a header: three bits of each hop count.
abbrev pub on_air : MeshHeader → MeshHeader
on_air h = record h { hop_limit = h.hop_limit % 8; hop_start = h.hop_start % 8 }

read_header-encode :
    (h : MeshHeader) (rest : List ℕ) → IsTyped h → read_header (encode h ++ rest) ≡ on_air h
unfolding read_header encode
read_header-encode h rest t =
    let (limit, ack, mqtt, start) = flags_fields h t in
    rw (
      limit,
      ack,
      mqtt,
      start,
      from_le_bytes-to_le_bytes h.to t.to_u32,
      from_le_bytes-to_le_bytes h.from t.from_u32,
      from_le_bytes-to_le_bytes h.id t.id_u32,
    )

decode-encode-append :
    (h : MeshHeader) (rest : List ℕ) → IsTyped h → decode (encode h ++ rest) ≡ some (on_air h)
decode-encode-append h rest t =
    rw
      (decode_long (encode h ++ rest)
        (omega (arith, length-append (encode h) rest, length-encode h)))
      (ap some (read_header-encode h rest t))

-- A frame that is serialised is parsed back: the payload and every header field, the two hop counts
-- reduced to the three bits that the flag byte has for them.
pub from_bytes-to_bytes :
    (f : MeshFrame)
    → IsTyped f.header
    → from_bytes (to_bytes f) ≡ some (record f { header = on_air f.header })
unfolding from_bytes to_bytes encode
from_bytes-to_bytes f t = rw (decode-encode-append f.header f.payload t, from_bytes)

-- A frame whose hop counts fit three bits comes back unchanged.
pub from_bytes-to_bytes-IsOnAir :
    (f : MeshFrame) → IsOnAir f.header → from_bytes (to_bytes f) ≡ some f
from_bytes-to_bytes-IsOnAir f t =
    let limit : f.header.hop_limit % 8 ≡ f.header.hop_limit = omega (arith, t.hop_limit_3) in
    let start : f.header.hop_start % 8 ≡ f.header.hop_start = omega (arith, t.hop_start_3) in
    from_bytes-to_bytes f t.typed
    ∙ ap {B = Option MeshFrame}
        (λ (p : ℕ × ℕ).
          some (record f { header = record (f.header) { hop_limit = p.0; hop_start = p.1 } }))
        (λ i. (limit i, start i))
