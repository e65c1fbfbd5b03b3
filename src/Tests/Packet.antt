-- ===== src/Tests/Packet.antt =====
-- Runs and examples for the frame format and the cipher wrapper.
use meshtastic_lora_rs.Common.{ℕ, ◌≡◌, refl, true, false, List, [], ◌∷◌, none, some, arith, copy_at}
use meshtastic_lora_rs.Mac.Packet.{
  MeshFrame, IsTyped, IsOnAir, encode, decode, to_bytes, from_bytes, broadcast,
}
use meshtastic_lora_rs.Mac.Packet.RoundTrip.{on_air, from_bytes-to_bytes}
use meshtastic_lora_rs.Mac.Packet.Canonical.{to_bytes-from_bytes}
use meshtastic_lora_rs.Mac.Crypto.{MeshCrypto, public_psk}

-- Hop limit 11 does not fit three bits.
abbrev wide : MeshFrame
wide = record {
  header = record {
    to = broadcast;
    from = 0x0102_0304;
    id = 7;
    hop_limit = 11;
    want_ack = true;
    via_mqtt = false;
    hop_start = 3;
    channel_hash = 0x2a;
  };
  payload = 9 ∷ 8 ∷ [];
}

wide_bytes :
    to_bytes wide
    ≡ 0xff ∷ 0xff ∷ 0xff ∷ 0xff ∷ 4 ∷ 3 ∷ 2 ∷ 1 ∷ 7 ∷ 0 ∷ 0 ∷ 0 ∷ 0x6b ∷ 0x2a ∷ 0 ∷ 0 ∷ 9 ∷ 8 ∷ []
unfolding to_bytes encode
wide_bytes = refl

too_short : decode (1 ∷ 2 ∷ 3 ∷ []) ≡ none
unfolding decode
too_short = refl

wide-IsTyped : IsTyped wide.header
wide-IsTyped = record {
  to_u32 = omega arith;
  from_u32 = omega arith;
  id_u32 = omega arith;
  hop_limit_u8 = omega arith;
  hop_start_u8 = omega arith;
  channel_hash_u8 = omega arith;
}

from_bytes-to_bytes_example :
    from_bytes (to_bytes wide) ≡ some (record wide { header = on_air (wide.header) })
from_bytes-to_bytes_example = from_bytes-to_bytes wide wide-IsTyped

-- A frame with its reserved bytes set.
abbrev dirty : List ℕ
dirty = 1 ∷ 0 ∷ 0 ∷ 0 ∷ 2 ∷ 0 ∷ 0 ∷ 0 ∷ 3 ∷ 0 ∷ 0 ∷ 0 ∷ 0x7b ∷ 5 ∷ 0xaa ∷ 0xbb ∷ 6 ∷ []

abbrev dirty_frame : MeshFrame
dirty_frame = record {
  header = record {
    to = 1;
    from = 2;
    id = 3;
    hop_limit = 3;
    want_ack = true;
    via_mqtt = true;
    hop_start = 3;
    channel_hash = 5;
  };
  payload = 6 ∷ [];
}

dirty_parses : from_bytes dirty ≡ some dirty_frame
unfolding from_bytes decode
dirty_parses = refl

to_bytes-from_bytes_example :
    (to_bytes dirty_frame ≡ copy_at 14 (0 ∷ 0 ∷ []) dirty) × IsOnAir dirty_frame.header
to_bytes-from_bytes_example = to_bytes-from_bytes dirty dirty_frame (omega arith) dirty_parses

abbrev public_crypto : MeshCrypto
public_crypto = record { psk = public_psk }
