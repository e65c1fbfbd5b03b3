-- ===== src/Mac/Packet.antt =====
-- mesh/src/mac/packet.rs: the over-the-air header and frame. A byte slice is a list of numbers
-- below 256, and a u32 is a number below 2 ^ 32.
pub mod Shape
pub mod RoundTrip
pub mod Canonical
use meshtastic_lora_rs.Common.{
  ℕ, ◌+◌, ◌*◌, ◌/◌, bit_and, bit_or, Bool, not, List, [], ◌∷◌, ◌++◌, Option, none, some, ltb, ◌==◌,
  if◌then◌else◌, length, get_or, take, drop, replicate, copy_at, ◌<◌,
}
use meshtastic_lora_rs.Common.Bytes.{to_le_bytes, from_le_bytes, IsU32, IsByte}

abbrev pub header_len : ℕ
header_len = 16

abbrev pub max_payload : ℕ
max_payload = 237

abbrev pub broadcast : ℕ
broadcast = 0xffff_ffff

pub record MeshHeader : Type 0 where
  pub to : ℕ
  pub from : ℕ
  pub id : ℕ
  pub hop_limit : ℕ
  pub want_ack : Bool
  pub via_mqtt : Bool
  pub hop_start : ℕ
  pub channel_hash : ℕ

-- The byte at offset 12. `<< 5` is `* 32`: the masked value stays below 2 ^ 8.
pub flags : MeshHeader → ℕ
flags h =
    bit_or
      (bit_or (bit_or (bit_and h.hop_limit 0x07) (if h.want_ack then 0x08 else 0))
        (if h.via_mqtt then 0x10 else 0))
      (bit_and h.hop_start 0x07 * 32)

unfoldable pub encode : MeshHeader → List ℕ
unfolding flags
encode h =
    let buf = replicate header_len 0 in
    let buf₁ = copy_at 0 (to_le_bytes h.to) buf in
    let buf₂ = copy_at 4 (to_le_bytes h.from) buf₁ in
    let buf₃ = copy_at 8 (to_le_bytes h.id) buf₂ in
    let buf₄ = copy_at 12 (flags h ∷ []) buf₃ in copy_at 13 (h.channel_hash ∷ []) buf₄

-- `buf[at .. at + 4]` as a word.
abbrev word_at : List ℕ → ℕ → ℕ
word_at buf at = from_le_bytes (take 4 (drop at buf))

pub read_header : List ℕ → MeshHeader
read_header buf =
    let flags = get_or buf 12 0 in
    record {
      to = word_at buf 0;
      from = word_at buf 4;
      id = word_at buf 8;
      hop_limit = bit_and flags 0x07;
      want_ack = not (bit_and flags 0x08 == 0);
      via_mqtt = not (bit_and flags 0x10 == 0);
      hop_start = bit_and (flags / 32) 0x07;
      channel_hash = get_or buf 13 0;
    }

-- The reads of a long enough buffer are in range, so their default is never taken.
unfoldable pub decode : List ℕ → Option MeshHeader
unfolding read_header
decode buf = if ltb (length buf) header_len then none else some (read_header buf)

pub record MeshFrame : Type 0 where
  pub header : MeshHeader
  pub payload : List ℕ

unfoldable pub to_bytes : MeshFrame → List ℕ
to_bytes f = encode f.header ++ f.payload

unfoldable pub from_bytes : List ℕ → Option MeshFrame
from_bytes raw = elim (decode raw) [
  | none ↦ none
  | some header ↦ some (record { header = header; payload = drop header_len raw })
]

-- What a value of the Rust type holds: u32 and u8 fields.
pub record IsTyped (h : MeshHeader) : Type 0 where
  pub to_u32 : IsU32 h.to
  pub from_u32 : IsU32 h.from
  pub id_u32 : IsU32 h.id
  pub hop_limit_u8 : IsByte h.hop_limit
  pub hop_start_u8 : IsByte h.hop_start
  pub channel_hash_u8 : IsByte h.channel_hash

-- What also fits the on-air header: three bits for each hop count.
pub record IsOnAir (h : MeshHeader) : Type 0 where
  pub typed : IsTyped h
  pub hop_limit_3 : h.hop_limit < 8
  pub hop_start_3 : h.hop_start < 8
