-- ===== src/Mac/Packet/Shape.antt =====
-- The lengths of headers and frames, and which inputs parse.
use meshtastic_lora_rs.Common.{
  ℕ, ◌+◌, ◌<◌, ◌≤◌, ◌≡◌, refl, ap, ◌∙◌, ◌↔◌, ◌⊎◌, List, none, some, arith, length, length-append,
  drop,
}
use meshtastic_lora_rs.Mac.Packet.{
  MeshFrame, MeshHeader, read_header, encode, decode, to_bytes, from_bytes, header_len,
}

pub decode_long : (buf : List ℕ) → header_len ≤ length buf → decode buf ≡ some (read_header buf)
unfolding decode
decode_long buf h = ground arith

pub length-encode : (h : MeshHeader) → length (encode h) ≡ header_len
unfolding encode
length-encode h = refl

-- The frame that parsing a long enough input gives.
abbrev pub parsed : List ℕ → MeshFrame
parsed raw = record { header = read_header raw; payload = drop header_len raw }

pub from_bytes_cases :
    (raw : List ℕ)
    → ((length raw < header_len) × (from_bytes raw ≡ none))
      ⊎ ((header_len ≤ length raw) × (from_bytes raw ≡ some (parsed raw)))
unfolding from_bytes decode
from_bytes_cases raw = ground arith

-- Parsing fails on exactly the inputs shorter than a header.
pub from_bytes-none : (raw : List ℕ) → (from_bytes raw ≡ none) ↔ (length raw < header_len)
unfolding from_bytes decode
from_bytes-none raw = ground arith

pub length-to_bytes : (f : MeshFrame) → length (to_bytes f) ≡ header_len + length f.payload
unfolding to_bytes
length-to_bytes f =
    length-append (encode f.header) f.payload
    ∙ ap (λ n. n + length f.payload) (length-encode f.header)
