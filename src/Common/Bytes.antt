-- ===== src/Common/Bytes.antt =====
-- Bytes, 32-bit words and their little-endian form: `u32::to_le_bytes` and `u32::from_le_bytes`.
use Prim.Native.Nat.{ℕ, ◌+◌, ◌*◌, ◌/◌, ◌%◌, ◌^◌, ◌<◌}
use mathlib.Core.Path.{◌≡◌, ap}
use mathlib.Core.List.{List, [], ◌∷◌}
use native.Mathlib.Omega.{arith}
use meshtastic_lora_rs.Common.Lists.{All}

abbrev pub IsByte : ℕ → Type 0
IsByte b = b < 256

abbrev pub IsU32 : ℕ → Type 0
IsU32 x = x < 2 ^ 32

abbrev pub to_le_bytes : ℕ → List ℕ
to_le_bytes x = (x % 256) ∷ (x / 256 % 256) ∷ (x / 65536 % 256) ∷ (x / 16777216 % 256) ∷ []

abbrev pub from_le_bytes : List ℕ → ℕ
from_le_bytes [] = 0
from_le_bytes (b ∷ bs) = b + 256 * from_le_bytes bs

pub from_le_bytes-to_le_bytes : (x : ℕ) → IsU32 x → from_le_bytes (to_le_bytes x) ≡ x
from_le_bytes-to_le_bytes x h = omega arith

pub to_le_bytes-injective : (x y : ℕ) → IsU32 x → IsU32 y → to_le_bytes x ≡ to_le_bytes y → x ≡ y
to_le_bytes-injective x y hx hy e =
    let same : from_le_bytes (to_le_bytes x) ≡ from_le_bytes (to_le_bytes y) = ap from_le_bytes e in
    omega arith

pub to_le_bytes-IsByte : (x : ℕ) → All IsByte (to_le_bytes x)
to_le_bytes-IsByte x = omega arith

pub from_le_bytes-IsU32 :
    (a b c d : ℕ)
    → IsByte a
    → IsByte b
    → IsByte c
    → IsByte d
    → IsU32 (from_le_bytes (a ∷ b ∷ c ∷ d ∷ []))
from_le_bytes-IsU32 a b c d ha hb hc hd = omega arith

pub to_le_bytes-from_le_bytes :
    (a b c d : ℕ)
    → IsByte a
    → IsByte b
    → IsByte c
    → IsByte d
    → to_le_bytes (from_le_bytes (a ∷ b ∷ c ∷ d ∷ [])) ≡ a ∷ b ∷ c ∷ d ∷ []
to_le_bytes-from_le_bytes a b c d ha hb hc hd = ground arith
