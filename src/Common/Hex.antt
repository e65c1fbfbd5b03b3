-- ===== src/Common/Hex.antt =====
-- `format!("{:08x}", x)` of a u32: eight lower-case hexadecimal digits, and
-- `u32::from_str_radix(s, 16)`.
pub mod RoundTrip
use Prim.Native.Nat.{ℕ, zero, suc, ◌+◌, ◌-◌, ◌*◌, ◌/◌, ◌%◌, ◌^◌, ◌≤◌, ◌<◌}
use mathlib.Core.Path.{◌≡◌, refl, ap, ◌∙◌}
use mathlib.Core.Bool.{Bool, true, false, ◌&&◌}
use mathlib.Core.List.{List, [], ◌∷◌, ◌++◌}
use mathlib.Core.Option.{Option, none, some}
use native.Mathlib.Omega.{arith}
use meshtastic_lora_rs.Common.Tests.{ltb, leb, ◌==◌, if◌then◌else◌}

pub hex_digit : ℕ → ℕ
hex_digit d = if ltb d 10 then b'0' + d else b'a' + (d - 10)

-- The lowest `n` digits, highest first.
pub hex_digits : ℕ → ℕ → List ℕ
unfolding hex_digit
hex_digits zero x = []
hex_digits (suc n) x = hex_digits n (x / 16) ++ (hex_digit (x % 16) ∷ [])

unfoldable pub hex8 : ℕ → List ℕ
unfolding hex_digits
hex8 x = hex_digits 8 x

-- `char::to_digit(16)`.
unfoldable pub hex_value : ℕ → Option ℕ
hex_value b =
    if leb b'0' b && leb b b'9'
    then some (b - b'0')
    else if leb b'a' b && leb b b'f'
    then some (b - b'a' + 10)
    else if leb b'A' b && leb b b'F'
    then some (b - b'A' + 10)
    else none

abbrev pub u32_max : ℕ
u32_max = 4_294_967_295

-- The digits that follow a value, unless one is none or the value outgrows a u32.
unfoldable pub read_hex : ℕ → List ℕ → Option ℕ
unfolding hex_value
read_hex acc [] = some acc
read_hex acc (b ∷ bs) = elim (hex_value b) [
  | none ↦ none
  | some d ↦ if leb (acc * 16 + d) u32_max then read_hex (acc * 16 + d) bs else none
]

-- A sign is skipped if digits follow it.
unfoldable pub u32_from_hex : List ℕ → Option ℕ
unfolding read_hex
u32_from_hex [] = none
u32_from_hex (b ∷ []) = read_hex 0 (b ∷ [])
u32_from_hex (b ∷ d ∷ bs) =
    let rest = read_hex 0 (d ∷ bs) in if b == b'+' then rest else read_hex 0 (b ∷ d ∷ bs)
