-- ===== src/Common/Hex/RoundTrip.antt =====
-- What `{:08x}` prints of a u32 is read back.
use Prim.Native.Nat.{ℕ, zero, suc, ◌+◌, ◌*◌, ◌/◌, ◌%◌, ◌^◌, ◌≤◌, ◌<◌}
use mathlib.Core.Path.{◌≡◌, refl, sym, ap, ◌∙◌}
use mathlib.Core.List.{List, [], ◌∷◌, ◌++◌, append_assoc, append-nil}
use mathlib.Core.Option.{some}
use native.Mathlib.Omega.{arith}
use meshtastic_lora_rs.Common.Tests.{◌==◌, if_false, le→leb}
use meshtastic_lora_rs.Common.Lists.{All, All-append}
use meshtastic_lora_rs.Common.Hex.{
  hex_digit, hex_digits, hex8, hex_value, u32_max, read_hex, u32_from_hex,
}

-- No mark of punctuation below the digits, and no letter beyond f.
abbrev pub IsHex : ℕ → Type 0
IsHex b = (b'0' ≤ b) × (b ≤ b'f')

hex_digit-IsHex : (d : ℕ) → d < 16 → IsHex (hex_digit d)
unfolding hex_digit
hex_digit-IsHex d h = (ground arith, ground arith)

hex_value-hex_digit : (d : ℕ) → d < 16 → hex_value (hex_digit d) ≡ some d
unfolding hex_digit hex_value
hex_value-hex_digit d h = ground arith

pub hex_digits-IsHex : (n x : ℕ) → All IsHex (hex_digits n x)
unfolding hex_digits
hex_digits-IsHex zero x = tt
hex_digits-IsHex (suc n) x =
    All-append IsHex (hex_digits n (x / 16)) (hex_digit (x % 16) ∷ []) (hex_digits-IsHex n (x / 16))
      (hex_digit-IsHex (x % 16) (omega arith), tt)

read_digit :
    (acc d : ℕ) (bs : List ℕ)
    → d < 16
    → acc * 16 + d ≤ u32_max
    → read_hex acc (hex_digit d ∷ bs) ≡ read_hex (acc * 16 + d) bs
unfolding read_hex
read_digit acc d bs h fits =
    rw (hex_value-hex_digit d h, read_hex, le→leb (acc * 16 + d) u32_max fits) refl

read_hex-hex_digits :
    (n x : ℕ) (bs : List ℕ)
    → x < 16 ^ n
    → x ≤ u32_max
    → read_hex 0 (hex_digits n x ++ bs) ≡ read_hex x bs
unfolding hex_digits
read_hex-hex_digits zero x bs h fits = ap (λ y. read_hex y bs) (omega arith)
read_hex-hex_digits (suc n) x bs h fits =
    ap (read_hex 0) (append_assoc (hex_digits n (x / 16)) (hex_digit (x % 16) ∷ []) bs)
    ∙ read_hex-hex_digits n (x / 16) (hex_digit (x % 16) ∷ bs) (omega arith) (omega arith)
    ∙ read_digit (x / 16) (x % 16) bs (omega arith) (omega arith)
    ∙ ap (λ y. read_hex y bs) (omega arith)

-- Digits alone carry no sign.
unsigned : (b d : ℕ) (bs : List ℕ) → IsHex b → u32_from_hex (b ∷ d ∷ bs) ≡ read_hex 0 (b ∷ d ∷ bs)
unfolding u32_from_hex
unsigned b d bs (low, high) = if_false {b = b == b'+'} _ (ground arith)

pub u32_from_hex-hex8 : (x : ℕ) → x ≤ u32_max → u32_from_hex (hex8 x) ≡ some x
unfolding hex8 hex_digits read_hex
u32_from_hex-hex8 x fits =
    unsigned _ _ _ (hex_digits-IsHex 8 x).0
    ∙ ap (read_hex 0) (sym (append-nil (hex_digits 8 x)))
    ∙ read_hex-hex_digits 8 x [] (omega arith) fits
