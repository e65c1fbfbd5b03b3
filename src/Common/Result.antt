-- ===== src/Common/Result.antt =====
-- `Result<A, E>`, strings as their UTF-8 bytes, and the test behind `std::str::from_utf8`.
use Prim.Native.Nat.{ℕ, ◌-◌}
use Prim.Native.Char.{code}
use Prim.Native.String.{String}
use mathlib.Core.Bool.{Bool, false, ◌&&◌}
use mathlib.Core.List.{List, [], ◌∷◌}
use mathlib.Core.Path.{◌≡◌, refl}
use mathlib.Core.Logic.{◌⊎◌, inl, inr}
use mathlib.Core.Option.{Option, none, some}
use meshtastic_lora_rs.Common.Tests.{ltb, leb, ◌==◌, if◌then◌else◌}

pub data Result {ℓ κ} (E : Type ℓ) (A : Type κ) : Type (ℓ ⊔ κ) where
  ok : A → Result E A
  err : E → Result E A

pub Result-cases {ℓ κ} :
    {E : Type ℓ} {A : Type κ} (r : Result E A) → ((a : A) × (r ≡ ok a)) ⊎ ((e : E) × (r ≡ err e))
Result-cases (ok a) = inl (a, refl)
Result-cases (err e) = inr (e, refl)

-- A Rust string is its list of UTF-8 bytes.
abbrev pub Str : Type 0
Str = List ℕ

-- The bytes of an ASCII literal.
abbrev pub codes : String → Str
codes String.[] = []
codes (String.◌∷◌ c s) = code c ∷ codes s

-- How many continuation bytes are due, and the range of the next one.
pub record Utf8State : Type 0 where
  pub due : ℕ
  pub low : ℕ
  pub high : ℕ

abbrev lead : ℕ → ℕ → ℕ → Option Utf8State
lead due low high = some (record { due = due; low = low; high = high })

pub utf8_start : ℕ → Option Utf8State
utf8_start b =
    if ltb b 0x80
    then lead 0 0 0
    else if leb 0xc2 b && leb b 0xdf
    then lead 1 0x80 0xbf
    else if b == 0xe0
    then lead 2 0xa0 0xbf
    else if b == 0xed
    then lead 2 0x80 0x9f
    else if leb 0xe1 b && leb b 0xef
    then lead 2 0x80 0xbf
    else if b == 0xf0
    then lead 3 0x90 0xbf
    else if leb 0xf1 b && leb b 0xf3
    then lead 3 0x80 0xbf
    else if b == 0xf4
    then lead 3 0x80 0x8f
    else none

pub utf8_next : Utf8State → ℕ → Option Utf8State
unfolding utf8_start
utf8_next s b =
    if s.due == 0
    then utf8_start b
    else if leb s.low b && leb b s.high
    then lead (s.due - 1) 0x80 0xbf
    else none

pub utf8_run : Option Utf8State → List ℕ → Bool
unfolding utf8_next
utf8_run none bs = false
utf8_run (some s) [] = s.due == 0
utf8_run (some s) (b ∷ bs) = utf8_run (utf8_next s b) bs

unfoldable pub is_utf8 : List ℕ → Bool
unfolding utf8_run
is_utf8 bs = utf8_run (lead 0 0 0) bs
