-- ===== src/Common/Text.antt =====
-- Strings as the code compares and prints them: `str::eq_ignore_ascii_case` and `{}` of an integer.
pub mod Marks
use Prim.Native.Nat.{ℕ, zero, suc, ◌+◌, ◌-◌, ◌/◌, ◌%◌}
use mathlib.Core.Bool.{Bool, true, false, ◌&&◌}
use mathlib.Core.List.{[], ◌∷◌, ◌++◌, map}
use mathlib.Core.Path.{◌≡◌, refl}
use mathlib.Core.Option.{Option, none, some}
use meshtastic_lora_rs.Common.Lists.{length, drop, replicate}
use mathlib.Core.Logic.{inl, inr}
use meshtastic_lora_rs.Common.Tests.{ltb, leb, ◌==◌, if◌then◌else◌, Bool-cases, ==_iff}
use meshtastic_lora_rs.Common.Result.{Str}

unfoldable pub bytes_eq : Str → Str → Bool
bytes_eq [] [] = true
bytes_eq [] (b ∷ bs) = false
bytes_eq (a ∷ as') [] = false
bytes_eq (a ∷ as') (b ∷ bs) = a == b && bytes_eq as' bs

unfoldable pub to_ascii_lowercase : ℕ → ℕ
to_ascii_lowercase b = if leb b'A' b && leb b b'Z' then b + 32 else b

unfoldable pub eq_ignore_ascii_case : Str → Str → Bool
unfolding bytes_eq to_ascii_lowercase
eq_ignore_ascii_case s t = bytes_eq (map to_ascii_lowercase s) (map to_ascii_lowercase t)

-- The decimal digits of `x`, of at most `fuel`; twenty are enough below `2 ^ 64`.
pub digits : ℕ → ℕ → Str
digits zero x = []
digits (suc fuel) x =
    let rest = digits fuel (x / 10) in
    if ltb x 10 then (b'0' + x) ∷ [] else rest ++ ((b'0' + x % 10) ∷ [])

unfoldable pub decimal : ℕ → Str
unfolding digits
decimal x = digits 20 x

-- `{:0n}`: the decimal digits behind as many zeros as are missing to `n` bytes.
unfoldable pub padded : ℕ → ℕ → Str
unfolding decimal
padded n x = let text = decimal x in replicate (n - length text) b'0' ++ text

-- Two names that differ in the case of ASCII letters only.
abbrev pub SameLetters : Str → Str → Type 0
SameLetters s t = map to_ascii_lowercase s ≡ map to_ascii_lowercase t

pub bytes_eq→≡ : (s t : Str) → bytes_eq s t ≡ true → s ≡ t
unfolding bytes_eq
bytes_eq→≡ [] [] h = refl
bytes_eq→≡ [] (b ∷ bs) h = cc
bytes_eq→≡ (a ∷ as') [] h = cc
bytes_eq→≡ (a ∷ as') (b ∷ bs) h = elim (Bool-cases (a == b)) [
  | inr e ↦ cc (rw e at h)
  | inl e ↦ λ i. (==_iff a b).0 e i ∷ bytes_eq→≡ as' bs (rw e at h) i
]

pub eq_ignore_ascii_case→SameLetters :
    (s t : Str) → eq_ignore_ascii_case s t ≡ true → SameLetters s t
unfolding eq_ignore_ascii_case
eq_ignore_ascii_case→SameLetters s t h = bytes_eq→≡ _ _ h

-- `str::starts_with`, and the parts of a string before and after the first occurrence of a pattern
-- that is not empty.
unfoldable pub starts_with : Str → Str → Bool
starts_with [] s = true
starts_with (p ∷ pat) [] = false
starts_with (p ∷ pat) (b ∷ s) = p == b && starts_with pat s

unfoldable pub before : Str → Str → Str
unfolding starts_with
before pat [] = []
before pat (b ∷ s) = let rest = before pat s in if starts_with pat (b ∷ s) then [] else b ∷ rest

unfoldable pub after : Str → Str → Option Str
unfolding starts_with
after pat [] = none
after pat (b ∷ s) =
    let rest = after pat s in
    if starts_with pat (b ∷ s) then some (drop (length pat) (b ∷ s)) else rest

-- `split(pat).nth(1)`.
unfoldable pub split_nth1 : Str → Str → Option Str
unfolding before after
split_nth1 pat s = elim (after pat s) [ none ↦ none | some rest ↦ some (before pat rest) ]

-- `strip_suffix` of a character.
unfoldable pub strip_suffix : ℕ → Str → Option Str
strip_suffix c [] = none
strip_suffix c (b ∷ []) = if b == c then some [] else none
strip_suffix c (b ∷ d ∷ s) = elim (strip_suffix c (d ∷ s)) [
  | none ↦ none
  | some rest ↦ some (b ∷ rest)
]

-- `trim_start_matches("!")` and `trim_start_matches("0x")`.
unfoldable pub trim_bangs : Str → Str
trim_bangs [] = []
trim_bangs (b ∷ s) = let rest = trim_bangs s in if b == b'!' then rest else b ∷ s

unfoldable pub trim_0x : Str → Str
trim_0x [] = []
trim_0x (b ∷ []) = b ∷ []
trim_0x (b ∷ d ∷ s) = let rest = trim_0x s in if b == b'0' && d == b'x' then rest else b ∷ d ∷ s
