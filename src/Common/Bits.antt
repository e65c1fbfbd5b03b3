-- ===== src/Common/Bits.antt =====
-- Masks on one byte, by tables checked by evaluation.
use Prim.Native.Nat.{ℕ, zero, suc, ◌+◌, ◌*◌, ◌/◌, ◌%◌, ◌<◌, bit_and, bit_or}
use mathlib.Core.Path.{◌≡◌, refl}
use mathlib.Core.Bool.{Bool, true, ◌&&◌}
use native.Mathlib.Omega.{arith}
use meshtastic_lora_rs.Common.Tests.{◌==◌, ==_iff}

-- A test holds of every number below a bound; by evaluation where the bound is small.
unfoldable pub holds_below : ℕ → (ℕ → Bool) → Bool
holds_below zero test = true
holds_below (suc bound) test = holds_below bound test && test bound

-- What holds below a bound holds of a number that lies there.
pub holds_at :
    (bound : ℕ) (test : ℕ → Bool) {x : ℕ}
    → x < bound
    → holds_below bound test ≡ true
    → test x ≡ true
unfolding holds_below
holds_at zero test below all = absurd (omega arith)
holds_at (suc bound) test {x = x} below all = ground (arith, holds_at bound test {x = x})

low_three_table : holds_below 256 (λ x. bit_and x 0x07 == x % 8) ≡ true
unfolding holds_below
low_three_table = refl

pub low_three : (x : ℕ) → x < 256 → bit_and x 0x07 ≡ x % 8
low_three x h = (==_iff _ _).0 (holds_at 256 _ h low_three_table)

bit_three_table : holds_below 256 (λ x. bit_and x 0x08 == x / 8 % 2 * 8) ≡ true
unfolding holds_below
bit_three_table = refl

pub bit_three : (x : ℕ) → x < 256 → bit_and x 0x08 ≡ x / 8 % 2 * 8
bit_three x h = (==_iff _ _).0 (holds_at 256 _ h bit_three_table)

bit_four_table : holds_below 256 (λ x. bit_and x 0x10 == x / 16 % 2 * 16) ≡ true
unfolding holds_below
bit_four_table = refl

pub bit_four : (x : ℕ) → x < 256 → bit_and x 0x10 ≡ x / 16 % 2 * 16
bit_four x h = (==_iff _ _).0 (holds_at 256 _ h bit_four_table)

-- The flags of a frame: three disjoint fields joined by `|` add up.
join_flags : ℕ → ℕ → ℕ → ℕ → Bool
join_flags low ack mqtt start =
    bit_or (bit_or (bit_or low (ack * 8)) (mqtt * 16)) (start * 32)
    == low + ack * 8 + mqtt * 16 + start * 32

join_table :
    holds_below 8 (λ low.
      holds_below 2 (λ ack. holds_below 2 (λ mqtt. holds_below 8 (join_flags low ack mqtt))))
    ≡ true
unfolding holds_below join_flags
join_table = refl

pub bit_or_fields :
    (low ack mqtt start : ℕ)
    → low < 8
    → ack < 2
    → mqtt < 2
    → start < 8
    → bit_or (bit_or (bit_or low (ack * 8)) (mqtt * 16)) (start * 32)
      ≡ low + ack * 8 + mqtt * 16 + start * 32
unfolding join_flags
bit_or_fields low ack mqtt start h1 h2 h3 h4 =
    (==_iff _ _).0
      (holds_at 8 _ h4 (holds_at 2 _ h3 (holds_at 2 _ h2 (holds_at 8 _ h1 join_table))))
