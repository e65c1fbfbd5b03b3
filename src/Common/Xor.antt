-- ===== src/Common/Xor.antt =====
-- Exclusive or on the native numbers: the law of the lowest digit, and what follows at every width.
use Prim.Native.Nat.{
  ℕ, zero, suc, ◌+◌, ◌*◌, ◌/◌, ◌%◌, ◌≤◌, ◌<◌, ◌^◌, bit_xor, digits, bit_xor-bitwise, differ,
}
use mathlib.Core.Path.{◌≡◌, refl}
use native.Mathlib.Omega.{arith}
use native.Mathlib.Nat.{pow-suc}

abbrev xor_digits : ℕ → ℕ → ℕ → ℕ
xor_digits n a b = digits (λ b. b) differ n a b

xor_digits_fuel : (n m a b : ℕ) → a ≤ n → a ≤ m → xor_digits n a b ≡ xor_digits m a b
xor_digits_fuel zero zero a b p q = refl
xor_digits_fuel zero (suc m) zero b p q = refl
xor_digits_fuel zero (suc m) (suc a) b p q = absurd (omega arith)
xor_digits_fuel (suc n) zero zero b p q = refl
xor_digits_fuel (suc n) zero (suc a) b p q = absurd (omega arith)
xor_digits_fuel (suc n) (suc m) zero b p q = refl
xor_digits_fuel (suc n) (suc m) (suc a) b p q =
    omega (arith, xor_digits_fuel n m (suc a / 2) (b / 2) (omega arith) (omega arith))

pub zero-bit_xor : (b : ℕ) → bit_xor 0 b ≡ b
zero-bit_xor b = bit_xor-bitwise 0 b

zero-differ : (b : ℕ) → differ 0 b ≡ b
zero-differ b = refl

-- The lowest digits, and the rest.
pub bit_xor_step : (a b : ℕ) → bit_xor a b ≡ bit_xor (a / 2) (b / 2) * 2 + differ (a % 2) (b % 2)
bit_xor_step zero b = omega (arith, zero-bit_xor b, zero-bit_xor (b / 2), zero-differ (b % 2))
bit_xor_step (suc a) b = omega (
  arith,
  bit_xor-bitwise (suc a) b,
  bit_xor-bitwise (suc a / 2) (b / 2),
  xor_digits_fuel a (suc a / 2) (suc a / 2) (b / 2) (omega arith) (omega arith),
)

differ_bit : (a b : ℕ) → a < 2 → b < 2 → (differ a b < 2) × (differ (differ a b) b ≡ a)
differ_bit zero zero p q = (omega arith, refl)
differ_bit zero (suc zero) p q = (omega arith, refl)
differ_bit zero (suc (suc b)) p q = absurd (omega arith)
differ_bit (suc zero) zero p q = (omega arith, refl)
differ_bit (suc zero) (suc zero) p q = (omega arith, refl)
differ_bit (suc zero) (suc (suc b)) p q = absurd (omega arith)
differ_bit (suc (suc a)) b p q = absurd (omega arith)

bit_xor_halves :
    (a b : ℕ)
    → (bit_xor a b / 2 ≡ bit_xor (a / 2) (b / 2)) × (bit_xor a b % 2 ≡ differ (a % 2) (b % 2))
bit_xor_halves a b =
    let lt = (differ_bit (a % 2) (b % 2) (omega arith) (omega arith)).0 in
    (omega (arith, bit_xor_step a b, lt), omega (arith, bit_xor_step a b, lt))

cancel_step :
    (a b : ℕ) → bit_xor (bit_xor (a / 2) (b / 2)) (b / 2) ≡ a / 2 → bit_xor (bit_xor a b) b ≡ a
cancel_step a b h =
    let (high, low) = bit_xor_halves a b in
    let bit = (differ_bit (a % 2) (b % 2) (omega arith) (omega arith)).1 in
    rw (bit_xor_step (bit_xor a b) b, high, low, h, bit) (omega arith)

cancel_fuel : (n a b : ℕ) → a + b ≤ n → bit_xor (bit_xor a b) b ≡ a
cancel_fuel zero zero zero h = refl
cancel_fuel zero zero (suc b) h = absurd (omega arith)
cancel_fuel zero (suc a) b h = absurd (omega arith)
cancel_fuel (suc n) zero zero h = refl
cancel_fuel (suc n) (suc a) b h =
    cancel_step (suc a) b (cancel_fuel n (suc a / 2) (b / 2) (omega arith))
cancel_fuel (suc n) zero (suc b) h =
    cancel_step zero (suc b) (cancel_fuel n (zero / 2) (suc b / 2) (omega arith))

-- A second exclusive or with the same number undoes the first.
pub bit_xor_cancel : (a b : ℕ) → bit_xor (bit_xor a b) b ≡ a
bit_xor_cancel a b = cancel_fuel (a + b) a b (omega arith)

-- The result is no wider than the operands.
pub bit_xor-lt : (k a b : ℕ) → a < 2 ^ k → b < 2 ^ k → bit_xor a b < 2 ^ k
bit_xor-lt zero zero zero p q = omega arith
bit_xor-lt zero zero (suc b) p q = absurd (omega arith)
bit_xor-lt zero (suc a) b p q = absurd (omega arith)
bit_xor-lt (suc k) a b p q =
    let ih =
      bit_xor-lt k (a / 2) (b / 2) (omega (arith, pow-suc 2 k)) (omega (arith, pow-suc 2 k)) in
    let lt = (differ_bit (a % 2) (b % 2) (omega arith) (omega arith)).0 in
    omega (arith, bit_xor_step a b, lt, ih, pow-suc 2 k)
