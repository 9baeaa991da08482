-- ===== src/Base/Xor.antt =====
-- The exclusive or of numbers, from the digit recursion that the native operation stands for.
use Prim.Native.Nat.{ℕ, zero, suc, ◌+◌, ◌*◌, ◌/◌, ◌%◌, ◌≤◌, ◌<◌, digits, differ, bit_xor-bitwise}
use Prim.Native.Nat.{◌^◌, bit_xor}
use native.Mathlib.Nat.{pow-suc}
use mathlib.Core.Path.{◌≡◌, refl, ap}
use native.Mathlib.Omega.{arith}

abbrev xor_digits : ℕ → ℕ → ℕ → ℕ
xor_digits n a b = digits (λ b. b) differ n a b

xor_digits_fuel : (n m a b : ℕ) → a ≤ n → a ≤ m → xor_digits n a b ≡ xor_digits m a b
xor_digits_fuel zero zero a b p q = refl
xor_digits_fuel zero (suc m) zero b p q = refl
xor_digits_fuel zero (suc m) (suc a) b p q = absurd (omega arith)
xor_digits_fuel (suc n) zero zero b p q = refl
xor_digits_fuel (suc n) zero (suc a) b p q = absurd (omega arith)
xor_digits_fuel (suc n) (suc m) zero b p q = refl
xor_digits_fuel (suc n) (suc m) (suc a) b p q =
    omega (arith, xor_digits_fuel n m (suc a / 2) (b / 2) (omega arith) (omega arith))

zero-bit_xor : (b : ℕ) → bit_xor 0 b ≡ b
zero-bit_xor b = bit_xor-bitwise 0 b

bit_xor_step : (a b : ℕ) → bit_xor a b ≡ bit_xor (a / 2) (b / 2) * 2 + differ (a % 2) (b % 2)
bit_xor_step zero b = omega (arith, zero-bit_xor b, zero-bit_xor (b / 2))
bit_xor_step (suc a) b = omega (
  arith,
  bit_xor-bitwise (suc a) b,
  bit_xor-bitwise (suc a / 2) (b / 2),
  xor_digits_fuel a (suc a / 2) (suc a / 2) (b / 2) (omega arith) (omega arith),
)

differ-differ : (x y : ℕ) → x < 2 → y < 2 → differ (differ x y) y ≡ x
differ-differ zero zero p q = refl
differ-differ zero (suc zero) p q = refl
differ-differ (suc zero) zero p q = refl
differ-differ (suc zero) (suc zero) p q = refl
differ-differ zero (suc (suc y)) p q = absurd (omega arith)
differ-differ (suc zero) (suc (suc y)) p q = absurd (omega arith)
differ-differ (suc (suc x)) y p q = absurd (omega arith)

differ-lt_two : (x y : ℕ) → x < 2 → y < 2 → differ x y < 2
differ-lt_two zero zero p q = omega arith
differ-lt_two zero (suc zero) p q = omega arith
differ-lt_two (suc zero) zero p q = omega arith
differ-lt_two (suc zero) (suc zero) p q = omega arith
differ-lt_two zero (suc (suc y)) p q = absurd (omega arith)
differ-lt_two (suc zero) (suc (suc y)) p q = absurd (omega arith)
differ-lt_two (suc (suc x)) y p q = absurd (omega arith)

-- The digits of an exclusive or.
bit_xor-div-mod :
    (a b : ℕ)
    → (bit_xor a b / 2 ≡ bit_xor (a / 2) (b / 2)) × (bit_xor a b % 2 ≡ differ (a % 2) (b % 2))
bit_xor-div-mod a b =
    omega (arith, bit_xor_step a b, differ-lt_two (a % 2) (b % 2) (omega arith) (omega arith))

bit_xor-bit_xor_halves :
    (a b : ℕ) → bit_xor (bit_xor (a / 2) (b / 2)) (b / 2) ≡ a / 2 → bit_xor (bit_xor a b) b ≡ a
bit_xor-bit_xor_halves a b ih = omega (
  arith,
  bit_xor_step (bit_xor a b) b,
  ap (λ (t : ℕ). bit_xor t (b / 2)) (bit_xor-div-mod a b).0,
  ap (λ (t : ℕ). differ t (b % 2)) (bit_xor-div-mod a b).1,
  differ-differ (a % 2) (b % 2) (omega arith) (omega arith),
  ih,
)

bit_xor-bit_xor_fuel : (n a b : ℕ) → a + b ≤ n → bit_xor (bit_xor a b) b ≡ a
bit_xor-bit_xor_fuel zero zero zero h = refl
bit_xor-bit_xor_fuel zero zero (suc b) h = absurd (omega arith)
bit_xor-bit_xor_fuel zero (suc a) b h = absurd (omega arith)
bit_xor-bit_xor_fuel (suc n) zero zero h = refl
bit_xor-bit_xor_fuel (suc n) zero (suc b) h =
    bit_xor-bit_xor_halves zero (suc b) (bit_xor-bit_xor_fuel n _ _ (omega arith))
bit_xor-bit_xor_fuel (suc n) (suc a) b h =
    bit_xor-bit_xor_halves (suc a) b (bit_xor-bit_xor_fuel n _ _ (omega arith))

-- A byte masked twice by the same byte is the byte.
pub bit_xor-bit_xor : (a b : ℕ) → bit_xor (bit_xor a b) b ≡ a
bit_xor-bit_xor a b = bit_xor-bit_xor_fuel (a + b) a b (omega arith)

-- The exclusive or of two k-bit numbers has k bits.
pub bit_xor-lt : (k a b : ℕ) → a < 2 ^ k → b < 2 ^ k → bit_xor a b < 2 ^ k
bit_xor-lt zero zero zero p q = omega arith
bit_xor-lt zero zero (suc b) p q = absurd (omega arith)
bit_xor-lt zero (suc a) b p q = absurd (omega arith)
bit_xor-lt (suc k) a b p q = omega (
  arith,
  pow-suc 2 k,
  bit_xor_step a b,
  differ-lt_two (a % 2) (b % 2) (omega arith) (omega arith),
  bit_xor-lt k (a / 2) (b / 2) (omega (arith, pow-suc 2 k)) (omega (arith, pow-suc 2 k)),
)
