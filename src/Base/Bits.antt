-- ===== src/Base/Bits.antt =====
-- Masks: `x & (2 ^ k - 1)` is `x % 2 ^ k`, for every width.
use Prim.Native.Nat.{
  ℕ, zero, suc, ◌+◌, ◌-◌, ◌*◌, ◌/◌, ◌%◌, ◌^◌, ◌≤◌, ◌<◌, min, bit_and, digits, bit_and-bitwise,
}
use mathlib.Core.Path.{◌≡◌, sym, ◌∙◌}
use native.Mathlib.Nat.{pow-suc, zero-mod}
use native.Mathlib.Omega.{arith}

pub pow-pos : (k : ℕ) → 0 < 2 ^ k
pow-pos zero = omega arith
pow-pos (suc k) = omega (arith, pow-pos k, pow-suc 2 k)

-- The last binary digit of a remainder, for any modulus that is a double.
mod_twice : (x m : ℕ) → 0 < m → x % (2 * m) ≡ (x / 2) % m * 2 + x % 2
mod_twice x m pos = grind arith

twice_pow : (k : ℕ) → 2 ^ suc k ≡ 2 * 2 ^ k
twice_pow k = omega (arith, pow-suc 2 k)

odd_quotient : (m : ℕ) → 0 < m → (2 * m - 1) / 2 ≡ m - 1
odd_quotient m pos = omega arith

odd_remainder : (m : ℕ) → 0 < m → (2 * m - 1) % 2 ≡ 1
odd_remainder m pos = omega arith

-- The digits of a number against those of a mask, with any number of rounds that is large enough.
mask_digits :
    (rounds k x : ℕ) → x ≤ rounds → digits (λ _. zero) min rounds x (2 ^ k - 1) ≡ x % 2 ^ k
mask_digits zero k zero enough = sym (zero-mod (2 ^ k))
mask_digits (suc rounds) k zero enough = sym (zero-mod (2 ^ k))
mask_digits zero k (suc x) enough = absurd (omega arith)
mask_digits (suc rounds) zero (suc x) enough =
    omega (arith, mask_digits rounds zero (suc x / 2) (omega arith))
mask_digits (suc rounds) (suc k) (suc x) enough =
    rw
      (
        twice_pow k,
        odd_quotient (2 ^ k) (pow-pos k),
        odd_remainder (2 ^ k) (pow-pos k),
        mask_digits rounds k (suc x / 2) (omega arith),
      )
      (omega (arith, mod_twice (suc x) (2 ^ k) (pow-pos k)))

pub bit_and-mask : (k x : ℕ) → bit_and x (2 ^ k - 1) ≡ x % 2 ^ k
bit_and-mask k x = bit_and-bitwise x (2 ^ k - 1) ∙ mask_digits x k x (omega arith)
