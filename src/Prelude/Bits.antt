-- ===== src/Prelude/Bits.antt =====
-- `x & (2 ^ k - 1)` is a remainder, at every width.
use Prim.Native.Nat.{ℕ, zero, suc, ◌+◌, ◌-◌, ◌*◌, ◌/◌, ◌%◌, ◌^◌, ◌≤◌, ◌<◌, min, bit_and, digits}
use Prim.Native.Nat.{bit_and-bitwise}
use mathlib.Core.Path.{◌≡◌, ◌∙◌, ap}
use Prim.Native.Nat.add
use native.Mathlib.Nat.{
  zero-add, pow-suc, one-le-pow, mod-lt, div-add-mod, add-mul-mod_self_left, mod-eq_of_lt,
}
use native.Mathlib.Omega.{arith}

pub two_pow-pos : (k : ℕ) → 0 < 2 ^ k
two_pow-pos k = one-le-pow k 2 (omega arith)

pub two_pow-suc : (k : ℕ) → 2 ^ suc k ≡ 2 * 2 ^ k
two_pow-suc k = omega (arith, pow-suc 2 k)

pub two_pow-add : (m n : ℕ) → 2 ^ (m + n) ≡ 2 ^ m * 2 ^ n
two_pow-add zero n = rw zero-add (omega arith)
two_pow-add (suc m) n =
    rw (add.suc m n, two_pow-suc (m + n), two_pow-suc m, two_pow-add m n) (omega arith)

-- The remainder by `2 * m`, from that of the half.
pub mod_double : (x m : ℕ) → 0 < m → x % (2 * m) ≡ x / 2 % m * 2 + x % 2
mod_double x m h =
    ap (λ t. t % (2 * m)) {y = x / 2 % m * 2 + x % 2 + 2 * m * (x / 2 / m)} parts
    ∙ add-mul-mod_self_left _ (2 * m) (x / 2 / m)
    ∙ mod-eq_of_lt (omega (arith, mod-lt (x / 2) h))
  where
    parts : x ≡ x / 2 % m * 2 + x % 2 + 2 * m * (x / 2 / m)
    parts = omega (arith, div-add-mod (x / 2) m)

and_digits : (n a k : ℕ) → a ≤ n → digits (λ b. zero) min n a (2 ^ k - 1) ≡ a % 2 ^ k
and_digits zero zero k h = omega (arith, two_pow-pos k)
and_digits zero (suc a) k h = absurd (omega arith)
and_digits (suc n) zero k h = omega (arith, two_pow-pos k)
and_digits (suc n) (suc a) zero h = omega (arith, and_digits n (suc a / 2) 0 (omega arith))
and_digits (suc n) (suc a) (suc k) h =
    rw (half, odd, and_digits n (suc a / 2) k (omega arith), double)
      (omega (arith, mod_double (suc a) (2 ^ k) (two_pow-pos k)))
  where
    double : 2 ^ suc k ≡ 2 * 2 ^ k
    double = omega (arith, pow-suc 2 k)

    half : (2 ^ suc k - 1) / 2 ≡ 2 ^ k - 1
    half = omega (arith, double, two_pow-pos k)

    odd : (2 ^ suc k - 1) % 2 ≡ 1
    odd = omega (arith, double, two_pow-pos k)

pub bit_and_mask : (a k : ℕ) → bit_and a (2 ^ k - 1) ≡ a % 2 ^ k
bit_and_mask a k = bit_and-bitwise a (2 ^ k - 1) ∙ and_digits a a k (omega arith)
