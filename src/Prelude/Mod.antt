-- ===== src/Prelude/Mod.antt =====
-- Remainders under products.
use Prim.Native.Nat.{ℕ, ◌+◌, ◌*◌, ◌/◌, ◌%◌}
use mathlib.Core.Path.{◌≡◌, sym, ◌∙◌, ap}
use native.Mathlib.Nat.{add-mul-mod_self_left, div-add-mod, mul_comm}
use native.Mathlib.Omega.{arith}

-- Reduction may be left out under a product.
pub mod-mul-mod : (x c m : ℕ) → (x % m * c) % m ≡ (x * c) % m
mod-mul-mod x c m =
    sym (add-mul-mod_self_left (x % m * c) m (x / m * c)) ∙ ap (λ (t : ℕ). t % m) whole
  where
    whole : x % m * c + m * (x / m * c) ≡ x * c
    whole = omega (arith, ap (λ (t : ℕ). t * c) (div-add-mod x m))

pub mul-mod-mod : (c x m : ℕ) → (c * (x % m)) % m ≡ (c * x) % m
mul-mod-mod c x m = rw (mul_comm c (x % m), mul_comm c x) (mod-mul-mod x c m)
