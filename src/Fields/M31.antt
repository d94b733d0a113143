-- ===== src/Fields/M31.antt =====
-- crates/stwo/src/core/fields/m31.rs: the operations on the raw `u32`, with the wrap-around of the
-- machine words written out.
pub mod Reduce
pub mod Carrier
pub mod Prime
pub mod Fermat
pub mod Inverse
use Prim.Native.Nat.{bit_and}
use stwo.Prelude.{ℕ, ◌+◌, ◌-◌, ◌*◌, ◌/◌, ◌%◌, ◌^◌, Option, none, some, leb, if◌then◌else◌}

abbrev pub modulus_bits : ℕ
modulus_bits = 31

-- `P`, which is 2 ^ 31 - 1.
abbrev pub p : ℕ
p = 2147483647

abbrev pub wrap32 : ℕ → ℕ
wrap32 n = n % 2 ^ 32

abbrev pub wrap64 : ℕ → ℕ
wrap64 n = n % 2 ^ 64

abbrev pub checked_sub : ℕ → ℕ → Option ℕ
checked_sub a b = if leb b a then some (a - b) else none

abbrev pub unwrap_or : Option ℕ → ℕ → ℕ
unwrap_or none d = d
unwrap_or (some a) d = a

unfoldable pub partial_reduce : ℕ → ℕ
partial_reduce val = unwrap_or (checked_sub val p) val

-- On a `u64`: each sum wraps at 2 ^ 64, and the cast to `u32` drops the high bits.
unfoldable pub reduce : ℕ → ℕ
reduce val =
    let high = val / 2 ^ modulus_bits in
    let carry = wrap64 (wrap64 (high + val) + 1) / 2 ^ modulus_bits in
    wrap32 (bit_and (wrap64 (carry + val)) p)

unfoldable pub add : ℕ → ℕ → ℕ
unfolding partial_reduce
add a b = partial_reduce (wrap32 (a + b))

unfoldable pub neg : ℕ → ℕ
unfolding partial_reduce
neg a = partial_reduce (wrap32 (p + 2 ^ 32 - a))

unfoldable pub sub : ℕ → ℕ → ℕ
unfolding partial_reduce
sub a b = partial_reduce (wrap32 (wrap32 (a + p) + 2 ^ 32 - b))

unfoldable pub mul : ℕ → ℕ → ℕ
unfolding reduce
mul a b = reduce (wrap64 (a * b))

unfoldable pub from_u32 : ℕ → ℕ
unfolding reduce
from_u32 value = reduce value

unfoldable pub from_usize : ℕ → ℕ
unfolding reduce
from_usize value = reduce value
