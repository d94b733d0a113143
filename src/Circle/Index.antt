-- ===== src/Circle/Index.antt =====
-- The type `CirclePointIndex` of crates/stwo/src/core/circle.rs: a `usize` i for the point i * G,
-- with the generator G of the circle over `M31`.
pub mod Order
pub mod Points
use Prim.Native.Nat.{bit_and}
use stwo.Prelude.{
  ℕ, ◌+◌, ◌-◌, ◌*◌, ◌/◌, ◌%◌, ◌^◌, leb, ◌==◌, if◌then◌else◌, Option, none, some, arith,
}
use stwo.Fields.M31.{wrap64}
use stwo.Fields.M31.Carrier.{M31, m31_ring}
use stwo.Circle.{CirclePoint, mul as point_mul}

abbrev pub m31_circle_log_order : ℕ
m31_circle_log_order = 31

unfoldable pub m31_circle_gen : CirclePoint M31
m31_circle_gen = record { x = (2, omega arith); y = (1268011823, omega arith) }

unfoldable pub reduce : ℕ → ℕ
reduce i = bit_and i (2 ^ m31_circle_log_order - 1)

-- `none` is a failed assertion.
unfoldable pub subgroup_gen : ℕ → Option ℕ
subgroup_gen log_size =
    if leb log_size m31_circle_log_order then some (2 ^ (m31_circle_log_order - log_size)) else none

unfoldable pub to_point : ℕ → CirclePoint M31
to_point i = point_mul m31_circle_gen i

unfoldable pub half : ℕ → Option ℕ
half i = if i % 2 == 0 then some (i / 2) else none

unfoldable pub add : ℕ → ℕ → ℕ
unfolding reduce
add i j = reduce (wrap64 (i + j))

unfoldable pub sub : ℕ → ℕ → ℕ
unfolding reduce
sub i j = reduce (wrap64 (wrap64 (i + 2 ^ m31_circle_log_order) + 2 ^ 64 - j))

unfoldable pub mul : ℕ → ℕ → ℕ
unfolding reduce
mul i n = reduce (wrap64 (i * n))

unfoldable pub neg : ℕ → ℕ
unfolding reduce
neg i = reduce (wrap64 (2 ^ m31_circle_log_order + 2 ^ 64 - i))
