-- ===== src/Fields.antt =====
-- crates/stwo/src/core/fields: the Mersenne field and its extensions.
pub mod BatchInverse
pub mod M31
pub mod Extension
pub mod Cm31
pub mod Qm31
pub mod ExpOps
mod Tests
