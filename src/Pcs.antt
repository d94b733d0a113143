-- ===== src/Pcs.antt =====
-- crates/stwo/src/core/pcs: the verifier of the polynomial commitment scheme. This file has its
-- configuration, from mod.rs. `u32` sums of log sizes are those of numbers.
pub mod TreeVec
pub mod Positions
pub mod IndexMap
pub mod Quotients
pub mod Answers
pub mod Verifier
use stwo.Prelude.{ℕ, ◌+◌, ◌%◌, ◌^◌, Option, none, some, List, [], ◌∷◌, ◌>>=◌}
use stwo.Fields.M31.Carrier.{M31}
use stwo.Fields.Qm31.{Qm31}
use stwo.Fri.{FriConfig, security_bits as fri_security_bits, new as fri_new}
use stwo.Fri.Verifier.{MerkleChannel}

pub record PcsConfig : Type 0 where
  pub pow_bits : ℕ
  pub fri_config : FriConfig
  pub lifting_log_size : Option ℕ

unfoldable pub security_bits : PcsConfig → ℕ
unfolding fri_security_bits
security_bits c = c.pow_bits + fri_security_bits c.fri_config
