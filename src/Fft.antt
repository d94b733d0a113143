-- ===== src/Fft.antt =====
-- crates/stwo/src/core/fft.rs: the butterflies, which change two entries in place. A twiddle is a
-- base field element; `scale` is the product with it.
pub mod Inverse
mod Tests
use stwo.Algebra.{Ring, ◌⊕◌, ◌⊖◌}

module _ {F B : Type 0} ⦃r : Ring F⦄ (scale : F → B → F) where
  unfoldable pub butterfly : F × F → B → F × F
  butterfly v twid = let tmp = scale v.1 twid in (v.0 ⊕ tmp, v.0 ⊖ tmp)

  unfoldable pub ibutterfly : F × F → B → F × F
  ibutterfly v itwid = let tmp = v.0 in (tmp ⊕ v.1, scale (tmp ⊖ v.1) itwid)
