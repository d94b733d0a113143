-- ===== src/Lib.antt =====
-- A model of stwo, a prover and verifier of circle STARKs over the field of the Mersenne prime
-- 2 ^ 31 - 1, and theorems about it. Modelled are the arithmetic on which both sides stand, the
-- circle with its cosets and domains, the whole verifier (of a STARK, of the commitment scheme, of FRI
-- and of Merkle trees), the sum-check protocol, and the simplifier of symbolic constraints.
--
-- The parts, bottom up, with the files of the repository that they model:
--
-- Prelude: lists, options, Boolean tests, bits and remainders. No code.
-- Algebra: the traits `Field` and `FieldExpOps` (crates/stwo/src/core/fields/mod.rs) as records of
--   operations and laws. Generic code takes them as instances, the fields fill them. Solver decides
--   equations of commutative rings.
-- Fields.M31: m31.rs of crates/stwo/src/core/fields. Values are native numbers below P; `u32` and
--   `u64` arithmetic has its wrap-around written out. Carrier is the type of canonical values,
--   Inverse makes it a field. Fields.Extension: the macro `impl_extension_field` of mod.rs.
--   Fields.Cm31 and Fields.Qm31: cm31.rs and qm31.rs. Fields.ExpOps: `pow`, `square` and the
--   multiplication tree of m31.rs. Fields.BatchInverse: `batch_inverse_classic` of mod.rs; the array
--   `dst` is the list of its entries, and each pass is a recursion in the direction of its loop. Its child
--   Interleaved has `batch_inverse`, four products in turn, and the chunked routine.
-- Circle: crates/stwo/src/core/circle.rs. Points over any ring; Circle.Index, the indices of points,
--   which are reduced modulo 2 ^ 31; Circle.Coset, cosets and their iterators; Circle.Random, the random
--   point over the secure field, given the draw of the channel.
-- Utils: bit reversal and the orders of indices, crates/stwo/src/core/utils.rs.
-- Constraints: the vanishing polynomial of a coset, crates/stwo/src/core/constraints.rs;
--   Constraints.Lines, the rest of that file: pairs, points, and the lines through conjugate points.
-- Domain: crates/stwo/src/core/poly/circle/domain.rs and canonic.rs, on Circle.Coset.
-- Fft: crates/stwo/src/core/fft.rs. Fraction: crates/stwo/src/core/fraction.rs.
-- Outcome: the results of code that returns a value, returns an error, or panics. Itertools: the
--   functions of the crate itertools, as a parameter; Itertools.Reference is an instance.
-- Queries: crates/stwo/src/core/queries.rs; a `BTreeSet` is the ascending list of its elements.
-- Poly: crates/stwo/src/core/poly/utils.rs. Line: crates/stwo/src/core/poly/line.rs.
-- Merkle: `MerkleVerifierLifted`, crates/stwo/src/core/vcs_lifted/verifier.rs.
-- Fri: crates/stwo/src/core/fri.rs, the verifier and the folding routines. Fri.Folding has
--   `fold_line`, `fold_coset` and `fold_circle_into_line`, and its children follow `fold_line` from one
--   pair to the values of a polynomial; Fri.Sparse and Fri.SparseFolding have
--   `SparseEvaluation`; Fri.Layers verifies a layer with Merkle; Fri.Verifier has the stages
--   `commit`, `sample_query_positions` and `decommit`, which pass the verifier and the channel on;
--   Fri.Verifier.Folds relates the evaluations from layer to layer.
-- Pcs: crates/stwo/src/core/pcs, the verifier of the commitment scheme. Pcs.TreeVec and Pcs.Positions
--   have utils.rs; Pcs.Quotients and Pcs.Answers have quotients.rs, from the batches of samples to
--   `fri_answers`; Pcs.Verifier has `commit` and `verify_values`, the latter in two parts around the
--   queries, on Fri.Verifier and Merkle. Pcs.IndexMap is the crate indexmap, as a parameter.
-- Air: crates/stwo/src/core/air, with the trait `Component` as a record.
-- Stark: `verify_ex` of crates/stwo/src/core/verifier.rs in parts (up to the mask points, the check at
--   the out-of-domain point, the call of Pcs.Verifier), with `extract_composition_oods_eval` of
--   crates/stwo/src/core/proof.rs.
-- Lookups: crates/stwo/src/prover/lookups. Lookups.Univariate has the polynomials of utils.rs,
--   Lookups.Sumcheck the prover of sumcheck.rs over the trait of its oracles, Lookups.Sumcheck.Verifier
--   its partial verifier. Lookups.Gkr and Lookups.Gkr.Batch have the partial verifier of batches of
--   gkr_verifier.rs; the vectors with an entry for each instance are one list of instances. Lookups.Sumcheck.Rounds and
--   Lookups.Gkr.Active describe their rounds and layers.
-- Expr: crates/constraint-framework/src/expr. The macro `simplify_arithmetic` of simplify.rs serves
--   two types of expressions, so Expr.Rules has it over an interface (`Syntax`) that Expr.BaseView
--   and Expr.ExtView fill; Expr.Eval is `eval_expr` of assignment.rs, Expr.Simplify the rest of
--   simplify.rs.
--
-- Conventions. `none` is a panic: an inversion of zero, a failed assertion, also one of debug builds, or,
-- in Utils, Queries and the length of a line polynomial, a shift by the width of its integer or more. Code that can also
-- return an error has a result in Outcome. A function that changes its arguments in place returns
-- their new values.
--
-- Bounds and fuel. `pow` and the multiples of points loop on a 128-bit exponent, which 128 rounds
-- exhaust. `simplify` recurses on what its rules return; fuel of the size of the expression is
-- enough, since no rule makes an expression larger. The size of an expression over the secure field
-- counts a constant as its four columns. `draw_queries` loops until the positions are enough, on fuel
-- that counts draws; the verifiers pass the number of queries, which is enough if each draw yields a
-- word. A result `none` of `draw_queries` is the end of the fuel or the overflow of its mask; the domains
-- that the commitment stage of FRI builds have log sizes of at most 30. The sum-check prover counts the rounds that remain. `log_order` of a point of the base field ends within 32 rounds.
--
-- Parameters. `simplify` compares values under an assignment that hashes each variable; the
-- assignment is a parameter, total on the variables. The hash functions of the Merkle tree and the
-- channel, which stand on third-party hashes, are records of functions, and so are itertools and
-- indexmap. The oracles of the sum-check are taken as ones that do not panic; a component may panic.
--
-- Not modelled: the channels and hashes, the prover and its backends, the GKR prover, sampling and
-- printing, the sizes of proofs, the in-place permutations of slices, the sets of variables and the
-- degree bounds of expressions. Sums of log sizes are those of numbers: they do not overflow a `u32`.
pub mod Air
pub mod Algebra
pub mod Circle
pub mod Constraints
pub mod Domain
pub mod Expr
pub mod Fft
pub mod Fields
pub mod Fraction
pub mod Fri
pub mod Itertools
pub mod Line
pub mod Lookups
pub mod Merkle
pub mod Outcome
pub mod Pcs
pub mod Poly
pub mod Prelude
pub mod Queries
pub mod Stark
pub mod Utils
