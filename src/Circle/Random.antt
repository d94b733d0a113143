-- ===== src/Circle/Random.antt =====
-- The random points over the secure field of crates/stwo/src/core/circle.rs.
use mathlib.Core.Path.{subst}
use stwo.Prelude.{>>=-eq-some, some_inj, Option, some, ◌≡◌, ◌≢◌, refl, sym, ap, ◌∙◌, [], ◌∷◌, ◌>>=◌}
use stwo.Algebra.{field_ring, inverse, ◌⊕◌, ◌⊗◌, ⊝, 𝟘, 𝟙}
use stwo.Algebra.Solver.{◌:+◌, ◌:*◌, opp, lit1, x0, x1, ring, cross}
use stwo.Fields.Cm31.{cm31_ring}
use stwo.Fields.Qm31.{Qm31, qm31_ring}
use stwo.Fields.Qm31.Inverse.{qm31_field}
use stwo.Circle.{CirclePoint}
use stwo.Fields.BatchInverse.Sound.{inverse_of_ne-zero, ne-zero_of_inverse}
use stwo.Circle.Laws.{OnCircle}

-- The draw of the channel is a parameter. `none` is a division by zero.
module _ {State : Type 0} (draw_secure_felt : State → Qm31 × State) where
  unfoldable pub get_random_point : State → Option (CirclePoint Qm31 × State)
  get_random_point channel =
      let (t, channel') = draw_secure_felt channel in
      let t_square = t ⊗ t in
      inverse (t_square ⊕ 𝟙) >>= λ one_plus_tsquared_inv. some (
        record {
          x = (𝟙 ⊕ ⊝ t_square) ⊗ one_plus_tsquared_inv;
          y = (t ⊕ t) ⊗ one_plus_tsquared_inv;
        },
        channel',
      )

  -- If the element that the channel draws is not a root of t ^ 2 + 1, then `get_random_point` returns, and
  -- the point is on the circle.
  pub get_random_point-OnCircle :
      (channel : State)
      → (draw_secure_felt channel).0 ⊗ (draw_secure_felt channel).0 ⊕ 𝟙 ≢ 𝟘
      → (p : CirclePoint Qm31) × (get_random_point channel ≡ some (p, (draw_secure_felt channel).1))
        × OnCircle p
  unfolding get_random_point cross
  get_random_point-OnCircle channel h =
      let t = (draw_secure_felt channel).0 in
      let i = qm31_field.inv (t ⊗ t ⊕ 𝟙) in
      (
        record { x = (𝟙 ⊕ ⊝ (t ⊗ t)) ⊗ i; y = (t ⊕ t) ⊗ i },
        rw (inverse_of_ne-zero (t ⊗ t ⊕ 𝟙) h) refl,
        ring (t ∷ i ∷ [])
              ((lit1 :+ opp (x0 :* x0)) :* x1 :* ((lit1 :+ opp (x0 :* x0)) :* x1)
                :+ (x0 :+ x0) :* x1 :* ((x0 :+ x0) :* x1))
              ((x0 :* x0 :+ lit1) :* x1 :* ((x0 :* x0 :+ lit1) :* x1)) refl
            ∙ ap (λ s. s ⊗ s) (qm31_field.mul-inv (t ⊗ t ⊕ 𝟙) h)
            ∙ qm31_ring.one-mul 𝟙,
      )

  -- A point that is returned is on the circle.
  pub returned-OnCircle :
      (channel : State) {p : CirclePoint Qm31} {channel' : State}
      → get_random_point channel ≡ some (p, channel')
      → OnCircle p
  unfolding get_random_point
  returned-OnCircle channel e =
      let t = (draw_secure_felt channel).0 in
      let (i, inverted, h) = >>=-eq-some (inverse (t ⊗ t ⊕ 𝟙)) _ e in
      let (q, same, on) =
        get_random_point-OnCircle channel (ne-zero_of_inverse (t ⊗ t ⊕ 𝟙) inverted) in
      subst OnCircle (ap (λ (r : CirclePoint Qm31 × State). r.0) (some_inj (sym same ∙ e))) on
