-- ===== src/Queries/Draw.antt =====
-- The loop of `draw_queries` (crates/stwo/src/core/queries.rs): when it returns, and what.
use mathlib.Core.Path.{subst}
use stwo.Prelude.{
  ℕ, zero, suc, ◌+◌, ◌-◌, ◌^◌, ◌≤◌, ◌<◌, Bool, true, false, ◌==◌, Option, none, some, List, [], ◌∷◌,
  ◌++◌, ◌≡◌, refl, sym, arith, length, length-append, All, Bool-cases, inl, inr, ==→eq, ltb, lt→ltb,
}
use Prim.Native.Nat.{bit_and}
use stwo.Prelude.Bits.{bit_and_mask, two_pow-pos}
use stwo.Queries.{draw_words, draw_loop, draw_queries}

masked_lt : (w l : ℕ) → bit_and w (2 ^ l - 1) < 2 ^ l
masked_lt w l = rw (bit_and_mask w l) (grind (arith, two_pow-pos l))

All-push : (P : ℕ → Type 0) (xs : List ℕ) (x : ℕ) → All P xs → P x → All P (xs ++ x ∷ [])
All-push P [] x h p = (p, tt)
All-push P (y ∷ xs) x (hy, h) p = (hy, All-push P xs x h p)

Below : ℕ → List ℕ → Type 0
Below l = All (λ p. p < 2 ^ l)

-- One draw: the positions are complete, or all words have been pushed and one is still missing.
Drawn : ℕ → ℕ → ℕ → Bool × List ℕ → Type 0
Drawn l n m (true, pushed) = (length pushed ≡ n) × Below l pushed
Drawn l n m (false, pushed) = (length pushed ≡ m) × (m < n) × Below l pushed

draw_words-Drawn :
    (l n : ℕ) (raw words : List ℕ)
    → length raw < n
    → Below l raw
    → Drawn l n (length raw + length words) (draw_words (2 ^ l - 1) n raw words)
unfolding draw_words Drawn Below
draw_words-Drawn l n raw [] h b = (omega arith, omega arith, b)
draw_words-Drawn l n raw (w ∷ words) h b = elim (Bool-cases (length pushed == n)) [
  | inl full ↦ rw full (==→eq (length pushed) n full, below)
  | inr more ↦ rw more (
      let next = draw_words-Drawn l n pushed words (longer more) below in
      let e : length pushed + length words ≡ length raw + length (w ∷ words) =
        omega (arith, pushed_length) in
      rw (sym e) next)
]
  where
    pushed : List ℕ
    pushed = raw ++ bit_and w (2 ^ l - 1) ∷ []

    pushed_length : length pushed ≡ suc (length raw)
    pushed_length = omega (arith, length-append raw (bit_and w (2 ^ l - 1) ∷ []))

    below : All (λ p. p < 2 ^ l) pushed
    below = All-push (λ p. p < 2 ^ l) raw (bit_and w (2 ^ l - 1)) b (masked_lt w l)

    longer : (length pushed == n) ≡ false → length pushed < n
    longer more = ground (arith, pushed_length)

module _ {Channel : Type 0} (draw_u32s : Channel → List ℕ × Channel) where
  -- The loop with the outcome of its first draw taken off.
  after_draw :
      (l n fuel : ℕ) (channel : Channel) (raw : List ℕ) (o : Bool × List ℕ)
      → draw_words (2 ^ l - 1) n raw (draw_u32s channel).0 ≡ o
      → draw_loop draw_u32s (suc fuel) (2 ^ l - 1) n channel raw ≡ elim o.0 [
        | true ↦ some (o.1, (draw_u32s channel).1)
        | false ↦ draw_loop draw_u32s fuel (2 ^ l - 1) n (draw_u32s channel).1 o.1
      ]
  unfolding draw_loop
  after_draw l n fuel channel raw o h =
      subst
        (λ (o' : Bool × List ℕ).
          draw_loop draw_u32s (suc fuel) (2 ^ l - 1) n channel raw
          ≡ elim o'.0 as (λ _. Option (List ℕ × Channel)) [
            | true ↦ some (o'.1, (draw_u32s channel).1)
            | false ↦ draw_loop draw_u32s fuel (2 ^ l - 1) n (draw_u32s channel).1 o'.1
          ])
        h refl

  Returned : ℕ → ℕ → Option (List ℕ × Channel) → Type 0
  Returned l n o =
      (positions : List ℕ) × (channel : Channel) × (o ≡ some (positions, channel))
      × (length positions ≡ n)
      × Below l positions

  module _ (words_drawn : (channel : Channel) → 0 < length (draw_u32s channel).0) where
    draw_loop-Returned :
        (l n fuel : ℕ) (channel : Channel) (raw : List ℕ)
        → length raw < n
        → n ≤ length raw + fuel
        → Below l raw
        → Returned l n (draw_loop draw_u32s fuel (2 ^ l - 1) n channel raw)
    unfolding Returned Drawn Below
    draw_loop-Returned l n zero channel raw h k b = absurd (omega arith)
    draw_loop-Returned l n (suc fuel) channel raw h k b =
        go (draw_words (2 ^ l - 1) n raw (draw_u32s channel).0) refl
          (draw_words-Drawn l n raw (draw_u32s channel).0 h b)
          (draw_loop-Returned l n fuel (draw_u32s channel).1)
      where
        go :
            (o : Bool × List ℕ)
            → draw_words (2 ^ l - 1) n raw (draw_u32s channel).0 ≡ o
            → Drawn l n (length raw + length (draw_u32s channel).0) o
            → ((pushed : List ℕ)
                → length pushed < n
                → n ≤ length pushed + fuel
                → Below l pushed
                → Returned l n
                    (draw_loop draw_u32s fuel (2 ^ l - 1) n (draw_u32s channel).1 pushed))
            → Returned l n (draw_loop draw_u32s (suc fuel) (2 ^ l - 1) n channel raw)
        go (true, pushed) e (full, below) ih =
            rw (after_draw l n fuel channel raw (true, pushed) e)
              (pushed, (draw_u32s channel).1, refl, full, below)
        go (false, pushed) e (len, more, below) ih =
            rw (after_draw l n fuel channel raw (false, pushed) e)
              (ih pushed (omega arith) (omega (arith, words_drawn channel)) below)

    -- If each draw of the channel yields a word and the log size of the domain is below 32, the width of
    -- the mask, then as many draws as queries are enough for `draw_queries` with at least one query to
    -- return exactly that many positions, all below 2 ^ log_domain_size.
    pub draw_queries_returns :
        (channel : Channel) (log_domain_size n_queries fuel : ℕ)
        → log_domain_size < 32
        → 0 < n_queries
        → n_queries ≤ fuel
        → (positions : List ℕ) × (channel' : Channel) × (draw_queries draw_u32s fuel channel
              log_domain_size n_queries
            ≡ some (positions, channel'))
          × (length positions ≡ n_queries)
          × All (λ p. p < 2 ^ log_domain_size) positions
    unfolding draw_queries Returned Below
    draw_queries_returns channel l n fuel small h k =
        rw (lt→ltb l 32 small, draw_queries)
          (draw_loop-Returned l n fuel channel [] h (omega arith) tt)

  never_full : (mask : ℕ) (raw words : List ℕ) → (draw_words mask 0 raw words).0 ≡ false
  unfolding draw_words
  never_full mask raw [] = refl
  never_full mask raw (w ∷ words) =
      let e : (length (raw ++ bit_and w mask ∷ []) == 0) ≡ false =
        ground (arith, length-append raw (bit_and w mask ∷ [])) in
      rw e (never_full mask (raw ++ bit_and w mask ∷ []) words)

  never_done :
      (fuel mask : ℕ) (channel : Channel) (raw : List ℕ)
      → draw_loop draw_u32s fuel mask 0 channel raw ≡ none
  unfolding draw_loop
  never_done zero mask channel raw = refl
  never_done (suc fuel) mask channel raw =
      rw (never_full mask raw (draw_u32s channel).0, draw_loop)
        (never_done fuel mask (draw_u32s channel).1 (draw_words mask 0 raw (draw_u32s channel).0).1)

  -- With no queries `draw_queries` returns after no number of draws, whatever the channel draws.
  pub draw_queries_diverges :
      (fuel log_domain_size : ℕ) (channel : Channel)
      → draw_queries draw_u32s fuel channel log_domain_size 0 ≡ none
  unfolding draw_queries
  draw_queries_diverges fuel l channel = elim (Bool-cases (ltb l 32)) [
    | inl fits ↦ rw (fits, draw_queries) (never_done fuel (2 ^ l - 1) channel [])
    | inr large ↦ rw (large, draw_queries) refl
  ]
