-- ===== src/Matching/Marks/Pairs.antt =====
-- What `mark_matched` does to the stripes.
use stripe_merge.Common.{
  ℕ, ◌<◌, ◌≡◌, ◌≢◌, sym, ap, ◌∙◌, List, arith, length, set, length-set, get_or-set_self,
  get_or-set_ne,
}
use stripe_merge.Stripe.{Stripe, blank}
use stripe_merge.Matching.{stripe_at}
use stripe_merge.Matching.Marks.{matched_with, pair_up}

module _ (i j cost : ℕ) (ss : List Stripe) where
  -- After the first of the two writes.
  abbrev half : List Stripe
  half = set ss i (matched_with j cost (stripe_at ss i))

  abbrev other_half : Stripe
  other_half = matched_with i cost (stripe_at half j)

  pub length-pair_up : length (pair_up i j cost ss) ≡ length ss
  unfolding pair_up
  length-pair_up =
      length-set half j other_half ∙ length-set ss i (matched_with j cost (stripe_at ss i))

  pub pair_up_fst :
      i ≢ j
      → i < length ss
      → stripe_at (pair_up i j cost ss) i ≡ matched_with j cost (stripe_at ss i)
  unfolding pair_up
  pair_up_fst ne h =
      get_or-set_ne half j i other_half blank ne
      ∙ get_or-set_self ss i (matched_with j cost (stripe_at ss i)) blank h

  pub pair_up_snd :
      i ≢ j
      → j < length ss
      → stripe_at (pair_up i j cost ss) j ≡ matched_with i cost (stripe_at ss j)
  unfolding pair_up
  pair_up_snd ne h =
      get_or-set_self half j other_half blank
        (omega (arith, length-set ss i (matched_with j cost (stripe_at ss i))))
      ∙ ap (matched_with i cost)
          (get_or-set_ne ss i j (matched_with j cost (stripe_at ss i)) blank (λ e. ne (sym e)))

  pub pair_up_ne : (x : ℕ) → x ≢ i → x ≢ j → stripe_at (pair_up i j cost ss) x ≡ stripe_at ss x
  unfolding pair_up
  pair_up_ne x ni nj =
      get_or-set_ne half j x other_half blank nj
      ∙ get_or-set_ne ss i x (matched_with j cost (stripe_at ss i)) blank ni
