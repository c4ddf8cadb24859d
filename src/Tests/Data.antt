-- ===== src/Tests/Data.antt =====
-- Two stripes of RS(2, 1) on five nodes: both have their data blocks on nodes 0 and 1.
use stripe_merge.Common.{ℕ, refl, List, [], ◌∷◌, arith, All, IsShuffle}
use stripe_merge.Stripe.{Params, Stripe, blank, set_info}
use stripe_merge.Stripe.Cost.{IsPlaced}
use stripe_merge.Stripe.Deal.{IsRow}
use stripe_merge.Matching.{Generator, new_generator, input_stripes}

abbrev pub five : Params
five = record { node_num = 5; rs_k = 2; rs_m = 1 }

abbrev pub rows : List (List ℕ × List ℕ)
rows = (0 ∷ 1 ∷ [], 2 ∷ []) ∷ (0 ∷ 1 ∷ [], 3 ∷ []) ∷ []

abbrev pub left : Stripe
left = record blank { data_dist = 0 ∷ 1 ∷ []; parity_dist = 2 ∷ [] }

abbrev pub right : Stripe
right = record blank { data_dist = 0 ∷ 1 ∷ []; parity_dist = 3 ∷ [] }

pub left-IsPlaced : IsPlaced five left
left-IsPlaced = record {
  data_length = refl;
  parity_length = refl;
  distinct = λ x. ground arith;
  inside = omega arith;
}

pub right-IsPlaced : IsPlaced five right
right-IsPlaced = record {
  data_length = refl;
  parity_length = refl;
  distinct = λ x. ground arith;
  inside = omega arith;
}

pub rows-IsRow : All (IsRow five) rows
unfolding set_info
rows-IsRow = (
  λ i s. record {
    data_length = refl;
    parity_length = refl;
    distinct = λ x. ground arith;
    inside = omega arith;
  },
  (
    λ i s. record {
      data_length = refl;
      parity_length = refl;
      distinct = λ x. ground arith;
      inside = omega arith;
    },
    tt,
  ),
)

-- A shuffle that leaves everything in place.
abbrev pub still : ℕ → List ℕ → List ℕ
still seed xs = xs

pub still-IsShuffle : IsShuffle still
still-IsShuffle = record { same_length = λ i xs. refl; same_count = λ i z xs. refl }

abbrev pub two_stripes : Generator
two_stripes = input_stripes rows (new_generator five 2)
