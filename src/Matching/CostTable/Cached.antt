-- ===== src/Matching/CostTable/Cached.antt =====
-- `MatchingGenerator::get_cost` returns what `Stripe::compute_cost` does, whatever it has cached.
use stripe_merge.Common.{
  ℕ, ◌-◌, ◌*◌, ◌/◌, ◌^◌, ◌<◌, ◌≡◌, ◌≢◌, refl, sym, ap, ap₂, ◌∙◌, ◌⊎◌, inl, inr, List, none, arith,
  ◌==◌, ltb, if◌then◌else◌, Bool-cases, length, get_or, set, replicate, length-set,
  length-replicate, get_or-replicate, get_or-set_self, get_or-set_ne, ℕ_discrete,
}
use stripe_merge.Stripe.{Params, Stripe, compute_cost, uint8_max}
use stripe_merge.Matching.{stripe_at}
use stripe_merge.Matching.CostTable.{slot, cost_at, get_cost, static_c}
use stripe_merge.Matching.CostTable.Slots.{slot-lt, slot-injective, static_c_lem}

-- The cost of a pair, the stripe of the smaller index first.
abbrev pub pair_cost : Params → List Stripe → ℕ → ℕ → ℕ
pair_cost p ss i j =
    if ltb j i
    then compute_cost p (stripe_at ss j) (stripe_at ss i)
    else compute_cost p (stripe_at ss i) (stripe_at ss j)

-- Every cell is empty or holds the cost of its pair.
pub record Cached (p : Params) (ss : List Stripe) (n : ℕ) (table : List ℕ) : Type 0 where
  pub size : length table ≡ n * (n - 1) / 2
  pub sound :
      (i j : ℕ)
      → i < j
      → j < n
      → (get_or table (slot (static_c none n) i j) uint8_max ≡ uint8_max)
        ⊎ (get_or table (slot (static_c none n) i j) uint8_max
            ≡ compute_cost p (stripe_at ss i) (stripe_at ss j))

pub new_table-Cached :
    (p : Params) (ss : List Stripe) (n : ℕ) → Cached p ss n (replicate (n * (n - 1) / 2) uint8_max)
new_table-Cached p ss n = record {
  size = length-replicate _ _;
  sound =
      λ i j h l. inl (get_or-replicate (n * (n - 1) / 2) (slot (static_c none n) i j) uint8_max);
}

module _ (p : Params) (ss : List Stripe) (n : ℕ) (table : List ℕ) (small : n < 2 ^ 31)
    (ok : Cached p ss n table) where
  abbrev c : ℕ
  c = static_c none n

  fill-Cached :
      (i j : ℕ)
      → i < j
      → j < n
      → Cached p ss n (set table (slot c i j) (compute_cost p (stripe_at ss i) (stripe_at ss j)))
  fill-Cached i j h l =
      let cost = compute_cost p (stripe_at ss i) (stripe_at ss j) in
      record {
        size = length-set table _ _ ∙ ok.size;
        sound = λ k m hk hm. elim (ℕ_discrete (slot c k m) (slot c i j)) [
          | yes e ↦
              let (ek, em) =
                slot-injective c n k m i j (static_c_lem n (omega arith) small) small hk hm h l e in
              inr (
                ap (λ s. get_or (set table (slot c i j) cost) s uint8_max) e
                ∙ get_or-set_self table (slot c i j) cost uint8_max (
                    omega (
                      arith,
                      ok.size,
                      slot-lt c n i j (static_c_lem n (omega arith) small) small h l,
                    ))
                ∙ ap₂ (λ x y. compute_cost p (stripe_at ss x) (stripe_at ss y)) (sym ek) (sym em))
          | no ne ↦
              ground (
                arith,
                ok.sound k m,
                get_or-set_ne table (slot c i j) (slot c k m) cost uint8_max ne,
              )
        ];
      }

  cost_at_lem :
      (i j : ℕ)
      → i < j
      → j < n
      → ((cost_at c p ss table i j).0 ≡ compute_cost p (stripe_at ss i) (stripe_at ss j))
        × Cached p ss n (cost_at c p ss table i j).1
  unfolding cost_at
  cost_at_lem i j h l = elim (Bool-cases (get_or table (slot c i j) uint8_max == uint8_max)) [
    | inl empty ↦ rw empty (refl, fill-Cached i j h l)
    | inr full ↦ rw full (ground (arith, ok.sound i j), ok)
  ]

  -- For two different stripes of fewer than 2^31, a sound table and a static `c` that this number
  -- sets, the result is the cost of the pair, cached or not, in whichever order the two are given,
  -- and the table stays sound.
  pub get_cost_lem :
      (i j : ℕ)
      → i ≢ j
      → i < n
      → j < n
      → ((get_cost c p ss table i j).0 ≡ pair_cost p ss i j)
        × Cached p ss n (get_cost c p ss table i j).1
  unfolding get_cost
  get_cost_lem i j ne hi hj = elim (Bool-cases (ltb j i)) [
    | inl less ↦ rw less (cost_at_lem j i (ground arith) hi)
    | inr more ↦ rw more (cost_at_lem i j (ground arith) hj)
  ]
