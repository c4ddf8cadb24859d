-- ===== src/Matching/Search/Tested.antt =====
-- `!get_cost(a, b) && !get_cost(d, e)` in `make_optimization` of src/matching_generator.cc.
use mathlib.Core.Bool.{false≢true}
use stripe_merge.Common.{
  ℕ, ◌^◌, ◌<◌, ◌≡◌, ◌≢◌, refl, sym, ◌∙◌, subst, Bool, true, List, none, ◌==◌, Bool-cases, inl, inr,
}
use stripe_merge.Stripe.{Params, Stripe}
use stripe_merge.Matching.{Generator}
use stripe_merge.Matching.CostTable.{get_cost, static_c}
use stripe_merge.Matching.CostTable.Cached.{pair_cost, Cached}
use stripe_merge.Matching.Search.Optimize.{cost_in, both_free}
use stripe_merge.Matching.Search.Blocks.{get_cost-SameBlocks}
use stripe_merge.Matching.Search.Partner.{same-eq}
use stripe_merge.Matching.Search.Perfect.{Done}

module _ (p : Params) (old : List Stripe) (n : ℕ) (small : n < 2 ^ 31) where
  abbrev c : ℕ
  c = static_c none n

  -- A cost that is asked for changes nothing but the table.
  cost_in_lem :
      (g : Generator) (i j : ℕ)
      → Done p old n g
      → i ≢ j
      → i < n
      → j < n
      → ((cost_in c i j g).0 ≡ pair_cost p old i j) × Done p old n (cost_in c i j g).1
  unfolding cost_in
  cost_in_lem g i j k ne hi hj =
      let (cost, table) =
        subst
          (λ q.
            ((get_cost c q g.stripes g.cost_table i j).0 ≡ pair_cost p old i j)
            × Cached p old n (get_cost c q g.stripes g.cost_table i j).1)
          (sym k.same_params)
          (get_cost-SameBlocks p old g.stripes n g.cost_table small k.perfect.blocks k.cached i j ne
            hi hj) in
      (
        cost,
        record {
          same_params = k.same_params;
          num = k.num;
          size = k.size;
          fresh = k.fresh;
          perfect = k.perfect;
          cached = table;
          zeros = k.zeros;
        },
      )

  -- After the test of two pairs.
  pub record IsTested (g : Generator) (a b d e : ℕ) (r : Bool × Generator) : Type 0 where
    pub done : Done p old n r.1
    pub stripes : r.1.stripes ≡ g.stripes
    pub rest : r.1.none_zero_candidate ≡ g.none_zero_candidate
    pub free : r.0 ≡ true → (pair_cost p old a b ≡ 0) × (pair_cost p old d e ≡ 0)

  pub both_free_lem :
      (g : Generator) (a b d e : ℕ)
      → Done p old n g
      → a ≢ b
      → d ≢ e
      → a < n
      → b < n
      → d < n
      → e < n
      → IsTested g a b d e (both_free c a b d e g)
  unfolding both_free cost_in
  both_free_lem g a b d e k ab de ha hb hd he =
      let (cost, done) = cost_in_lem g a b k ab ha hb in
      let g1 = (cost_in c a b g).1 in
      let (cost2, done2) = cost_in_lem g1 d e done de hd he in
      elim (Bool-cases ((cost_in c a b g).0 == 0)) [
        | inl zero_cost ↦
            rw (both_free, zero_cost)
              (record {
                done = done2;
                stripes = refl;
                rest = refl;
                free = λ t. (
                  sym cost ∙ same-eq (cost_in c a b g).0 0 zero_cost,
                  sym cost2 ∙ same-eq (cost_in c d e g1).0 0 t,
                );
              })
        | inr some_cost ↦
            rw (both_free, some_cost)
              (record {
                done = done;
                stripes = refl;
                rest = refl;
                free = λ t. absurd (false≢true t);
              })
      ]
