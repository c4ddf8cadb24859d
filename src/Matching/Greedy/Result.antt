-- ===== src/Matching/Greedy/Result.antt =====
-- What `basic_greedy` (StripeMerge-G) promises: a matching that no pair of stripes would leave.
use stripe_merge.Common.{
  ℕ, ◌+◌, ◌*◌, ◌/◌, ◌≤◌, ◌<◌, ◌≡◌, ◌≢◌, ◌^◌, refl, sym, ap, ◌∙◌, ◌⊎◌, inl, inr, Bool, true, false,
  subst, List, [], arith, Bool-cases, ltb, if◌then◌else◌, length, get_or, replicate, All,
  length-replicate, get_or-replicate, count_true, count_true-replicate, none, some,
}
use mathlib.Core.Bool.{false≢true}
use stripe_merge.Stripe.{Params, Stripe, compute_cost}
use stripe_merge.Matching.{Generator, stripe_at}
use stripe_merge.Matching.CostTable.{token, token_i, token_j, static_c}
use stripe_merge.Matching.CostTable.Slots.{token-fields}
use stripe_merge.Matching.CostTable.Cached.{pair_cost, Cached}
use stripe_merge.Matching.Greedy.{Pick, greedy_fill, greedy_pick, basic_greedy, add_costs}
use stripe_merge.Matching.Greedy.Levels.{MayMatch, IsEntry, greedy_fill_lem}
use stripe_merge.Matching.Greedy.Weights.{weighted-replicate_zero, paid-replicate}
use stripe_merge.Matching.Greedy.Select.{IsSelection, taken, now}
use stripe_merge.Matching.Greedy.Stable.{Below, Settles, eligible}
use stripe_merge.Matching.Greedy.Settled.{pick_levels-LevelsDone, LevelsDone}

-- The cost of a pair is a matter of its blocks.
pub compute_cost-cong :
    (p : Params) (a a' b b' : Stripe)
    → a.data_dist ≡ a'.data_dist
    → a.parity_dist ≡ a'.parity_dist
    → b.data_dist ≡ b'.data_dist
    → b.parity_dist ≡ b'.parity_dist
    → compute_cost p a b ≡ compute_cost p a' b'
unfolding compute_cost
compute_cost-cong p a a' b b' da pa db pb = cc

-- Stripe `x` is not matched.
abbrev pub Unmatched : List Stripe → ℕ → Type 0
Unmatched ss x = (stripe_at ss x).selected ≡ false

-- Stripe `x` is matched with the stripe that it names, and that with it, at the cost of the pair.
pub record IsMatched (p : Params) (n : ℕ) (ss : List Stripe) (x y : ℕ) : Type 0 where
  pub inside : y < n
  pub other : y ≢ x
  pub there : (stripe_at ss x).matching_index ≡ y
  pub back : (stripe_at ss y).matching_index ≡ x
  pub selected : ((stripe_at ss x).selected ≡ true) × ((stripe_at ss y).selected ≡ true)
  pub cost : (stripe_at ss x).cur_cost ≡ pair_cost p ss x y

-- Stripe `x` is matched at a cost of at most `cost`.
abbrev pub MatchedWithin : List Stripe → ℕ → ℕ → Type 0
MatchedWithin ss cost x = ((stripe_at ss x).selected ≡ true) × ((stripe_at ss x).cur_cost ≤ cost)

-- A generator that `basic_greedy(remain_flag)` may be called on: the costs fit the levels, the table is
-- sound, and enough pairs are to be selected.
pub record IsReady (remain_flag : Bool) (g : Generator) : Type 0 where
  pub whole : length g.stripes ≡ g.stripes_num
  pub small : g.stripes_num < 2 ^ 31
  pub hosts : 2 * g.rs_k + g.rs_m ≤ g.node_num
  pub levels : g.rs_n < 255
  pub costs : (i j : ℕ) → i < j → j < g.stripes_num → pair_cost g.params g.stripes i j ≤ g.rs_n
  pub cached : Cached g.params g.stripes g.stripes_num g.cost_table
  pub enough :
      count_true (eligible remain_flag g.stripes)
      ≤ 2 * (if remain_flag then length g.remaining_stripes / 2 else g.stripes_num / 2) + 1

module _ (remain_flag : Bool) (g : Generator) (r : IsReady remain_flag g) where
  abbrev pub filled : List (List ℕ)
  filled = (greedy_fill remain_flag (static_c none g.stripes_num) g).levels

  abbrev pub picked : Pick
  picked = greedy_pick remain_flag filled g

  abbrev pub num : ℕ
  num = if remain_flag then length g.remaining_stripes / 2 else g.stripes_num / 2

  abbrev pub start : Pick
  start = record {
    selected = replicate (g.rs_n + 1) 0;
    num_to_select = num;
    flag = replicate g.stripes_num false;
    stripes = g.stripes;
  }

  start-IsSelection :
      IsSelection g.params g.stripes g.stripes_num
        (MayMatch remain_flag g.params g.stripes g.stripes_num g.rs_n)
        num
        0
        start
  start-IsSelection = record {
    flag_size = length-replicate g.stripes_num false;
    stripes_size = r.whole;
    spent = λ fits.
        omega
          (arith, weighted-replicate_zero 0 (g.rs_n + 1), paid-replicate g.stripes_num g.stripes);
    budget = omega (arith, count_true-replicate g.stripes_num);
    same_data = λ x. refl;
    same_parity = λ x. refl;
    free = λ x t. refl;
    paired = λ x t. cc (t, get_or-replicate g.stripes_num x false);
  }

  pub picked-LevelsDone :
      LevelsDone remain_flag g.params g.stripes g.stripes_num g.rs_n num r.whole r.enough 0 filled
        start picked
  unfolding greedy_pick
  picked-LevelsDone =
      pick_levels-LevelsDone remain_flag g.params g.stripes g.stripes_num g.rs_n num r.whole
        r.enough 0 filled start start-IsSelection
        (λ k.
          subst
            (λ c.
              All (IsEntry remain_flag g.params g.stripes g.stripes_num g.rs_n c)
                (get_or filled k []))
            (omega arith) ((greedy_fill_lem remain_flag g r.small r.costs r.cached).0.entries k))

  Unmatched-MayMatch :
      (x : ℕ)
      → Unmatched g.stripes x
      → MayMatch remain_flag g.params g.stripes g.stripes_num g.rs_n x
  Unmatched-MayMatch x u = ground arith

  -- The stripes keep their blocks, so the costs of pairs stay.
  same_cost : (i j : ℕ) → pair_cost g.params g.stripes i j ≡ pair_cost g.params picked.stripes i j
  same_cost i j =
      let blocks = picked-LevelsDone.inv.same_data in
      let parity = picked-LevelsDone.inv.same_parity in
      ground (
        arith,
        compute_cost-cong g.params (stripe_at picked.stripes i) (stripe_at g.stripes i)
            (stripe_at picked.stripes j) (stripe_at g.stripes j) (blocks i) (parity i) (blocks j)
            (parity j),
        compute_cost-cong g.params (stripe_at picked.stripes j) (stripe_at g.stripes j)
            (stripe_at picked.stripes i) (stripe_at g.stripes i) (blocks j) (parity j) (blocks i)
            (parity i),
      )

  pub picked-IsMatched :
      (x : ℕ)
      → Unmatched g.stripes x
      → (now picked x).selected ≡ true
      → IsMatched g.params g.stripes_num picked.stripes x (now picked x).matching_index
  picked-IsMatched x u sel = elim (Bool-cases (taken picked x)) [
    | inl t ↦
        let m = (picked-LevelsDone.inv.paired x t).1 in
        let m' = (picked-LevelsDone.inv.paired _ m.mate_taken).1 in
        record {
          inside = m.inside;
          other = m.other;
          there = m.there;
          back = m.back;
          selected = (m.selected, m'.selected);
          cost = m.cost ∙ same_cost x _;
        }
    | inr f ↦ absurd (
        false≢true
          (sym u ∙ ap (λ (s : Stripe). s.selected) (sym (picked-LevelsDone.inv.free x f)) ∙ sel))
  ]

  Below-MatchedWithin : (cost x : ℕ) → Below picked cost x → MatchedWithin picked.stripes cost x
  Below-MatchedWithin cost x (t, h) = ((picked-LevelsDone.inv.paired x t).1.selected, h)

  pub picked-settled :
      (i j : ℕ)
      → i < j
      → j < g.stripes_num
      → Unmatched g.stripes i
      → Unmatched g.stripes j
      → MatchedWithin picked.stripes (pair_cost g.params g.stripes i j) i
        ⊎ MatchedWithin picked.stripes (pair_cost g.params g.stripes i j) j
  picked-settled i j h l ui uj =
      let cost = pair_cost g.params g.stripes i j in
      let listed =
        (greedy_fill_lem remain_flag g r.small r.costs r.cached).1 i j h l (Unmatched-MayMatch i ui)
          (Unmatched-MayMatch j uj) in
      let (ei, ej) = token-fields i j (omega (arith, r.small)) (omega (arith, r.small)) in
      let settled : Settles picked cost i j =
        subst (λ x. Settles picked cost x j) ei
          (subst (λ y. Settles picked cost (token_i (token i j)) y) ej
            (subst (λ c. Settles picked c (token_i (token i j)) (token_j (token i j))) (omega arith)
              (picked-LevelsDone.settled cost (token i j) listed))) in
      elim settled [
        | inl b ↦ inl (Below-MatchedWithin cost i b)
        | inr b ↦ inr (Below-MatchedWithin cost j b)
      ]

-- On a generator that is ready (fewer than 2^31 stripes, enough nodes, `rs_n < 255`, costs of at
-- most `rs_n`, a sound cost table that this generator's size indexes, at most one stripe more than
-- are to be selected), `basic_greedy` returns; each stripe that it matches is matched with a stripe
-- that is matched with it, at the cost of the pair; and of any two stripes that it might have
-- matched, one is matched at no more than the two would cost together.
pub basic_greedy_stable :
    (remain_flag : Bool) (g : Generator)
    → IsReady remain_flag g
    → (g' : Generator) × (total : ℕ) × (basic_greedy remain_flag (static_c none g.stripes_num) g
        ≡ some (g', total))
      × ((x : ℕ)
          → Unmatched g.stripes x
          → (stripe_at g'.stripes x).selected ≡ true
          → IsMatched g.params g.stripes_num g'.stripes x (stripe_at g'.stripes x).matching_index)
      × ((i j : ℕ)
          → i < j
          → j < g.stripes_num
          → Unmatched g.stripes i
          → Unmatched g.stripes j
          → MatchedWithin g'.stripes (pair_cost g.params g.stripes i j) i
            ⊎ MatchedWithin g'.stripes (pair_cost g.params g.stripes i j) j)
unfolding basic_greedy
basic_greedy_stable remain_flag g r =
    let ltb_ge : ltb g.node_num (2 * g.rs_k + g.rs_m) ≡ false = ground (arith, r.hosts) in
    let ends : ltb g.rs_n 255 ≡ true = ground (arith, r.levels) in
    (
      record g {
        cost_table = (greedy_fill remain_flag (static_c none g.stripes_num) g).table;
        stripes = (picked remain_flag g r).stripes;
      },
      if remain_flag then 0 else add_costs 0 (picked remain_flag g r).selected 0,
      rw (ltb_ge, ends) refl,
      picked-IsMatched remain_flag g r,
      picked-settled remain_flag g r,
    )
