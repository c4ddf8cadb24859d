-- ===== src/Matching/Search/Matched.antt =====
-- StripeMerge-P from the rows of the caller to the blocks that are sent: `dist_based_search` of
-- src/matching_generator.cc, then `print_statics` and `get_sending_scheme`.
use mathlib.Core.Option.{none-ne-some}
use stripe_merge.Common.{
  ℕ, ◌+◌, ◌*◌, ◌/◌, ◌%◌, ◌^◌, ◌<◌, ◌≤◌, ◌≡◌, refl, sym, ap, ◌∙◌, subst, false, List, [], none, some,
  arith, length, All, AllBelow, AllBelow-count, count-range_above, range, replicate,
  length-replicate, Option-cases, inl, inr, ltb, IsShuffle,
}
use stripe_merge.Stripe.{Params, Stripe, blank, uint8_max}
use stripe_merge.Stripe.Cost.{IsPlaced}
use stripe_merge.Stripe.Deal.{IsRow}
use stripe_merge.Matching.{Generator, new_generator, input_stripes, stripe_at}
use stripe_merge.Matching.CostTable.{static_c}
use stripe_merge.Matching.CostTable.Cached.{pair_cost}
use stripe_merge.Matching.Greedy.Result.{IsMatched}
use stripe_merge.Matching.Input.{input_rows-IsPlaced, pair_cost-le}
use stripe_merge.Matching.Plan.{IsPlaced-cong}
use stripe_merge.Matching.Scheme.Merge.{IsMove}
use stripe_merge.Matching.Statistics.{print_statics, get_sending_scheme}
use stripe_merge.Matching.Statistics.Pairs.{IsMatching}
use stripe_merge.Matching.Statistics.Total.{IsPlannable, get_sending_scheme_lem}
use stripe_merge.Matching.Search.{build_map, build_rows}
use stripe_merge.Matching.Search.Optimize.{make_optimization}
use stripe_merge.Matching.Search.Rounds.{search_rounds, match_rest, dist_based_search}
use stripe_merge.Matching.Search.Total.{build_map_lem, dist_based_search_total}
use stripe_merge.Matching.Search.Blocks.{pair_cost-SameBlocks}
use stripe_merge.Matching.Search.Sound.{partner, cost_of}
use stripe_merge.Matching.Search.Invariant.{IsSearch}
use stripe_merge.Matching.Search.Finding.{IfSome}
use stripe_merge.Matching.Search.Running.{search_rounds-IsSearch}
use stripe_merge.Matching.Search.Perfect.{Done, Finished}
use stripe_merge.Matching.Search.Rest.{match_rest-Finished}
use stripe_merge.Matching.Search.Exchange.{make_optimization-Done}
use stripe_merge.Matching.Search.Built.{given, build_rows-IsSearch}

module _ (p : Params) (n : ℕ) (rows : List (List ℕ × List ℕ)) (placed : All (IsRow p) rows)
    (size : length rows ≡ n) (few : n < 2 ^ 31) (even : 2 * (n / 2) ≡ n)
    (small : 2 * p.rs_k + 2 * p.rs_m < 256) (room : 2 * p.rs_k + p.rs_m ≤ p.node_num)
    (shift : p.rs_m < 31) where
  abbrev c : ℕ
  c = static_c none n

  abbrev old : List Stripe
  old = given p n rows size (omega (arith, small)) even

  old-IsPlaced : (x : ℕ) → x < n → IsPlaced p (stripe_at old x)
  old-IsPlaced x h =
      input_rows-IsPlaced p 0 rows (replicate n blank) x placed
        (omega (arith, size, length-replicate n blank)) (omega (arith, h, length-replicate n blank))

  rested-Finished :
      (g : Generator) → IsSearch p old n [] g → IfSome (Finished p old n) (match_rest c g)
  rested-Finished g a =
      let k = ap (λ (q : Params). q.rs_k) a.same_params in
      let m = ap (λ (q : Params). q.rs_m) a.same_params in
      subst (λ q. IfSome (Finished q old n) (match_rest c g)) a.same_params
        (match_rest-Finished old n few g (subst (λ q. IsSearch q old n [] g) (sym a.same_params) a)
          (omega (arith, room, k, m, ap (λ (q : Params). q.node_num) a.same_params))
          (omega (arith, small, k, m))
          (λ i j h l.
            subst (λ q. pair_cost q old i j ≤ q.rs_k + q.rs_m) (sym a.same_params)
              (pair_cost-le p old i j (omega (arith, small)) (old-IsPlaced i (omega (arith, h, l)))
                (old-IsPlaced j l))))

  Done-IsMatched :
      (g : Generator) (x : ℕ)
      → Done p old n g
      → x < n
      → IsMatched p n g.stripes x (partner g.stripes x)
  Done-IsMatched g x d h =
      let f = d.perfect in
      let m = f.paired x h in
      record {
        inside = m.inside;
        other = m.other;
        there = refl;
        back = m.back;
        selected = (f.all x h, m.taken);
        cost = m.cost ∙ sym (pair_cost-SameBlocks p old g.stripes x (partner g.stripes x) f.blocks);
      }

  abbrev start : Generator
  start = input_stripes rows (new_generator p n)

  -- The generator once its maps are built.
  abbrev pub built : Generator
  built = build_rows (2 ^ p.rs_m % 256) (range 0 n) start

  start-built : build_map start ≡ some built
  unfolding input_stripes new_generator
  start-built = build_map_lem start shift

  -- The stages of a run, each with what it leaves.
  stages :
      (all_one : ℕ)
      → all_one < 2 ^ 8
      → (h t : Generator) × (search_rounds c all_one (range 0 p.rs_m) built ≡ some h)
        × (match_rest c h ≡ some t)
        × (dist_based_search c all_one start ≡ some (make_optimization c t))
        × Finished p old n t
  unfolding dist_based_search input_stripes new_generator
  stages all_one l =
      let (g, total) =
        dist_based_search_total c all_one start room shift (omega (arith, small)) l in
      let searching =
        build_rows-IsSearch p n rows size (omega (arith, small)) even (2 ^ p.rs_m % 256) in
      let enough : ltb p.node_num (2 * p.rs_k + p.rs_m) ≡ false = ground (arith, room) in
      let low : AllBelow uint8_max (range 0 p.rs_m) =
        AllBelow-count uint8_max (range 0 p.rs_m)
          (λ x h. ground (arith, small, count-range_above x 0 p.rs_m)) in
      let searched =
        search_rounds-IsSearch p old n few all_one (range 0 p.rs_m) built low searching in
      elim (Option-cases (search_rounds c all_one (range 0 p.rs_m) built)) [
        | inl e ↦
            let stuck : dist_based_search c all_one start ≡ none =
              rw (dist_based_search, enough, start-built, e) refl in
            absurd (none-ne-some g (sym stuck ∙ total))
        | inr (h, e) ↦
            let rested = rested-Finished h (subst (IfSome (IsSearch p old n [])) e searched) in
            elim (Option-cases (match_rest c h)) [
              | inl e' ↦
                  let stuck : dist_based_search c all_one start ≡ none =
                    rw (dist_based_search, enough, start-built, e, e') refl in
                  absurd (none-ne-some g (sym stuck ∙ total))
              | inr (t, e') ↦ (
                h,
                t,
                e,
                e',
                rw (dist_based_search, enough, start-built, e, e') refl,
                subst (IfSome (Finished p old n)) e' rested,
              )
            ]
      ]

  dist_based_search-Done :
      (all_one : ℕ)
      → all_one < 2 ^ 8
      → (g : Generator) × (dist_based_search c all_one (input_stripes rows (new_generator p n))
          ≡ some g)
        × Done p old n g
  dist_based_search-Done all_one l =
      let (h, t, _, _, e, f) = stages all_one l in
      (make_optimization c t, e, (make_optimization-Done p old n few t f).0)

  -- Under the conditions of `dist_based_sending_scheme` on the rows, the parameters and `all_one`,
  -- of which a positive `rs_k` and fewer than 2^16 nodes are not needed: the maps are built, the
  -- rounds and the greedy matching of the rest return with every stripe matched at the cost of the
  -- pair, `dist_based_search` is `make_optimization` of that, and after it every stripe is again
  -- matched at the cost of the pair, and none at more than before.
  pub make_optimization_lem :
      (all_one : ℕ)
      → all_one < 2 ^ 8
      → (b h t : Generator) × (build_map start ≡ some b)
        × (search_rounds c all_one (range 0 p.rs_m) b ≡ some h)
        × (match_rest c h ≡ some t)
        × (dist_based_search c all_one start ≡ some (make_optimization c t))
        × ((x : ℕ) → x < n → IsMatched p n t.stripes x (partner t.stripes x))
        × ((x : ℕ)
            → x < n
            → IsMatched p n
                (make_optimization c t).stripes
                x
                (partner (make_optimization c t).stripes x))
        × ((x : ℕ) → cost_of (make_optimization c t).stripes x ≤ cost_of t.stripes x)
  make_optimization_lem all_one l =
      let (h, t, searched, rested, e, f) = stages all_one l in
      let (d, less) = make_optimization-Done p old n few t f in
      (
        built,
        h,
        t,
        start-built,
        searched,
        rested,
        e,
        λ x l. Done-IsMatched t x f.0 l,
        λ x l. Done-IsMatched (make_optimization c t) x d l,
        less,
      )

  Done-IsMatching : (g : Generator) → Done p old n g → IsMatching p n g.stripes
  Done-IsMatching g d = record {
    placed = λ x h.
        IsPlaced-cong p (stripe_at old x) (stripe_at g.stripes x) (d.perfect.blocks.raw x)
          (d.perfect.blocks.parity x) (old-IsPlaced x h);
    paired = λ x h.
        let m = Done-IsMatched g x d h in
        record { inside = m.inside; other = m.other; back = m.back; cost = m.cost };
  }

  Done-IsPlannable :
      (g : Generator) → Done p old n g → 0 < p.rs_k → p.node_num < 2 ^ 16 → IsPlannable g
  Done-IsPlannable g d some_data nodes =
      let k = ap (λ (q : Params). q.rs_k) d.same_params in
      let m = ap (λ (q : Params). q.rs_m) d.same_params in
      let hosts = ap (λ (q : Params). q.node_num) d.same_params in
      record {
        matching =
            subst (λ q. IsMatching q g.stripes_num g.stripes) (sym d.same_params)
              (subst (λ i. IsMatching p i g.stripes) (sym d.num) (Done-IsMatching g d));
        stripes_small = omega (arith, few, d.num);
        fresh = d.fresh;
        blocks = omega (arith, d.size, k, m);
        small = omega (arith, small, k, m);
        some_data = omega (arith, some_data, k);
        room = omega (arith, room, k, m, hosts);
        nodes = omega (arith, nodes, hosts);
      }

-- For an even number of fewer than 2^31 rows that place their blocks soundly, under the conditions
-- of `get_sending_scheme_lem` on the parameters and the shuffle, with `rs_m < 31` and an `all_one`
-- that is a byte, `dist_based_search` after `input_stripes` returns with every stripe matched with a
-- stripe that is matched with it, at the cost of the pair: the partners that the rounds find are
-- free, the greedy matching takes all that are left, and the exchanges keep the pairs. The total
-- that `print_statics` then returns is the number of blocks that `get_sending_scheme` plans, in 32
-- bits, and each block goes from a node of the cluster to another one.
pub dist_based_sending_scheme :
    (p : Params) (n all_one : ℕ) (rows : List (List ℕ × List ℕ)) (shuffle : ℕ → List ℕ → List ℕ)
    → IsShuffle shuffle
    → All (IsRow p) rows
    → length rows ≡ n
    → n < 2 ^ 31
    → 2 * (n / 2) ≡ n
    → 0 < p.rs_k
    → 2 * p.rs_k + 2 * p.rs_m < 256
    → 2 * p.rs_k + p.rs_m ≤ p.node_num
    → p.node_num < 2 ^ 16
    → p.rs_m < 31
    → all_one < 2 ^ 8
    → (g : Generator) × (dist_based_search
          (static_c none n)
          all_one
          (input_stripes rows (new_generator p n))
        ≡ some g)
      × ((x : ℕ) → x < n → IsMatched p n g.stripes x (stripe_at g.stripes x).matching_index)
      × (print_statics g ≡ some (length (get_sending_scheme shuffle g).blocks_to_sent % 2 ^ 32))
      × All (IsMove p.node_num) (get_sending_scheme shuffle g).blocks_to_sent
dist_based_sending_scheme p n all_one rows shuffle fair placed size few even some_data small room
      nodes shift l =
    let (g, e, d) =
      dist_based_search-Done p n rows placed size few even small room shift all_one l in
    let ready =
      Done-IsPlannable p n rows placed size few even small room shift g d some_data nodes in
    let (total, moves) = get_sending_scheme_lem shuffle g fair ready in
    (
      g,
      e,
      λ x h. Done-IsMatched p n rows placed size few even small room shift g x d h,
      total,
      subst (λ (q : Params). All (IsMove q.node_num) (get_sending_scheme shuffle g).blocks_to_sent)
          d.same_params moves,
    )
