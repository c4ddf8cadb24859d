-- ===== src/Matching/Search/Built.antt =====
-- `build_map` of src/matching_generator.cc begins a search in which every stripe is free.
use mathlib.Core.Bool.{false≢true}
use stripe_merge.Common.{
  ℕ, zero, suc, ◌+◌, ◌-◌, ◌*◌, ◌/◌, ◌<◌, ◌≤◌, ◌≡◌, refl, sym, ◌∙◌, subst, false, List, [], ◌∷◌,
  ◌++◌, arith, length, All, All-append, range, count, count-append, count-range_inside, replicate,
  length-replicate,
}
use stripe_merge.Stripe.{Params, Stripe, blank}
use stripe_merge.Matching.{Generator, DistMap, stripe_at, new_generator, input_rows, input_stripes}
use stripe_merge.Matching.CostTable.Cached.{Cached, new_table-Cached}
use stripe_merge.Matching.Marks.{push_back}
use stripe_merge.Matching.Input.{length-input_rows, input_rows-Unmatched, input_rows-cur_cost}
use stripe_merge.Matching.Search.{build_partial, build_rows, partial_key}
use stripe_merge.Matching.Search.Blocks.{free_count}
use stripe_merge.Matching.Search.Sound.{is_selected, Sound}
use stripe_merge.Matching.Search.Maps.{AllMap, push_back-AllMap}
use stripe_merge.Matching.Search.Partner.{Below}
use stripe_merge.Matching.Search.Invariant.{IsZero, AllCandidates, IsSearch}

build_partial-AllMap :
    (P : ℕ → Type 0) (index : ℕ) (pd ss : List ℕ) (m : DistMap)
    → P index
    → AllMap P m
    → AllMap P (build_partial index pd ss m)
unfolding build_partial
build_partial-AllMap P index pd [] m h a = a
build_partial-AllMap P index pd (s ∷ ss) m h a =
    build_partial-AllMap P index pd ss (push_back (partial_key s pd) index m) h
      (push_back-AllMap P (partial_key s pd) index m h a)

module _ (p : Params) (old : List Stripe) (n : ℕ) where
  -- While the maps are built.
  record IsBuilt (g : Generator) : Type 0 where
    same_params : g.params ≡ p
    num : g.stripes_num ≡ n
    size : g.rs_n ≡ p.rs_k + p.rs_m
    fresh : g.blocks_to_sent ≡ []
    stripes : g.stripes ≡ old
    cached : Cached p old n g.cost_table
    domains : AllMap (Below n) g.parity_map
    partials : AllMap (Below n) g.partial_dist_map
    zeros : g.zero_map ≡ []
    candidates : g.none_zero_candidate ≡ []
    listed : All (Below n) g.remaining_stripes

  build_rows-IsBuilt :
      (up : ℕ) (is : List ℕ) (g : Generator)
      → All (Below n) is
      → IsBuilt g
      → IsBuilt (build_rows up is g)
  unfolding build_rows
  build_rows-IsBuilt up [] g h b = b
  build_rows-IsBuilt up (i ∷ is) g h b =
      let pd = (stripe_at g.stripes i).parity_dist in
      build_rows-IsBuilt up is _ h.1 (record {
        same_params = b.same_params;
        num = b.num;
        size = b.size;
        fresh = b.fresh;
        stripes = b.stripes;
        cached = b.cached;
        domains = push_back-AllMap (Below n) pd i g.parity_map h.0 b.domains;
        partials =
            build_partial-AllMap (Below n) i pd (range 1 (up - 1)) g.partial_dist_map h.0
              b.partials;
        zeros = b.zeros;
        candidates = b.candidates;
        listed = All-append (Below n) g.remaining_stripes (i ∷ []) b.listed (h.0, tt);
      })

  abbrev build_row : ℕ → ℕ → Generator → Generator
  build_row up i g = record g {
    parity_map = push_back (stripe_at g.stripes i).parity_dist i g.parity_map;
    remaining_stripes = g.remaining_stripes ++ i ∷ [];
    partial_dist_map =
        build_partial i (stripe_at g.stripes i).parity_dist (range 1 (up - 1)) g.partial_dist_map;
  }

  build_rows-count :
      (up : ℕ) (is : List ℕ) (g : Generator) (x : ℕ)
      → count x (build_rows up is g).remaining_stripes ≡ count x g.remaining_stripes + count x is
  unfolding build_rows
  build_rows-count up [] g x = omega arith
  build_rows-count up (i ∷ is) g x =
      let e = build_rows-count up is (build_row up i g) x in
      ground (arith, e, count-append x g.remaining_stripes (i ∷ []))

range-Below : (n i m : ℕ) → i + m ≤ n → All (Below n) (range i m)
range-Below n i zero h = tt
range-Below n i (suc m) h = (omega arith, range-Below n (i + 1) m (omega arith))

module _ (p : Params) (n : ℕ) (rows : List (List ℕ × List ℕ)) (size : length rows ≡ n)
    (low : p.rs_k + p.rs_m < 256) (even : 2 * (n / 2) ≡ n) where
  abbrev pub given : List Stripe
  given = input_rows p 0 rows (replicate n blank)

  count-free : (ss : List Stripe) → ((x : ℕ) → is_selected ss x ≡ false) → free_count ss ≡ length ss
  count-free [] f = refl
  count-free (s ∷ ss) f = ground (arith, f 0, count-free ss (λ x. f (suc x)))

  length-given : length given ≡ n
  length-given = length-input_rows p 0 rows (replicate n blank) ∙ length-replicate n blank

  given-Sound : Sound p given n given
  given-Sound =
      let free = input_rows-Unmatched p 0 rows n in
      record {
        whole = length-given;
        blocks = record { raw = λ x. refl; parity = λ x. refl };
        paired = λ x h t. absurd (false≢true (sym (free x) ∙ t));
        guess = λ x h f c. absurd (c (input_rows-cur_cost p 0 rows n x));
        even = let all_free = count-free given free in omega (arith, all_free, length-given, even);
      }

  pub build_rows-IsSearch :
      (up : ℕ)
      → IsSearch p given n [] (build_rows up (range 0 n) (input_stripes rows (new_generator p n)))
  unfolding input_stripes new_generator
  build_rows-IsSearch up =
      let g : Generator = input_stripes rows (new_generator p n) in
      let b =
        build_rows-IsBuilt p given n up (range 0 n) g (range-Below n 0 n (omega arith)) (record {
          same_params = refl;
          num = refl;
          size = omega (arith, low);
          fresh = refl;
          stripes = refl;
          cached = new_table-Cached p given n;
          domains = tt;
          partials = tt;
          zeros = refl;
          candidates = refl;
          listed = tt;
        }) in
      let built : Generator = build_rows up (range 0 n) g in
      record {
        same_params = b.same_params;
        num = b.num;
        size = b.size;
        fresh = b.fresh;
        sound = subst (Sound p given n) (sym b.stripes) given-Sound;
        cached = b.cached;
        domains = b.domains;
        partials = b.partials;
        zeros = subst (AllMap (IsZero n built.stripes)) (sym b.zeros) tt;
        candidates = subst (AllCandidates n built.stripes) (sym b.candidates) tt;
        listed = b.listed;
        dropped = tt;
        rest = λ x h f. omega (
          arith,
          build_rows-count p given n up (range 0 n) g x,
          count-range_inside x 0 n (omega arith) (omega (arith, h)),
        );
      }
