-- ===== src/Matching/Search/Marked.antt =====
-- `mark_matched` of src/matching_generator.cc keeps the invariant of the search.
use mathlib.Core.Bool.{false≢true}
use stripe_merge.Common.{
  ℕ, ◌<◌, ◌≡◌, ◌≢◌, sym, ap, ◌∙◌, true, false, List, [], ◌∷◌, ◌++◌, All-append, arith, ◌==◌,
  Bool-cases, inl, inr,
}
use stripe_merge.Stripe.{Params, Stripe, cmp_parity}
use stripe_merge.Matching.{Generator, DistMap, stripe_at}
use stripe_merge.Matching.CostTable.Cached.{pair_cost}
use stripe_merge.Matching.Marks.{pair_up, mark_matched, push_front}
use stripe_merge.Matching.Marks.Pairs.{pair_up_fst}
use stripe_merge.Matching.Search.Sound.{
  partner, is_selected, cost_of, Sound, Keeps, pair_up-Keeps, pair_up-Sound, pair_up-taken,
  pair_up-free,
}
use stripe_merge.Matching.Search.Maps.{AllMap, AllMap-weaken, All-weaken, push_front-AllMap}
use stripe_merge.Matching.Search.Invariant.{
  IsZero, IsCandidate, AllCandidates, Keeps-IsZero, Keeps-AllCandidates, IsSearch,
}

-- A stripe that was free before is added to the candidates.
candidates-append :
    (p : Params) (old : List Stripe) (n : ℕ) (ss ts : List Stripe) (xs : List ℕ) (i : ℕ)
    → Sound p old n ss
    → Keeps p old n ss ts
    → is_selected ss i ≡ false
    → IsCandidate n ts i []
    → AllCandidates n ss xs
    → AllCandidates n ts (xs ++ i ∷ [])
candidates-append p old n ss ts [] i s k f new a = (new, tt)
candidates-append p old n ss ts (x ∷ xs) i s k f new (a, more) =
    let same = k x a.taken in
    let m = s.paired x a.inside a.taken in
    (
      record {
        inside = a.inside;
        taken = ap (λ (s : Stripe). s.selected) same ∙ a.taken;
        costs = λ e. a.costs (sym (ap (λ (s : Stripe). s.cur_cost) same) ∙ e);
        apart =
            All-append (λ y. (y ≢ x) × (y ≢ partner ts x)) xs (i ∷ [])
              (All-weaken (λ y. (y ≢ x) × (y ≢ partner ss x)) (λ y. (y ≢ x) × (y ≢ partner ts x)) xs
                (λ y (n1, n2). (n1, λ e. n2 (e ∙ ap (λ (s : Stripe). s.matching_index) same)))
                a.apart)
              (
                (
                  λ e. false≢true (sym f ∙ ap (is_selected ss) e ∙ a.taken),
                  λ e. false≢true (
                      sym f
                      ∙ ap (is_selected ss) (e ∙ ap (λ (s : Stripe). s.matching_index) same)
                      ∙ m.taken),
                ),
                tt,
              );
      },
      candidates-append p old n ss ts xs i s k f new more,
    )

module _ (p : Params) (old : List Stripe) (n : ℕ) (it : List ℕ) (i j cost : ℕ) (g : Generator)
    (a : IsSearch p old n it g) (ne : i ≢ j) (hi : i < n) (hj : j < n)
    (fi : is_selected g.stripes i ≡ false) (fj : is_selected g.stripes j ≡ false)
    (e : cost ≡ pair_cost p old i j) where
  abbrev ts : List Stripe
  ts = pair_up i j cost g.stripes

  keeps : Keeps p old n g.stripes ts
  keeps = pair_up-Keeps p old n g.stripes a.sound i j cost ne hi hj fi fj

  cost_i : cost_of ts i ≡ cost
  cost_i =
      ap (λ (s : Stripe). s.cur_cost)
        (pair_up_fst i j cost g.stripes ne (omega (arith, a.sound.whole, hi)))

  taken_i : is_selected ts i ≡ true
  taken_i = (pair_up-taken p old n g.stripes a.sound i j cost ne hi hj fi fj).0

  marked-IsSearch :
      (zero_map : DistMap) (candidates : List ℕ)
      → AllMap (IsZero n ts) zero_map
      → AllCandidates n ts candidates
      → IsSearch p old n
          (it ++ i ∷ [])
          (record g { stripes = ts; zero_map = zero_map; none_zero_candidate = candidates })
  marked-IsSearch zero_map candidates z q = record {
    same_params = a.same_params;
    num = a.num;
    size = a.size;
    fresh = a.fresh;
    sound = pair_up-Sound p old n g.stripes a.sound i j cost ne hi hj fi fj e;
    cached = a.cached;
    domains = a.domains;
    partials = a.partials;
    zeros = z;
    candidates = q;
    listed = a.listed;
    dropped =
        All-append (λ x. is_selected ts x ≡ true) it (i ∷ [])
          (All-weaken (λ x. is_selected g.stripes x ≡ true) (λ x. is_selected ts x ≡ true) it
            (λ x t. ap (λ (s : Stripe). s.selected) (keeps x t) ∙ t) a.dropped)
          (taken_i, tt);
    rest = λ x h f. a.rest x h (pair_up-free p old n g.stripes a.sound i j cost ne hi hj fi fj x f);
  }

  zeros_still : AllMap (IsZero n ts) g.zero_map
  zeros_still =
      AllMap-weaken (IsZero n g.stripes) (IsZero n ts) g.zero_map
        (λ x z. Keeps-IsZero p old n g.stripes ts x keeps z) a.zeros

  pub mark_matched-IsSearch : IsSearch p old n (it ++ i ∷ []) (mark_matched i j cost true g)
  unfolding mark_matched
  mark_matched-IsSearch =
      let pd = (stripe_at ts i).parity_dist in
      elim (Bool-cases (cost == 0)) [
        | inl z ↦
            let none_left : cost_of ts i ≡ 0 = ground (arith, cost_i, z) in
            rw (mark_matched, z)
              (marked-IsSearch (push_front pd i g.zero_map) g.none_zero_candidate
                (push_front-AllMap (IsZero n ts) pd i g.zero_map
                  (record { inside = hi; taken = taken_i; free = none_left }) zeros_still)
                (Keeps-AllCandidates p old n g.stripes ts g.none_zero_candidate keeps a.candidates))
        | inr nz ↦
            let some_left : cost_of ts i ≢ 0 = λ c. ground (arith, cost_i, nz, c) in
            elim (Bool-cases (cmp_parity (stripe_at ts i) (stripe_at ts j))) [
              | inl same ↦
                  rw (mark_matched, nz, same)
                    (marked-IsSearch g.zero_map (g.none_zero_candidate ++ i ∷ []) zeros_still (
                      candidates-append p old n g.stripes ts g.none_zero_candidate i a.sound keeps
                        fi (record { inside = hi; taken = taken_i; costs = some_left; apart = tt })
                        a.candidates))
              | inr different ↦
                  rw (mark_matched, nz, different)
                    (marked-IsSearch g.zero_map g.none_zero_candidate zeros_still (
                      Keeps-AllCandidates p old n g.stripes ts g.none_zero_candidate keeps
                        a.candidates))
            ]
      ]
