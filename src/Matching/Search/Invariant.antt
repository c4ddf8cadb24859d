-- ===== src/Matching/Search/Invariant.antt =====
-- The invariant of `dist_based_search` in src/matching_generator.cc.
use mathlib.Core.Bool.{false≢true}
use stripe_merge.Common.{
  ℕ, ◌+◌, ◌<◌, ◌≡◌, ◌≢◌, sym, ap, ◌∙◌, true, false, List, [], ◌∷◌, ◌++◌, All, All-append, count,
}
use stripe_merge.Stripe.{Params, Stripe}
use stripe_merge.Matching.{Generator, DistMap}
use stripe_merge.Matching.CostTable.Cached.{Cached}
use stripe_merge.Matching.Search.Sound.{partner, is_selected, cost_of, Sound, Keeps}
use stripe_merge.Matching.Search.Maps.{
  AllMap, AllMap-weaken, All-weaken, erase_all-All, count-erase_all,
}
use stripe_merge.Matching.Search.{erase_all}
use stripe_merge.Matching.Search.Partner.{Below}

-- A stripe of a pair that costs nothing.
pub record IsZero (n : ℕ) (ss : List Stripe) (x : ℕ) : Type 0 where
  pub inside : x < n
  pub taken : is_selected ss x ≡ true
  pub free : cost_of ss x ≡ 0

-- A stripe of a pair that costs something, in no pair with `others`.
pub record IsCandidate (n : ℕ) (ss : List Stripe) (x : ℕ) (others : List ℕ) : Type 0 where
  pub inside : x < n
  pub taken : is_selected ss x ≡ true
  pub costs : cost_of ss x ≢ 0
  pub apart : All (λ y. (y ≢ x) × (y ≢ partner ss x)) others

abbrev pub AllCandidates : ℕ → List Stripe → List ℕ → Type 0
AllCandidates n ss [] = Unit {0}
AllCandidates n ss (x ∷ xs) = IsCandidate n ss x xs × AllCandidates n ss xs

pub Keeps-IsZero :
    (p : Params) (old : List Stripe) (n : ℕ) (ss ts : List Stripe) (x : ℕ)
    → Keeps p old n ss ts
    → IsZero n ss x
    → IsZero n ts x
Keeps-IsZero p old n ss ts x k z = record {
  inside = z.inside;
  taken = ap (λ (s : Stripe). s.selected) (k x z.taken) ∙ z.taken;
  free = ap (λ (s : Stripe). s.cur_cost) (k x z.taken) ∙ z.free;
}

pub Keeps-AllCandidates :
    (p : Params) (old : List Stripe) (n : ℕ) (ss ts : List Stripe) (xs : List ℕ)
    → Keeps p old n ss ts
    → AllCandidates n ss xs
    → AllCandidates n ts xs
Keeps-AllCandidates p old n ss ts [] k a = tt
Keeps-AllCandidates p old n ss ts (x ∷ xs) k (a, as_rest) =
    let same = k x a.taken in
    (
      record {
        inside = a.inside;
        taken = ap (λ (s : Stripe). s.selected) same ∙ a.taken;
        costs = λ e. a.costs (sym (ap (λ (s : Stripe). s.cur_cost) same) ∙ e);
        apart =
            All-weaken (λ y. (y ≢ x) × (y ≢ partner ss x)) (λ y. (y ≢ x) × (y ≢ partner ts x)) xs
              (λ y (n1, n2). (n1, λ e. n2 (e ∙ ap (λ (s : Stripe). s.matching_index) same)))
              a.apart;
      },
      Keeps-AllCandidates p old n ss ts xs k as_rest,
    )

-- The stripes of `it` are selected already.
module _ (p : Params) (old : List Stripe) (n : ℕ) (it : List ℕ) where
  pub record IsSearch (g : Generator) : Type 0 where
    pub same_params : g.params ≡ p
    pub num : g.stripes_num ≡ n
    pub size : g.rs_n ≡ p.rs_k + p.rs_m
    pub fresh : g.blocks_to_sent ≡ []
    pub sound : Sound p old n g.stripes
    pub cached : Cached p old n g.cost_table
    pub domains : AllMap (Below n) g.parity_map
    pub partials : AllMap (Below n) g.partial_dist_map
    pub zeros : AllMap (IsZero n g.stripes) g.zero_map
    pub candidates : AllCandidates n g.stripes g.none_zero_candidate
    pub listed : All (Below n) g.remaining_stripes
    pub dropped : All (λ x. is_selected g.stripes x ≡ true) it
    pub rest : (x : ℕ) → x < n → is_selected g.stripes x ≡ false → 0 < count x g.remaining_stripes

  module _ (g : Generator) (a : IsSearch g) where
    -- A search writes guesses, the cost table and the maps.
    pub searched-IsSearch :
        (ss : List Stripe) (table : List ℕ) (domains partials : DistMap)
        → Sound p old n ss
        → Keeps p old n g.stripes ss
        → ((x : ℕ) → is_selected ss x ≡ is_selected g.stripes x)
        → Cached p old n table
        → AllMap (Below n) domains
        → AllMap (Below n) partials
        → IsSearch (record g {
          stripes = ss;
          cost_table = table;
          parity_map = domains;
          partial_dist_map = partials;
        })
    searched-IsSearch ss table domains partials sound keeps frees cached d q = record {
      same_params = a.same_params;
      num = a.num;
      size = a.size;
      fresh = a.fresh;
      sound = sound;
      cached = cached;
      domains = d;
      partials = q;
      zeros =
          AllMap-weaken (IsZero n g.stripes) (IsZero n ss) g.zero_map
            (λ x z. Keeps-IsZero p old n g.stripes ss x keeps z) a.zeros;
      candidates =
          Keeps-AllCandidates p old n g.stripes ss g.none_zero_candidate keeps a.candidates;
      listed = a.listed;
      dropped =
          All-weaken (λ x. is_selected g.stripes x ≡ true) (λ x. is_selected ss x ≡ true) it
            (λ x t. frees x ∙ t) a.dropped;
      rest = λ x h f. a.rest x h (sym (frees x) ∙ f);
    }

module _ (p : Params) (old : List Stripe) (n : ℕ) (it : List ℕ) (g : Generator)
    (a : IsSearch p old n it g) where
  -- One more stripe that is selected.
  pub drop-IsSearch : (x : ℕ) → is_selected g.stripes x ≡ true → IsSearch p old n (it ++ x ∷ []) g
  drop-IsSearch x t = record {
    same_params = a.same_params;
    num = a.num;
    size = a.size;
    fresh = a.fresh;
    sound = a.sound;
    cached = a.cached;
    domains = a.domains;
    partials = a.partials;
    zeros = a.zeros;
    candidates = a.candidates;
    listed = a.listed;
    dropped = All-append (λ y. is_selected g.stripes y ≡ true) it (x ∷ []) a.dropped (t, tt);
    rest = a.rest;
  }

  -- The stripes of `it` leave the list.
  pub erase-IsSearch :
      IsSearch p old n [] (record g { remaining_stripes = erase_all it g.remaining_stripes })
  erase-IsSearch = record {
    same_params = a.same_params;
    num = a.num;
    size = a.size;
    fresh = a.fresh;
    sound = a.sound;
    cached = a.cached;
    domains = a.domains;
    partials = a.partials;
    zeros = a.zeros;
    candidates = a.candidates;
    listed = erase_all-All (Below n) it g.remaining_stripes a.listed;
    dropped = tt;
    rest = λ x h f.
        count-erase_all x it g.remaining_stripes
          (All-weaken (λ y. is_selected g.stripes y ≡ true) (λ y. x ≢ y) it
            (λ y t e. false≢true (sym f ∙ ap (is_selected g.stripes) e ∙ t)) a.dropped)
          (a.rest x h f);
  }
