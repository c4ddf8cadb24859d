-- ===== src/Matching/Greedy/Levels.antt =====
-- The first loops of `basic_greedy`: every pair of stripes that may be matched stands in the level of its
-- cost, and nothing else does.
use stripe_merge.Common.{
  ℕ, zero, suc, ◌+◌, ◌-◌, ◌^◌, ◌≤◌, ◌<◌, ◌≡◌, refl, sym, ◌∙◌, inl, inr, Bool, false, subst, List,
  [], ◌∷◌, ◌++◌, arith, Bool-cases, if◌then◌else◌, length, get_or, replicate, range, All,
  All-append, Elem, Elem-append-left, Elem-append-last, length-set, length-replicate,
  get_or-replicate, get_or-set_self, get_or-set_ne, ℕ_discrete, none,
}
use stripe_merge.Stripe.{Params, Stripe}
use stripe_merge.Matching.{Generator, stripe_at}
use stripe_merge.Matching.CostTable.{static_c, token, token_i, token_j}
use stripe_merge.Matching.CostTable.Slots.{token-fields}
use stripe_merge.Matching.CostTable.Cached.{pair_cost, Cached, get_cost_lem}
use stripe_merge.Matching.Greedy.{
  Fill, push_level, passed_over, fill_pair, fill_row, fill_rows, greedy_fill,
}

module _ (remain_flag : Bool) (p : Params) (ss : List Stripe) (n rs_n : ℕ) where
  abbrev pub MayMatch : ℕ → Type 0
  MayMatch i = passed_over remain_flag (stripe_at ss i) ≡ false

  -- A token of the level `cost`.
  pub record IsEntry (cost m : ℕ) : Type 0 where
    pub less : token_i m < token_j m
    pub inside : token_j m < n
    pub costs : pair_cost p ss (token_i m) (token_j m) ≡ cost
    pub may_i : MayMatch (token_i m)
    pub may_j : MayMatch (token_j m)

  abbrev pub Listed : ℕ → ℕ → List (List ℕ) → Type 0
  Listed i j levels = Elem (token i j) (get_or levels (pair_cost p ss i j) [])

  pub record IsFill (s : Fill) : Type 0 where
    pub cached : Cached p ss n s.table
    pub size : length s.levels ≡ rs_n + 1
    pub entries : (cost : ℕ) → All (IsEntry cost) (get_or s.levels cost [])

  -- From `s` to `s'`, the levels have kept what they had.
  pub record Grows (s s' : Fill) : Type 0 where
    pub fill : IsFill s'
    pub keeps : (k l : ℕ) → Listed k l s.levels → Listed k l s'.levels

  module _ (small : n < 2 ^ 31) (low : (i j : ℕ) → i < j → j < n → pair_cost p ss i j ≤ rs_n) where
    token-IsEntry :
        (i j : ℕ)
        → i < j
        → j < n
        → MayMatch i
        → MayMatch j
        → IsEntry (pair_cost p ss i j) (token i j)
    token-IsEntry i j h l mi mj =
        let (ei, ej) = token-fields i j (omega arith) (omega arith) in
        record {
          less = omega arith;
          inside = omega arith;
          costs = rw (ei, ej) refl;
          may_i = rw ei mi;
          may_j = rw ej mj;
        }

    push_level-entries :
        (levels : List (List ℕ)) (cost m : ℕ)
        → cost < length levels
        → IsEntry cost m
        → ((k : ℕ) → All (IsEntry k) (get_or levels k []))
        → (k : ℕ) → All (IsEntry k) (get_or (push_level cost m levels) k [])
    unfolding push_level
    push_level-entries levels cost m h e all k = elim (ℕ_discrete k cost) [
      | yes same ↦
          subst (λ k. All (IsEntry k) (get_or (push_level cost m levels) k [])) (sym same)
            (rw (get_or-set_self levels cost (get_or levels cost [] ++ m ∷ []) [] h)
              (All-append (IsEntry cost) (get_or levels cost []) (m ∷ []) (all cost) (e, tt)))
      | no other ↦
          rw (get_or-set_ne levels cost k (get_or levels cost [] ++ m ∷ []) [] other) (all k)
    ]

    push_level-keeps :
        (levels : List (List ℕ)) (cost m k x : ℕ)
        → cost < length levels
        → Elem x (get_or levels k [])
        → Elem x (get_or (push_level cost m levels) k [])
    unfolding push_level
    push_level-keeps levels cost m k x h e = elim (ℕ_discrete k cost) [
      | yes same ↦
          subst (λ k. Elem x (get_or (push_level cost m levels) k [])) (sym same)
            (rw (get_or-set_self levels cost (get_or levels cost [] ++ m ∷ []) [] h) (
              Elem-append-left x (get_or levels cost []) (m ∷ [])
                (subst (λ k. Elem x (get_or levels k [])) same e)))
      | no other ↦ rw (get_or-set_ne levels cost k (get_or levels cost [] ++ m ∷ []) [] other) e
    ]

    push_level-has :
        (levels : List (List ℕ)) (cost m : ℕ)
        → cost < length levels
        → Elem m (get_or (push_level cost m levels) cost [])
    unfolding push_level
    push_level-has levels cost m h =
        rw (get_or-set_self levels cost (get_or levels cost [] ++ m ∷ []) [] h)
          (Elem-append-last m (get_or levels cost []))

    abbrev c : ℕ
    c = static_c none n

    Grows-refl : (s : Fill) → IsFill s → Grows s s
    Grows-refl s f = record { fill = f; keeps = λ k l h. h }

    Grows-trans : (s t u : Fill) → Grows s t → Grows t u → Grows s u
    Grows-trans s t u g h = record { fill = h.fill; keeps = λ k l x. h.keeps k l (g.keeps k l x) }

    fill_pair-added :
        (i j cost : ℕ) (table : List ℕ) (s : Fill)
        → i < j
        → j < n
        → MayMatch i
        → MayMatch j
        → IsFill s
        → cost ≡ pair_cost p ss i j
        → Cached p ss n table
        → Grows s (record { table = table; levels = push_level cost (token i j) s.levels })
          × Listed i j (push_level cost (token i j) s.levels)
    fill_pair-added i j cost table s h l mi mj f e ok =
        let room : cost < length s.levels = omega (arith, f.size, low i j) in
        (
          record {
            fill = record {
              cached = ok;
              size = unfold push_level in length-set s.levels cost _ ∙ f.size;
              entries =
                  push_level-entries s.levels cost (token i j) room
                    (rw e (token-IsEntry i j h l mi mj)) f.entries;
            };
            keeps = λ k m x.
                push_level-keeps s.levels cost (token i j) (pair_cost p ss k m) (token k m) room x;
          },
          subst (λ k. Elem (token i j) (get_or (push_level cost (token i j) s.levels) k [])) e
              (push_level-has s.levels cost (token i j) room),
        )

    fill_pair-Grows :
        (i j : ℕ) (s : Fill)
        → i < j
        → j < n
        → MayMatch i
        → IsFill s
        → Grows s (fill_pair remain_flag c p ss i j s)
          × (MayMatch j → Listed i j (fill_pair remain_flag c p ss i j s).levels)
    unfolding fill_pair
    fill_pair-Grows i j s h l mi f = elim (Bool-cases (passed_over remain_flag (stripe_at ss j))) [
      | inl over ↦ rw over (Grows-refl s f, λ mj. cc)
      | inr may ↦
          let (e, ok) =
            get_cost_lem p ss n s.table small f.cached i j (omega arith) (omega arith) l in
          let (g, x) = fill_pair-added i j _ _ s h l mi may f e ok in rw may (g, λ mj. x)
    ]

    fill_row-Grows :
        (i k m : ℕ) (s : Fill)
        → i < k
        → k + m ≤ n
        → MayMatch i
        → IsFill s
        → Grows s (fill_row remain_flag c p ss i (range k m) s)
          × ((j : ℕ)
              → k ≤ j
              → j < k + m
              → MayMatch j
              → Listed i j (fill_row remain_flag c p ss i (range k m) s).levels)
    unfolding fill_row
    fill_row-Grows i k zero s h l mi f = (Grows-refl s f, λ j lo hi mj. absurd (omega arith))
    fill_row-Grows i k (suc m) s h l mi f =
        let (g, x) = fill_pair-Grows i k s h (omega arith) mi f in
        let s1 = fill_pair remain_flag c p ss i k s in
        let (g', x') = fill_row-Grows i (k + 1) m s1 (omega arith) (omega arith) mi g.fill in
        (
          Grows-trans s s1 _ g g',
          λ j lo hi mj. elim (ℕ_discrete j k) [
            | yes e ↦ g'.keeps i j (rw e (x (subst MayMatch e mj)))
            | no ne ↦ x' j (omega arith) (omega arith) mj
          ],
        )

    -- Round `i` of the outer loop.
    abbrev row_done : ℕ → Fill → Fill
    row_done i s =
        if passed_over remain_flag (stripe_at ss i)
        then s
        else fill_row remain_flag c p ss i (range (i + 1) (n - (i + 1))) s

    row_done-Grows :
        (i : ℕ) (s : Fill)
        → i < n
        → IsFill s
        → Grows s (row_done i s)
          × ((j : ℕ) → i < j → j < n → MayMatch i → MayMatch j → Listed i j (row_done i s).levels)
    row_done-Grows i s h f = elim (Bool-cases (passed_over remain_flag (stripe_at ss i))) [
      | inl over ↦ rw over (Grows-refl s f, λ j lo hi mi mj. cc)
      | inr may ↦
          let (g, x) = fill_row-Grows i (i + 1) (n - (i + 1)) s (omega arith) (omega arith) may f in
          rw may (g, λ j lo hi mi mj. x j (omega arith) (omega arith) mj)
    ]

    fill_rows-Grows :
        (k m : ℕ) (s : Fill)
        → k + m ≤ n
        → IsFill s
        → Grows s (fill_rows remain_flag c p ss n (range k m) s)
          × ((i j : ℕ)
              → k ≤ i
              → i < k + m
              → i < j
              → j < n
              → MayMatch i
              → MayMatch j
              → Listed i j (fill_rows remain_flag c p ss n (range k m) s).levels)
    unfolding fill_rows
    fill_rows-Grows k zero s h f = (Grows-refl s f, λ i j lo hi q l mi mj. absurd (omega arith))
    fill_rows-Grows k (suc m) s h f =
        let (g, x) = row_done-Grows k s (omega arith) f in
        let (g', x') = fill_rows-Grows (k + 1) m (row_done k s) (omega arith) g.fill in
        (
          Grows-trans s (row_done k s) _ g g',
          λ i j lo hi q l mi mj. elim (ℕ_discrete i k) [
            | yes e ↦ g'.keeps i j (rw e (x j (omega arith) l (subst MayMatch e mi) mj))
            | no ne ↦ x' i j (omega arith) (omega arith) q l mi mj
          ],
        )

-- After the first loops of `basic_greedy`, each pair of stripes that may be matched stands in the level of
-- its cost, each token of a level is such a pair, and the cost table is sound.
pub greedy_fill_lem :
    (remain_flag : Bool) (g : Generator)
    → g.stripes_num < 2 ^ 31
    → ((i j : ℕ) → i < j → j < g.stripes_num → pair_cost g.params g.stripes i j ≤ g.rs_n)
    → Cached g.params g.stripes g.stripes_num g.cost_table
    → let filled = greedy_fill remain_flag (static_c none g.stripes_num) g in
      IsFill remain_flag g.params g.stripes g.stripes_num g.rs_n filled
      × ((i j : ℕ)
          → i < j
          → j < g.stripes_num
          → MayMatch remain_flag g.params g.stripes g.stripes_num g.rs_n i
          → MayMatch remain_flag g.params g.stripes g.stripes_num g.rs_n j
          → Listed remain_flag g.params g.stripes g.stripes_num g.rs_n i j filled.levels)
unfolding greedy_fill
greedy_fill_lem remain_flag g small low ok =
    let start : IsFill remain_flag g.params g.stripes g.stripes_num g.rs_n
        (record { table = g.cost_table; levels = replicate (g.rs_n + 1) [] }) =
      record {
        cached = ok;
        size = length-replicate (g.rs_n + 1) [];
        entries = λ cost. rw (get_or-replicate {A = List ℕ} (g.rs_n + 1) cost []) tt;
      } in
    let (grown, listed) =
      fill_rows-Grows remain_flag g.params g.stripes g.stripes_num g.rs_n small low 0 g.stripes_num
        _ (omega arith) start in
    (grown.fill, λ i j q l mi mj. listed i j (omega arith) (omega arith) q l mi mj)
