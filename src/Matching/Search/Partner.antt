-- ===== src/Matching/Search/Partner.antt =====
-- `single_search` of src/matching_generator.cc: the partner that it finds is free and costs the target.
use stripe_merge.Common.{
  ℕ, ◌^◌, ◌<◌, ◌≡◌, ◌≢◌, sym, true, false, List, [], ◌∷◌, ◌++◌, none, some, arith, ltb, ltb→lt,
  ◌==◌, All, Bool-cases, inl, inr, ◌⊎◌,
}
use stripe_merge.Stripe.{Params, Stripe}
use stripe_merge.Matching.CostTable.{get_cost, static_c}
use stripe_merge.Matching.CostTable.Cached.{pair_cost, Cached}
use stripe_merge.Matching.Search.{Scan, scan}
use stripe_merge.Matching.Search.Blocks.{get_cost-SameBlocks}
use stripe_merge.Matching.Search.Sound.{is_selected, cost_of, Sound}

abbrev pub Below : ℕ → ℕ → Type 0
Below n x = x < n

-- `==` on costs.
pub same-eq : (a b : ℕ) → (a == b) ≡ true → a ≡ b
same-eq a b h = ground arith

module _ (p : Params) (old : List Stripe) (n : ℕ) (small : n < 2 ^ 31) (ss : List Stripe)
    (a : Sound p old n ss) (index : ℕ) (h : index < n) where
  -- A stripe that is free and may be the partner of `index`.
  pub record IsFree (j tmp_cost : ℕ) : Type 0 where
    pub inside : j < n
    pub other : j ≢ index
    pub free : is_selected ss j ≡ false
    pub cost : tmp_cost ≡ pair_cost p old index j

  -- What the loop has found: nothing better, or the best so far.
  pub record Scanned (s : Scan) : Type 0 where
    pub cached : Cached p old n s.table
    pub best :
        (s.min_cost ≡ cost_of ss index)
        ⊎ ((s.min_cost < cost_of ss index) × IsFree s.min_cost_index s.min_cost)

  better-Scanned :
      (j : ℕ) (s : Scan)
      → Scanned s
      → j < n
      → j ≢ index
      → is_selected ss j ≡ false
      → ltb (get_cost (static_c none n) p ss s.table index j).0 s.min_cost ≡ true
      → Scanned (record s {
        min_cost = (get_cost (static_c none n) p ss s.table index j).0;
        min_cost_index = j;
        table = (get_cost (static_c none n) p ss s.table index j).1;
      })
  better-Scanned j s b l ne f less =
      let (cost, table) =
        get_cost-SameBlocks p old ss n s.table small a.blocks b.cached index j (λ e. ne (sym e)) h
          l in
      let lower = ltb→lt (get_cost (static_c none n) p ss s.table index j).0 s.min_cost less in
      record {
        cached = table;
        best = inr (
          elim b.best [ inl e ↦ omega (arith, lower, e) | inr (m, _) ↦ omega (arith, lower, m) ],
          record { inside = l; other = ne; free = f; cost = cost },
        );
      }

  pub scan-Scanned :
      (target : ℕ) (domain : List ℕ) (s : Scan)
      → All (Below n) domain
      → Scanned s
      → Scanned (scan (static_c none n) p ss index target domain s)
  unfolding scan
  scan-Scanned target [] s d b = b
  scan-Scanned target (j ∷ js) s d b = elim (Bool-cases (is_selected ss j)) [
    | inl taken ↦
        rw (scan, taken)
          (scan-Scanned target js (record s { cleanup_queue = s.cleanup_queue ++ j ∷ [] }) d.1
            (record { cached = b.cached; best = b.best }))
    | inr f ↦ elim (Bool-cases (j == index)) [
      | inl own ↦
          rw (scan, f, own)
            (scan-Scanned target js (record s { self = some j }) d.1
              (record { cached = b.cached; best = b.best }))
      | inr peer ↦
          let ne : j ≢ index = ground (arith, peer) in
          let cost = (get_cost (static_c none n) p ss s.table index j).0 in
          let table = (get_cost (static_c none n) p ss s.table index j).1 in
          let sound =
            (get_cost-SameBlocks p old ss n s.table small a.blocks b.cached index j
              (λ e. ne (sym e)) h d.0).1 in
          elim (Bool-cases (ltb cost s.min_cost)) [
            | inr worse ↦
                rw (scan, f, peer, worse)
                  (scan-Scanned target js (record s { table = table }) d.1
                    (record { cached = sound; best = b.best }))
            | inl less ↦
                let t : Scan = record s { min_cost = cost; min_cost_index = j; table = table } in
                let better = better-Scanned j s b d.0 ne f less in
                elim (Bool-cases (cost == target)) [
                  | inl met ↦ rw (scan, f, peer, less, met) better
                  | inr unmet ↦
                      rw (scan, f, peer, less, unmet) (scan-Scanned target js t d.1 better)
                ]
          ]
    ]
  ]
