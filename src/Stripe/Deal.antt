-- ===== src/Stripe/Deal.antt =====
-- `Stripe::generate_random_distributions` deals sound placements.
use stripe_merge.Common.{
  ℕ, zero, suc, ◌+◌, ◌≤◌, ◌<◌, ◌≡◌, ◌∙◌, refl, sym, ap, subst, get_or, inc8, ℕ_discrete, List, [],
  ◌∷◌, ◌++◌, arith, length, take, drop, count, range, All, AllBelow-count, IsShuffle,
  length-take_of_le, length-drop, count-append, count-take-drop, count-take-le, length-range,
  range-IsDistinct, count-range_above, dec_lt,
}
use stripe_merge.Stripe.{
  Params, Stripe, set_info, deal, deal_parity, deal_rounds, generate_random_distributions,
}
use stripe_merge.Stripe.Cost.{IsPlaced}

-- The nodes in some order, each once.
record IsDeck (n : ℕ) (v : List ℕ) : Type 0 where
  size : length v ≡ n
  same : (z : ℕ) → count z v ≡ count z (range 0 n)

shuffle-IsDeck :
    (shuffle : ℕ → List ℕ → List ℕ) (i n : ℕ) (v : List ℕ)
    → IsShuffle shuffle
    → IsDeck n v
    → IsDeck n (shuffle i v)
shuffle-IsDeck shuffle i n v f d = record {
  size = f.same_length i v ∙ d.size;
  same = λ z. f.same_count i z v ∙ d.same z;
}

-- A row of the caller's arrays that makes a sound stripe.
abbrev pub IsRow : Params → List ℕ × List ℕ → Type 0
IsRow p row = (i : ℕ) (s : Stripe) → IsPlaced p (set_info p i row.0 row.1 s)

take_again {ℓ} : {A : Type ℓ} (n : ℕ) (xs : List A) → take n (take n xs) ≡ take n xs
take_again zero xs = λ i. []
take_again (suc n) [] = λ i. []
take_again (suc n) (x ∷ xs) = λ i. x ∷ take_again n xs i

dealt-count :
    (p : Params) (n z : ℕ) (v : List ℕ)
    → count z (take p.rs_k v ++ take p.rs_m (drop p.rs_k v)) ≤ count z v
dealt-count p n z v = omega (
  arith,
  count-append z (take p.rs_k v) (take p.rs_m (drop p.rs_k v)),
  count-take-le z p.rs_m (drop p.rs_k v),
  count-take-drop z p.rs_k v,
)

-- A counter that does not wrap deals the next nodes in turn.
drop-get_or : (v : List ℕ) (j : ℕ) → j < length v → drop j v ≡ get_or v j 0 ∷ drop (j + 1) v
drop-get_or [] j h = absurd (omega arith)
drop-get_or (x ∷ v) zero h = refl
drop-get_or (x ∷ v) (suc j) h =
    let e : suc j + 1 ≡ suc (j + 1) = omega arith in
    drop-get_or v j (omega arith) ∙ ap (λ k. get_or v j 0 ∷ drop k (x ∷ v)) (sym e)

deal_parity-take :
    (v : List ℕ) (c j : ℕ) → j + c ≤ 256 → j + c ≤ length v → deal_parity v c j ≡ take c (drop j v)
unfolding deal_parity inc8
deal_parity-take v zero j h l = refl
deal_parity-take v (suc c) j h l = elim (ℕ_discrete c 0) [
  | yes e ↦
      subst (λ c. deal_parity v (suc c) j ≡ take (suc c) (drop j v)) (sym e)
        (ap (take 1) (sym (drop-get_or v j (omega (arith, l)))))
  | no more ↦
      let next : inc8 j ≡ j + 1 = omega (arith, h, more) in
      ap (λ k. get_or v j 0 ∷ deal_parity v c k) next
      ∙ ap (λ xs. get_or v j 0 ∷ xs)
          (deal_parity-take v c (j + 1) (omega (arith, h)) (omega (arith, l)))
      ∙ ap (take (suc c)) (sym (drop-get_or v j (omega (arith, l))))
]

deal-IsRow :
    (p : Params) (v : List ℕ)
    → p.rs_k + p.rs_m ≤ p.node_num
    → p.rs_k + p.rs_m ≤ 256
    → IsDeck p.node_num v
    → IsRow p (deal p v)
unfolding deal set_info
deal-IsRow p v h small d i s =
    let next = deal_parity-take v p.rs_m p.rs_k small (omega (arith, h, d.size)) in
    let ek = take_again p.rs_k v in
    let em = take_again p.rs_m (drop p.rs_k v) in
    record {
      data_length = rw ek (length-take_of_le p.rs_k v (omega (arith, d.size)));
      parity_length =
          rw (next, em)
            (length-take_of_le p.rs_m (drop p.rs_k v)
              (omega (arith, d.size, length-drop p.rs_k v)));
      distinct =
          rw (next, ek, em)
            (λ z. omega (arith, dealt-count p 0 z v, d.same z, range-IsDistinct 0 p.node_num z));
      inside =
          rw (next, ek, em)
            (AllBelow-count p.node_num (take p.rs_k v ++ take p.rs_m (drop p.rs_k v)) (λ z q.
              elim (dec_lt z p.node_num) [
                | yes below ↦ below
                | no above ↦
                    absurd (
                      omega
                        (arith, dealt-count p 0 z v, d.same z, count-range_above z 0 p.node_num))
              ]));
    }

deal_rounds-IsRow :
    (p : Params) (shuffle : ℕ → List ℕ → List ℕ) (n i : ℕ) (v : List ℕ)
    → IsShuffle shuffle
    → p.rs_k + p.rs_m ≤ p.node_num
    → p.rs_k + p.rs_m ≤ 256
    → IsDeck p.node_num v
    → All (IsRow p) (deal_rounds p shuffle n i v) × (length (deal_rounds p shuffle n i v) ≡ n)
unfolding deal_rounds
deal_rounds-IsRow p shuffle zero i v f h small d = (tt, λ i. zero)
deal_rounds-IsRow p shuffle (suc n) i v f h small d =
    let d' = shuffle-IsDeck shuffle i p.node_num v f d in
    let (rows, size) = deal_rounds-IsRow p shuffle n (i + 1) (shuffle i v) f h small d' in
    ((deal-IsRow p (shuffle i v) h small d', rows), omega arith)

-- On at least `rs_k + rs_m` nodes, with `rs_k + rs_m` at most 256, and for shuffles that permute,
-- `stripes_num` rows are dealt, and each places its blocks on distinct nodes that exist.
pub generate-IsRow :
    (p : Params) (shuffle : ℕ → List ℕ → List ℕ) (stripes_num : ℕ)
    → IsShuffle shuffle
    → p.rs_k + p.rs_m ≤ p.node_num
    → p.rs_k + p.rs_m ≤ 256
    → All (IsRow p) (generate_random_distributions p shuffle stripes_num)
      × (length (generate_random_distributions p shuffle stripes_num) ≡ stripes_num)
unfolding generate_random_distributions
generate-IsRow p shuffle stripes_num f h small =
    deal_rounds-IsRow p shuffle stripes_num 0 (range 0 p.node_num) f h small
      (record { size = length-range 0 p.node_num; same = λ z. λ i. count z (range 0 p.node_num) })
