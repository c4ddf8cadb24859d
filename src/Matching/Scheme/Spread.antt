-- ===== src/Matching/Scheme/Spread.antt =====
-- The last part of `get_one_scheme`: how many moves it plans, and where they go.
use stripe_merge.Common.{
  ℕ, zero, suc, ◌+◌, ◌-◌, ◌≤◌, ◌<◌, ◌≡◌, ◌≢◌, refl, sym, ap, subst, ◌∙◌, inl, inr, List, [], ◌∷◌,
  ◌++◌, arith, ltb, Bool-cases, length, get_or, All, All-append, length-append, length-set,
  get_or-set_self, get_or-set_ne, inc8_lem, dec8, dec8_lem,
}
use stripe_merge.Migration.{MigrationInfo, migration}
use stripe_merge.Matching.Scheme.{
  Plan, blocks_on, add_block, pop_back, spread_node, spread, remain_nodes,
}
use stripe_merge.Matching.Scheme.Excess.{excess}

length-pop_back : (xs : List ℕ) → length (pop_back xs) ≡ length xs - 1
unfolding pop_back
length-pop_back [] = refl
length-pop_back (x ∷ []) = refl
length-pop_back (x ∷ y ∷ ys) = omega (arith, length-pop_back (y ∷ ys))

-- The front of a deque, if it has one, is `t`.
abbrev pub Front : ℕ → List ℕ → Type 0
Front t [] = Unit {0}
Front t (x ∷ xs) = x ≡ t

pop_back-Front : (t : ℕ) (xs : List ℕ) → Front t xs → Front t (pop_back xs)
unfolding pop_back
pop_back-Front t [] h = tt
pop_back-Front t (x ∷ []) h = tt
pop_back-Front t (x ∷ y ∷ ys) h = h

pub add_block_self :
    (x : ℕ) (hosts : List ℕ)
    → x < length hosts
    → blocks_on hosts x + 1 < 256
    → blocks_on (add_block x hosts) x ≡ blocks_on hosts x + 1
unfolding add_block
add_block_self x hosts h small = get_or-set_self hosts x _ 0 h ∙ inc8_lem _ small

pub add_block_ne :
    (x z : ℕ) (hosts : List ℕ) → z ≢ x → blocks_on (add_block x hosts) z ≡ blocks_on hosts z
unfolding add_block
add_block_ne x z hosts h = get_or-set_ne hosts x z _ 0 h

pub length-add_block : (x : ℕ) (hosts : List ℕ) → length (add_block x hosts) ≡ length hosts
unfolding add_block
length-add_block x hosts = length-set hosts x _

-- From `s`, with the deque `available`, to `s'`, `n` moves have been planned, all of them to node `t`, and
-- each is as `P` says.
pub record Sent (P : MigrationInfo → Type 0) (t n : ℕ) (available : List ℕ) (s s' : Plan)
    : Type 0 where
  pub planned : length s'.moves ≡ length s.moves + n
  pub piled : blocks_on s'.hosts t ≡ blocks_on s.hosts t + n
  pub others : (x : ℕ) → x ≢ t → blocks_on s'.hosts x ≡ blocks_on s.hosts x
  pub size : length s'.hosts ≡ length s.hosts
  pub left : length s'.available + n ≡ length available
  pub front : Front t s'.available
  pub good : All P s.moves → All P s'.moves

remain-many :
    (k b : ℕ) (hs : List ℕ) → 1 < b → remain_nodes k (b ∷ hs) ≡ k ∷ remain_nodes (k + 1) hs
unfolding remain_nodes
remain-many k b hs h = ground arith

remain-few : (k b : ℕ) (hs : List ℕ) → b ≤ 1 → remain_nodes k (b ∷ hs) ≡ remain_nodes (k + 1) hs
unfolding remain_nodes
remain-few k b hs h = ground arith

-- One move to node `t`, and the deque without its back.
abbrev send : ℕ → ℕ → Plan → Plan
send i t s = record s {
  hosts = add_block t s.hosts;
  moves = s.moves ++ migration (i + 1) (t + 1) 0 ∷ [];
}

module _ (P : MigrationInfo → Type 0) (t : ℕ) where
  send-Sent :
      (i n : ℕ) (rest : List ℕ) (s s' : Plan)
      → P (migration (i + 1) (t + 1) 0)
      → t < length s.hosts
      → blocks_on s.hosts t + 1 < 256
      → Sent P t n (pop_back (t ∷ rest)) (send i t s) s'
      → Sent P t (suc n) (t ∷ rest) s s'
  send-Sent i n rest s s' p lt small r = record {
    planned = omega (arith, r.planned, length-append s.moves (migration (i + 1) (t + 1) 0 ∷ []));
    piled = omega (arith, r.piled, add_block_self t s.hosts lt small);
    others = λ x ne. r.others x ne ∙ add_block_ne t x s.hosts ne;
    size = r.size ∙ length-add_block t s.hosts;
    left = omega (arith, r.left, length-pop_back (t ∷ rest));
    front = r.front;
    good = λ g. r.good (All-append P s.moves _ g (p, tt));
  }

  spread_node-Sent :
      (i j : ℕ) (available : List ℕ) (s : Plan)
      → P (migration (i + 1) (t + 1) 0)
      → Front t available
      → j ≤ length available
      → t < length s.hosts
      → blocks_on s.hosts t + j < 256
      → Sent P t j available s (spread_node i j available s)
  unfolding spread_node
  spread_node-Sent i zero available s p f h lt small = record {
    planned = omega arith;
    piled = omega arith;
    others = λ x ne. refl;
    size = refl;
    left = omega arith;
    front = f;
    good = λ g. g;
  }
  spread_node-Sent i (suc j) [] s p f h lt small = absurd (omega arith)
  spread_node-Sent i (suc j) (target ∷ rest) s p f h lt small =
      subst (λ x. Sent P t (suc j) (x ∷ rest) s (spread_node i (suc j) (x ∷ rest) s)) (sym f)
        (send-Sent i j rest s _ p lt (omega arith) (
          spread_node-Sent i j (pop_back (t ∷ rest)) (send i t s) p
            (pop_back-Front t (t ∷ rest) refl) (omega (arith, length-pop_back (t ∷ rest)))
            (omega (arith, length-add_block t s.hosts))
            (omega (arith, add_block_self t s.hosts lt (omega arith)))))

  Sent-trans :
      (m n : ℕ) (available : List ℕ) (s s1 s' : Plan)
      → Sent P t m available s s1
      → Sent P t n s1.available s1 s'
      → Sent P t (m + n) available s s'
  Sent-trans m n available s s1 s' p q = record {
    planned = omega (arith, p.planned, q.planned);
    piled = omega (arith, p.piled, q.piled);
    others = λ x ne. q.others x ne ∙ p.others x ne;
    size = q.size ∙ p.size;
    left = omega (arith, p.left, q.left);
    front = q.front;
    good = λ g. q.good (p.good g);
  }

  pub spread_nodes-Sent :
      (n k : ℕ) (hs : List ℕ) (s : Plan)
      → k + length hs ≤ n
      → ((x : ℕ) → 1 < get_or hs x 0 → blocks_on s.hosts (k + x) ≡ get_or hs x 0)
      → ((x : ℕ) → get_or hs x 0 < 256)
      → ((x : ℕ) → 1 < get_or hs x 0 → k + x ≢ t)
      → ((x : ℕ) → x < n → x ≢ t → P (migration (x + 1) (t + 1) 0))
      → Front t s.available
      → excess hs ≤ length s.available
      → t < length s.hosts
      → blocks_on s.hosts t + excess hs < 256
      → Sent P t (excess hs) s.available s (spread (remain_nodes k hs) s)
  unfolding spread
  spread_nodes-Sent n k [] s size agree low free p f h lt small =
      unfold remain_nodes in
      record {
        planned = omega arith;
        piled = omega arith;
        others = λ x ne. refl;
        size = refl;
        left = omega arith;
        front = f;
        good = λ g. g;
      }
  spread_nodes-Sent n k (b ∷ hs) s size agree low free p f h lt small =
      elim (Bool-cases (ltb 1 b)) [
        | inl many ↦
            let e : k + 0 ≡ k = omega arith in
            let now : blocks_on s.hosts k ≡ b =
              ap (blocks_on s.hosts) (sym e) ∙ agree 0 (ground arith) in
            let rounds : dec8 (blocks_on s.hosts k) ≡ b - 1 = ground (arith, low 0, dec8_lem b) in
            let ne : k ≢ t = λ c. free 0 (ground arith) (e ∙ c) in
            let first =
              spread_node-Sent k (b - 1) s.available s (p k (omega arith) ne) f (omega arith) lt
                (omega arith) in
            subst (λ l. Sent P t (excess (b ∷ hs)) s.available s (spread l s))
              (sym (remain-many k b hs (ground arith)))
              (subst
                (λ j.
                  Sent P t (excess (b ∷ hs)) s.available s
                    (spread (remain_nodes (k + 1) hs) (spread_node k j s.available s)))
                (sym rounds)
                (Sent-trans (b - 1) (excess hs) s.available s _ _ first (
                  spread_nodes-Sent n (k + 1) hs _ (omega arith)
                    (λ x q.
                      first.others (k + 1 + x) (λ c. free (suc x) q (omega arith))
                      ∙ ap (blocks_on s.hosts) (omega arith)
                      ∙ agree (suc x) q)
                    (λ x. low (suc x)) (λ x q c. free (suc x) q (omega arith)) p first.front
                    (omega (arith, first.left)) (omega (arith, first.size))
                    (omega (arith, first.piled)))))
        | inr few ↦
            let e : (b - 1) + excess hs ≡ excess hs = ground arith in
            subst (λ l. Sent P t (excess (b ∷ hs)) s.available s (spread l s))
              (sym (remain-few k b hs (ground arith)))
              (subst (λ n. Sent P t n s.available s (spread (remain_nodes (k + 1) hs) s)) (sym e)
                (spread_nodes-Sent n (k + 1) hs s (omega arith)
                  (λ x q. ap (blocks_on s.hosts) (omega arith) ∙ agree (suc x) q) (λ x. low (suc x))
                  (λ x q c. free (suc x) q (omega arith)) p f (omega arith) lt (omega arith)))
      ]
