-- ===== src/Pool/Blocks/Shared.antt =====
-- Who has the blocks of the pool of src/memory_pool.cc.
use mathlib.Core.Option.{none-ne-some}
use stripe_merge.Common.{
  ℕ, zero, suc, ◌+◌, ◌≤◌, ◌<◌, ◌≡◌, ◌≢◌, refl, sym, ap, ◌∙◌, List, [], ◌∷◌, ◌++◌, Option, none,
  some, ◌==◌, if◌then◌else◌, get_or, map, range, count, remove, arith, count-append, AllBelow,
  subst, All-append, AllBelow-count, count-range_above, Option-cases, inl, inr, ℕ_discrete,
}
use stripe_merge.Pool.Blocks.{
  MemoryPool, new_memory_pool, find_block, get_block, release_block, Uses, opened, got, released,
  refused,
}

count-remove_exact :
    (z x : ℕ) (xs : List ℕ)
    → 0 < count x xs
    → count z (remove x xs) + (if z == x then 1 else 0) ≡ count z xs
unfolding remove
count-remove_exact z x [] h = absurd (omega arith)
count-remove_exact z x (y ∷ ys) h = ground (arith, count-remove_exact z x ys)

module _ (addresses : ℕ → ℕ) where
  abbrev entries : ℕ → ℕ → List (ℕ × ℕ)
  entries k n = map (λ i. (addresses i, i)) (range k n)

  get_or-addresses :
      (k n i : ℕ) → i < n → get_or (map addresses (range k n)) i 0 ≡ addresses (k + i)
  get_or-addresses k zero i h = absurd (omega arith)
  get_or-addresses k (suc n) zero h = ap addresses (omega arith)
  get_or-addresses k (suc n) (suc i) h =
      get_or-addresses (k + 1) n i (omega arith) ∙ ap addresses (omega arith)

  find_block-some :
      (ptr i k n : ℕ) → find_block ptr (entries k n) ≡ some i → (addresses i ≡ ptr) × (i < k + n)
  unfolding find_block
  find_block-some ptr i k zero e = absurd (none-ne-some i e)
  find_block-some ptr i k (suc n) e = ground (arith, find_block-some ptr i (k + 1) n, e)

  find_block-none :
      (ptr k n : ℕ)
      → find_block ptr (entries k n) ≡ none
      → count ptr (map addresses (range k n)) ≡ 0
  unfolding find_block
  find_block-none ptr k zero e = refl
  find_block-none ptr k (suc n) e = ground (arith, find_block-none ptr (k + 1) n, e)

  -- The members that do not change, and where each block is: free, or held.
  record Shared (n : ℕ) (held : List ℕ) (s : MemoryPool) : Type 0 where
    pub pool : s.pool ≡ map addresses (range 0 n)
    pub ptr_map : s.ptr_map ≡ entries 0 n
    pub free : AllBelow n s.free_queue
    pub whole :
        (a : ℕ)
        → count a held + count a (map addresses s.free_queue) ≡ count a (map addresses (range 0 n))

  map-append :
      (xs : List ℕ) (i : ℕ) → map addresses (xs ++ i ∷ []) ≡ map addresses xs ++ addresses i ∷ []
  map-append [] i = refl
  map-append (x ∷ xs) i = ap (λ l. addresses x ∷ l) (map-append xs i)

  abbrev block_or : ℕ → Option (ℕ × MemoryPool) → ℕ
  block_or p none = p
  block_or p (some (q, s)) = q

  abbrev rest_or : MemoryPool → Option (ℕ × MemoryPool) → MemoryPool
  rest_or s none = s
  rest_or s (some (q, t)) = t

  abbrev got_block : ℕ → MemoryPool → Option (ℕ × MemoryPool)
  got_block p s = some (p, s)

  -- `get_block`, by the queue of free blocks.
  got_lem :
      (n ptr : ℕ) (held : List ℕ) (s t : MemoryPool) (q : List ℕ)
      → s.free_queue ≡ q
      → Shared n held s
      → get_block s ≡ got_block ptr t
      → (i : ℕ) × (rest : List ℕ) × (q ≡ i ∷ rest)
        × (ptr ≡ addresses i)
        × (t ≡ record s { free_queue = rest })
  unfolding get_block
  got_lem n ptr held s t [] h a e = absurd (none-ne-some (ptr, t) (rw h at e))
  got_lem n ptr held s t (i ∷ rest) h a e =
      let queue : AllBelow n (i ∷ rest) = subst (AllBelow n) h a.free in
      let first : got_block (get_or s.pool i 0) (record s { free_queue = rest }) ≡ got_block ptr t =
        rw h at e in
      (
        i,
        rest,
        refl,
        sym (ap (block_or ptr) first)
            ∙ ap (λ l. get_or l i 0) a.pool
            ∙ get_or-addresses 0 n i queue.0
            ∙ ap addresses (omega arith),
        sym (ap (rest_or t) first),
      )

  got-Shared :
      (n ptr : ℕ) (held : List ℕ) (s t : MemoryPool)
      → Shared n held s
      → get_block s ≡ got_block ptr t
      → Shared n (ptr ∷ held) t
  got-Shared n ptr held s t a e =
      let (i, rest, q, p, left) = got_lem n ptr held s t s.free_queue refl a e in
      let queue : AllBelow n (i ∷ rest) = subst (AllBelow n) q a.free in
      subst (Shared n (ptr ∷ held)) (sym left) (record {
        pool = a.pool;
        ptr_map = a.ptr_map;
        free = queue.1;
        whole = λ x.
            let same : count x (map addresses s.free_queue) ≡ count x (map addresses (i ∷ rest)) =
              ap (λ l. count x (map addresses l)) q in
            rw p (ground (arith, a.whole x, same));
      })

  AllBelow-last : (n i : ℕ) (xs : List ℕ) → AllBelow n xs → i < n → AllBelow n (xs ++ i ∷ [])
  AllBelow-last n i xs h l = All-append (λ x. x < n) xs (i ∷ []) h (l, tt)

  -- An address of the pool has its entry, and any other address has none.
  released_lem :
      (n ptr : ℕ) (held : List ℕ) (s : MemoryPool)
      → Shared n held s
      → (find_block ptr s.ptr_map ≡ find_block ptr (entries 0 n))
  released_lem n ptr held s a = ap (find_block ptr) a.ptr_map

  released-Shared :
      (n ptr : ℕ) (held : List ℕ) (s : MemoryPool)
      → Shared n held s
      → 0 < count ptr held
      → Shared n (remove ptr held) (release_block ptr s)
  unfolding release_block
  released-Shared n ptr held s a h = elim (Option-cases (find_block ptr s.ptr_map)) [
    | inl e ↦
        let gone = find_block-none ptr 0 n (sym (released_lem n ptr held s a) ∙ e) in
        absurd (omega (arith, a.whole ptr, gone))
    | inr (i, e) ↦
        let (p, below) = find_block-some ptr i 0 n (sym (released_lem n ptr held s a) ∙ e) in
        rw (release_block, e)
          (record {
            pool = a.pool;
            ptr_map = a.ptr_map;
            free = AllBelow-last n i s.free_queue a.free (omega (arith, below));
            whole = λ x.
                let joined : count x (map addresses (s.free_queue ++ i ∷ []))
                    ≡ count x (map addresses s.free_queue) + count x (addresses i ∷ []) =
                  ap (count x) (map-append s.free_queue i)
                  ∙ count-append x (map addresses s.free_queue) _ in
                ground (arith, a.whole x, count-remove_exact x ptr held h, joined, p);
          })
  ]

  refused_lem :
      (ptr : ℕ) (s : MemoryPool) → find_block ptr s.ptr_map ≡ none → release_block ptr s ≡ s
  unfolding release_block
  refused_lem ptr s e = rw (release_block, e) refl

  Uses-Shared : (n : ℕ) (held : List ℕ) (s : MemoryPool) → Uses addresses n held s → Shared n held s
  unfolding new_memory_pool
  Uses-Shared n _ _ opened = record {
    pool = refl;
    ptr_map = refl;
    free = AllBelow-count n (range 0 n) (λ x h. ground (arith, count-range_above x 0 n));
    whole = λ x. omega arith;
  }
  Uses-Shared n _ t (got {held = held} {s = s} ptr e u) =
      got-Shared n ptr held s t (Uses-Shared n held s u) e
  Uses-Shared n _ _ (released {held = held} {s = s} ptr h u) =
      released-Shared n ptr held s (Uses-Shared n held s u) h
  Uses-Shared n held _ (refused {s = s} ptr e u) =
      subst (Shared n held) (sym (refused_lem ptr s e)) (Uses-Shared n held s u)

  -- In every run of clients that release only what they hold, the addresses that are held and those
  -- of the free blocks are together the addresses of the pool, each as often: no block is lost and
  -- none appears twice.
  pub Uses-whole :
      (n : ℕ) (held : List ℕ) (s : MemoryPool) (a : ℕ)
      → Uses addresses n held s
      → count a held + count a (map addresses s.free_queue) ≡ count a (map addresses (range 0 n))
  Uses-whole n held s a u = (Uses-Shared n held s u).whole a

  count-addresses_below :
      (a k n : ℕ)
      → ((i : ℕ) → k ≤ i → i < k + n → addresses i ≢ a)
      → count a (map addresses (range k n)) ≡ 0
  count-addresses_below a k zero h = refl
  count-addresses_below a k (suc n) h =
      let ne = h k (omega arith) (omega arith) in
      let rest = count-addresses_below a (k + 1) n (λ i l g. h i (omega arith) (omega arith)) in
      ground (arith, rest, ne)

  count-addresses :
      (a k n : ℕ)
      → ((i j : ℕ) → i < j → j < k + n → addresses i ≢ addresses j)
      → count a (map addresses (range k n)) ≤ 1
  count-addresses a k zero h = omega arith
  count-addresses a k (suc n) h = elim (ℕ_discrete (addresses k) a) [
    | yes e ↦
        let rest =
          count-addresses_below a (k + 1) n
            (λ i l g e'. h k i (omega arith) (omega arith) (e ∙ sym e')) in
        ground (arith, rest)
    | no ne ↦
        let rest = count-addresses a (k + 1) n (λ i j l g. h i j l (omega arith)) in
        ground (arith, rest, ne)
  ]

  -- When the allocations have addresses of their own, a block that `get_block` hands out in a run of
  -- clients that release only what they hold is held by no client.
  pub get_block_exclusive :
      (n ptr : ℕ) (held : List ℕ) (s t : MemoryPool)
      → ((i j : ℕ) → i < j → j < n → addresses i ≢ addresses j)
      → Uses addresses n held s
      → get_block s ≡ some (ptr, t)
      → count ptr held ≡ 0
  get_block_exclusive n ptr held s t apart u e =
      let whole = Uses-whole n (ptr ∷ held) t ptr (got ptr e u) in
      let bound = count-addresses ptr 0 n (λ i j l g. apart i j l (omega arith)) in
      ground (arith, whole, bound)
