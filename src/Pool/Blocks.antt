-- ===== src/Pool/Blocks.antt =====
-- src/memory_pool.cc and include/memory_pool.hh: the blocks of memory that a node's connections share.
pub mod Shared
use mathlib.Core.Option.{none-ne-some}
use stripe_merge.Common.{
  ℕ, zero, suc, ◌+◌, ◌≤◌, ◌<◌, ◌≡◌, ◌≢◌, refl, sym, ap, ◌∙◌, List, [], ◌∷◌, ◌++◌, Option, none,
  some, ◌==◌, if◌then◌else◌, get_or, map, range, count, remove, arith, count-append, AllBelow,
  subst, All-append, AllBelow-count, count-range_above, Option-cases, inl, inr, ℕ_discrete,
}

-- The members. A block stands for its address; `ptr_map` sends the address of `pool[i]` to `i`.
pub record MemoryPool : Type 0 where
  pub block_num : ℕ
  pub pool : List ℕ
  pub free_queue : List ℕ
  pub ptr_map : List (ℕ × ℕ)

-- The constructor, where `addresses i` is the address that the `i`-th `new char[s]` returns.
unfoldable pub new_memory_pool : (ℕ → ℕ) → ℕ → MemoryPool
new_memory_pool addresses n = record {
  block_num = n;
  pool = map addresses (range 0 n);
  free_queue = range 0 n;
  ptr_map = map (λ i. (addresses i, i)) (range 0 n);
}

-- `ptr_map.find(ptr)`.
unfoldable pub find_block : ℕ → List (ℕ × ℕ) → Option ℕ
find_block ptr [] = none
find_block ptr ((p, i) ∷ m) = if p == ptr then some i else find_block ptr m

-- `get_block`: a caller waits while no block is free.
unfoldable pub get_block : MemoryPool → Option (ℕ × MemoryPool)
get_block s = elim s.free_queue [
  | [] ↦ none
  | i ∷ rest ↦ some (get_or s.pool i 0, record s { free_queue = rest })
]

-- `release_block`: an address that is not of the pool changes nothing.
unfoldable pub release_block : ℕ → MemoryPool → MemoryPool
unfolding find_block
release_block ptr s = elim (find_block ptr s.ptr_map) [
  | none ↦ s
  | some i ↦ record s { free_queue = s.free_queue ++ i ∷ [] }
]

-- The runs of clients that share a pool, with the addresses that are held: a client releases a block that
-- it holds, once, or an address that is not of the pool.
pub data Uses (addresses : ℕ → ℕ) (n : ℕ) : List ℕ → MemoryPool → Type 0 where
  opened : Uses addresses n [] (new_memory_pool addresses n)
  got :
      {held : List ℕ} {s t : MemoryPool} (ptr : ℕ)
      → get_block s ≡ some (ptr, t)
      → Uses addresses n held s
      → Uses addresses n (ptr ∷ held) t
  released :
      {held : List ℕ} {s : MemoryPool} (ptr : ℕ)
      → 0 < count ptr held
      → Uses addresses n held s
      → Uses addresses n (remove ptr held) (release_block ptr s)
  refused :
      {held : List ℕ} {s : MemoryPool} (ptr : ℕ)
      → find_block ptr s.ptr_map ≡ none
      → Uses addresses n held s
      → Uses addresses n held (release_block ptr s)
