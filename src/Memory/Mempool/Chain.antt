-- ===== src/Memory/Mempool/Chain.antt =====
-- The free list as a list of addresses.
use xplain_software_framewor.Base.{
  ℕ, ◌≡◌, ◌≢◌, refl, sym, subst, ◌∙◌, ap, List, [], ◌∷◌, eq→==, ne→==, ==_self, ◌⊎◌, inl, inr, All,
}
use xplain_software_framewor.Memory.Mempool.{WordMem, store, MemPool, mem_pool_alloc, mem_pool_free}

-- `p` heads the chain of exactly these addresses.
abbrev pub Chain : WordMem → ℕ → List ℕ → Type 0
Chain mem p [] = p ≡ 0
Chain mem p (x ∷ xs) = (p ≡ x) × (x ≢ 0) × Chain mem (mem x) xs

-- `a` is none of the addresses.
abbrev pub Apart : ℕ → List ℕ → Type 0
Apart a xs = All (λ x. x ≢ a) xs

-- A store elsewhere leaves a chain as it is.
pub Chain-store :
    (mem : WordMem) (a v : ℕ) (p : ℕ) (xs : List ℕ)
    → Apart a xs
    → Chain mem p xs
    → Chain (store mem a v) p xs
Chain-store mem a v p [] out c = c
Chain-store mem a v p (x ∷ xs) out c =
    (c.0, c.1, rw (ne→== x a out.0) (Chain-store mem a v (mem x) xs out.1 c.2))

-- Any two memories that agree on the chain's addresses have it.
pub Chain-agree :
    (mem mem' : WordMem) (p : ℕ) (xs : List ℕ)
    → All (λ x. mem' x ≡ mem x) xs
    → Chain mem p xs
    → Chain mem' p xs
Chain-agree mem mem' p [] same c = c
Chain-agree mem mem' p (x ∷ xs) same c =
    (c.0, c.1, rw same.0 (Chain-agree mem mem' (mem x) xs same.1 c.2))

-- An allocation from the pool whose free list is `xs` took its first object, or there is none.
abbrev pub Took : WordMem → MemPool → List ℕ → ℕ × MemPool → Type 0
Took mem pool xs (obj, pool') =
    ((xs ≡ []) × (obj ≡ 0) × (pool' ≡ pool))
    ⊎ ((rest : List ℕ) × (xs ≡ obj ∷ rest) × (obj ≢ 0) × Chain mem pool'.freelist rest)

-- `mem_pool_alloc` takes the first object of the free list, which leaves the others, and returns a
-- null pointer and changes nothing only where there is none.
pub alloc-Chain :
    (pool : MemPool) (mem : WordMem) (xs : List ℕ)
    → Chain mem pool.freelist xs
    → Took mem pool xs (mem_pool_alloc pool mem)
unfolding mem_pool_alloc
alloc-Chain pool mem [] c = inl (refl, c, rw (eq→== pool.freelist 0 c))
alloc-Chain pool mem (x ∷ xs) c = inr (
  xs,
  ap (λ y. y ∷ xs) (sym c.0),
  (λ z. c.1 (sym c.0 ∙ z)),
  rw (ne→== pool.freelist 0 (λ z. c.1 (sym c.0 ∙ z)))
      (subst (λ f. Chain mem (mem f) xs) (sym c.0) c.2),
)

pub free_lem :
    (pool : MemPool) (mem : WordMem) (obj : ℕ)
    → obj ≢ 0
    → mem_pool_free pool obj mem ≡ (record { freelist = obj }, store mem obj pool.freelist)
unfolding mem_pool_free
free_lem pool mem obj ne = rw (ne→== obj 0 ne)

-- `mem_pool_free` puts an object that is neither null nor free in front of the free list.
pub free-Chain :
    (pool : MemPool) (mem : WordMem) (obj : ℕ) (xs : List ℕ)
    → obj ≢ 0
    → Apart obj xs
    → Chain mem pool.freelist xs
    → let (pool', mem') = mem_pool_free pool obj mem in Chain mem' pool'.freelist (obj ∷ xs)
free-Chain pool mem obj xs ne out c =
    subst (λ r. Chain r.1 r.0.freelist (obj ∷ xs)) (sym (free_lem pool mem obj ne))
      (refl, ne, rw (==_self obj) (Chain-store mem obj pool.freelist pool.freelist xs out c))

module _ (pool : MemPool) (mem : WordMem) where
  pub pool_taken :
      (x : ℕ) (xs : List ℕ)
      → Chain mem pool.freelist (x ∷ xs)
      → mem_pool_alloc pool mem ≡ (x, record { freelist = mem x })
  unfolding mem_pool_alloc
  pool_taken x xs (here, ne, rest) =
      rw (ne→== pool.freelist 0 (λ z. ne (sym here ∙ z)))
        (ap (λ (f : ℕ). (f, record { freelist = mem f })) here)

  pub pool_empty : Chain mem pool.freelist [] → mem_pool_alloc pool mem ≡ (0, pool)
  unfolding mem_pool_alloc
  pool_empty none_free = rw (eq→== pool.freelist 0 none_free) (ap (λ (f : ℕ). (f, pool)) none_free)
