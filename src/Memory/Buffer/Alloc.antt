-- ===== src/Memory/Buffer/Alloc.antt =====
-- The allocation of a buffer with its data area, against the free objects of the pools.
use xplain_software_framewor.Base.{
  ℕ, ◌≡◌, ◌≢◌, refl, ap, subst, ◌∙◌, ◌⊎◌, inl, inr, ◌==◌, ==_self, ne→==, Option, none, some, List,
  [], ◌∷◌, if◌then◌else◌,
}
use xplain_software_framewor.Memory.Mempool.{store}
use xplain_software_framewor.Memory.Mempool.Chain.{
  Chain, Apart, Chain-store, pool_taken, pool_empty, free_lem, free-Chain,
}
use xplain_software_framewor.Memory.Buffer.{
  Buffers, GenericPool, dmapool_size_small, dmapool_size_large, with_pool, buffer_alloc,
  buffer_free, dmapool_find_pool, alloc_from, dma_alloc, buffer_dma_alloc,
}

-- The free objects of the pools.
abbrev pub Pools : Buffers → List ℕ → List ℕ → List ℕ → Type 0
Pools b buffers small large =
    Chain b.mem b.buffer_pool.freelist buffers
    × Chain b.mem b.size_small.freelist small
    × Chain b.mem b.size_large.freelist large

-- The lists with one object less in the pool that is meant.
abbrev pub Without : Option GenericPool → ℕ → List ℕ → List ℕ → List ℕ → List ℕ → Type 0
Without none obj small large small' large' = ⊥
Without (some dmapool_size_small) obj small large small' large' =
    (small ≡ obj ∷ small') × (large' ≡ large)
Without (some dmapool_size_large) obj small large small' large' =
    (large ≡ obj ∷ large') × (small' ≡ small)

-- No pool is meant, or the one that is has no object.
abbrev pub Exhausted : Option GenericPool → List ℕ → List ℕ → Type 0
Exhausted none small large = Unit
Exhausted (some dmapool_size_small) small large = small ≡ []
Exhausted (some dmapool_size_large) small large = large ≡ []

module _ (b : Buffers) (buf : ℕ) (rest small large : List ℕ)
    (pools : Pools b (buf ∷ rest) small large) (out : Apart buf rest) (out_small : Apart buf small)
    (out_large : Apart buf large) where
  -- After the allocation of the structure.
  abbrev allocated : Buffers
  allocated = record b { buffer_pool = record { freelist = b.mem buf }; mem = store b.mem buf 0 }

  allocated_lem : (buffer_alloc b ≡ some (buf, allocated)) × Pools allocated rest small large
  unfolding buffer_alloc
  allocated_lem = (
    rw (pool_taken b.buffer_pool b.mem buf rest pools.0, ne→== buf 0 pools.0.1) refl,
    (
      Chain-store b.mem buf 0 (b.mem buf) rest out pools.0.2,
      Chain-store b.mem buf 0 b.size_small.freelist small out_small pools.1,
      Chain-store b.mem buf 0 b.size_large.freelist large out_large pools.2,
    ),
  )

  returned_lem : Pools (buffer_free buf allocated) (buf ∷ rest) small large
  unfolding buffer_free
  returned_lem =
      let (chain, on_small, on_large) = allocated_lem.1 in
      let front = free-Chain allocated.buffer_pool allocated.mem buf rest pools.0.1 out chain in
      let freed = free_lem allocated.buffer_pool allocated.mem buf pools.0.1 in
      (
        front,
        rw freed (
            Chain-store allocated.mem buf allocated.buffer_pool.freelist b.size_small.freelist small
              out_small on_small),
        rw freed (
            Chain-store allocated.mem buf allocated.buffer_pool.freelist b.size_large.freelist large
              out_large on_large),
      )

  -- What `buffer_dma_alloc` does.
  abbrev pub Allocated : Option GenericPool → ℕ → Option (ℕ × Buffers) → Type 0
  Allocated id size result =
      (Exhausted id small large
        × ((b' : Buffers) × (result ≡ some (0, b')) × Pools b' (buf ∷ rest) small large))
      ⊎ ((obj : ℕ) × (small' : List ℕ) × (large' : List ℕ) × (b' : Buffers) × Without id obj small
            large small' large'
          × (result ≡ some (buf, b'))
          × Pools b' rest small' large'
          × (b'.mem buf ≡ 0)
          × (b'.addr buf ≡ obj)
          × (b'.len buf ≡ size))

  module _ (small_obj_size large_obj_size size : ℕ) where
    -- The rest of `buffer_dma_alloc`, for the pool that is found.
    abbrev finish : ℕ × Buffers → Option (ℕ × Buffers)
    finish (addr, b2) =
        if addr == 0
        then some (0, buffer_free buf b2)
        else some (buf, record b2 { addr = store b2.addr buf addr; len = store b2.len buf size })

    abbrev finished : Option GenericPool → Option (ℕ × Buffers)
    finished id = finish (alloc_from small_obj_size large_obj_size id allocated)

    exhausted_lem :
        (id : Option GenericPool)
        → Exhausted id small large
        → alloc_from small_obj_size large_obj_size id allocated ≡ (0, allocated)
        → Allocated id size (finished id)
    exhausted_lem id empty e = inl (empty, (buffer_free buf allocated, ap finish e, returned_lem))

    -- The state after an object is taken from a pool.
    abbrev filled : GenericPool → ℕ → Buffers
    filled id obj =
        let b2 = with_pool id (record { freelist = allocated.mem obj }) allocated.mem allocated in
        record b2 { addr = store b2.addr buf obj; len = store b2.len buf size }

    taken_lem :
        (id : GenericPool) (obj : ℕ) (small' large' : List ℕ)
        → obj ≢ 0
        → Without (some id) obj small large small' large'
        → alloc_from small_obj_size large_obj_size (some id) allocated
          ≡ (obj, with_pool id (record { freelist = allocated.mem obj }) allocated.mem allocated)
        → Pools (filled id obj) rest small' large'
        → Allocated (some id) size (finished (some id))
    taken_lem dmapool_size_small obj small' large' ne without e left = inr (
      obj,
      small',
      large',
      filled dmapool_size_small obj,
      without,
      ap finish e ∙ rw (ne→== obj 0 ne) refl,
      left,
      rw (==_self buf) refl,
      rw (==_self buf) refl,
      rw (==_self buf) refl,
    )
    taken_lem dmapool_size_large obj small' large' ne without e left = inr (
      obj,
      small',
      large',
      filled dmapool_size_large obj,
      without,
      ap finish e ∙ rw (ne→== obj 0 ne) refl,
      left,
      rw (==_self buf) refl,
      rw (==_self buf) refl,
      rw (==_self buf) refl,
    )

    small_lem :
        (s : List ℕ)
        → small ≡ s
        → Allocated (some dmapool_size_small) size (finished (some dmapool_size_small))
    small_lem s es =
        go s es (subst (Chain allocated.mem b.size_small.freelist) es allocated_lem.1.1)
      where
        go :
            (s : List ℕ)
            → small ≡ s
            → Chain allocated.mem b.size_small.freelist s
            → Allocated (some dmapool_size_small) size (finished (some dmapool_size_small))
        go [] es on =
            exhausted_lem (some dmapool_size_small) es
              (rw (pool_empty b.size_small allocated.mem on) refl)
        go (x ∷ xs) es on =
            taken_lem dmapool_size_small x xs large on.1 (es, refl)
              (rw (pool_taken b.size_small allocated.mem x xs on) refl)
              (allocated_lem.1.0, on.2, allocated_lem.1.2)

    large_lem :
        (l : List ℕ)
        → large ≡ l
        → Allocated (some dmapool_size_large) size (finished (some dmapool_size_large))
    large_lem l el =
        go l el (subst (Chain allocated.mem b.size_large.freelist) el allocated_lem.1.2)
      where
        go :
            (l : List ℕ)
            → large ≡ l
            → Chain allocated.mem b.size_large.freelist l
            → Allocated (some dmapool_size_large) size (finished (some dmapool_size_large))
        go [] el on =
            exhausted_lem (some dmapool_size_large) el
              (rw (pool_empty b.size_large allocated.mem on) refl)
        go (x ∷ xs) el on =
            taken_lem dmapool_size_large x small xs on.1 (el, refl)
              (rw (pool_taken b.size_large allocated.mem x xs on) refl)
              (allocated_lem.1.0, allocated_lem.1.1, on.2)

    finished_lem : (id : Option GenericPool) → Allocated id size (finished id)
    finished_lem none = exhausted_lem none tt refl
    finished_lem (some dmapool_size_small) = small_lem small refl
    finished_lem (some dmapool_size_large) = large_lem large refl

    -- Where a buffer structure is free, and is in no other free list: `buffer_dma_alloc` returns it
    -- with an object of the pool that its size asks for, which the pool then lacks, with its length
    -- and without a descriptor. If that pool is exhausted or the size is too large for all pools, then the result is
    -- null, and all pools have the objects that they had.
    pub buffer_dma_alloc_lem :
        Allocated
          (dmapool_find_pool small_obj_size large_obj_size size)
          size
          (buffer_dma_alloc small_obj_size large_obj_size size b)
    unfolding buffer_dma_alloc dma_alloc
    buffer_dma_alloc_lem =
        rw (allocated_lem.0) (finished_lem (dmapool_find_pool small_obj_size large_obj_size size))
