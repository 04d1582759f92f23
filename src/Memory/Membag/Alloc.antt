-- ===== src/Memory/Membag/Alloc.antt =====
-- Which bag `membag_alloc` serves a request from.
use xplain_software_framewor.Base.{
  ℕ, ◌≤◌, ◌<◌, ◌≡◌, ◌≢◌, ◌⊎◌, inl, inr, refl, sym, ap, subst, List, [], ◌∷◌, ◌++◌, All, arith,
  length, Bool-cases, ltb, ltb→lt, ltb_false→le, eq→==, ne→==, u32_mod,
}
use xplain_software_framewor.Memory.Mempool.{WordMem, MemPool, mem_pool_alloc}
use xplain_software_framewor.Memory.Mempool.Chain.{Chain, alloc-Chain}
use xplain_software_framewor.Memory.Membag.{MemBag, block_taken, membag_alloc, passed_by}

-- The free blocks of a bag are exactly these, and its statistics count them.
pub record BagHas (mem : WordMem) (mb : MemBag) (blocks : List ℕ) : Type 0 where
  pub chain : Chain mem mb.pool.freelist blocks
  pub counted : mb.stats.num_free_blocks ≡ length blocks
  pub word : length blocks < u32_mod

-- one list of free blocks for each bag
abbrev pub BagsHave : WordMem → List MemBag → List (List ℕ) → Type 0
BagsHave mem [] [] = Unit
BagsHave mem [] (_ ∷ _) = ⊥
BagsHave mem (_ ∷ _) [] = ⊥
BagsHave mem (mb ∷ bags) (blocks ∷ frees) = BagHas mem mb blocks × BagsHave mem bags frees

-- No bag can serve a request of this size: its blocks are too small, or none is free.
abbrev pub Unsuited : ℕ → List MemBag → List (List ℕ) → Type 0
Unsuited size [] [] = Unit
Unsuited size [] (_ ∷ _) = ⊥
Unsuited size (_ ∷ _) [] = ⊥
Unsuited size (mb ∷ bags) (blocks ∷ frees) =
    ((mb.block_size < size) ⊎ (blocks ≡ [])) × Unsuited size bags frees

-- No bag of these has smaller blocks.
abbrev pub NoSmaller : MemBag → List MemBag → Type 0
NoSmaller mb bags = All (λ b. mb.block_size ≤ b.block_size) bags

-- The bags are in the order of their block sizes.
abbrev pub Ascending : List MemBag → Type 0
Ascending [] = Unit
Ascending (mb ∷ bags) = NoSmaller mb bags × Ascending bags

NoSmaller-cases : (mb : MemBag) (bags : List MemBag) → NoSmaller mb bags ⊎ ¬ NoSmaller mb bags
NoSmaller-cases mb [] = inl tt
NoSmaller-cases mb (b ∷ bags) = elim (Bool-cases (ltb b.block_size mb.block_size)) [
  | inl less ↦ inr (λ all. omega (arith, all.0, ltb→lt _ _ less))
  | inr more ↦ elim (NoSmaller-cases mb bags) [
    | inl all ↦ inl (ltb_false→le _ _ more, all)
    | inr some_less ↦ inr (λ all. some_less all.1)
  ]
]

-- The request is served from the first suitable bag: the block is that bag's first free one, and
-- nothing else changes. No later bag has smaller blocks, unless the bags are not in the order of their block
-- sizes.
pub record Served (mem : WordMem) (size : ℕ) (bags : List MemBag) (frees : List (List ℕ)) (ptr : ℕ)
    (bags' : List MemBag) : Type 0 where
  pub before : List MemBag
  pub mb : MemBag
  pub after : List MemBag
  pub frees_before : List (List ℕ)
  pub blocks : List ℕ
  pub frees_after : List (List ℕ)
  pub pool : MemPool
  pub split : bags ≡ before ++ mb ∷ after
  pub free_split : frees ≡ frees_before ++ (ptr ∷ blocks) ∷ frees_after
  pub first : Unsuited size before frees_before
  pub smallest : NoSmaller mb after ⊎ ¬ Ascending bags
  pub fits : size ≤ mb.block_size
  pub proper : ptr ≢ 0
  pub result : bags' ≡ before ++ block_taken mb size pool ∷ after
  pub kept : BagsHave mem bags' (frees_before ++ blocks ∷ frees_after)

abbrev pub Answer : WordMem → ℕ → List MemBag → List (List ℕ) → ℕ × List MemBag → Type 0
Answer mem size bags frees (ptr, bags') =
    (ptr ≡ 0) × (bags' ≡ bags) × Unsuited size bags frees ⊎ Served mem size bags frees ptr bags'

module _ (mem : WordMem) (size : ℕ) where
  -- a bag that is passed by
  Answer-pass :
      (mb : MemBag) (blocks : List ℕ) {bags : List MemBag} {frees : List (List ℕ)}
      {r : ℕ × List MemBag}
      → BagHas mem mb blocks
      → (mb.block_size < size) ⊎ (blocks ≡ [])
      → Answer mem size bags frees r
      → Answer mem size (mb ∷ bags) (blocks ∷ frees) (passed_by mb r)
  Answer-pass mb blocks has why (inl (z, same, rest)) = inl (z, ap (λ l. mb ∷ l) same, (why, rest))
  Answer-pass mb blocks has why (inr v) = inr (record {
    before = mb ∷ v.before;
    mb = v.mb;
    after = v.after;
    frees_before = blocks ∷ v.frees_before;
    blocks = v.blocks;
    frees_after = v.frees_after;
    pool = v.pool;
    split = ap (λ l. mb ∷ l) v.split;
    free_split = ap (λ l. blocks ∷ l) v.free_split;
    first = (why, v.first);
    smallest = elim v.smallest [
      | inl least ↦ inl least
      | inr unsorted ↦ inr (λ sorted. unsorted sorted.1)
    ];
    fits = v.fits;
    proper = v.proper;
    result = ap (λ l. mb ∷ l) v.result;
    kept = (has, v.kept);
  })

  -- the first bag serves
  Served-here :
      (mb : MemBag) (ptr : ℕ) (blocks : List ℕ) (pool : MemPool) (bags : List MemBag)
      (frees : List (List ℕ))
      → size ≤ mb.block_size
      → ptr ≢ 0
      → Chain mem pool.freelist blocks
      → BagHas mem mb (ptr ∷ blocks)
      → BagsHave mem bags frees
      → Served mem size (mb ∷ bags) ((ptr ∷ blocks) ∷ frees) ptr (block_taken mb size pool ∷ bags)
  unfolding block_taken
  Served-here mb ptr blocks pool bags frees fits proper chain has rest = record {
    before = [];
    mb = mb;
    after = bags;
    frees_before = [];
    blocks = blocks;
    frees_after = frees;
    pool = pool;
    split = refl;
    free_split = refl;
    first = tt;
    smallest = elim (NoSmaller-cases mb bags) [
      | inl least ↦ inl least
      | inr some_less ↦ inr (λ sorted. some_less sorted.0)
    ];
    fits = fits;
    proper = proper;
    result = refl;
    kept = (
      record {
        chain = chain;
        counted = omega (arith, has.counted, has.word);
        word = omega (arith, has.word);
      },
      rest,
    );
  }

  -- Where each bag's free list is exactly its free blocks and its statistics count them:
  -- `membag_alloc` serves a request from the first bag in the array whose blocks are large enough
  -- and which has a free one. If the array is in the order of the block sizes, it is a bag with the
  -- smallest blocks of all such bags; otherwise it need not be. After that the free blocks are
  -- those before less the block returned, and are still counted. Where there is no such bag it
  -- returns a null pointer and changes nothing.
  pub membag_alloc_lem :
      (bags : List MemBag) (frees : List (List ℕ))
      → BagsHave mem bags frees
      → Answer mem size bags frees (membag_alloc bags size mem)
  unfolding membag_alloc
  membag_alloc_lem [] [] has = inl (refl, refl, tt)
  membag_alloc_lem [] (blocks ∷ frees) has = absurd has
  membag_alloc_lem (mb ∷ bags) [] has = absurd has
  membag_alloc_lem (mb ∷ bags) (blocks ∷ frees) (has, rest) =
      let later = membag_alloc_lem bags frees rest in
      let taken = mem_pool_alloc mb.pool mem in
      elim (Bool-cases (ltb mb.block_size size)) [
        | inl small ↦
            rw (small, membag_alloc) (Answer-pass mb blocks has (inl (ltb→lt _ _ small)) later)
        | inr enough ↦ elim (alloc-Chain mb.pool mem blocks has.chain) [
          | inl (nothing, null, same) ↦
              rw (enough, membag_alloc, eq→== taken.0 0 null, same)
                (Answer-pass mb blocks has (inr nothing) later)
          | inr (others, e, ne, chain) ↦
              rw (enough, membag_alloc, ne→== taken.0 0 ne)
                (subst
                  (λ l.
                    Answer mem size (mb ∷ bags) (l ∷ frees)
                      (taken.0, block_taken mb size taken.1 ∷ bags))
                  (sym e)
                  (inr (
                    Served-here mb taken.0 others taken.1 bags frees (ltb_false→le _ _ enough) ne
                      chain (subst (BagHas mem mb) e has) rest)))
        ]
      ]
