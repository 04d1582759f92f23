-- ===== src/Memory/Membag/Free.antt =====
-- Which bag `membag_free` gives a block back to.
use xplain_software_framewor.Base.{
  ℕ, suc, ◌≤◌, ◌<◌, ◌≡◌, ◌≢◌, ◌⊎◌, refl, sym, ap, subst, List, [], ◌∷◌, ◌++◌, arith, ◌&&◌, All,
  length, leb, le→leb, u32_mod, true, false,
}
use xplain_software_framewor.Memory.Mempool.{WordMem, store, mem_pool_free}
use xplain_software_framewor.Memory.Mempool.Chain.{Apart, Chain-store, free_lem, free-Chain}
use xplain_software_framewor.Memory.Membag.{MemBag, block_freed, membag_free, left_alone}
use xplain_software_framewor.Memory.Membag.Alloc.{BagHas, BagsHave}

-- the addresses that the code takes to be of a bag
abbrev pub InBag : ℕ → MemBag → Type 0
InBag ptr mb = (mb.start ≤ ptr) × (ptr ≤ mb.stop)

abbrev pub NotInBag : ℕ → MemBag → Type 0
NotInBag ptr mb = (ptr < mb.start) ⊎ (mb.stop < ptr)

in_test : (ptr : ℕ) (mb : MemBag) → InBag ptr mb → (leb mb.start ptr && leb ptr mb.stop) ≡ true
in_test ptr mb at = rw (le→leb mb.start ptr at.0, le→leb ptr mb.stop at.1)

out_test : (ptr : ℕ) (mb : MemBag) → NotInBag ptr mb → (leb mb.start ptr && leb ptr mb.stop) ≡ false
out_test ptr mb out = ground arith

-- `membag_free` changes nothing for a pointer that is in no bag's range.
pub membag_free-ignored :
    (bags : List MemBag) (ptr : ℕ) (mem : WordMem)
    → All (NotInBag ptr) bags
    → membag_free bags ptr mem ≡ (bags, mem)
unfolding membag_free
membag_free-ignored [] ptr mem out = refl
membag_free-ignored (mb ∷ bags) ptr mem out =
    rw (out_test ptr mb out.0, membag_free)
      (ap (left_alone mb) (membag_free-ignored bags ptr mem out.1))

-- The first bag whose range has the pointer takes it.
free_found :
    (before : List MemBag) (mb : MemBag) (after : List MemBag) (ptr : ℕ) (mem : WordMem)
    → All (NotInBag ptr) before
    → InBag ptr mb
    → let (pool, mem') = mem_pool_free mb.pool ptr mem in
      membag_free (before ++ mb ∷ after) ptr mem ≡ (before ++ block_freed mb pool ∷ after, mem')
unfolding membag_free
free_found [] mb after ptr mem passed at = rw (in_test ptr mb at)
free_found (other ∷ before) mb after ptr mem passed at =
    rw (out_test ptr other passed.0, membag_free)
      (ap (left_alone other) (free_found before mb after ptr mem passed.1 at))

BagsHave-store :
    (mem : WordMem) (ptr v : ℕ) (bags : List MemBag) (frees : List (List ℕ))
    → All (Apart ptr) frees
    → BagsHave mem bags frees
    → BagsHave (store mem ptr v) bags frees
BagsHave-store mem ptr v [] [] out has = tt
BagsHave-store mem ptr v [] (_ ∷ _) out has = absurd has
BagsHave-store mem ptr v (_ ∷ _) [] out has = absurd has
BagsHave-store mem ptr v (mb ∷ bags) (blocks ∷ frees) out (has, rest) = (
  record {
    chain = Chain-store mem ptr v mb.pool.freelist blocks out.0 has.chain;
    counted = has.counted;
    word = has.word;
  },
  BagsHave-store mem ptr v bags frees out.1 rest,
)

BagsHave-append :
    (mem : WordMem) (before after : List MemBag) (frees_before frees_after : List (List ℕ))
    → BagsHave mem before frees_before
    → BagsHave mem after frees_after
    → BagsHave mem (before ++ after) (frees_before ++ frees_after)
BagsHave-append mem [] after [] frees_after has has' = has'
BagsHave-append mem [] after (_ ∷ _) frees_after has has' = absurd has
BagsHave-append mem (_ ∷ _) after [] frees_after has has' = absurd has
BagsHave-append mem (mb ∷ before) after (blocks ∷ frees_before) frees_after has has' =
    (has.0, BagsHave-append mem before after frees_before frees_after has.1 has')

module _ (mem : WordMem) (before : List MemBag) (mb : MemBag) (after : List MemBag)
    (frees_before : List (List ℕ)) (blocks : List ℕ) (frees_after : List (List ℕ)) (ptr : ℕ) where
  freed-BagHas :
      BagHas mem mb blocks
      → ptr ≢ 0
      → Apart ptr blocks
      → suc (length blocks) < u32_mod
      → let (pool, mem') = mem_pool_free mb.pool ptr mem in
        BagHas mem' (block_freed mb pool) (ptr ∷ blocks)
  unfolding block_freed
  freed-BagHas has ne out word = record {
    chain = free-Chain mb.pool mem ptr blocks ne out has.chain;
    counted = omega (arith, has.counted);
    word = word;
  }

  -- Where each bag's free list is exactly its free blocks and its statistics count them:
  -- `membag_free` gives a block that is not null and free in no bag back to the first bag whose
  -- range, end included, has its address. There it is the next block to be handed out, it is
  -- counted, and all other free blocks stay free in their bags.
  pub membag_free_lem :
      BagsHave mem before frees_before
      → BagHas mem mb blocks
      → BagsHave mem after frees_after
      → All (NotInBag ptr) before
      → InBag ptr mb
      → ptr ≢ 0
      → All (Apart ptr) frees_before
      → Apart ptr blocks
      → All (Apart ptr) frees_after
      → suc (length blocks) < u32_mod
      → let (bags', mem') = membag_free (before ++ mb ∷ after) ptr mem in
        BagsHave mem' bags' (frees_before ++ (ptr ∷ blocks) ∷ frees_after)
  membag_free_lem front has back passed at ne out out' out'' word =
      let stored = free_lem mb.pool mem ptr ne in
      let word_kept : (mem_pool_free mb.pool ptr mem).1 ≡ store mem ptr mb.pool.freelist =
        ap (λ r. r.1) stored in
      subst (λ r. BagsHave r.1 r.0 (frees_before ++ (ptr ∷ blocks) ∷ frees_after))
        (sym (free_found before mb after ptr mem passed at))
        (BagsHave-append (mem_pool_free mb.pool ptr mem).1 before _ frees_before _
          (subst (λ m. BagsHave m before frees_before) (sym word_kept)
            (BagsHave-store mem ptr mb.pool.freelist before frees_before out front))
          (
            freed-BagHas has ne out' word,
            subst (λ m. BagsHave m after frees_after) (sym word_kept)
                (BagsHave-store mem ptr mb.pool.freelist after frees_after out'' back),
          ))
