-- ===== src/Memory/Membag/Tests.antt =====
-- Two bags: one of 16-byte blocks without a free one, and one of 32-byte blocks with two.
use xplain_software_framewor.Base.{ℕ, ◌<◌, refl, List, [], ◌∷◌, arith}
use xplain_software_framewor.Memory.Mempool.{WordMem, store}
use xplain_software_framewor.Memory.Membag.{
  MemBag, BagStats, membag_alloc, membag_free, membag_get_largest_free_block_size, last_free,
}
use xplain_software_framewor.Memory.Membag.Alloc.{BagHas, BagsHave, Answer, membag_alloc_lem}
use xplain_software_framewor.Memory.Membag.Free.{membag_free_lem}

abbrev mem : WordMem
mem = store (λ a. 0) 100 132

abbrev stats : ℕ → BagStats
stats n = record {
  num_free_blocks = n;
  max_blocks_used = 0;
  min_block_size = 16;
  max_block_size = 0;
  num_allocations = 0;
}

abbrev small : MemBag
small = record {
  block_size = 16;
  num_blocks = 1;
  phys_pool = 4;
  pool = record { freelist = 0 };
  start = 64;
  stop = 80;
  stats = stats 0;
}

abbrev large : MemBag
large = record {
  block_size = 32;
  num_blocks = 2;
  phys_pool = 4;
  pool = record { freelist = 100 };
  start = 100;
  stop = 164;
  stats = stats 2;
}

abbrev bags : List MemBag
bags = small ∷ large ∷ []

abbrev blocks : List ℕ
blocks = 100 ∷ 132 ∷ []

abbrev frees : List (List ℕ)
frees = [] ∷ blocks ∷ []

small-BagHas : BagHas mem small []
small-BagHas = record { chain = refl; counted = refl; word = omega arith }

large-BagHas : BagHas mem large blocks
large-BagHas = record {
  chain = (refl, (λ e. omega arith), (refl, (λ e. omega arith), refl));
  counted = refl;
  word = omega arith;
}

bags-BagsHave : BagsHave mem bags frees
bags-BagsHave = (small-BagHas, (large-BagHas, tt))

membag_alloc_example : Answer mem 10 bags frees (membag_alloc bags 10 mem)
membag_alloc_example = membag_alloc_lem mem 10 bags frees bags-BagsHave

-- the block of the small bag
membag_free_example :
    BagsHave (membag_free bags 64 mem).1 (membag_free bags 64 mem).0 ((64 ∷ []) ∷ blocks ∷ [])
membag_free_example =
    membag_free_lem mem [] small (large ∷ []) [] [] (blocks ∷ []) 64 tt small-BagHas
      (large-BagHas, tt) tt (omega arith, omega arith) (λ e. omega arith) tt tt
      (((λ e. omega arith), ((λ e. omega arith), tt)), tt) (omega arith)

largest : 0 < membag_get_largest_free_block_size bags
unfolding membag_get_largest_free_block_size last_free
largest = omega arith
