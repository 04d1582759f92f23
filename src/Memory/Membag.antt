-- ===== src/Memory/Membag.antt =====
-- util/membag.c, with CONFIG_MEMBAG_USE_TUNING: memory bags, each a pool of blocks of one size. The
-- array `membags` is a list, and physical regions are the values of a function of their addresses.
pub mod Alloc
pub mod Free
pub mod Totals
mod Tests
use xplain_software_framewor.Base.{
  ℕ, zero, suc, ◌*◌, ◌%◌, ◌^◌, ◌&&◌, not, Option, none, some, List, [], ◌∷◌, leb, ltb, ◌==◌,
  if◌then◌else◌, length, add32, sub32, u32_mod,
}
use xplain_software_framewor.Memory.Align.{round_up32}
use xplain_software_framewor.Memory.Physmem.{PhysmemPool, alloc_err, physmem_alloc}
use xplain_software_framewor.Memory.Mempool.{
  WordMem, MemPool, mem_pool_init, mem_pool_alloc, mem_pool_free,
}

-- `struct membag_bagstats`
pub record BagStats : Type 0 where
  pub num_free_blocks : ℕ
  pub max_blocks_used : ℕ
  pub min_block_size : ℕ
  pub max_block_size : ℕ
  pub num_allocations : ℕ

-- `struct membag`; `stop` is its field `end`.
pub record MemBag : Type 0 where
  pub block_size : ℕ
  pub num_blocks : ℕ
  pub phys_pool : ℕ
  pub pool : MemPool
  pub start : ℕ
  pub stop : ℕ
  pub stats : BagStats

-- a bag whose blocks are those from `addr` on
abbrev initialised : MemBag → ℕ → ℕ → ℕ → MemPool → MemBag
initialised mb block_size addr pool_size pool = record mb {
  pool = pool;
  start = addr;
  stop = add32 addr pool_size;
  stats = record {
    num_free_blocks = mb.num_blocks;
    max_blocks_used = 0;
    min_block_size = block_size;
    max_block_size = 0;
    num_allocations = 0;
  };
}

abbrev set_region : (ℕ → PhysmemPool) → ℕ → PhysmemPool → ℕ → PhysmemPool
set_region regions p region q = if q == p then region else regions q

-- `membag_pool_init_physmem`; `none` is a failed assertion.
pub pool_init_physmem :
    MemBag → ℕ → (ℕ → PhysmemPool) → WordMem → Option (MemBag × (ℕ → PhysmemPool) × WordMem)
pool_init_physmem mb align_order regions mem =
    let block_size = round_up32 mb.block_size align_order in
    let pool_size = (mb.num_blocks * block_size) % u32_mod in
    let (pool_addr, region) = physmem_alloc (regions mb.phys_pool) pool_size align_order in
    if mb.phys_pool == 0
    then none
    else if not (ltb 0 mb.block_size && ltb 0 mb.num_blocks)
    then none
    else if pool_addr == alloc_err
    then none
    else (elim (mem_pool_init pool_addr pool_size mb.block_size align_order mem) [
      | none ↦ none
      | some (pool, mem') ↦ some (
        initialised mb block_size pool_addr pool_size pool,
        set_region regions mb.phys_pool region,
        mem',
      )
    ])

abbrev with_bag :
    MemBag
    → Option (List MemBag × (ℕ → PhysmemPool) × WordMem)
    → Option (List MemBag × (ℕ → PhysmemPool) × WordMem)
with_bag mb none = none
with_bag mb (some (bags, regions, mem)) = some (mb ∷ bags, regions, mem)

pub membag_init :
    List MemBag
    → ℕ
    → (ℕ → PhysmemPool)
    → WordMem
    → Option (List MemBag × (ℕ → PhysmemPool) × WordMem)
membag_init [] align_order regions mem = some ([], regions, mem)
membag_init (mb ∷ bags) align_order regions mem =
    elim (pool_init_physmem mb align_order regions mem) [
      | none ↦ none
      | some (mb', regions', mem') ↦ with_bag mb' (membag_init bags align_order regions' mem')
    ]

-- `size` and `blocks` are 16 bits wide.
pub membag_get_total : List MemBag → ℕ
membag_get_total [] = 0
membag_get_total (mb ∷ bags) =
    add32 (mb.block_size % 2 ^ 16 * (mb.num_blocks % 2 ^ 16)) (membag_get_total bags)

pub membag_get_free : List MemBag → ℕ
membag_get_free [] = 0
membag_get_free (mb ∷ bags) =
    add32 (mb.block_size * mb.stats.num_free_blocks) (membag_get_free bags)

pub membag_get_smallest_free_block_size : List MemBag → ℕ
membag_get_smallest_free_block_size [] = 0
membag_get_smallest_free_block_size (mb ∷ bags) =
    let rest = membag_get_smallest_free_block_size bags in
    if not (mb.pool.freelist == 0) then mb.block_size else rest

-- `while (i > 0)`: the block size of the last bag with a free block
pub last_free : List MemBag → Option ℕ
last_free [] = none
last_free (mb ∷ bags) = elim (last_free bags) [
  | none ↦ if not (mb.pool.freelist == 0) then some mb.block_size else none
  | some size ↦ some size
]

pub membag_get_largest_free_block_size : List MemBag → ℕ
membag_get_largest_free_block_size bags = elim (last_free bags) [ none ↦ 0 | some size ↦ size ]

-- what `membag_alloc` does to a bag that it takes a block from
pub block_taken : MemBag → ℕ → MemPool → MemBag
block_taken mb size pool =
    let allocations = add32 mb.stats.num_allocations 1 in
    record mb {
      pool = pool;
      stats = record {
        num_free_blocks = sub32 mb.stats.num_free_blocks 1;
        max_blocks_used =
            if ltb mb.stats.max_blocks_used allocations
            then allocations
            else mb.stats.max_blocks_used;
        min_block_size = if ltb size mb.stats.min_block_size then size else mb.stats.min_block_size;
        max_block_size = if ltb mb.stats.max_block_size size then size else mb.stats.max_block_size;
        num_allocations = allocations;
      };
    }

abbrev passed_by : MemBag → ℕ × List MemBag → ℕ × List MemBag
passed_by mb (ptr, bags) = (ptr, mb ∷ bags)

pub membag_alloc : List MemBag → ℕ → WordMem → ℕ × List MemBag
membag_alloc [] size mem = (0, [])
membag_alloc (mb ∷ bags) size mem =
    let rest = membag_alloc bags size mem in
    let (ptr, pool) = mem_pool_alloc mb.pool mem in
    if ltb mb.block_size size
    then passed_by mb rest
    else if ptr == 0
    then passed_by (record mb { pool = pool }) rest
    else (ptr, block_taken mb size pool ∷ bags)

pub block_freed : MemBag → MemPool → MemBag
block_freed mb pool = record mb {
  pool = pool;
  stats = record mb.stats { num_free_blocks = add32 mb.stats.num_free_blocks 1 };
}

abbrev left_alone : MemBag → List MemBag × WordMem → List MemBag × WordMem
left_alone mb (bags, mem) = (mb ∷ bags, mem)

pub membag_free : List MemBag → ℕ → WordMem → List MemBag × WordMem
membag_free [] ptr mem = ([], mem)
membag_free (mb ∷ bags) ptr mem =
    let rest = membag_free bags ptr mem in
    let (pool, mem') = mem_pool_free mb.pool ptr mem in
    if leb mb.start ptr && leb ptr mb.stop
    then (block_freed mb pool ∷ bags, mem')
    else left_alone mb rest

pub membag_get_bag_stats : List MemBag → ℕ → Option BagStats
membag_get_bag_stats [] bag_no = none
membag_get_bag_stats (mb ∷ bags) zero = some mb.stats
membag_get_bag_stats (mb ∷ bags) (suc bag_no) = membag_get_bag_stats bags bag_no
