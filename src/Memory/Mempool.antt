-- ===== src/Memory/Mempool.antt =====
-- util/mempool.c: pools of objects of one size, whose free objects are chained through their first
-- word. `WordMem` is that word at each address; a null pointer is 0.
pub mod Chain
pub mod Init
pub mod Client
pub mod Region
mod Tests
use xplain_software_framewor.Base.{
  ℕ, zero, suc, ◌+◌, ◌-◌, ◌*◌, ◌%◌, u32_mod, Bool, true, false, Option, none, some, leb, ltb, ◌==◌,
  ◌&&◌, if◌then◌else◌, add32, sub32,
}
use xplain_software_framewor.Memory.Align.{round_up32}
use xplain_software_framewor.Memory.Physmem.{PhysmemPool, alloc_err, physmem_alloc}

abbrev pub WordMem : Type 0
WordMem = ℕ → ℕ

-- `*p = v`
abbrev pub store : WordMem → ℕ → ℕ → WordMem
store mem p v a = if a == p then v else mem a

-- `sizeof(struct mem_pool_object)`: a pointer
abbrev pub object_size : ℕ
object_size = 4

-- `struct mem_pool`
pub record MemPool : Type 0 where
  pub freelist : ℕ

-- `for (offset = objsize; (offset + objsize) <= size; offset += objsize)`: links each object to the
-- next one, and returns the last. `none` means that the fuel ran out.
pub link : ℕ → ℕ → ℕ → ℕ → ℕ → ℕ → WordMem → Option (ℕ × WordMem)
link zero aligned_start objsize size offset prev_obj mem = none
link (suc fuel) aligned_start objsize size offset prev_obj mem =
    let obj = add32 aligned_start offset in
    let rest =
      link fuel aligned_start objsize size (add32 offset objsize) obj (store mem prev_obj obj) in
    if leb (add32 offset objsize) size then rest else some (prev_obj, mem)

-- The body of `mem_pool_init` behind the rounding, for the aligned start, the bytes from there, and
-- the rounded size of an object.
pub init_aligned : ℕ → ℕ → ℕ → WordMem → Option (MemPool × WordMem)
init_aligned aligned_start size objsize mem =
    if leb object_size objsize && leb objsize size
    then (elim (link (suc size) aligned_start objsize size objsize aligned_start mem) [
      | none ↦ none
      | some (obj, mem') ↦ some (record { freelist = aligned_start }, store mem' obj 0)
    ])
    else none

-- `none` is a failed assertion.
pub mem_pool_init : ℕ → ℕ → ℕ → ℕ → WordMem → Option (MemPool × WordMem)
mem_pool_init start size objsize align_order mem =
    let aligned_start = round_up32 start align_order in
    if start == 0
    then none
    else if ltb start (add32 start size)
    then init_aligned aligned_start (sub32 size (sub32 aligned_start start))
        (round_up32 objsize align_order) mem
    else none

-- A null result means that the pool is exhausted.
pub mem_pool_alloc : MemPool → WordMem → ℕ × MemPool
mem_pool_alloc pool mem =
    let obj = pool.freelist in (obj, if obj == 0 then pool else record pool { freelist = mem obj })

pub mem_pool_free : MemPool → ℕ → WordMem → MemPool × WordMem
mem_pool_free pool obj mem =
    if obj == 0 then (pool, mem) else (record pool { freelist = obj }, store mem obj pool.freelist)

abbrev pub from_region :
    PhysmemPool → Option (MemPool × WordMem) → Option (MemPool × PhysmemPool × WordMem)
from_region phys_pool none = none
from_region phys_pool (some (pool, mem)) = some (pool, phys_pool, mem)

-- `none` is a failed assertion, and `physmem_map` returns the address that it is given.
pub mem_pool_init_physmem :
    PhysmemPool → ℕ → ℕ → ℕ → WordMem → Option (MemPool × PhysmemPool × WordMem)
mem_pool_init_physmem phys_pool nr_objects objsize align_order mem =
    let block_size = round_up32 objsize align_order in
    let pool_size = (nr_objects * block_size) % u32_mod in
    let (pool_addr, phys_pool') = physmem_alloc phys_pool pool_size align_order in
    if nr_objects == 0
    then none
    else if pool_addr == alloc_err
    then none
    else from_region phys_pool' (mem_pool_init pool_addr pool_size objsize align_order mem)
