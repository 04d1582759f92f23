-- ===== src/Memory/Physmem.antt =====
-- util/physmem.c and util/malloc_simple.c: memory taken from either end of a region.
pub mod Regions
mod Tests
use xplain_software_framewor.Base.{
  ℕ, ◌+◌, ◌-◌, ◌≡◌, Bool, Option, none, some, ◌>>=◌, leb, ltb, ◌==◌, if◌then◌else◌, u32_mod, add32,
  sub32,
}
use xplain_software_framewor.Strings.{ByteMem, memset}
use xplain_software_framewor.Memory.Align.{round_down32, round_up32}

-- `struct physmem_pool`: the first address of the region, and the first one after it.
pub record PhysmemPool : Type 0 where
  pub start : ℕ
  pub stop : ℕ

-- PHYSMEM_ALLOC_ERR
abbrev pub alloc_err : ℕ
alloc_err = u32_mod - 1

pub physmem_alloc : PhysmemPool → ℕ → ℕ → ℕ × PhysmemPool
physmem_alloc pool size align_order =
    let addr = round_down32 (sub32 pool.stop size) align_order in
    if leb pool.start addr then (addr, record pool { stop = addr }) else (alloc_err, pool)

unfoldable pub physmem_alloc_low : PhysmemPool → ℕ → ℕ → ℕ × PhysmemPool
physmem_alloc_low pool size align_order =
    let addr = round_up32 pool.start align_order in
    if leb (add32 addr size) pool.stop
    then (addr, record pool { start = add32 addr size })
    else (alloc_err, pool)

-- `malloc` on `cpu_sram_pool`: a failed assertion is `none`, a null pointer is 0, and
-- `physmem_map` returns the address that it is given.
unfoldable pub malloc : PhysmemPool → ℕ → Option (ℕ × PhysmemPool)
malloc pool size =
    if size == 0
    then none
    else (let (addr, pool') = physmem_alloc_low pool size 2 in
        some (if addr == alloc_err then 0 else addr, pool'))

pub zalloc : PhysmemPool → ℕ → ByteMem → Option (ℕ × PhysmemPool × ByteMem)
zalloc pool size mem = malloc pool size >>= λ (p, pool').
    some (p, pool', if p == 0 then mem else (memset p 0 size mem).1)
