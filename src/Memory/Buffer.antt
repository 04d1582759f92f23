-- ===== src/Memory/Buffer.antt =====
-- util/buffer.c and include/buffer.h, util/dmapool.c and include/dmapool.h, with DMA pools that are
-- memory pools (include/generic/dmapool_nommu.h) and with both generic pools configured. A DMA
-- address is a plain address.
pub mod Alloc
mod Tests
use xplain_software_framewor.Base.{
  ℕ, Bool, true, false, Option, none, some, ◌>>=◌, leb, ◌==◌, if◌then◌else◌,
}
use xplain_software_framewor.Memory.Physmem.{PhysmemPool}
use xplain_software_framewor.Memory.Mempool.{
  WordMem, store, MemPool, mem_pool_alloc, mem_pool_free, mem_pool_init_physmem,
}

-- `buffer_pool`, `dmapool_size_small` and `dmapool_size_large`, with the words that their free
-- objects start with. `struct buffer` starts with `dma_desc`, which is therefore the word at its
-- address; its `addr` and `len` are behind it.
pub record Buffers : Type 0 where
  pub buffer_pool : MemPool
  pub size_small : MemPool
  pub size_large : MemPool
  pub mem : WordMem
  pub addr : ℕ → ℕ
  pub len : ℕ → ℕ

-- `sizeof(struct buffer)`
abbrev pub buffer_size : ℕ
buffer_size = 16

-- `CPU_DMA_ALIGN`
abbrev pub dma_align : ℕ
dma_align = 2

-- `none` is the write through a null pointer.
pub buffer_alloc : Buffers → Option (ℕ × Buffers)
buffer_alloc b =
    let (buf, pool) = mem_pool_alloc b.buffer_pool b.mem in
    if buf == 0 then none else some (buf, record b { buffer_pool = pool; mem = store b.mem buf 0 })

pub buffer_free : ℕ → Buffers → Buffers
buffer_free buf b =
    let (pool, mem) = mem_pool_free b.buffer_pool buf b.mem in
    record b { buffer_pool = pool; mem = mem }

-- `none` is a failed assertion.
pub buffer_resize : ℕ → ℕ → Buffers → Option Buffers
buffer_resize buf new_size b =
    if buf == 0 then none else some (record b { len = store b.len buf new_size })

-- `buffer_init_tx_mapped` and `buffer_init_rx_mapped`
pub buffer_init_mapped : ℕ → ℕ → ℕ → Buffers → Buffers
buffer_init_mapped buf addr len b = record b {
  addr = store b.addr buf addr;
  len = store b.len buf len;
}

pub data GenericPool : Type 0 where
  dmapool_size_small : GenericPool
  dmapool_size_large : GenericPool

abbrev pub pool_of : GenericPool → Buffers → MemPool
pool_of dmapool_size_small b = b.size_small
pool_of dmapool_size_large b = b.size_large

abbrev pub with_pool : GenericPool → MemPool → WordMem → Buffers → Buffers
with_pool dmapool_size_small pool mem b = record b { size_small = pool; mem = mem }
with_pool dmapool_size_large pool mem b = record b { size_large = pool; mem = mem }

-- `CONFIG_DMAPOOL_SMALL_OBJ_SIZE` and `CONFIG_DMAPOOL_LARGE_OBJ_SIZE`
module _ (small_obj_size large_obj_size : ℕ) where
  pub dmapool_find_pool : ℕ → Option GenericPool
  dmapool_find_pool alloc_size =
      if leb alloc_size small_obj_size
      then some dmapool_size_small
      else if leb alloc_size large_obj_size
      then some dmapool_size_large
      else none

  -- `dma_pool_alloc`, or the failure address where there is no pool.
  abbrev pub alloc_from : Option GenericPool → Buffers → ℕ × Buffers
  alloc_from none b = (0, b)
  alloc_from (some id) b =
      let (obj, pool) = mem_pool_alloc (pool_of id b) b.mem in (obj, with_pool id pool b.mem b)

  pub dma_alloc : ℕ → Buffers → ℕ × Buffers
  dma_alloc size = alloc_from (dmapool_find_pool size)

  pub dma_free : ℕ → ℕ → Buffers → Option Buffers
  dma_free obj size b = dmapool_find_pool size >>= λ id.
      let (pool, mem) = mem_pool_free (pool_of id b) obj b.mem in some (with_pool id pool mem b)

  pub buffer_dma_alloc : ℕ → Buffers → Option (ℕ × Buffers)
  buffer_dma_alloc size b = buffer_alloc b >>= λ (buf, b1).
      let (addr, b2) = dma_alloc size b1 in
      if addr == 0
      then some (0, buffer_free buf b2)
      else some (buf, record b2 { addr = store b2.addr buf addr; len = store b2.len buf size })

  pub buffer_dma_free : ℕ → ℕ → Buffers → Option Buffers
  buffer_dma_free buf size b = dma_free (b.addr buf) size b >>= λ b1. some (buffer_free buf b1)

pub buffer_pool_init : ℕ → PhysmemPool → WordMem → Option (MemPool × PhysmemPool × WordMem)
buffer_pool_init nr_buffers cpu_sram_pool =
    mem_pool_init_physmem cpu_sram_pool nr_buffers buffer_size 2

-- The steps are those of `mem_pool_init_physmem`.
pub dma_pool_init_coherent_physmem :
    PhysmemPool → ℕ → ℕ → ℕ → WordMem → Option (MemPool × PhysmemPool × WordMem)
dma_pool_init_coherent_physmem = mem_pool_init_physmem

-- `dma_pool_init` with the numbers of objects and their sizes: the pools of large and of small
-- objects, from one region.
pub dma_pool_init :
    ℕ → ℕ → ℕ → ℕ → PhysmemPool → WordMem → Option (MemPool × MemPool × PhysmemPool × WordMem)
dma_pool_init nr_large_objs large_obj_size nr_small_objs small_obj_size dma_sram_pool mem =
    dma_pool_init_coherent_physmem dma_sram_pool nr_large_objs large_obj_size dma_align mem
    >>= λ (large, sram1, mem1).
        dma_pool_init_coherent_physmem sram1 nr_small_objs small_obj_size dma_align mem1
        >>= λ (small, sram2, mem2). some (large, small, sram2, mem2)
