-- ===== src/Memory.antt =====
-- The memory allocators: util/physmem.c, util/malloc_simple.c, util/mempool.c and util/membag.c.
pub mod Align
pub mod Physmem
pub mod Mempool
pub mod Membag
pub mod Buffer
