-- ===== src/Memory/Buffer/Tests.antt =====
-- One free buffer at 16, and a small object at 64; the pool of large objects is empty.
use xplain_software_framewor.Base.{refl, arith, [], ◌∷◌}
use xplain_software_framewor.Memory.Buffer.{Buffers, buffer_dma_alloc, dmapool_find_pool}
use xplain_software_framewor.Memory.Buffer.Alloc.{Pools, Allocated, buffer_dma_alloc_lem}

abbrev buffers : Buffers
buffers = record {
  buffer_pool = record { freelist = 16 };
  size_small = record { freelist = 64 };
  size_large = record { freelist = 0 };
  mem = λ a. 0;
  addr = λ a. 0;
  len = λ a. 0;
}

buffers-Pools : Pools buffers (16 ∷ []) (64 ∷ []) []
buffers-Pools = ((refl, (λ e. omega arith), refl), (refl, (λ e. omega arith), refl), refl)

buffer_dma_alloc_example :
    Allocated buffers 16 []
      (64 ∷ [])
      []
      buffers-Pools
      tt
      ((λ e. omega arith), tt)
      tt
      (dmapool_find_pool 32 512 20)
      20
      (buffer_dma_alloc 32 512 20 buffers)
buffer_dma_alloc_example =
    buffer_dma_alloc_lem buffers 16 [] (64 ∷ []) [] buffers-Pools tt ((λ e. omega arith), tt) tt 32
      512 20
