-- ===== src/Memory/Physmem/Tests.antt =====
-- Allocations from a small region.
use xplain_software_framewor.Base.{ℕ, ◌+◌, ◌<◌, ◌≡◌, ◌≢◌, ◌⊎◌, refl, arith}
use xplain_software_framewor.Memory.Align.{round_down32}
use xplain_software_framewor.Memory.Physmem.{PhysmemPool, alloc_err, physmem_alloc}
use xplain_software_framewor.Memory.Physmem.Regions.{
  IsPool, Fits, InRegion, Refused, physmem_alloc_lem, physmem_alloc_wraps,
}

abbrev region : PhysmemPool
region = record { start = 5; stop = 100 }

region-IsPool : IsPool region
region-IsPool = record { ordered = omega arith; word = omega arith }

physmem_alloc_example :
    InRegion region 10 3 (physmem_alloc region 10 3).0
      × (100 < (physmem_alloc region 10 3).0 + 10 + 8)
      × ((physmem_alloc region 10 3).1 ≡ record { start = 5; stop = (physmem_alloc region 10 3).0 })
    ⊎ (¬ Fits region 10 3) × Refused region (physmem_alloc region 10 3)
physmem_alloc_example = physmem_alloc_lem region 10 3 region-IsPool (omega arith) (omega arith)

physmem_alloc_wraps_example :
    (¬ Fits region 101 3)
    × (100 < (physmem_alloc region 101 3).0)
    × ((physmem_alloc region 101 3).1 ≡ record { start = 5; stop = (physmem_alloc region 101 3).0 })
    × (((physmem_alloc region 101 3).0 ≢ alloc_err)
        ⊎ ((◌≡◌ {A = ℕ} 3 0)
            × (101 ≡ region.stop + 1)
            × ((physmem_alloc region 101 3).0 ≡ alloc_err)))
physmem_alloc_wraps_example =
    physmem_alloc_wraps region 101 3 region-IsPool (omega arith) (omega arith) (omega arith)

grants : physmem_alloc region 10 3 ≡ (88, record { start = 5; stop = 88 })
unfolding physmem_alloc round_down32
grants = refl
