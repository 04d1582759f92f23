-- ===== src/Memory/Mempool/Region.antt =====
-- A pool in a block of a physical region.
use native.Mathlib.Nat.{mul-div_cancel}
use native.Mathlib.Decide.{dec_lt}
use xplain_software_framewor.Base.{
  ℕ, zero, suc, ◌+◌, ◌-◌, ◌*◌, ◌/◌, ◌%◌, ◌^◌, ◌≤◌, ◌<◌, ◌≡◌, ◌⊎◌, inl, inr, ◌∙◌, ap, subst, none,
  some, arith, eq→==, ne→==, u32_mod,
}
use xplain_software_framewor.Memory.Align.{round_up32, round_up32_facts, multiples_apart}
use xplain_software_framewor.Memory.Physmem.{PhysmemPool, alloc_err, physmem_alloc}
use xplain_software_framewor.Memory.Physmem.Regions.{IsPool, Fits, InRegion, physmem_alloc_lem}
use xplain_software_framewor.Memory.Mempool.{
  WordMem, object_size, mem_pool_init, mem_pool_init_physmem,
}
use xplain_software_framewor.Memory.Mempool.Chain.{Chain}
use xplain_software_framewor.Memory.Mempool.Init.{
  objects, SameOutside, Initialised, mem_pool_init-Chain,
}

-- An aligned address is not rounded.
round_up32-aligned :
    (order a : ℕ)
    → order < 32
    → a + (2 ^ order - 1) < u32_mod
    → a % 2 ^ order ≡ 0
    → round_up32 a order ≡ a
round_up32-aligned order a small word al =
    let (mult, low, near) = round_up32_facts order small a word in
    elim (dec_lt a (round_up32 a order)) [
      | yes gt ↦
          absurd (omega (arith, multiples_apart (2 ^ order) a (round_up32 a order) al mult gt))
      | no le ↦ omega arith
    ]

one_fits : (n o : ℕ) → 0 < n → o ≤ n * o
one_fits zero o pos = absurd (omega arith)
one_fits (suc n) o pos = omega arith

module _ (objsize order nr : ℕ) (mem : WordMem) (small : order < 32) (big : object_size ≤ objsize)
    (obj_word : objsize + (2 ^ order - 1) < u32_mod) (some_objects : 0 < nr)
    (half : nr * round_up32 objsize order < 2 ^ 31) where
  obj_pos : 0 < round_up32 objsize order
  obj_pos = let (mult, low, near) = round_up32_facts order small objsize obj_word in omega arith

  -- An aligned area that is exactly large enough holds exactly the objects asked for.
  exactly-Initialised :
      (addr : ℕ)
      → 0 < addr
      → addr % 2 ^ order ≡ 0
      → addr + nr * round_up32 objsize order + (2 ^ order - 1) < u32_mod
      → Initialised addr
          (round_up32 objsize order)
          nr
          mem
          (mem_pool_init addr (nr * round_up32 objsize order) objsize order mem)
  exactly-Initialised addr pos al room =
      let o = round_up32 objsize order in
      let out = mem_pool_init addr (nr * o) objsize order mem in
      let al' : round_up32 addr order ≡ addr =
        round_up32-aligned order addr small (omega arith) al in
      let fits : o + round_up32 addr order ≤ addr + nr * o =
        omega (arith, one_fits nr o some_objects) in
      let i =
        (mem_pool_init-Chain addr (nr * o) objsize order mem pos half room small big obj_word
          fits).0 in
      let size : addr + nr * o - addr ≡ nr * o = omega arith in
      subst (λ k. Initialised addr o k mem out)
        (ap (λ (k : ℕ). k / o) size ∙ mul-div_cancel nr obj_pos)
        (subst (λ b. Initialised b o ((addr + nr * o - b) / o) mem out) al' i)

  module _ (phys : PhysmemPool) (v : IsPool phys) (ne : 0 < phys.start)
      (room : phys.stop + (2 ^ order - 1) < u32_mod)
      (fits : nr * round_up32 objsize order ≤ phys.stop) where
    -- For an order below 32, objects of at least the size of a pointer, fewer bytes of rounded
    -- objects than half the address space and than the region's end, and a region of words that
    -- does not start at null: `mem_pool_init_physmem` succeeds exactly where an aligned block for
    -- all the objects fits in the region. The pool then has exactly the objects asked for, one
    -- after the other, in a block that is taken from the end of the region, and nothing else in
    -- memory has changed.
    pub mem_pool_init_physmem_lem :
        let o = round_up32 objsize order in
        let r = mem_pool_init_physmem phys nr objsize order mem in
        ((addr : ℕ) × (after : WordMem) × (r
            ≡ some (record { freelist = addr }, record { start = phys.start; stop = addr }, after))
          × InRegion phys (nr * o) order addr
          × Chain after addr (objects addr o nr)
          × SameOutside (objects addr o nr) mem after)
        ⊎ (¬ Fits phys (nr * o) order) × (r ≡ none)
    unfolding mem_pool_init_physmem
    mem_pool_init_physmem_lem =
        let o = round_up32 objsize order in
        let word : (nr * o) % u32_mod ≡ nr * o = omega arith in
        let addr = (physmem_alloc phys (nr * o) order).0 in
        rw (word, ne→== nr 0 (omega arith))
          (elim (physmem_alloc_lem phys (nr * o) order v small fits) [
            | inl (at, near, rest) ↦
                let i =
                  exactly-Initialised addr (omega (arith, at.low)) at.aligned
                    (omega (arith, at.high)) in
                inl (
                  addr,
                  i.after,
                  rw (
                    ne→== addr alloc_err
                        (λ e. omega (arith, at.high, v.word, one_fits nr o some_objects, obj_pos)),
                    i.returned,
                    rest,
                  ),
                  at,
                  i.chain,
                  i.same,
                )
            | inr (full, (refused, same)) ↦ inr (full, rw (eq→== addr alloc_err refused))
          ])
