-- ===== src/Memory/Physmem/Regions.antt =====
-- What the region allocators hand out.
use native.Mathlib.Nat.{div-add-mod}
use xplain_software_framewor.Base.{
  subst, sym, ◌==◌, ==→eq, ==_false→ne, ◌*◌, ◌/◌, zero, suc, ◌≢◌, ℕ, ◌+◌, ◌-◌, ◌%◌, ◌^◌, ◌≤◌, ◌<◌,
  ◌≡◌, ◌⊎◌, inl, inr, refl, arith, leb, u32_mod, add32, sub32, Bool-cases, leb→le, le→leb,
}
use xplain_software_framewor.Base.Bits.{pow_pos, pow_double}
use xplain_software_framewor.Memory.Align.{
  round_down32, round_up32, round_down32_facts, round_up32_facts, multiples_apart,
}
use xplain_software_framewor.Memory.Physmem.{
  PhysmemPool, alloc_err, physmem_alloc, physmem_alloc_low,
}

-- an address of a region that is a word, and an alignment below the word's width
pub record IsPool (pool : PhysmemPool) : Type 0 where
  pub ordered : pool.start ≤ pool.stop
  pub word : pool.stop < u32_mod

-- some aligned block of the size lies in the region
abbrev pub Fits : PhysmemPool → ℕ → ℕ → Type 0
Fits pool size order = (a : ℕ) × (a % 2 ^ order ≡ 0) × (pool.start ≤ a) × (a + size ≤ pool.stop)

-- The block is aligned and lies in the region.
pub record InRegion (pool : PhysmemPool) (size order addr : ℕ) : Type 0 where
  pub aligned : addr % 2 ^ order ≡ 0
  pub low : pool.start ≤ addr
  pub high : addr + size ≤ pool.stop

abbrev pub Refused : PhysmemPool → ℕ × PhysmemPool → Type 0
Refused pool (addr, pool') = (addr ≡ alloc_err) × (pool' ≡ pool)

-- The last word is not aligned to more than one byte.
not_last : (order y : ℕ) → y % 2 ^ order ≡ 0 → 0 < order → y ≢ alloc_err
not_last zero y aligned at_least = absurd (omega arith)
not_last (suc k) y aligned at_least =
    let whole = div-add-mod y (2 ^ suc k) in
    let half : 2 ^ suc k * (y / 2 ^ suc k) ≡ 2 * (2 ^ k * (y / 2 ^ suc k)) =
      rw (pow_double k) (grind arith) in
    λ e. omega (arith, whole, half, aligned, e)

module _ (pool : PhysmemPool) (size order : ℕ) (v : IsPool pool) (small : order < 32) where
  -- For an order below 32 and a region of words: a request of no more than the region's end is
  -- granted exactly when an aligned block of that size fits. A block of the region is handed out,
  -- less than an alignment unit below the old end, and the region that is left ends where the
  -- block starts. A refusal changes nothing.
  pub physmem_alloc_lem :
      size ≤ pool.stop
      → let (addr, pool') = physmem_alloc pool size order in
        InRegion pool size order addr
          × (pool.stop < addr + size + 2 ^ order)
          × (pool' ≡ record { start = pool.start; stop = addr })
        ⊎ (¬ Fits pool size order) × Refused pool (addr, pool')
  unfolding physmem_alloc
  physmem_alloc_lem fits =
      let exact : sub32 pool.stop size ≡ pool.stop - size = omega (arith, v.word) in
      let y = round_down32 (pool.stop - size) order in
      let (aligned, below, near) =
        round_down32_facts order small (pool.stop - size) (omega (arith, v.word)) in
      rw exact (elim (Bool-cases (leb pool.start y)) [
        | inl room ↦ rw room (
            inl (
              record { aligned = aligned; low = leb→le _ _ room; high = omega arith },
              omega arith,
              refl,
            ))
        | inr none_left ↦ rw none_left (
            inr (
              λ (a, al, lo, hi).
                  let low : y < a = ground arith in
                  omega (arith, multiples_apart (2 ^ order) y a aligned al low),
              (refl, refl),
            ))
      ])

  -- For an order below 32 and a region of words, where neither the rounding of its start nor the
  -- block passes the last address of a word: the first aligned block of the region is handed out
  -- exactly if it fits, and the region that is left starts behind it. A refusal changes nothing.
  pub physmem_alloc_low_lem :
      pool.start + (2 ^ order - 1) + size < u32_mod
      → let (addr, pool') = physmem_alloc_low pool size order in
        InRegion pool size order addr
          × (addr < pool.start + 2 ^ order)
          × (pool' ≡ record { start = addr + size; stop = pool.stop })
        ⊎ (¬ Fits pool size order) × Refused pool (addr, pool')
  unfolding physmem_alloc_low
  physmem_alloc_low_lem fits =
      let y = round_up32 pool.start order in
      let (aligned, above, near) = round_up32_facts order small pool.start (omega arith) in
      let exact : add32 y size ≡ y + size = omega (arith, pow_pos order) in
      rw exact (elim (Bool-cases (leb (y + size) pool.stop)) [
        | inl room ↦
            rw room
              (inl (record { aligned = aligned; low = above; high = leb→le _ _ room }, near, refl))
        | inr none_left ↦ rw none_left (
            inr (
              λ (a, al, lo, hi).
                  let low : a < y = ground arith in
                  omega (arith, multiples_apart (2 ^ order) a y al aligned low),
              (refl, refl),
            ))
      ])

  -- For an order below 32 and a region of words: a request for more bytes than the region's end
  -- address, but few enough that an alignment unit still fits a word beside them, is granted but for
  -- one case, although no block of that size fits. The subtraction wraps, and the result is an
  -- address above the region, which from then on ends there. The one case is an order of 0 and a
  -- size of one byte more than the end address, where the result is PHYSMEM_ALLOC_ERR, although
  -- the region has changed.
  pub physmem_alloc_wraps :
      pool.stop < size
      → size + 2 ^ order ≤ u32_mod
      → let (addr, pool') = physmem_alloc pool size order in
        (¬ Fits pool size order)
        × (pool.stop < addr)
        × (pool' ≡ record { start = pool.start; stop = addr })
        × ((addr ≢ alloc_err) ⊎ ((order ≡ 0) × (size ≡ pool.stop + 1) × (addr ≡ alloc_err)))
  unfolding physmem_alloc
  physmem_alloc_wraps large word =
      let wrapped : sub32 pool.stop size ≡ u32_mod + pool.stop - size =
        omega (arith, v.word, pow_pos order) in
      let y = round_down32 (u32_mod + pool.stop - size) order in
      let (aligned, below, near) =
        round_down32_facts order small (u32_mod + pool.stop - size) (omega arith) in
      let above : pool.stop < y = omega arith in
      rw (wrapped, le→leb pool.start y (omega (arith, v.ordered)))
        (
          (λ (a, al, lo, hi). omega arith),
          above,
          refl,
          elim (Bool-cases (order == 0)) [
            | inr more ↦
                inl (not_last order y aligned (let f = ==_false→ne _ _ more in omega (arith, f)))
            | inl exact ↦ elim (Bool-cases (size == pool.stop + 1)) [
              | inl just ↦ inr (
                ==→eq _ _ exact,
                ==→eq _ _ just,
                omega (
                  arith,
                  below,
                  near,
                  ==→eq _ _ just,
                  subst (λ (n : ℕ). 2 ^ n ≡ 1) (sym (==→eq _ _ exact)) refl,
                ),
              )
              | inr beyond ↦ inl (let f = ==_false→ne _ _ beyond in λ e. omega (arith, f, e))
            ]
          ],
        )
