-- ===== src/Memory/Membag/Totals.antt =====
-- What the queries of util/membag.c say of the free blocks.
use mathlib.Core.Option.{none-ne-some, some-injective}
use xplain_software_framewor.Base.{
  ℕ, ◌+◌, ◌*◌, ◌%◌, ◌^◌, ◌<◌, ◌≡◌, ◌⊎◌, inl, inr, refl, sym, ◌∙◌, ap, subst, List, [], ◌∷◌, arith,
  All, length, ◌==◌, u32_mod, none, some, Option, Option-cases, Bool-cases, ==_false→ne,
  if◌then◌else◌, not,
}
use xplain_software_framewor.Memory.Mempool.{WordMem}
use xplain_software_framewor.Memory.Membag.{
  MemBag, membag_alloc, membag_get_total, membag_get_free, last_free,
  membag_get_largest_free_block_size,
}
use xplain_software_framewor.Memory.Membag.Alloc.{
  BagHas, BagsHave, Unsuited, Served, membag_alloc_lem,
}
use xplain_software_framewor.Memory.Mempool.Chain.{Chain}

-- the bytes of all bags, and those of the free blocks
pub bytes : List MemBag → ℕ
bytes [] = 0
bytes (mb ∷ bags) = mb.block_size * mb.num_blocks + bytes bags

pub free_bytes : List MemBag → List (List ℕ) → ℕ
free_bytes [] frees = 0
free_bytes (mb ∷ bags) [] = 0
free_bytes (mb ∷ bags) (blocks ∷ frees) = mb.block_size * length blocks + free_bytes bags frees

-- `membag_get_total` is the number of bytes in all bags, as a word, where the size and the number
-- of blocks of each bag are below 2^16.
pub membag_get_total_lem :
    (bags : List MemBag)
    → All (λ mb. (mb.block_size < 2 ^ 16) × (mb.num_blocks < 2 ^ 16)) bags
    → membag_get_total bags ≡ bytes bags % u32_mod
unfolding membag_get_total bytes
membag_get_total_lem [] small = refl
membag_get_total_lem (mb ∷ bags) (small, rest) =
    let size : mb.block_size % 2 ^ 16 ≡ mb.block_size = omega (arith, small.0) in
    let blocks : mb.num_blocks % 2 ^ 16 ≡ mb.num_blocks = omega (arith, small.1) in
    rw (size, blocks, membag_get_total_lem bags rest) (omega arith)

-- Where each bag's statistics count its free blocks, `membag_get_free` is the number of bytes in
-- the free blocks of all bags, as a word.
pub membag_get_free_lem :
    (mem : WordMem) (bags : List MemBag) (frees : List (List ℕ))
    → BagsHave mem bags frees
    → membag_get_free bags ≡ free_bytes bags frees % u32_mod
unfolding membag_get_free free_bytes
membag_get_free_lem mem [] frees has = refl
membag_get_free_lem mem (mb ∷ bags) [] has = absurd has
membag_get_free_lem mem (mb ∷ bags) (blocks ∷ frees) (has, rest) =
    rw (has.counted, membag_get_free_lem mem bags frees rest) (omega arith)

-- what `last_free` makes of the first bag, once it knows of the others
abbrev found_at : MemBag → Option ℕ → Option ℕ
found_at mb none = if not (mb.pool.freelist == 0) then some mb.block_size else none
found_at mb (some size) = some size

module _ (mem : WordMem) (size : ℕ) where
  bag_suits :
      (mb : MemBag) (blocks : List ℕ)
      → BagHas mem mb blocks
      → found_at mb none ≡ some size
      → ¬ ((mb.block_size < size) ⊎ (blocks ≡ []))
  bag_suits mb blocks has e why = elim (Bool-cases (mb.pool.freelist == 0)) [
    | inl null ↦ none-ne-some size (rw null at e)
    | inr free ↦
        let same : mb.block_size ≡ size = some-injective mb.block_size size (rw free at e) in
        elim why [
          | inl small ↦ omega arith
          | inr nothing ↦
              ==_false→ne mb.pool.freelist 0 free
                (subst (Chain mem mb.pool.freelist) nothing has.chain)
        ]
  ]

  -- A bag of the size that was found has a free block.
  last_free_suits :
      (bags : List MemBag) (frees : List (List ℕ))
      → BagsHave mem bags frees
      → last_free bags ≡ some size
      → ¬ Unsuited size bags frees
  unfolding last_free
  last_free_suits [] frees has e u = none-ne-some size e
  last_free_suits (mb ∷ bags) [] has e u = has
  last_free_suits (mb ∷ bags) (blocks ∷ frees) (has, rest) e (why, u) =
      elim (Option-cases (last_free bags)) [
        | inl nothing ↦ bag_suits mb blocks has (ap (found_at mb) (sym nothing) ∙ e) why
        | inr (v, found) ↦
            last_free_suits bags frees rest (found ∙ ap (found_at mb) (sym found) ∙ e) u
      ]

-- Where each bag's free list is exactly its free blocks: a request of the size that
-- `membag_get_largest_free_block_size` reports, when that is not 0, is served by `membag_alloc`.
pub largest_free-Served :
    (mem : WordMem) (bags : List MemBag) (frees : List (List ℕ))
    → BagsHave mem bags frees
    → 0 < membag_get_largest_free_block_size bags
    → let size = membag_get_largest_free_block_size bags in
      Served mem size bags frees (membag_alloc bags size mem).0 (membag_alloc bags size mem).1
unfolding membag_get_largest_free_block_size
largest_free-Served mem bags frees has pos = elim (Option-cases (last_free bags)) [
  | inl nothing ↦
      absurd (let z = rw (nothing, membag_get_largest_free_block_size) at pos in omega arith)
  | inr (size, found) ↦
      rw (found, membag_get_largest_free_block_size)
        (elim (membag_alloc_lem mem size bags frees has) [
          | inl (_, _, u) ↦ absurd (last_free_suits mem size bags frees has found u)
          | inr served ↦ served
        ])
]
