-- ===== src/Ring/Counts.antt =====
-- A ring against two unbounded counters: how many entries were ever inserted and extracted.
use native.Mathlib.Nat.{
  mod-lt, mod-mod_of_dvd, mul-le-mul_left, div-add-mod, dvd-mul_right, pow-le-pow_right,
}
use native.Mathlib.Decide.{dec_le}
use xplain_software_framewor.Base.{
  ℕ, suc, ◌+◌, ◌-◌, ◌*◌, ◌/◌, ◌%◌, ◌^◌, ◌≤◌, ◌<◌, min, ◌≡◌, ap, bit_and, bit_xor, arith, true,
  false, ◌==◌, eq→==, ne→==, ◌⊎◌, ◌≢◌, inl, inr, sub32, u32_mod,
}
use xplain_software_framewor.Base.Bits.{bit_and-mask, bit_and-xor, pow_pos, pow-add, div-mod_mul}
use xplain_software_framewor.Ring.{
  RingHead, entries_used, entries_used_before_end, entries_unused, entries_unused_before_end,
}

-- The ring of 2^k entries holds those numbered from `taken` up to `put`.
pub record Tracks (k put taken : ℕ) (r : RingHead) : Type 0 where
  pub head_at : r.head ≡ put % u32_mod
  pub tail_at : r.tail ≡ taken % u32_mod
  pub ordered : taken ≤ put
  pub fits : put ≤ taken + 2 ^ k

not_le : (a b : ℕ) → ¬ (b ≤ a) → suc a ≤ b
not_le a b h = omega arith

quotient_between :
    (n p i c j : ℕ)
    → i < n
    → j < n
    → n * c + j ≤ n * p + i
    → n * p + i ≤ n * c + j + n
    → (p ≡ c) ⊎ (p ≡ c + 1)
quotient_between n p i c j hi hj lo hi' = elim (dec_le c p) [
  | yes low ↦ elim (dec_le p (c + 1)) [
    | yes high ↦ omega arith
    | no far ↦ absurd (omega (arith, mul-le-mul_left n (not_le (c + 1) p far)))
  ]
  | no far ↦ absurd (omega (arith, mul-le-mul_left n (not_le p c far)))
]

module _ (k : ℕ) (small : k < 32) where
  -- 2^32 is an even number of rings.
  word_split : u32_mod ≡ 2 ^ k * (2 * 2 ^ (31 - k))
  word_split =
      let e : 31 ≡ k + (31 - k) = omega arith in
      omega (arith, pow-add k (31 - k), ap (λ (t : ℕ). 2 * 2 ^ t) e)

  pub size_small : 2 ^ k ≤ 2 ^ 31
  size_small = pow-le-pow_right {n = 2} (omega arith) {j = 31} (omega arith)

  pub mask_small : sub32 (2 ^ k) 1 ≡ 2 ^ k - 1
  mask_small = omega (arith, size_small, pow_pos k)

  pub index_lem : (x : ℕ) → bit_and (x % u32_mod) (sub32 (2 ^ k) 1) ≡ x % 2 ^ k
  index_lem x =
      rw (mask_small, bit_and-mask k (x % u32_mod), word_split)
        (mod-mod_of_dvd _ x (dvd-mul_right _ _))

  -- the block of 2^k that a counter is in, up to parity
  pub block_parity : (x : ℕ) → x % u32_mod / 2 ^ k % 2 ≡ x / 2 ^ k % 2
  block_parity x =
      rw
        (
          word_split,
          div-mod_mul (2 ^ k) (2 * 2 ^ (31 - k)) x (pow_pos k) (omega (arith, pow_pos (31 - k))),
        )
        (mod-mod_of_dvd 2 (x / 2 ^ k) (dvd-mul_right 2 (2 ^ (31 - k))))

  module _ {put taken : ℕ} {r : RingHead} (t : Tracks k put taken r) where
    pub used_lem : entries_used r ≡ put - taken
    unfolding entries_used
    used_lem = rw (t.head_at, t.tail_at) (omega (arith, size_small, t.ordered, t.fits))

    pub unused_lem : entries_unused r (2 ^ k) ≡ taken + 2 ^ k - put
    unfolding entries_unused
    unused_lem = rw used_lem (omega (arith, size_small, t.ordered, t.fits))

    -- The wrap test sees whether the two counters are in the same block.
    wrap_test : bit_and (bit_xor r.head r.tail) (2 ^ k) ≡ (put / 2 ^ k + taken / 2 ^ k) % 2 * 2 ^ k
    wrap_test =
        rw (t.head_at, t.tail_at, bit_and-xor k (put % u32_mod) (taken % u32_mod))
          (ap (λ (p : ℕ). p * 2 ^ k) (omega (arith, block_parity put, block_parity taken)))

    -- The blocks of the two counters are the same or adjacent.
    blocks : (put / 2 ^ k ≡ taken / 2 ^ k) ⊎ (put / 2 ^ k ≡ taken / 2 ^ k + 1)
    blocks =
        quotient_between (2 ^ k) (put / 2 ^ k) (put % 2 ^ k) (taken / 2 ^ k) (taken % 2 ^ k)
          (mod-lt put (pow_pos k)) (mod-lt taken (pow_pos k))
          (omega (arith, t.ordered, div-add-mod put (2 ^ k), div-add-mod taken (2 ^ k)))
          (omega (arith, t.fits, div-add-mod put (2 ^ k), div-add-mod taken (2 ^ k)))

    -- In the same block the entries in use end before the array does.
    same_block :
        put / 2 ^ k ≡ taken / 2 ^ k
        → ((bit_and (bit_xor r.head r.tail) (2 ^ k) == 0) ≡ true)
          × (put + taken % 2 ^ k ≡ taken + put % 2 ^ k)
          × (taken % 2 ^ k ≤ put % 2 ^ k)
    same_block e = (eq→== _ 0 zero_bit, omega (arith, ends), omega (arith, ends))
      where
        zero_bit : bit_and (bit_xor r.head r.tail) (2 ^ k) ≡ 0
        zero_bit =
            let b : (put / 2 ^ k + taken / 2 ^ k) % 2 ≡ 0 = omega arith in
            rw (wrap_test, b) (omega arith)

        ends : (put + taken % 2 ^ k ≡ taken + put % 2 ^ k) × (taken ≤ put)
        ends = (
          omega (
            arith,
            ap (λ (p : ℕ). 2 ^ k * p) e,
            div-add-mod put (2 ^ k),
            div-add-mod taken (2 ^ k),
          ),
          t.ordered,
        )

    next_block :
        put / 2 ^ k ≡ taken / 2 ^ k + 1
        → ((bit_and (bit_xor r.head r.tail) (2 ^ k) == 0) ≡ false)
          × (put + taken % 2 ^ k ≡ taken + put % 2 ^ k + 2 ^ k)
          × (put % 2 ^ k ≤ taken % 2 ^ k)
    next_block e = (ne→== _ 0 one_bit, omega (arith, ends, pos), omega (arith, ends, pos, t.fits))
      where
        one_bit : bit_and (bit_xor r.head r.tail) (2 ^ k) ≢ 0
        one_bit =
            let b : (put / 2 ^ k + taken / 2 ^ k) % 2 ≡ 1 = omega arith in
            rw (wrap_test, b) (omega (arith, pow_pos k))

        pos : taken % 2 ^ k < 2 ^ k
        pos = mod-lt taken (pow_pos k)

        ends : put + taken % 2 ^ k ≡ taken + put % 2 ^ k + 2 ^ k
        ends =
            omega (
              arith,
              ap (λ (p : ℕ). 2 ^ k * p) e,
              div-add-mod put (2 ^ k),
              div-add-mod taken (2 ^ k),
            )

    pub used_end_lem : entries_used_before_end r (2 ^ k) ≡ min (put - taken) (2 ^ k - taken % 2 ^ k)
    unfolding entries_used_before_end entries_used
    used_end_lem = elim blocks [
      | inl e ↦
          let (test, ends, le) = same_block e in
          rw test (omega (arith, used_lem, mod-lt put (pow_pos k)))
      | inr e ↦
          let (test, ends, le) = next_block e in
          rw (test, t.tail_at, index_lem taken)
            (omega (arith, size_small, mod-lt taken (pow_pos k)))
    ]

    pub unused_end_lem :
        entries_unused_before_end r (2 ^ k) ≡ min (taken + 2 ^ k - put) (2 ^ k - put % 2 ^ k)
    unfolding entries_unused_before_end
    unused_end_lem = elim blocks [
      | inl e ↦
          let (test, ends, le) = same_block e in
          rw (test, t.head_at, index_lem put) (omega (arith, size_small, mod-lt put (pow_pos k)))
      | inr e ↦
          let (test, ends, le) = next_block e in
          rw (test, t.head_at, t.tail_at)
            (omega (arith, size_small, t.ordered, t.fits, mod-lt taken (pow_pos k)))
    ]
