-- ===== src/Memory/Align.antt =====
-- include/util.h: rounding a 32-bit word to a power of two.
use native.Mathlib.Nat.{mod-lt, div-add-mod, pow-le-pow_right}
use native.Mathlib.Nat.{mul-le-mul_left}
use native.Mathlib.Decide.{dec_le}
use xplain_software_framewor.Base.{
  suc, ℕ, ◌+◌, ◌-◌, ◌/◌, ◌%◌, ◌^◌, ◌≤◌, ◌<◌, ◌≡◌, arith, bit_and, u32_mod, add32, sub32,
}
use xplain_software_framewor.Base.Bits.{bit_and-high, pow_pos, mod_unique}

-- `x & ~((1UL << order) - 1)`
unfoldable pub round_down32 : ℕ → ℕ → ℕ
round_down32 x order = bit_and x (u32_mod - 1 - (2 ^ order - 1))

unfoldable pub round_up32 : ℕ → ℕ → ℕ
round_up32 x order = round_down32 (sub32 (add32 x (2 ^ order)) 1) order

module _ (order : ℕ) (small : order < 32) where
  pub pow_small : 2 ^ order ≤ 2 ^ 31
  pow_small = pow-le-pow_right {n = 2} (omega arith) {j = 31} (omega arith)

  pub round_down32_lem : (x : ℕ) → x < u32_mod → round_down32 x order ≡ x - x % 2 ^ order
  unfolding round_down32
  round_down32_lem x h =
      let e : u32_mod - 1 - (2 ^ order - 1) ≡ 2 ^ 32 - 2 ^ order =
        omega (arith, pow_small, pow_pos order) in
      rw e (bit_and-high order 32 x (omega arith) h)

  -- the rounded number is a multiple, the nearest one from below,
  pub round_down32_facts :
      (x : ℕ)
      → x < u32_mod
      → let y = round_down32 x order in (y % 2 ^ order ≡ 0) × (y ≤ x) × (x < y + 2 ^ order)
  round_down32_facts x h = rw (round_down32_lem x h) (
    mod_unique (2 ^ order) (x / 2 ^ order) 0 (x - x % 2 ^ order) (pow_pos order)
        (omega (arith, div-add-mod x (2 ^ order))),
    omega arith,
    omega (arith, mod-lt x (pow_pos order)),
  )

  -- or from above, where that is a word.
  pub round_up32_facts :
      (x : ℕ)
      → x + (2 ^ order - 1) < u32_mod
      → let y = round_up32 x order in (y % 2 ^ order ≡ 0) × (x ≤ y) × (y < x + 2 ^ order)
  unfolding round_up32
  round_up32_facts x h =
      let e : sub32 (add32 x (2 ^ order)) 1 ≡ x + (2 ^ order - 1) = omega (arith, pow_pos order) in
      rw e (
        let f = round_down32_facts (x + (2 ^ order - 1)) h in
        (f.0, omega (arith, f.2, pow_pos order), omega (arith, f.1, pow_pos order)))

-- Different multiples of `m` are at least `m` apart.
pub multiples_apart : (m y a : ℕ) → y % m ≡ 0 → a % m ≡ 0 → y < a → y + m ≤ a
multiples_apart m y a hy ha lt = elim (dec_le (a / m) (y / m)) [
  | yes le ↦ absurd (omega (arith, mul-le-mul_left m le, div-add-mod y m, div-add-mod a m))
  | no far ↦ omega (
    arith,
    mul-le-mul_left m (let f : suc (y / m) ≤ a / m = omega arith in f),
    div-add-mod y m,
    div-add-mod a m,
  )
]
