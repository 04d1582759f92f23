-- ===== src/Base/Bits.antt =====
-- `bit_and` with the masks of the code: `x & (2^k - 1)`, `x & 2^k` and `x & ~(2^k - 1)`.
use Prim.Native.Nat.{
  ℕ, zero, suc, ◌+◌, ◌-◌, ◌*◌, ◌/◌, ◌%◌, ◌^◌, ◌≤◌, ◌<◌, min, bit_and, bit_xor, digits,
  bit_and-bitwise, bit_xor-bitwise, differ,
}
use mathlib.Core.Path.{◌≡◌, refl, sym, ◌∙◌, ap}
use native.Mathlib.Nat.{
  le_refl, pow-suc, zero-add, suc-add, add-mul-div_left, div-eq_of_lt, mul-add-mod_self_left,
  mod-eq_of_lt, mod-lt, mod-le, div-add-mod, div-div-eq-div-mul,
}
use mathlib.Core.Logic.{◌⊎◌, inl, inr}
use native.Mathlib.Omega.{arith}

module _ (z : ℕ → ℕ) (f : ℕ → ℕ → ℕ) where
  -- Fuel beyond the first number is not used.
  digits-surplus : (a b n extra : ℕ) → a ≤ n → digits z f (n + extra) a b ≡ digits z f n a b
  digits-surplus (suc a) b zero extra h = absurd (omega arith)
  digits-surplus zero b zero zero h = refl
  digits-surplus zero b zero (suc extra) h = rw (zero-add (suc extra))
  digits-surplus zero b (suc n) extra h = rw suc-add
  digits-surplus (suc a) b (suc n) extra h =
      rw (suc-add n extra) (rw (digits-surplus (suc a / 2) (b / 2) n extra (omega arith)))

  digits-half :
      (a b : ℕ) → digits z f a (suc a / 2) (b / 2) ≡ digits z f (suc a / 2) (suc a / 2) (b / 2)
  digits-half a b =
      let whole : a ≡ suc a / 2 + (a - suc a / 2) = omega arith in
      ap (λ (n : ℕ). digits z f n (suc a / 2) (b / 2)) whole
      ∙ digits-surplus (suc a / 2) (b / 2) (suc a / 2) (a - suc a / 2) (le_refl _)

-- The lowest binary digit of a conjunction, and the others.
pub bit_and_step : (x y : ℕ) → bit_and x y ≡ min (x % 2) (y % 2) + 2 * bit_and (x / 2) (y / 2)
bit_and_step zero y = simp bit_and-bitwise (omega arith)
bit_and_step (suc x) y = simp bit_and-bitwise (omega (arith, digits-half (λ t. 0) min x y))

pub pow_double : (k : ℕ) → 2 ^ suc k ≡ 2 * 2 ^ k
pow_double k = omega (arith, pow-suc 2 k)

pub pow_pos : (k : ℕ) → 0 < 2 ^ k
pow_pos zero = omega arith
pow_pos (suc k) = omega (arith, pow_double k, pow_pos k)

bit_and-zero : (n a : ℕ) → a ≤ n → bit_and a 0 ≡ 0
bit_and-zero zero zero h = refl
bit_and-zero zero (suc a) h = absurd (omega arith)
bit_and-zero (suc n) zero h = refl
bit_and-zero (suc n) (suc a) h =
    omega (arith, bit_and_step (suc a) 0, bit_and-zero n (suc a / 2) (omega arith))

-- A remainder and its quotient are determined by the equation and the bound.
pub mod_unique : (m q r x : ℕ) → r < m → x ≡ m * q + r → x % m ≡ r
mod_unique m q r x h e = rw e (mul-add-mod_self_left m q r ∙ mod-eq_of_lt h)

pub mod_double : (m x : ℕ) → 0 < m → x % (2 * m) ≡ 2 * (x / 2 % m) + x % 2
mod_double m x h =
    mod_unique (2 * m) (x / 2 / m) (2 * (x / 2 % m) + x % 2) x (omega (arith, mod-lt (x / 2) h))
      (omega (arith, ap (λ (t : ℕ). 2 * t) (div-add-mod (x / 2) m)))

-- `x & (2^k - 1)` is the remainder.
pub bit_and-mask : (k x : ℕ) → bit_and x (2 ^ k - 1) ≡ x % 2 ^ k
bit_and-mask zero x = omega (arith, bit_and-zero x x (le_refl x))
bit_and-mask (suc k) x =
    rw (pow_double k, mod_double (2 ^ k) x (pow_pos k), bit_and_step x (2 * 2 ^ k - 1))
      (rw (half_mask, bit_and-mask k (x / 2)) (omega (arith, pow_pos k)))
  where
    half_mask : (2 * 2 ^ k - 1) / 2 ≡ 2 ^ k - 1
    half_mask = omega (arith, pow_pos k)

-- `x & 2^k` is that bit of `x`.
pub bit_and-pow : (k x : ℕ) → bit_and x (2 ^ k) ≡ x / 2 ^ k % 2 * 2 ^ k
bit_and-pow zero x = omega (arith, bit_and-mask 1 x)
bit_and-pow (suc k) x =
    rw (pow_double k, bit_and_step x (2 * 2 ^ k))
      (rw (half_pow, bit_and-pow k (x / 2), ← div-div-eq-div-mul x 2 (2 ^ k)) (omega arith))
  where
    half_pow : 2 * 2 ^ k / 2 ≡ 2 ^ k
    half_pow = omega arith

-- `x & ~(2^k - 1)` rounds down, for a word `x`.
pub bit_and-high : (k w x : ℕ) → k ≤ w → x < 2 ^ w → bit_and x (2 ^ w - 2 ^ k) ≡ x - x % 2 ^ k
bit_and-high zero w x le h = omega (arith, bit_and-mask w x, mod-eq_of_lt h)
bit_and-high (suc k) zero x le h = absurd (omega arith)
bit_and-high (suc k) (suc w) x le h =
    rw
      (
        pow_double k,
        pow_double w,
        mod_double (2 ^ k) x (pow_pos k),
        bit_and_step x (2 * 2 ^ w - 2 * 2 ^ k),
      )
      (rw (half_high, bit_and-high k w (x / 2) (omega arith) (omega (arith, pow_double w)))
        (omega (arith, mod-le (x / 2) (2 ^ k))))
  where
    half_high : (2 * 2 ^ w - 2 * 2 ^ k) / 2 ≡ 2 ^ w - 2 ^ k
    half_high = omega arith

digit_cases : (d : ℕ) → d < 2 → (d ≡ 0) ⊎ (d ≡ 1)
digit_cases d h = omega arith

differ-mod : (a b : ℕ) → a < 2 → b < 2 → differ a b ≡ (a + b) % 2
differ-mod a b ha hb = elim (digit_cases a ha) [
  | inl e ↦ rw e (omega arith)
  | inr e ↦ elim (digit_cases b hb) [ inl f ↦ rw (e, f) refl | inr f ↦ rw (e, f) refl ]
]

pub bit_xor_step : (a b : ℕ) → bit_xor a b ≡ bit_xor (a / 2) (b / 2) * 2 + (a + b) % 2
bit_xor_step zero b = simp bit_xor-bitwise (omega arith)
bit_xor_step (suc a) b = simp bit_xor-bitwise (
    omega (
      arith,
      digits-half (λ y. y) differ a b,
      differ-mod (suc a % 2) (b % 2) (omega arith) (omega arith),
    ))

bit_xor-bit : (k a b : ℕ) → bit_xor a b / 2 ^ k % 2 ≡ (a / 2 ^ k + b / 2 ^ k) % 2
bit_xor-bit zero a b = omega (arith, bit_xor_step a b)
bit_xor-bit (suc k) a b =
    rw
      (
        pow_double k,
        ← div-div-eq-div-mul (bit_xor a b) 2 (2 ^ k),
        ← div-div-eq-div-mul a 2 (2 ^ k),
        ← div-div-eq-div-mul b 2 (2 ^ k),
        half_xor,
      )
      (bit_xor-bit k (a / 2) (b / 2))
  where
    half_xor : bit_xor a b / 2 ≡ bit_xor (a / 2) (b / 2)
    half_xor = omega (arith, bit_xor_step a b)

-- `(a ^ b) & 2^k` is zero exactly when bit `k` of `a` and of `b` agree.
pub bit_and-xor : (k a b : ℕ) → bit_and (bit_xor a b) (2 ^ k) ≡ (a / 2 ^ k + b / 2 ^ k) % 2 * 2 ^ k
bit_and-xor k a b = rw (bit_and-pow k (bit_xor a b), bit_xor-bit k a b)

pub pow-add : (a b : ℕ) → 2 ^ (a + b) ≡ 2 ^ a * 2 ^ b
pow-add zero b = rw zero-add (omega arith)
pow-add (suc a) b = rw (suc-add, pow_double (a + b), pow_double a, pow-add a b) (omega arith)

-- Where the modulus is a multiple of `n`, wrapping changes neither the place within a block of
-- `n` nor, up to the number of blocks, the block.
pub div-mod_mul : (n m x : ℕ) → 0 < n → 0 < m → x % (n * m) / n ≡ x / n % m
div-mod_mul n m x hn hm =
    rw wrapped
      (rw (add-mul-div_left (x % n) (x / n % m) hn) (omega (arith, div-eq_of_lt (mod-lt x hn))))
  where
    block : x / n ≡ m * (x / n / m) + x / n % m
    block = sym (div-add-mod (x / n) m)

    whole : x ≡ n * m * (x / n / m) + (x % n + n * (x / n % m))
    whole = omega (arith, ap (λ (t : ℕ). n * t) block, div-add-mod x n)

    inside : n * (x / n % m) + n ≤ n * m
    inside = grind (arith, mod-lt (x / n) hm)

    wrapped : x % (n * m) ≡ x % n + n * (x / n % m)
    wrapped =
        mod_unique (n * m) (x / n / m) (x % n + n * (x / n % m)) x
          (omega (arith, inside, mod-lt x hn)) whole
