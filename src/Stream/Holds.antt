-- ===== src/Stream/Holds.antt =====
-- When a stream holds a queue of bytes.
use native.Mathlib.Nat.{add-zero, add-suc, suc-add, mul-le-mul_left, div-add-mod}
use native.Mathlib.Decide.{dec_le, dec_lt}
use xplain_software_framewor.Base.{
  ℕ, zero, suc, ◌+◌, ◌-◌, ◌/◌, ◌%◌, ◌^◌, ◌≤◌, ◌<◌, ◌≡◌, ◌≢◌, ◌⊎◌, inl, inr, ◌∙◌, refl, List, [],
  ◌∷◌, arith, length, get_or, set, length-set, get_or-set_self, get_or-set_ne,
}
use xplain_software_framewor.Base.Bits.{mod_unique}
use xplain_software_framewor.Ring.Counts.{Tracks}
use xplain_software_framewor.Stream.{Stream, copy_to}

-- The stream's buffer has 2^k bytes, and holds those of `q`, oldest first, behind its tail.
pub record Holds (s : Stream) (q : List ℕ) : Type 0 where
  pub k : ℕ
  pub taken : ℕ
  pub small : k < 32
  pub mask : s.ring_mask ≡ 2 ^ k - 1
  pub storage : 2 ^ k ≤ length s.bytes
  pub tracks : Tracks k (taken + length q) taken s.ring
  pub stored : (i : ℕ) → i < length q → get_or s.bytes ((taken + i) % 2 ^ k) 0 ≡ get_or q i 0

pub length-copy_to : (bytes xs : List ℕ) (i : ℕ) → length (copy_to bytes i xs) ≡ length bytes
unfolding copy_to
length-copy_to bytes [] i = refl
length-copy_to bytes (x ∷ xs) i =
    omega (arith, length-copy_to (set bytes i x) xs (suc i), length-set bytes i x)

-- A copy changes no byte before its start or after its end,
pub copy_to-outside :
    (bytes xs : List ℕ) (i j : ℕ)
    → (j < i) ⊎ (i + length xs ≤ j)
    → get_or (copy_to bytes i xs) j 0 ≡ get_or bytes j 0
unfolding copy_to
copy_to-outside bytes [] i j out = refl
copy_to-outside bytes (x ∷ xs) i j out =
    copy_to-outside (set bytes i x) xs (suc i) j (omega arith)
    ∙ get_or-set_ne bytes {i = i} {j = j} x 0 (omega arith)

-- and puts the bytes one after the other from there.
pub copy_to-inside :
    (bytes xs : List ℕ) (i d : ℕ)
    → i + length xs ≤ length bytes
    → d < length xs
    → get_or (copy_to bytes i xs) (i + d) 0 ≡ get_or xs d 0
unfolding copy_to
copy_to-inside bytes [] i d fit h = absurd (omega arith)
copy_to-inside bytes (x ∷ xs) i zero fit h = rw (add-zero i) (
    copy_to-outside (set bytes i x) xs (suc i) i (omega arith)
    ∙ get_or-set_self bytes i x 0 (omega arith))
copy_to-inside bytes (x ∷ xs) i (suc d) fit h =
    rw (add-suc i d, ← suc-add i d)
      (copy_to-inside (set bytes i x) xs (suc i) d (omega (arith, length-set bytes i x))
        (omega arith))

-- Counters less than a ring apart have different places in it.
pub mod_apart : (n x y : ℕ) → x < y → y < x + n → x % n ≢ y % n
mod_apart n x y lt near e = elim (dec_le (y / n) (x / n)) [
  | yes le ↦ omega (arith, mul-le-mul_left n le, div-add-mod x n, div-add-mod y n)
  | no far ↦ omega (
    arith,
    mul-le-mul_left n (let f : suc (x / n) ≤ y / n = omega arith in f),
    div-add-mod x n,
    div-add-mod y n,
  )
]

pub place_add : (n x d : ℕ) → x % n + d < n → (x + d) % n ≡ x % n + d
place_add n x d h = mod_unique n (x / n) (x % n + d) (x + d) h (omega (arith, div-add-mod x n))

place_meet : (n x y : ℕ) → y % n ≤ x % n → x % n < n → x % n ≡ (y + (x % n - y % n)) % n
place_meet n x y le lt = omega (arith, place_add n y (x % n - y % n) (omega arith))

-- A place that an entry in use has is not among the free places behind the head.
pub in_use_apart :
    (n x y len : ℕ)
    → x < y
    → y + len ≤ x + n
    → y % n + len ≤ n
    → (x % n < y % n) ⊎ (y % n + len ≤ x % n)
in_use_apart n x y len lt room fit = elim (dec_lt (x % n) (y % n)) [
  | yes before ↦ inl before
  | no from ↦ elim (dec_le (y % n + len) (x % n)) [
    | yes after ↦ inr after
    | no inside ↦ absurd (
        mod_apart n x (y + (x % n - y % n)) (omega arith) (omega arith)
          (place_meet n x y (omega arith) (omega arith)))
  ]
]
