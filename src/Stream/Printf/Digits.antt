-- ===== src/Stream/Printf/Digits.antt =====
-- The digits that the conversions fill in, against numerals read from the left.
use native.Mathlib.Nat.{div-add-mod, mod-lt, mul-le-mul_right, pow-suc}
use xplain_software_framewor.Base.{
  ℕ, zero, suc, ◌+◌, ◌-◌, ◌*◌, ◌/◌, ◌%◌, ◌^◌, ◌≤◌, ◌<◌, ◌≡◌, ◌≢◌, ◌⊎◌, inl, inr, refl, ◌∙◌, ap, sym,
  ◌&&◌, List, [], ◌∷◌, arith, length, All, Bool-cases, leb, ◌==◌, eq→==, ne→==, ==→eq, ==_false→ne,
  if◌then◌else◌,
}
use xplain_software_framewor.Base.Bits.{bit_and-mask, pow_double}
use xplain_software_framewor.Stream.Printf.{fill, decimal_digit, octal_digit, hex_digit}

-- the value of a digit character, and 99 for any other
unfoldable pub char_value : ℕ → ℕ
char_value c =
    if leb b'0' c && leb c b'9'
    then c - b'0'
    else if leb b'a' c && leb c b'f'
    then c - b'a' + 10
    else if leb b'A' c && leb c b'F'
    then c - b'A' + 10
    else 99

-- the number that digits in base `base` stand for, read from the left
unfoldable pub parse : ℕ → ℕ → List ℕ → ℕ
parse base acc [] = acc
parse base acc (c ∷ cs) = parse base (acc * base + char_value c) cs

-- `ds` is the numeral of `n` in base `base`: all digits are of the base, they read as `n`, and
-- there is no leading zero unless the numeral is "0".
pub record IsNumeral (base n : ℕ) (ds : List ℕ) : Type 0 where
  pub digits : All (λ c. char_value c < base) ds
  pub value : parse base 0 ds ≡ n
  pub canonical :
      (n ≡ 0) × (ds ≡ b'0' ∷ [])
      ⊎ ((d : ℕ) × (rest : List ℕ) × (ds ≡ d ∷ rest) × (0 < char_value d))

module _ (base : ℕ) (big : 8 ≤ base) (digit shift : ℕ → ℕ)
    (digit_lem : (n : ℕ) → char_value (digit n) ≡ n % base)
    (shift_lem : (n : ℕ) → shift n ≡ n / base) where
  shift_less : (n : ℕ) → 8 * shift n ≤ n
  shift_less n = omega (arith, shift_lem n, mul-le-mul_right (n / base) big, div-add-mod n base)

  digit_less : (n : ℕ) → char_value (digit n) < base
  digit_less n = omega (arith, digit_lem n, mod-lt n {m = base} (omega arith))

  recombine : (n : ℕ) → shift n * base + char_value (digit n) ≡ n
  recombine n = rw (shift_lem n, digit_lem n) (omega (arith, div-add-mod n base))

  fill-parse :
      (fuel n : ℕ) (buf : List ℕ)
      → n < 2 ^ fuel
      → parse base 0 (fill fuel digit shift n buf) ≡ parse base n buf
  unfolding fill
  fill-parse zero n buf h = ap (λ (k : ℕ). parse base k buf) (omega arith)
  fill-parse (suc fuel) n buf h = elim (Bool-cases (n == 0)) [
    | inl done ↦ rw done (ap (λ (k : ℕ). parse base k buf) (sym (==→eq n 0 done)))
    | inr more ↦ rw more (
        fill-parse fuel (shift n) (digit n ∷ buf) (omega (arith, pow_double fuel, shift_less n))
        ∙ (unfold parse in ap (λ (k : ℕ). parse base k buf) (recombine n)))
  ]

  fill-All :
      (fuel n : ℕ) (buf : List ℕ)
      → All (λ c. char_value c < base) buf
      → All (λ c. char_value c < base) (fill fuel digit shift n buf)
  unfolding fill
  fill-All zero n buf h = h
  fill-All (suc fuel) n buf h = elim (Bool-cases (n == 0)) [
    | inl done ↦ rw done h
    | inr more ↦ rw more (fill-All fuel (shift n) (digit n ∷ buf) (digit_less n, h))
  ]

  -- A number below 8^k has at most k digits.
  pub length-fill :
      (fuel k n : ℕ) (buf : List ℕ)
      → n < 8 ^ k
      → length (fill fuel digit shift n buf) ≤ length buf + k
  unfolding fill
  length-fill zero k n buf h = omega arith
  length-fill (suc fuel) zero n buf h = rw (eq→== n 0 (omega arith)) (omega arith)
  length-fill (suc fuel) (suc k) n buf h = elim (Bool-cases (n == 0)) [
    | inl done ↦ rw done (omega arith)
    | inr more ↦ rw more (
        omega (
          arith,
          length-fill fuel k (shift n) (digit n ∷ buf) (omega (arith, shift_less n, pow-suc 8 k)),
        ))
  ]

  fill-zero : (fuel : ℕ) (buf : List ℕ) → fill fuel digit shift 0 buf ≡ buf
  unfolding fill
  fill-zero zero buf = refl
  fill-zero (suc fuel) buf = refl

  fill-leading :
      (fuel n : ℕ) (buf : List ℕ)
      → n < 2 ^ fuel
      → n ≢ 0
      → (d : ℕ) × (rest : List ℕ) × (fill fuel digit shift n buf ≡ d ∷ rest) × (0 < char_value d)
  unfolding fill
  fill-leading zero n buf h ne = absurd (omega arith)
  fill-leading (suc fuel) n buf h ne = rw (ne→== n 0 ne) (elim (Bool-cases (shift n == 0)) [
    | inl last ↦
        let none_left = ==→eq (shift n) 0 last in
        (
          digit n,
          buf,
          ap (λ (k : ℕ). fill fuel digit shift k (digit n ∷ buf)) none_left
              ∙ fill-zero fuel (digit n ∷ buf),
          omega (arith, recombine n, ap (λ (k : ℕ). k * base) none_left),
        )
    | inr more ↦
        fill-leading fuel (shift n) (digit n ∷ buf) (omega (arith, pow_double fuel, shift_less n))
          (==_false→ne (shift n) 0 more)
  ])

  -- The loop, started as the code starts it, leaves the numeral of a 32-bit word in at most 11 of
  -- the 32 characters of the buffer.
  pub fill-IsNumeral :
      (n : ℕ)
      → n < 2 ^ 32
      → let ds = fill 32 digit shift n (if n == 0 then b'0' ∷ [] else []) in
        IsNumeral base n ds × (length ds ≤ 11)
  unfolding parse char_value
  fill-IsNumeral n h = elim (Bool-cases (n == 0)) [
    | inl e ↦ let z = ==→eq n 0 e in rw e (rw z (rw fill-zero (zero_numeral, omega arith)))
    | inr e ↦
        let ne = ==_false→ne n 0 e in
        rw e (
          record {
            digits = fill-All 32 n [] tt;
            value = fill-parse 32 n [] h ∙ (unfold parse in refl);
            canonical = inr (fill-leading 32 n [] h ne);
          },
          length-fill 32 11 n [] (omega arith),
        )
  ]
    where
      zero_numeral : IsNumeral base 0 (b'0' ∷ [])
      zero_numeral = record {
        digits = (omega arith, tt);
        value = omega arith;
        canonical = inl (refl, refl);
      }

pub decimal_lem : (n : ℕ) → char_value (decimal_digit n) ≡ n % 10
unfolding char_value decimal_digit
decimal_lem n = ground arith

pub octal_lem : (n : ℕ) → char_value (octal_digit n) ≡ n % 8
unfolding char_value octal_digit
octal_lem n = rw (bit_and-mask 3 n) (ground arith)

module _ (letter : ℕ) (h : (letter ≡ b'a') ⊎ (letter ≡ b'A')) where
  pub hex_lem : (n : ℕ) → char_value (hex_digit letter n) ≡ n % 16
  unfolding char_value hex_digit
  hex_lem n = rw (bit_and-mask 4 n) (ground arith)
