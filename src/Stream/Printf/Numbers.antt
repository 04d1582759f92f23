-- ===== src/Stream/Printf/Numbers.antt =====
-- What the two number conversions print.
use native.Mathlib.Decide.{dec_lt}
use xplain_software_framewor.Base.{
  ℕ, ◌-◌, ◌/◌, ◌^◌, ◌≤◌, ◌<◌, ◌≡◌, ◌≢◌, ◌⊎◌, inl, inr, refl, List, [], ◌∷◌, ◌++◌, arith, length,
  length-append, sub32, ◌==◌, if◌then◌else◌, ne→==, le→ltb, lt→ltb,
}
use xplain_software_framewor.Stream.Printf.{
  PrintfConversion, buf_len, fill, decimal_digit, octal_digit, hex_digit, unsigned_digits,
  print_unsigned, signed_digits, print_signed, pad_field,
}
use xplain_software_framewor.Stream.Printf.Pad.{
  replicate, length-replicate, field_width, pad_field-replicate,
}
use xplain_software_framewor.Stream.Printf.Digits.{
  IsNumeral, fill-IsNumeral, decimal_lem, octal_lem, hex_lem,
}

-- the base that each specifier of an unsigned conversion names
pub data IsBase : ℕ → ℕ → Type 0 where
  octal : {spec base : ℕ} → spec ≡ b'o' → base ≡ 8 → IsBase spec base
  decimal : {spec base : ℕ} → spec ≡ b'u' → base ≡ 10 → IsBase spec base
  lower_hex : {spec base : ℕ} → spec ≡ b'x' → base ≡ 16 → IsBase spec base
  upper_hex : {spec base : ℕ} → spec ≡ b'X' → base ≡ 16 → IsBase spec base

unsigned_digits-IsNumeral :
    (spec base n : ℕ)
    → IsBase spec base
    → n < 2 ^ 32
    → let ds = unsigned_digits spec n (if n == 0 then b'0' ∷ [] else []) in
      IsNumeral base n ds × (length ds ≤ 11)
unfolding unsigned_digits
unsigned_digits-IsNumeral spec base n (octal s b) h =
    rw (s, b)
      (fill-IsNumeral 8 (omega arith) octal_digit (λ k. k / 2 ^ 3) octal_lem (λ k. refl) n h)
unsigned_digits-IsNumeral spec base n (decimal s b) h =
    rw (s, b)
      (fill-IsNumeral 10 (omega arith) decimal_digit (λ k. k / 10) decimal_lem (λ k. refl) n h)
unsigned_digits-IsNumeral spec base n (lower_hex s b) h =
    rw (s, b)
      (fill-IsNumeral 16 (omega arith) (hex_digit b'a') (λ k. k / 2 ^ 4) (hex_lem b'a' (inl refl))
        (λ k. refl) n h)
unsigned_digits-IsNumeral spec base n (upper_hex s b) h =
    rw (s, b)
      (fill-IsNumeral 16 (omega arith) (hex_digit b'A') (λ k. k / 2 ^ 4) (hex_lem b'A' (inr refl))
        (λ k. refl) n h)

-- a field: as many pad characters as the width (at most 32) asks for, then the text
pub record IsField (conv : PrintfConversion) (text out : List ℕ) : Type 0 where
  pub padded : out ≡ replicate (field_width conv - length text) conv.pad_char ++ text
  pub in_buffer : length out ≤ buf_len

pad_field-IsField :
    (conv : PrintfConversion) (text : List ℕ)
    → length text ≤ buf_len
    → IsField conv text (pad_field conv text)
pad_field-IsField conv text h = record {
  padded = pad_field-replicate conv text;
  in_buffer =
      rw
        (
          pad_field-replicate conv text,
          length-append (replicate (field_width conv - length text) conv.pad_char) text,
          length-replicate (field_width conv - length text) conv.pad_char,
        )
        (omega arith);
}

-- %o, %u, %x and %X print the numeral of the 32-bit argument in base 8, 10 or 16, with pad
-- characters before it up to the field width, and never write before the start of `buf`.
pub print_unsigned-IsField :
    (conv : PrintfConversion) (base n : ℕ)
    → IsBase conv.spec base
    → n < 2 ^ 32
    → (ds : List ℕ) × IsNumeral base n ds × IsField conv ds (print_unsigned conv n)
unfolding print_unsigned
print_unsigned-IsField conv base n b h =
    let (num, short) = unsigned_digits-IsNumeral conv.spec base n b h in
    (_, num, pad_field-IsField conv _ (omega arith))

module _ (n : ℕ) (h : n < 2 ^ 32) where
  plain_digits :
      n < 2 ^ 31
      → signed_digits n ≡ fill 32 decimal_digit (λ k. k / 10) n (if n == 0 then b'0' ∷ [] else [])
  unfolding signed_digits
  plain_digits lt = rw (ne→== n (2 ^ 31) (omega arith), lt→ltb n (2 ^ 31) lt)

  minus_digits :
      2 ^ 31 < n
      → signed_digits n
        ≡ b'-'
          ∷ fill 32 decimal_digit
              (λ k. k / 10)
              (2 ^ 32 - n)
              (if (2 ^ 32 - n) == 0 then b'0' ∷ [] else [])
  unfolding signed_digits
  minus_digits gt =
      let magnitude : sub32 0 n ≡ 2 ^ 32 - n = omega arith in
      rw (
        ne→== n (2 ^ 31) (omega arith),
        le→ltb n (2 ^ 31) (omega arith),
        magnitude,
        ne→== (2 ^ 32 - n) 0 (omega arith),
      )

-- %d of a `long` that is not negative prints its decimal numeral; of a negative one other than
-- the least, a minus sign and the numeral of its absolute value. The pad characters, zeros
-- included, stand before the sign, and `buf` is never left.
pub print_signed-IsField :
    (conv : PrintfConversion) (n : ℕ)
    → n < 2 ^ 32
    → n ≢ 2 ^ 31
    → (ds : List ℕ) × ((n < 2 ^ 31) × IsNumeral 10 n ds × IsField conv ds (print_signed conv n)
        ⊎ (2 ^ 31 < n)
          × IsNumeral 10 (2 ^ 32 - n) ds
          × IsField conv (b'-' ∷ ds) (print_signed conv n))
unfolding print_signed
print_signed-IsField conv n h ne = elim (dec_lt n (2 ^ 31)) [
  | yes lt ↦
      let (num, short) = decimal_numeral n h in
      (_, inl (lt, num, rw (plain_digits n h lt) (pad_field-IsField conv _ (omega arith))))
  | no ge ↦
      let (num, short) = decimal_numeral (2 ^ 32 - n) (omega arith) in
      let gt : 2 ^ 31 < n = omega arith in
      (_, inr (gt, num, rw (minus_digits n h gt) (pad_field-IsField conv _ (omega arith))))
]
  where
    decimal_numeral :
        (m : ℕ)
        → m < 2 ^ 32
        → let ds = fill 32 decimal_digit (λ k. k / 10) m (if m == 0 then b'0' ∷ [] else []) in
          IsNumeral 10 m ds × (length ds ≤ 11)
    decimal_numeral = fill-IsNumeral 10 (omega arith) decimal_digit _ decimal_lem (λ k. refl)
