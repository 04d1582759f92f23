-- ===== src/Stream/Printf/Tests.antt =====
-- What the conversions and the format machine make of some numbers and formats.
use xplain_software_framewor.Base.{ℕ, ◌-◌, ◌^◌, ◌<◌, ◌≡◌, ◌⊎◌, inr, refl, List, [], ◌∷◌, arith}
use xplain_software_framewor.Stream.Printf.{
  PrintfConversion, word, state_normal, pad_field, pad, unsigned_digits, fill, hex_digit,
  print_unsigned, print_signed,
}
use xplain_software_framewor.Stream.Printf.Digits.{IsNumeral, char_value, parse}
use xplain_software_framewor.Stream.Printf.Numbers.{
  upper_hex, IsField, print_unsigned-IsField, print_signed-IsField,
}
use xplain_software_framewor.Stream.Printf.Machine.{Machine}

abbrev upper : PrintfConversion
upper = record { width = 6; length_char = 0; spec = b'X'; pad_char = b'0' }

print_unsigned_example :
    (ds : List ℕ) × IsNumeral 16 48879 ds × IsField upper ds (print_unsigned upper 48879)
print_unsigned_example = print_unsigned-IsField upper 16 48879 (upper_hex refl refl) (omega arith)

-- -5 with a width of 6 and zeros
print_signed_example :
    (ds : List ℕ) × ((2 ^ 32 - 5 < 2 ^ 31)
        × IsNumeral 10 (2 ^ 32 - 5) ds
        × IsField upper ds (print_signed upper (2 ^ 32 - 5))
      ⊎ (2 ^ 31 < 2 ^ 32 - 5)
        × IsNumeral 10 (2 ^ 32 - (2 ^ 32 - 5)) ds
        × IsField upper (b'-' ∷ ds) (print_signed upper (2 ^ 32 - 5)))
print_signed_example = print_signed-IsField upper (2 ^ 32 - 5) (omega arith) (λ e. omega arith)

shows_beef : print_unsigned upper 48879 ≡ b'0' ∷ b'0' ∷ b'B' ∷ b'E' ∷ b'E' ∷ b'F' ∷ []
unfolding print_unsigned pad_field pad unsigned_digits fill hex_digit
shows_beef = refl

abbrev machine : Machine
machine = record { state = state_normal; conv = upper; n = 7; args = word 5 ∷ []; stores = [] }

twelve : IsNumeral 10 12 (b'1' ∷ b'2' ∷ [])
unfolding char_value parse
twelve = record {
  digits = (omega arith, (omega arith, tt));
  value = refl;
  canonical = inr (b'1', b'2' ∷ [], refl, omega arith);
}
