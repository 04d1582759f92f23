-- ===== src/Stream/Printf.antt =====
-- util/stream/stream_core.c: formatted output. What is sent to the stream is the list of the calls
-- of `stream_priv_write`, in order, since nothing that `stream_vprintf` does depends on the stream.
pub mod Machine
pub mod Pad
pub mod Digits
pub mod Numbers
mod Tests
use xplain_software_framewor.Base.{
  ℕ, zero, suc, ◌+◌, ◌-◌, ◌*◌, ◌/◌, ◌%◌, ◌^◌, Bool, true, false, not, ◌&&◌, ◌||◌, Option, none,
  some, List, [], ◌∷◌, ◌++◌, bit_and, ltb, leb, ◌==◌, if◌then◌else◌, length, add32, sub32, u32_mod,
}

-- `enum conversion_state`
pub data ConversionState : Type 0 where
  state_normal state_flag state_width state_period state_precision : ConversionState
  state_length state_convspec : ConversionState

-- `struct printf_conversion`, less the ignored precision and the argument. `width` is the word of
-- an `int`, and a character is its code.
pub record PrintfConversion : Type 0 where
  pub width : ℕ
  pub length_char : ℕ
  pub spec : ℕ
  pub pad_char : ℕ

-- An argument behind the format: a word (`int`, `long`, their unsigned kin, a pointer; all are 32
-- bits wide), a string, or the place that a %n conversion stores to.
pub data Arg : Type 0 where
  word : ℕ → Arg
  string : List ℕ → Arg
  place : ℕ → Arg

-- `sizeof(buf)` in the two conversions
abbrev pub buf_len : ℕ
buf_len = 32

-- The loops fill `buf` from its end; the list is what stands behind the index `i`.
-- `while (number) { buf[--i] = '0' + number % 10; number /= 10; }` and its kin for other bases.
unfoldable pub fill : ℕ → (ℕ → ℕ) → (ℕ → ℕ) → ℕ → List ℕ → List ℕ
fill zero digit shift number buf = buf
fill (suc fuel) digit shift number buf =
    let rest = fill fuel digit shift (shift number) (digit number ∷ buf) in
    if number == 0 then buf else rest

-- `while ((sizeof(buf) - i) < conv->width) buf[--i] = conv->pad_char;`
unfoldable pub pad : ℕ → ℕ → ℕ → List ℕ → List ℕ
pad zero width pad_char buf = buf
pad (suc fuel) width pad_char buf =
    let rest = pad fuel width pad_char (pad_char ∷ buf) in
    if ltb (length buf) width then rest else buf

unfoldable pub pad_field : PrintfConversion → List ℕ → List ℕ
pad_field conv buf =
    let width = if ltb buf_len conv.width then buf_len else conv.width in
    pad width width conv.pad_char buf

unfoldable pub decimal_digit : ℕ → ℕ
decimal_digit number = b'0' + number % 10

pub octal_digit : ℕ → ℕ
octal_digit number = b'0' + bit_and number 7

-- `letter` is 'a' or 'A'
pub hex_digit : ℕ → ℕ → ℕ
hex_digit letter number =
    if ltb 9 (bit_and number 15) then letter - 10 + bit_and number 15 else b'0' + bit_and number 15

-- the digits of a word in the base that the conversion specifier names; any other prints none
unfoldable pub unsigned_digits : ℕ → ℕ → List ℕ → List ℕ
unsigned_digits spec number buf =
    if spec == b'o'
    then fill 32 octal_digit (λ n. n / 2 ^ 3) number buf
    else if spec == b'u'
    then fill 32 decimal_digit (λ n. n / 10) number buf
    else if spec == b'x'
    then fill 32 (hex_digit b'a') (λ n. n / 2 ^ 4) number buf
    else if spec == b'X'
    then fill 32 (hex_digit b'A') (λ n. n / 2 ^ 4) number buf
    else buf

-- `stream_priv_print_unsigned`: the characters that it sends; it returns their number.
unfoldable pub print_unsigned : PrintfConversion → ℕ → List ℕ
print_unsigned conv number =
    pad_field conv (unsigned_digits conv.spec number (if number == 0 then b'0' ∷ [] else []))

-- `'0' + number % 10` stored in a `char`, for a `long` below zero of which `magnitude` is the
-- absolute value; it is reached only at the least `long`, whose negation is itself.
pub negative_digit : ℕ → ℕ
negative_digit magnitude = (b'0' + 256 - magnitude % 10) % 256

pub signed_digits : ℕ → List ℕ
signed_digits number =
    if number == 2 ^ 31
    then b'-' ∷ fill 32 negative_digit (λ n. n / 10) (2 ^ 31) []
    else if ltb number (2 ^ 31)
    then fill 32 decimal_digit (λ n. n / 10) number (if number == 0 then b'0' ∷ [] else [])
    else b'-' ∷ fill 32 decimal_digit (λ n. n / 10) (sub32 0 number) []

-- `stream_priv_print_signed` of the `long` whose word is `number`.
pub print_signed : PrintfConversion → ℕ → List ℕ
print_signed conv number = pad_field conv (signed_digits number)
