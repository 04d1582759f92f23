-- ===== src/Stream/Printf/Machine.antt =====
-- The state machine of `stream_vprintf`, one character of the format at a time.
pub mod Format
pub mod Width
use xplain_software_framewor.Base.{
  ℕ, ◌+◌, ◌-◌, ◌*◌, ◌%◌, Bool, true, false, not, ◌&&◌, ◌||◌, Option, none, some, List, [], ◌∷◌,
  ◌++◌, leb, ◌==◌, if◌then◌else◌, length, add32, u32_mod,
}
use xplain_software_framewor.Stream.Printf.{
  ConversionState, state_normal, state_flag, state_width, state_period, state_precision,
  state_length, state_convspec, PrintfConversion, Arg, word, string, place, print_unsigned,
  print_signed,
}

-- The local variables of `stream_vprintf`: `stores` are the values that %n conversions have
-- stored, the latest first.
pub record Machine : Type 0 where
  pub state : ConversionState
  pub conv : PrintfConversion
  pub n : ℕ
  pub args : List Arg
  pub stores : List (ℕ × ℕ)

-- What one character of the format does: the new state, and the calls of `stream_priv_write`.
-- `none`: an argument is missing or of another type.
abbrev pub Outcome : Type 0
Outcome = Option (Machine × List (List ℕ))

-- the calls that `stream_priv_putchar` makes
pub putchar_calls : ℕ → List (List ℕ)
putchar_calls c = if c == 10 then (13 ∷ []) ∷ (c ∷ []) ∷ [] else (c ∷ []) ∷ []

unfoldable pub is_digit : ℕ → Bool
is_digit c = leb b'0' c && leb c b'9'

-- `n += len`, and back to ordinary characters
abbrev pub printed : Machine → List Arg → ℕ → List (List ℕ) → Outcome
printed m args len calls =
    some (record m { state = state_normal; args = args; n = add32 m.n len }, calls)

unfoldable pub print_word : Machine → Bool → List Arg → Outcome
print_word m signed (word u ∷ args) =
    let digits = if signed then print_signed m.conv u else print_unsigned m.conv u in
    printed m args (length digits) (digits ∷ [])
print_word m signed _ = none

pub print_char : Machine → List Arg → Outcome
print_char m (word c ∷ args) = printed m args 1 (putchar_calls (c % 256))
print_char m _ = none

pub print_string : Machine → List Arg → Outcome
print_string m (string s ∷ args) = printed m args (length s) (s ∷ [])
print_string m _ = none

pub print_pointer : Machine → List Arg → Outcome
print_pointer m (word p ∷ args) =
    let digits = print_unsigned (record m.conv { spec = b'x' }) p in
    printed m args (2 + length digits) ((b'0' ∷ b'x' ∷ []) ∷ digits ∷ [])
print_pointer m _ = none

pub store_count : Machine → List Arg → Outcome
store_count m (place at ∷ args) =
    some (record m { state = state_normal; args = args; stores = (at, m.n) ∷ m.stores }, [])
store_count m _ = none

-- `case STATE_CONVSPEC`
unfoldable pub in_convspec : Machine → ℕ → Outcome
in_convspec m0 c =
    let m = record m0 { conv = record m0.conv { spec = c } } in
    if c == b'd' || c == b'i'
    then print_word m true m.args
    else if c == b'o' || (c == b'u' || (c == b'x' || c == b'X'))
    then print_word m false m.args
    else if c == b'c'
    then print_char m m.args
    else if c == b's'
    then print_string m m.args
    else if c == b'p'
    then print_pointer m m.args
    else if c == b'n'
    then store_count m m.args
    else some (record m { state = state_normal }, [])

-- `case STATE_LENGTH`; `sizeof(size_t) == sizeof(long)` holds.
unfoldable pub in_length : Machine → ℕ → Outcome
in_length m c =
    if c == b'h' || (c == b'l' || c == b'L')
    then some (record m { state = state_length; conv = record m.conv { length_char = c } }, [])
    else if c == b'z'
    then some (record m { state = state_length; conv = record m.conv { length_char = b'l' } }, [])
    else in_convspec m c

-- `case STATE_PRECISION`
pub in_precision : Machine → ℕ → Outcome
in_precision m c =
    if is_digit c then some (record m { state = state_precision }, []) else in_length m c

-- `case STATE_PERIOD`
unfoldable pub in_period : Machine → ℕ → Outcome
in_period m c = if c == b'.' then some (record m { state = state_precision }, []) else in_length m c

-- `case STATE_WIDTH`
unfoldable pub in_width : Machine → ℕ → Outcome
in_width m c =
    if is_digit c && (not (c == b'0') || not (m.conv.width == 0))
    then some (
      record m {
        state = state_width;
        conv = record m.conv { width = (m.conv.width * 10 + (c - b'0')) % u32_mod };
      },
      [],
    )
    else in_period m c

-- `case STATE_FLAG`
unfoldable pub in_flag : Machine → ℕ → Outcome
in_flag m c =
    if c == b'0'
    then some (record m { state = state_width; conv = record m.conv { pad_char = b'0' } }, [])
    else if c == b'#' || (c == b'-' || (c == 32 || c == b'+'))
    then some (record m { state = state_width }, [])
    else if c == b'%'
    then some (record m { state = state_normal; n = add32 m.n 1 }, putchar_calls c)
    else in_width m c

-- `case STATE_NORMAL`
unfoldable pub in_normal : Machine → ℕ → Outcome
in_normal m c =
    if c == b'%'
    then some (
      record m {
        state = state_flag;
        conv = record m.conv { width = 0; length_char = 0; pad_char = 32 };
      },
      [],
    )
    else some (record m { n = add32 m.n 1 }, putchar_calls c)

unfoldable pub dispatch : ConversionState → Machine → ℕ → Outcome
dispatch state_normal m c = in_normal m c
dispatch state_flag m c = in_flag m c
dispatch state_width m c = in_width m c
dispatch state_period m c = in_period m c
dispatch state_precision m c = in_precision m c
dispatch state_length m c = in_length m c
dispatch state_convspec m c = in_convspec m c

abbrev pub and_then : Outcome → (Machine → Outcome) → Outcome
and_then none k = none
and_then (some (m, calls)) k = elim (k m) [
  | none ↦ none
  | some (m', more) ↦ some (m', calls ++ more)
]

-- `while ((c = *format++)) switch (state) …`
unfoldable pub run : List ℕ → Machine → Outcome
run [] m = some (m, [])
run (c ∷ format) m = and_then (dispatch m.state m c) (run format)

-- `conv` is not initialised before the first conversion sets it.
unfoldable pub start : PrintfConversion → List Arg → Machine
start conv args = record { state = state_normal; conv = conv; n = 0; args = args; stores = [] }

-- `stream_vprintf`, less the writes and the final commit: the calls, the value returned, and what
-- %n conversions stored.
unfoldable pub vprintf :
    PrintfConversion → List ℕ → List Arg → Option (List (List ℕ) × ℕ × List (ℕ × ℕ))
vprintf conv format args = elim (run format (start conv args)) [
  | none ↦ none
  | some (m, calls) ↦ some (calls, m.n, m.stores)
]
