-- ===== src/Stream/StringStream/Tests.antt =====
-- A number printed to a string that is too short for it.
use mathlib.Core.List.{flatten}
use xplain_software_framewor.Base.{ℕ, ◌≡◌, refl, some, List, [], ◌∷◌, arith}
use xplain_software_framewor.Stream.Write.{IsBackend}
use xplain_software_framewor.Stream.Printf.{
  PrintfConversion, word, print_unsigned, pad_field, pad, unsigned_digits, fill, decimal_digit,
}
use xplain_software_framewor.Stream.Printf.Machine.{
  vprintf, run, start, dispatch, in_normal, in_flag, in_width, in_period, in_length, in_convspec,
  is_digit, print_word,
}
use xplain_software_framewor.Stream.StringStream.{string_ops, snprintf_commit, snprintf}
use xplain_software_framewor.Stream.StringStream.Commit.{Written, snprintf-IsBackend}
use xplain_software_framewor.Stream.StringStream.Snprintf.{cut_to, snprintf_lem}

abbrev blank : PrintfConversion
blank = record { width = 0; length_char = 0; spec = 0; pad_char = 32 }

-- "%3u"
abbrev format : List ℕ
format = b'%' ∷ b'3' ∷ b'u' ∷ []

abbrev calls : List (List ℕ)
calls = (32 ∷ b'4' ∷ b'2' ∷ []) ∷ []

formats : vprintf blank format (word 42 ∷ []) ≡ some (calls, 3, [])
unfolding vprintf run start dispatch in_normal in_flag in_width in_period in_length in_convspec
    is_digit print_word print_unsigned pad_field pad unsigned_digits fill decimal_digit
formats = refl

abbrev memory : ℕ → ℕ
memory i = 7

snprintf_example :
    snprintf blank memory 3 format (word 42 ∷ []) ≡ some (cut_to memory 3 (flatten calls), 3, [])
snprintf_example =
    snprintf_lem memory 3 (omega arith) (omega arith) blank format (word 42 ∷ []) formats

string-IsBackend_example : IsBackend (Written memory 2) (string_ops snprintf_commit)
string-IsBackend_example = snprintf-IsBackend memory 2 (omega arith)
