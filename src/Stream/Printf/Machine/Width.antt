-- ===== src/Stream/Printf/Machine/Width.antt =====
-- What `stream_vprintf` makes of a number conversion with a field width.
use xplain_software_framewor.Base.{
  ℕ, ◌+◌, ◌*◌, ◌%◌, ◌≤◌, ◌<◌, ◌≡◌, inl, inr, refl, sym, ◌∙◌, ap, subst, some, false, List, [], ◌∷◌,
  ◌++◌, arith, length, All, add32, u32_mod,
}
use xplain_software_framewor.Stream.Printf.{
  state_normal, state_flag, state_width, PrintfConversion, Arg, word, print_unsigned,
}
use xplain_software_framewor.Stream.Printf.Numbers.{IsBase, octal, decimal, lower_hex, upper_hex}
use xplain_software_framewor.Stream.Printf.Digits.{IsNumeral, parse, char_value}
use xplain_software_framewor.Stream.Printf.Machine.{
  Machine, Outcome, is_digit, print_word, in_convspec, in_length, in_period, in_width, in_flag,
  in_normal, dispatch, and_then, run,
}
use xplain_software_framewor.Stream.Printf.Machine.Format.{IsReady, and_then_done}

-- the conversion data that a "%" sets
abbrev pub fresh_conv : Machine → PrintfConversion
fresh_conv m = record m.conv { width = 0; length_char = 0; pad_char = 32 }

percent_char :
    (m : Machine)
    → IsReady m
    → dispatch m.state m b'%' ≡ some (record m { state = state_flag; conv = fresh_conv m }, [])
unfolding dispatch in_normal
percent_char m ready = ap (λ st. dispatch st m b'%') ready.0

-- a machine that has read the field width `w`
abbrev pub in_field : Machine → ℕ → Machine
in_field m w = record m { state = state_width; conv = record m.conv { width = w } }

width_digit :
    (m : Machine) (w c : ℕ)
    → char_value c < 10
    → 0 < w
    → in_width (in_field m w) c ≡ some (in_field m ((w * 10 + char_value c) % u32_mod), [])
unfolding in_width is_digit char_value
width_digit m w c h pos = ground arith

parse-ge : (acc : ℕ) (ds : List ℕ) → acc ≤ parse 10 acc ds
unfolding parse
parse-ge acc [] = omega arith
parse-ge acc (d ∷ ds) = omega (arith, parse-ge (acc * 10 + char_value d) ds)

-- The digits of a width behind its first one.
run_width :
    (ds rest : List ℕ) (m : Machine) (w : ℕ)
    → All (λ c. char_value c < 10) ds
    → 0 < w
    → parse 10 w ds < u32_mod
    → run (ds ++ rest) (in_field m w) ≡ run rest (in_field m (parse 10 w ds))
unfolding run parse dispatch
run_width [] rest m w h pos small = refl
run_width (d ∷ ds) rest m w h pos small =
    let w' = w * 10 + char_value d in
    let wide : w' % u32_mod ≡ w' = omega (arith, parse-ge w' ds) in
    rw
      (
        width_digit m w d h.0 pos,
        and_then_done m (run (ds ++ rest) (in_field m (w' % u32_mod))),
        wide,
      )
      (run_width ds rest m w' h.1 (omega arith) small)

-- The first digit of a width is read in the state for flags.
first_digit :
    (m : Machine) (d : ℕ)
    → 0 < char_value d
    → char_value d < 10
    → in_flag (record m { state = state_flag; conv = fresh_conv m }) d
      ≡ some (in_field (record m { conv = fresh_conv m }) (char_value d), [])
unfolding in_flag in_width is_digit char_value
first_digit m d pos lt = ground arith

-- The conversion specifiers for numbers end a width.
number_conversion :
    (m : Machine) (w c base : ℕ)
    → IsBase c base
    → in_width (in_field m w) c
      ≡ print_word
          (record m { state = state_width; conv = record m.conv { width = w; spec = c } })
          false
          m.args
unfolding in_width in_period in_length in_convspec is_digit
number_conversion m w c base (octal s b) = rw s refl
number_conversion m w c base (decimal s b) = rw s refl
number_conversion m w c base (lower_hex s b) = rw s refl
number_conversion m w c base (upper_hex s b) = rw s refl

-- What printing the word `u` by the conversion data `conv` comes to.
abbrev pub number_done : Machine → PrintfConversion → ℕ → List Arg → Outcome
number_done m conv u args =
    let out = print_unsigned conv u in
    some (
      record m { state = state_normal; conv = conv; args = args; n = add32 m.n (length out) },
      out ∷ [],
    )

-- the conversion data behind "%", a width and a specifier
abbrev pub number_conv : Machine → ℕ → ℕ → PrintfConversion
number_conv m w c = record m.conv { width = w; length_char = 0; spec = c; pad_char = 32 }

module _ (m : Machine) (w c base u : ℕ) (rest : List ℕ) (args : List Arg) (b : IsBase c base)
    (e : m.args ≡ word u ∷ args) where
  take_word :
      print_word (record m { state = state_width; conv = number_conv m w c }) false m.args
      ≡ number_done m (number_conv m w c) u args
  unfolding print_word
  take_word = ap (print_word (record m { state = state_width; conv = number_conv m w c }) false) e

  at_specifier :
      run (c ∷ rest) (in_field (record m { conv = fresh_conv m }) w)
      ≡ and_then (number_done m (number_conv m w c) u args) (run rest)
  unfolding run dispatch
  at_specifier =
      ap (λ o. and_then o (run rest))
        (number_conversion (record m { conv = fresh_conv m }) w c base b ∙ take_word)

  at_width :
      (d : ℕ) (ds : List ℕ)
      → 0 < char_value d
      → char_value d < 10
      → run (d ∷ ds ++ c ∷ rest) (record m { state = state_flag; conv = fresh_conv m })
        ≡ run (ds ++ c ∷ rest) (in_field (record m { conv = fresh_conv m }) (char_value d))
  unfolding run dispatch
  at_width d ds lead lt = rw (first_digit m d lead lt) (
      and_then_done m
        (run (ds ++ c ∷ rest) (in_field (record m { conv = fresh_conv m }) (char_value d))))

  at_percent :
      (format : List ℕ)
      → IsReady m
      → run (b'%' ∷ format) m ≡ run format (record m { state = state_flag; conv = fresh_conv m })
  unfolding run
  at_percent format ready =
      rw (percent_char m ready)
        (and_then_done m (run format (record m { state = state_flag; conv = fresh_conv m })))

  from_digit :
      (d : ℕ) (ds : List ℕ)
      → IsReady m
      → 0 < char_value d
      → All (λ x. char_value x < 10) (d ∷ ds)
      → parse 10 (char_value d) ds ≡ w
      → w < u32_mod
      → run (b'%' ∷ d ∷ ds ++ c ∷ rest) m
        ≡ and_then (number_done m (number_conv m w c) u args) (run rest)
  from_digit d ds ready lead digits value small =
      at_percent (d ∷ ds ++ c ∷ rest) ready
      ∙ at_width d ds lead digits.0
      ∙ run_width ds (c ∷ rest) (record m { conv = fresh_conv m }) (char_value d) digits.1 lead
          (rw value small)
      ∙ ap (λ v. run (c ∷ rest) (in_field (record m { conv = fresh_conv m }) v)) value
      ∙ at_specifier

add_nothing : (v : ℕ) → v ≡ 0 * 10 + v
add_nothing v = omega arith

-- For a machine that is between conversions and whose count is a word: "%" with a field width from
-- 1 to 2^32 - 1 and o, u, x or X takes one argument, prints it by `stream_priv_print_unsigned`
-- with that width, blanks for padding and that specifier, counts the characters printed, and goes
-- on with the rest of the format.
pub run_number :
    (m : Machine) (w c base u : ℕ) (ds rest : List ℕ) (args : List Arg)
    → IsReady m
    → IsNumeral 10 w ds
    → 0 < w
    → w < u32_mod
    → IsBase c base
    → m.args ≡ word u ∷ args
    → run (b'%' ∷ ds ++ c ∷ rest) m ≡ and_then (number_done m (number_conv m w c) u args) (run rest)
unfolding parse
run_number m w c base u ds rest args ready num pos small b e = elim num.canonical [
  | inl (zero_width, _) ↦ absurd (omega arith)
  | inr (d, ds', shape, lead) ↦
      let digits = subst (All (λ x. char_value x < 10)) shape num.digits in
      let value : parse 10 (char_value d) ds' ≡ w =
        ap (λ (a : ℕ). parse 10 a ds') (add_nothing (char_value d))
        ∙ ap (parse 10 0) (sym shape)
        ∙ num.value in
      rw shape (from_digit m w c base u rest args b e d ds' ready lead digits value small)
]
