-- ===== src/Stream/Tests.antt =====
-- A stream of four bytes over a backend that takes one character at a time, and formats.
use xplain_software_framewor.Base.{
  ℕ, ◌+◌, ◌<◌, ◌≡◌, ◌⊎◌, inl, inr, refl, sym, ◌∙◌, ap, subst, zero, suc, ◌%◌, Bool, Bool-cases,
  true, false, Option, none, some, List, [], ◌∷◌, ◌++◌, append_assoc, arith, length, get_or,
}
use xplain_software_framewor.Stream.{
  Stream, Backend, buf_size, buf_unused, buf_has_data, buf_extract_char, priv_write,
}
use xplain_software_framewor.Stream.Holds.{Holds}
use xplain_software_framewor.Stream.Buffer.{queue_observations, size_pos, extract_char_lem}
use xplain_software_framewor.Stream.Write.{Accounts, IsBackend, Wrote, priv_write-Wrote}
use xplain_software_framewor.Stream.Deliver.{stream_vprintf, IsPatient, stream_vprintf-Delivers}
use mathlib.Core.List.{flatten}
use xplain_software_framewor.Stream.Printf.{
  PrintfConversion, word, print_unsigned, pad_field, pad, unsigned_digits, fill, decimal_digit,
}
use xplain_software_framewor.Stream.Printf.Machine.{
  vprintf, run, start, dispatch, in_normal, in_flag, in_width, in_period, in_length, in_convspec,
  is_digit, print_word,
}

-- "ab" behind a tail at the last byte
abbrev two : Stream
two = record {
  ring = record { head = 5; tail = 3 };
  ring_mask = 3;
  bytes = b'b' ∷ 0 ∷ 0 ∷ b'a' ∷ [];
}

abbrev ab : List ℕ
ab = b'a' ∷ b'b' ∷ []

two-Holds : Holds two ab
two-Holds = record {
  k = 2;
  taken = 3;
  small = omega arith;
  mask = refl;
  storage = omega arith;
  tracks = record { head_at = refl; tail_at = refl; ordered = omega arith; fits = omega arith };
  stored = at;
}
  where
    at : (i : ℕ) → i < length ab → get_or two.bytes ((3 + i) % 4) 0 ≡ get_or ab i 0
    at zero lt = refl
    at (suc zero) lt = refl
    at (suc (suc i)) lt = absurd (omega arith)

-- A backend that takes a character to make room; its state is what it has taken.
took : Option (ℕ × Stream) → Stream → List ℕ → Bool × Stream × List ℕ
took none s w = (true, s, w)
took (some (c, s')) s w = (true, s', w ++ c ∷ [])

-- the characters that the backend has taken
abbrev IsTaken : List ℕ → List ℕ → Type 0
IsTaken w taken = w ≡ taken

abbrev taker : Backend (List ℕ)
taker = record {
  commit = λ s w. (s, w);
  make_room = λ s goal w. took (buf_extract_char s) s w;
  interrupt = λ s w. (s, w);
}

patient : IsPatient taker
unfolding took
patient s goal w = always (buf_extract_char s)
  where
    always : (o : Option (ℕ × Stream)) → (took o s w).0 ≡ true
    always none = refl
    always (some (c, s')) = refl

abbrev mask_of : ℕ → Option (ℕ × Stream) → ℕ
mask_of m none = m
mask_of m (some (c, s)) = s.ring_mask

keeps_mask : (s : Stream) → mask_of s.ring_mask (buf_extract_char s) ≡ s.ring_mask
unfolding buf_extract_char
keeps_mask s = elim (Bool-cases (buf_has_data s)) [
  | inl yes_data ↦ rw yes_data
  | inr no_data ↦ rw no_data
]

keeps_size : (s s' : Stream) (c : ℕ) → buf_extract_char s ≡ some (c, s') → buf_size s' ≡ buf_size s
unfolding buf_size
keeps_size s s' c e = rw (sym (ap (mask_of s.ring_mask) e) ∙ keeps_mask s)

abbrev Ready : List ℕ → Bool × Stream × List ℕ → Type 0
Ready all (room, s', w') = Accounts IsTaken all s' w' × ((room ≡ false) ⊎ (0 < buf_unused s'))

taker_room :
    (all : List ℕ) (s : Stream) (w : List ℕ)
    → Accounts IsTaken all s w
    → Ready all (took (buf_extract_char s) s w)
unfolding took
taker_room all s w a = elim (extract_char_lem a.queue a.holds) [
  | inl (nothing, e) ↦
      subst (λ o. Ready all (took o s w)) (sym e)
        (a, inr (omega (arith, queue_observations a.holds, size_pos a.holds, ap length nothing)))
  | inr (c, cs, s', one, e, h) ↦
      subst (λ o. Ready all (took o s w)) (sym e)
        (
          record {
            taken = w ++ c ∷ [];
            queue = cs;
            consumed = refl;
            holds = h;
            order =
                append_assoc w (c ∷ []) cs
                ∙ ap (λ q. w ++ q) (sym one)
                ∙ ap (λ t. t ++ a.queue) a.consumed
                ∙ a.order;
          },
          inr (
              omega (
                arith,
                queue_observations a.holds,
                queue_observations h,
                keeps_size s s' c e,
                ap length one,
              )),
        )
]

taker-IsBackend : IsBackend IsTaken taker
taker-IsBackend = record {
  commits = λ all s w a. a;
  makes_room = λ all s goal w a. taker_room all s w a;
  interrupts = λ all s w a. (a, omega arith);
}

two-Accounts : Accounts IsTaken (b'z' ∷ ab) two (b'z' ∷ [])
two-Accounts = record {
  taken = b'z' ∷ [];
  queue = ab;
  consumed = refl;
  holds = two-Holds;
  order = refl;
}

priv_write_example :
    Wrote IsTaken taker
      (b'z' ∷ ab)
      (b'c' ∷ b'd' ∷ b'e' ∷ [])
      two
      (b'z' ∷ [])
      (priv_write taker (b'c' ∷ b'd' ∷ b'e' ∷ []) two (b'z' ∷ []))
priv_write_example =
    priv_write-Wrote taker-IsBackend (b'z' ∷ ab) (b'c' ∷ b'd' ∷ b'e' ∷ []) two (b'z' ∷ [])
      two-Accounts

abbrev blank : PrintfConversion
blank = record { width = 0; length_char = 0; spec = 0; pad_char = 32 }

-- "%3u"
abbrev format : List ℕ
format = b'%' ∷ b'3' ∷ b'u' ∷ []

abbrev calls : List (List ℕ)
calls = (32 ∷ b'4' ∷ b'2' ∷ []) ∷ []

formats : vprintf blank format (word 42 ∷ []) ≡ some (calls, 3, [])
unfolding vprintf run start dispatch in_normal in_flag in_width in_period in_length in_convspec
    is_digit print_word print_unsigned pad_field pad unsigned_digits fill decimal_digit
formats = refl

stream_vprintf_example :
    (s' : Stream) × (w' : List ℕ) × (stream_vprintf taker blank format
        (word 42 ∷ [])
        two
        (b'z' ∷ [])
      ≡ some (s', w', 3, []))
    × Accounts IsTaken ((b'z' ∷ ab) ++ flatten calls) s' w'
stream_vprintf_example =
    stream_vprintf-Delivers taker-IsBackend patient blank format (word 42 ∷ []) (b'z' ∷ ab) two
      (b'z' ∷ []) two-Accounts formats
