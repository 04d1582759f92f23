-- ===== src/Stream/StringStream/Snprintf.antt =====
-- What `snprintf` leaves in the memory of the string.
use mathlib.Core.List.{flatten}
use xplain_software_framewor.Base.{
  ℕ, ◌+◌, ◌-◌, ◌<◌, min, ◌≡◌, refl, ◌∙◌, ap, fun_ext, some, List, [], arith, length, le→ltb, lt→leb,
  sub32, u32_mod,
}
use xplain_software_framewor.Stream.{Stream}
use xplain_software_framewor.Stream.Holds.{Holds}
use xplain_software_framewor.Stream.Write.{Accounts}
use xplain_software_framewor.Stream.Deliver.{IsPatient, stream_vprintf-commit}
use xplain_software_framewor.Stream.Printf.{PrintfConversion, Arg}
use xplain_software_framewor.Stream.Printf.Machine.{vprintf}
use xplain_software_framewor.Stream.StringStream.{
  StringStream, set_char, fresh_stream, snprintf_commit, string_ops, terminated, snprintf,
}
use xplain_software_framewor.Stream.StringStream.Commit.{
  Written, overlaid, Flushed, snprintf_commit_lem, snprintf-IsBackend,
}

fresh-Holds : Holds fresh_stream []
fresh-Holds = record {
  k = 5;
  taken = 0;
  small = omega arith;
  mask = refl;
  storage = omega arith;
  tracks = record { head_at = refl; tail_at = refl; ordered = omega arith; fits = omega arith };
  stored = λ i lt. absurd (omega arith);
}

string_ops-IsPatient : IsPatient (string_ops snprintf_commit)
unfolding string_ops
string_ops-IsPatient s goal w = refl

-- `out` cut to the size, with a null byte behind it, and the memory elsewhere as it was
pub cut_to : (ℕ → ℕ) → ℕ → List ℕ → ℕ → ℕ
cut_to str size out =
    set_char (overlaid str out (min (length out) (size - 1))) (min (length out) (size - 1)) 0

module _ (str : ℕ → ℕ) (size : ℕ) (pos : 0 < size) (word : size < u32_mod) where
  start-Accounts :
      Accounts
        (Written str (size - 1))
        []
        fresh_stream
        (record { offset = 0; size = sub32 size 1; text = str })
  start-Accounts = record {
    taken = [];
    queue = [];
    consumed = record {
      limit = omega arith;
      end_at = omega arith;
      chars = λ i. rw (le→ltb i (min 0 (size - 1)) (omega arith));
    };
    holds = fresh-Holds;
    order = refl;
  }

  terminated_lem :
      (s : Stream) (ss : StringStream) (n : ℕ) (stores : List (ℕ × ℕ)) (out : List ℕ)
      → Written str (size - 1) ss out
      → terminated size (some (s, ss, n, stores)) ≡ some (cut_to str size out, n, stores)
  unfolding cut_to
  terminated_lem s ss n stores out w =
      rw (lt→leb size ss.offset (omega (arith, w.end_at)), w.end_at)
        (ap (λ text. some (set_char text (min (length out) (size - 1)) 0, n, stores))
          (fun_ext w.chars))

  -- `snprintf` with a size of at least one returns, for every format whose arguments fit it, the
  -- count and the stores of the format's state machine. The string is then the machine's output,
  -- cut to one character less than the size, with a null byte behind it; no other byte of memory is
  -- written.
  pub snprintf_lem :
      (conv : PrintfConversion) (format : List ℕ) (args : List Arg) {calls : List (List ℕ)} {n : ℕ}
      {stores : List (ℕ × ℕ)}
      → vprintf conv format args ≡ some (calls, n, stores)
      → snprintf conv str size format args ≡ some (cut_to str size (flatten calls), n, stores)
  unfolding snprintf string_ops
  snprintf_lem conv format args {calls} {n} {stores} e =
      let limit : size - 1 + 1 < u32_mod = omega arith in
      let (s', ss', returned, (empty, w)) =
        stream_vprintf-commit (snprintf-IsBackend str (size - 1) limit) string_ops-IsPatient
          (Flushed str (size - 1)) (snprintf_commit_lem str (size - 1) limit) conv format args []
          fresh_stream (record { offset = 0; size = sub32 size 1; text = str }) start-Accounts e in
      ap (terminated size) returned ∙ terminated_lem s' ss' n stores (flatten calls) w
