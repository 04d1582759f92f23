-- ===== src/Stream/Printf/Machine/Format.antt =====
-- What `stream_vprintf` makes of ordinary text, and of a format in parts.
use xplain_software_framewor.Base.{
  ℕ, ◌+◌, ◌%◌, ◌<◌, ◌≡◌, ◌≢◌, refl, sym, ◌∙◌, ap, fun_ext, none, some, List, [], ◌∷◌, ◌++◌,
  append_assoc, arith, length, All, add32, u32_mod, ne→==,
}
use xplain_software_framewor.Stream.Printf.{state_normal}
use xplain_software_framewor.Stream.Printf.Machine.{
  Machine, Outcome, putchar_calls, in_normal, dispatch, and_then, run,
}

-- the calls that send a text character by character
pub text_calls : List ℕ → List (List ℕ)
text_calls [] = []
text_calls (c ∷ cs) = putchar_calls c ++ text_calls cs

and_then_assoc :
    (o : Outcome) (f g : Machine → Outcome)
    → and_then (and_then o f) g ≡ and_then o (λ m. and_then (f m) g)
and_then_assoc none f g = refl
and_then_assoc (some (m, calls)) f g = join (f m)
  where
    join :
        (o : Outcome)
        → and_then (and_then (some (m, calls)) (λ _. o)) g
          ≡ and_then (some (m, calls)) (λ _. and_then o g)
    join none = refl
    join (some (m', more)) = last (g m')
      where
        last :
            (o' : Outcome)
            → and_then (some (m', calls ++ more)) (λ _. o')
              ≡ and_then (some (m, calls)) (λ _. and_then (some (m', more)) (λ _. o'))
        last none = refl
        last (some (m'', rest)) = ap (λ l. some (m'', l)) (append_assoc calls more rest)

pub and_then_done : (m : Machine) (o : Outcome) → and_then (some (m, [])) (λ _. o) ≡ o
and_then_done m none = refl
and_then_done m (some (m', calls)) = refl

-- The machine runs a format from left to right: to run two formats one after the other is to run
-- them as one.
pub run-append : (xs ys : List ℕ) (m : Machine) → run (xs ++ ys) m ≡ and_then (run xs m) (run ys)
unfolding run
run-append [] ys m = sym (and_then_done m (run ys m))
run-append (x ∷ xs) ys m =
    ap (and_then (dispatch m.state m x)) (fun_ext (λ m'. run-append xs ys m'))
    ∙ sym (and_then_assoc (dispatch m.state m x) (run xs) (run ys))

-- A machine that has read nothing, or a whole conversion, and whose count is a word.
abbrev pub IsReady : Machine → Type 0
IsReady m = (m.state ≡ state_normal) × (m.n < u32_mod)

normal_char :
    (m : Machine) (c : ℕ)
    → IsReady m
    → c ≢ b'%'
    → dispatch m.state m c ≡ some (record m { n = add32 m.n 1 }, putchar_calls c)
unfolding dispatch in_normal
normal_char m c ready ne = ap (λ st. dispatch st m c) ready.0 ∙ rw (ne→== c b'%' ne)

-- A text without "%", read by a machine that is between conversions and whose count is a word, is
-- sent as it is, with a carriage return before each newline, and counts one for each of its
-- characters.
pub run_text :
    (cs : List ℕ) (m : Machine)
    → All (λ c. c ≢ b'%') cs
    → IsReady m
    → run cs m ≡ some (record m { n = (m.n + length cs) % u32_mod }, text_calls cs)
unfolding run text_calls
run_text [] m h ready = ap (λ n. some (record m { n = n }, [])) (omega arith)
run_text (c ∷ cs) m h ready =
    rw
      (
        normal_char m c ready h.0,
        run_text cs (record m { n = add32 m.n 1 }) h.1 (ready.0, omega arith),
      )
      (ap (λ n. some (record m { n = n }, putchar_calls c ++ text_calls cs)) (omega arith))
