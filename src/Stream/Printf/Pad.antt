-- ===== src/Stream/Printf/Pad.antt =====
-- How the two conversions pad a number to its field.
use xplain_software_framewor.Base.{
  ℕ, zero, suc, ◌+◌, ◌-◌, ◌≤◌, min, ◌≡◌, refl, ◌∙◌, ap, inl, inr, List, [], ◌∷◌, ◌++◌, arith,
  length, Bool-cases, ltb, ltb→lt, ltb_false→le,
}
use xplain_software_framewor.Stream.Printf.{PrintfConversion, buf_len, pad, pad_field}

pub replicate {ℓ} : {A : Type ℓ} → ℕ → A → List A
replicate zero a = []
replicate (suc n) a = a ∷ replicate n a

pub length-replicate {ℓ} : {A : Type ℓ} (n : ℕ) (a : A) → length (replicate n a) ≡ n
unfolding replicate
length-replicate zero a = refl
length-replicate (suc n) a = ap suc (length-replicate n a)

replicate-snoc : (n a : ℕ) (xs : List ℕ) → replicate n a ++ a ∷ xs ≡ replicate (suc n) a ++ xs
unfolding replicate
replicate-snoc zero a xs = refl
replicate-snoc (suc n) a xs = ap (λ l. a ∷ l) (replicate-snoc n a xs)

pad-replicate :
    (fuel width c : ℕ) (buf : List ℕ)
    → width ≤ fuel + length buf
    → pad fuel width c buf ≡ replicate (width - length buf) c ++ buf
unfolding pad replicate
pad-replicate zero width c buf h =
    ap (λ n. replicate n c ++ buf) (let e : 0 ≡ width - length buf = omega arith in e)
pad-replicate (suc fuel) width c buf h = elim (Bool-cases (ltb (length buf) width)) [
  | inl short ↦ rw short (
      pad-replicate fuel width c (c ∷ buf) (omega arith)
      ∙ replicate-snoc (width - suc (length buf)) c buf
      ∙ ap (λ n. replicate n c ++ buf)
          (let lt = ltb→lt _ _ short in
            let e : suc (width - suc (length buf)) ≡ width - length buf = omega arith in e))
  | inr full ↦ rw full (
      ap (λ n. replicate n c ++ buf)
        (let le = ltb_false→le _ _ full in let e : 0 ≡ width - length buf = omega arith in e))
]

-- the width that is used: at most the 32 characters of `buf`
abbrev pub field_width : PrintfConversion → ℕ
field_width conv = min conv.width buf_len

pub pad_field-replicate :
    (conv : PrintfConversion) (buf : List ℕ)
    → pad_field conv buf ≡ replicate (field_width conv - length buf) conv.pad_char ++ buf
unfolding pad_field
pad_field-replicate conv buf = elim (Bool-cases (ltb buf_len conv.width)) [
  | inl wide ↦
      let lt = ltb→lt _ _ wide in
      let e : min conv.width buf_len ≡ buf_len = omega arith in
      rw (wide, e) (pad-replicate buf_len buf_len conv.pad_char buf (omega arith))
  | inr narrow ↦
      let le = ltb_false→le _ _ narrow in
      let e : min conv.width buf_len ≡ conv.width = omega arith in
      rw (narrow, e) (pad-replicate conv.width conv.width conv.pad_char buf (omega arith))
]
