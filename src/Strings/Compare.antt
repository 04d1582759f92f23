-- ===== src/Strings/Compare.antt =====
-- strcmp, strncmp and strlen of util/string against the texts that they read.
use xplain_software_framewor.Base.{
  ℕ, zero, suc, ◌+◌, ◌≤◌, ◌<◌, ◌≡◌, ◌≢◌, refl, ap, ◌∙◌, ◌↔◌, inl, inr, arith, ◌==◌, Bool, true,
  false, Bool-cases, ne→==, eq→==, some, List, [], ◌∷◌, if◌then◌else◌,
}
use xplain_software_framewor.Strings.{pos, char_diff, stops, strcmp, compare_up_to, strncmp, strlen}

-- The first `n` characters of a string, or those before its null character.
unfoldable pub text : ℕ → (ℕ → ℕ) → List ℕ
text zero str = []
text (suc n) str = if str 0 == 0 then [] else str 0 ∷ text n (λ i. str (suc i))

-- The string ends by a null character at this length.
pub record Ends (str : ℕ → ℕ) (n : ℕ) : Type 0 where
  pub null : str n ≡ 0
  pub proper : (i : ℕ) → i < n → str i ≢ 0

abbrev Bytes : (ℕ → ℕ) → Type 0
Bytes str = (i : ℕ) → str i < 256

char_diff_zero : (b : Bool) (x y : ℕ) → x < 256 → y < 256 → (char_diff b x y ≡ pos 0) ↔ (x ≡ y)
unfolding char_diff
char_diff_zero b x y hx hy = (λ e. ground arith, λ e. ground arith)

abbrev shift : (ℕ → ℕ) → ℕ → ℕ
shift str i = str (suc i)

compare_up_to-text :
    (b : Bool) (n : ℕ) (str1 str2 : ℕ → ℕ)
    → Bytes str1
    → Bytes str2
    → (compare_up_to b n str1 str2 ≡ pos 0) ↔ (text (suc n) str1 ≡ text (suc n) str2)
unfolding compare_up_to text
compare_up_to-text b zero str1 str2 h1 h2 =
    let same = char_diff_zero b (str1 0) (str2 0) (h1 0) (h2 0) in
    (λ e. ground (arith, same.0), λ e. ground (arith, same.1))
compare_up_to-text b (suc n) str1 str2 h1 h2 =
    let same = char_diff_zero b (str1 0) (str2 0) (h1 0) (h2 0) in
    let rest =
      compare_up_to-text b n (shift str1) (shift str2) (λ i. h1 (suc i)) (λ i. h2 (suc i)) in
    (λ e. ground (arith, same.0, rest.0), λ e. ground (arith, same.1, rest.1))

-- For strings of bytes, whether `char` is signed or not: `strncmp` is zero exactly where the first
-- `n` characters, up to a null character, are the same in both.
pub strncmp-text :
    (b : Bool) (n : ℕ) (str1 str2 : ℕ → ℕ)
    → ((i : ℕ) → str1 i < 256)
    → ((i : ℕ) → str2 i < 256)
    → (strncmp b str1 str2 n ≡ pos 0) ↔ (text n str1 ≡ text n str2)
unfolding strncmp text
strncmp-text b zero str1 str2 h1 h2 = (λ e. refl, λ e. refl)
strncmp-text b (suc n) str1 str2 h1 h2 = compare_up_to-text b n str1 str2 h1 h2

-- The index at which a comparison of two strings stops: all characters before it are proper and
-- the same in both, and those at it differ or are both null.
pub record StopsAt (str1 str2 : ℕ → ℕ) (i : ℕ) : Type 0 where
  pub same : (j : ℕ) → j < i → (str1 j ≡ str2 j) × (str1 j ≢ 0)
  pub last : str1 i ≡ str2 i → str1 i ≡ 0

Ends-shift : (str : ℕ → ℕ) (n : ℕ) → Ends str (suc n) → Ends (shift str) n
Ends-shift str n e = record { null = e.null; proper = λ i h. e.proper (suc i) (omega arith) }

StopsAt-zero : (str1 str2 : ℕ → ℕ) → stops (str1 0) (str2 0) ≡ true → StopsAt str1 str2 0
StopsAt-zero str1 str2 h = record { same = λ j lt. absurd (omega arith); last = λ e. ground arith }

StopsAt-suc :
    (str1 str2 : ℕ → ℕ) (i : ℕ)
    → stops (str1 0) (str2 0) ≡ false
    → StopsAt (shift str1) (shift str2) i
    → StopsAt str1 str2 (suc i)
StopsAt-suc str1 str2 i h s = record { same = same; last = s.last }
  where
    same : (j : ℕ) → j < suc i → (str1 j ≡ str2 j) × (str1 j ≢ 0)
    same zero lt = (ground arith, λ e. ground arith)
    same (suc j) lt = s.same j (omega arith)

-- Where the first string ends by a null character at `n`, `strcmp` returns after at most `n + 1`
-- rounds, with the difference of the characters at the first place where the strings differ or
-- both end.
pub strcmp_lem :
    (b : Bool) (fuel n : ℕ) (str1 str2 : ℕ → ℕ)
    → Ends str1 n
    → n < fuel
    → (i : ℕ) × (i ≤ n)
      × StopsAt str1 str2 i
      × (strcmp b fuel str1 str2 ≡ some (char_diff b (str1 i) (str2 i)))
unfolding strcmp
strcmp_lem b zero n str1 str2 e h = absurd (omega arith)
strcmp_lem b (suc fuel) zero str1 str2 e h =
    let stop : stops (str1 0) (str2 0) ≡ true = rw (eq→== (str1 0) 0 e.null) in
    (0, omega arith, StopsAt-zero str1 str2 stop, rw stop)
strcmp_lem b (suc fuel) (suc m) str1 str2 e h = elim (Bool-cases (stops (str1 0) (str2 0))) [
  | inl stop ↦ (0, omega arith, StopsAt-zero str1 str2 stop, rw stop)
  | inr more ↦
      (let (i, le, at_i, eq) =
          strcmp_lem b fuel m (shift str1) (shift str2) (Ends-shift str1 m e) (omega arith) in
        (suc i, omega arith, StopsAt-suc str1 str2 i more at_i, rw more eq))
]

strlen_from :
    (fuel n : ℕ) (str : ℕ → ℕ) (len : ℕ)
    → Ends str n
    → n < fuel
    → strlen fuel str len ≡ some (len + n)
unfolding strlen
strlen_from zero n str len e h = absurd (omega arith)
strlen_from (suc fuel) zero str len e h = ground (arith, e.null)
strlen_from (suc fuel) (suc n) str len e h =
    let next = strlen_from fuel n (shift str) (len + 1) (Ends-shift str n e) (omega arith) in
    rw (ne→== (str 0) 0 (e.proper 0 (omega arith))) (next ∙ ap some (omega arith))

-- Where a string ends by a null character at `n`, `strlen` returns `n`, after `n + 1` rounds.
pub strlen_lem : (n : ℕ) (str : ℕ → ℕ) → Ends str n → strlen (suc n) str 0 ≡ some n
strlen_lem n str e = strlen_from (suc n) n str 0 e (omega arith) ∙ ap some (omega arith)

-- The text depends on its own characters only.
pub text-ext :
    (n : ℕ) (str1 str2 : ℕ → ℕ) → ((i : ℕ) → i < n → str1 i ≡ str2 i) → text n str1 ≡ text n str2
unfolding text
text-ext zero str1 str2 h = refl
text-ext (suc n) str1 str2 h = ground (
  arith,
  h 0 (omega arith),
  text-ext n (λ i. str1 (suc i)) (λ i. str2 (suc i)) (λ i lt. h (suc i) (omega arith)),
)
