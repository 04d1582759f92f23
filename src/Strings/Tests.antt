-- ===== src/Strings/Tests.antt =====
-- The string routines on concrete memory.
use xplain_software_framewor.Base.{
  ℕ, zero, suc, ◌+◌, ◌≤◌, ◌<◌, ◌%◌, ◌≡◌, ◌≢◌, refl, ◌↔◌, arith, true, false, some, [], ◌∷◌, get_or,
}
use xplain_software_framewor.Strings.{
  ByteMem, memcpy, memset, copy_bytes, pos, strcmp, strncmp, strlen, char_diff,
}
use xplain_software_framewor.Strings.Copy.{Filled, memcpy-Filled, memset-Filled}
use xplain_software_framewor.Strings.Compare.{
  text, strncmp-text, Ends, StopsAt, strcmp_lem, strlen_lem,
}

abbrev cells : ByteMem
cells a = get_or (10 ∷ 20 ∷ 30 ∷ 40 ∷ 50 ∷ []) a 0

-- The three bytes at 1 are moved down to 0.
memcpy_example :
    ((memcpy 0 1 3 cells).0 ≡ 0) × Filled (λ i. cells (1 + i)) 0 3 cells (memcpy 0 1 3 cells).1
memcpy_example = memcpy-Filled 0 1 3 cells (omega arith)

memset_example :
    ((memset 1 511 2 cells).0 ≡ 1) × Filled (λ i. 511 % 256) 1 2 cells (memset 1 511 2 cells).1
memset_example = memset-Filled 1 511 2 cells

copied : (memcpy 0 1 3 cells).1 2 ≡ 40
unfolding memcpy copy_bytes
copied = refl

-- "ab" and "ac"
abbrev ab : ℕ → ℕ
ab i = get_or (97 ∷ 98 ∷ []) i 0 % 256

abbrev ac : ℕ → ℕ
ac i = get_or (97 ∷ 99 ∷ []) i 0 % 256

strncmp_example : (strncmp true ab ac 1 ≡ pos 0) ↔ (text 1 ab ≡ text 1 ac)
strncmp_example = strncmp-text true 1 ab ac (λ i. omega arith) (λ i. omega arith)

ab_proper : (i : ℕ) → i < 2 → ab i ≢ 0
ab_proper zero h = omega arith
ab_proper (suc zero) h = omega arith
ab_proper (suc (suc i)) h = absurd (omega arith)

ab-Ends : Ends ab 2
ab-Ends = record { null = refl; proper = ab_proper }

strcmp_example :
    (i : ℕ) × (i ≤ 2)
    × StopsAt ab ac i
    × (strcmp false 3 ab ac ≡ some (char_diff false (ab i) (ac i)))
strcmp_example = strcmp_lem false 3 2 ab ac ab-Ends (omega arith)

strlen_example : strlen 3 ab 0 ≡ some 2
strlen_example = strlen_lem 2 ab ab-Ends
