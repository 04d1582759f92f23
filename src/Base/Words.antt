-- ===== src/Base/Words.antt =====
-- Unsigned machine words of the 32-bit AVR32 target: `unsigned int`, `unsigned long`, `size_t`,
-- `uintptr_t` and `phys_addr_t` are all 32 bits wide there.
use Prim.Native.Nat.{ℕ, ◌+◌, ◌-◌, ◌%◌, ◌^◌}

abbrev pub u32_mod : ℕ
u32_mod = 2 ^ 32

-- `a + b` and `a - b` on 32-bit words, with the wrap-around of C.
abbrev pub add32 : ℕ → ℕ → ℕ
add32 a b = (a + b) % u32_mod

abbrev pub sub32 : ℕ → ℕ → ℕ
sub32 a b = (a + u32_mod - b % u32_mod) % u32_mod
