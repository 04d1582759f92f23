-- ===== src/Strings.antt =====
-- util/string: the generic memcpy, memset, strcmp, strncmp and strlen, over memory as a byte at
-- each address. A string that is only read is the function from an index to its character.
pub mod Copy
pub mod Compare
mod Tests
use xplain_software_framewor.Base.{
  ℕ, zero, suc, ◌+◌, ◌-◌, ◌%◌, Bool, true, false, ◌&&◌, ◌||◌, not, Option, none, some, List, [],
  ◌∷◌, leb, ◌==◌, if◌then◌else◌,
}
use xplain_software_framewor.Base.Int.{ℤ, sub_ℕ, pos, negsuc}

abbrev pub ByteMem : Type 0
ByteMem = ℕ → ℕ

-- `*p = v`, for a byte
abbrev pub poke : ByteMem → ℕ → ℕ → ByteMem
poke mem p v a = if a == p then v else mem a

-- `while (n--) *d++ = *s++;`
pub copy_bytes : ℕ → ℕ → ℕ → ByteMem → ByteMem
copy_bytes d s zero mem = mem
copy_bytes d s (suc n) mem = copy_bytes (d + 1) (s + 1) n (poke mem d (mem s))

pub memcpy : ℕ → ℕ → ℕ → ByteMem → ℕ × ByteMem
memcpy dest src n mem = (dest, copy_bytes dest src n mem)

-- `while (n--) *p++ = c;`
pub set_bytes : ℕ → ℕ → ℕ → ByteMem → ByteMem
set_bytes p c zero mem = mem
set_bytes p c (suc n) mem = set_bytes (p + 1) c n (poke mem p (c % 256))

pub memset : ℕ → ℕ → ℕ → ByteMem → ℕ × ByteMem
memset s c n mem = (s, set_bytes s c n mem)

-- `(int)c1 - (int)c2`. Whether `char` is signed is the compiler's choice; a signed one stands for
-- the byte less 256 from 128 on. Both sides are raised by 256, which leaves the difference.
abbrev pub char_bias : Bool → ℕ → ℕ
char_bias is_signed c = if is_signed && leb 128 c then c else c + 256

pub char_diff : Bool → ℕ → ℕ → ℤ
char_diff is_signed c1 c2 = sub_ℕ (char_bias is_signed c1) (char_bias is_signed c2)

-- `!c1 || !c2 || c1 != c2`
abbrev pub stops : ℕ → ℕ → Bool
stops c1 c2 = c1 == 0 || (c2 == 0 || not (c1 == c2))

module _ (is_signed : Bool) where
  -- `none` means that the fuel ran out.
  pub strcmp : ℕ → (ℕ → ℕ) → (ℕ → ℕ) → Option ℤ
  strcmp zero str1 str2 = none
  strcmp (suc fuel) str1 str2 =
      let rest = strcmp fuel (λ i. str1 (suc i)) (λ i. str2 (suc i)) in
      if stops (str1 0) (str2 0) then some (char_diff is_signed (str1 0) (str2 0)) else rest

  -- The `do ... while (--n)` loop; the number is `n - 1`.
  pub compare_up_to : ℕ → (ℕ → ℕ) → (ℕ → ℕ) → ℤ
  compare_up_to zero str1 str2 = char_diff is_signed (str1 0) (str2 0)
  compare_up_to (suc n) str1 str2 =
      let rest = compare_up_to n (λ i. str1 (suc i)) (λ i. str2 (suc i)) in
      if stops (str1 0) (str2 0) then char_diff is_signed (str1 0) (str2 0) else rest

  pub strncmp : (ℕ → ℕ) → (ℕ → ℕ) → ℕ → ℤ
  strncmp str1 str2 zero = pos 0
  strncmp str1 str2 (suc n) = compare_up_to n str1 str2

-- `while (*str++) len++;`
pub strlen : ℕ → (ℕ → ℕ) → ℕ → Option ℕ
strlen zero str len = none
strlen (suc fuel) str len =
    let rest = strlen fuel (λ i. str (suc i)) (len + 1) in if str 0 == 0 then some len else rest
