-- ===== src/Strings/Copy.antt =====
-- What memcpy and memset of util/string write.
use xplain_software_framewor.Base.{
  ℕ, zero, suc, ◌+◌, ◌%◌, ◌≤◌, ◌<◌, ◌≡◌, ◌≢◌, refl, ◌∙◌, ap, ◌⊎◌, arith, ne→==, ==_self,
}
use xplain_software_framewor.Strings.{ByteMem, poke, copy_bytes, set_bytes, memcpy, memset}

-- Memory of `n` bytes from `d` on is what `f` says, and all other memory is as in `mem`.
pub record Filled (f : ℕ → ℕ) (d n : ℕ) (mem mem' : ByteMem) : Type 0 where
  pub inside : (i : ℕ) → i < n → mem' (d + i) ≡ f i
  pub outside : (a : ℕ) → (a < d) ⊎ (d + n ≤ a) → mem' a ≡ mem a

pub poke-eq : (mem : ByteMem) (p v : ℕ) → poke mem p v p ≡ v
poke-eq mem p v = rw (==_self p)

pub poke-ne : (mem : ByteMem) (p v a : ℕ) → a ≢ p → poke mem p v a ≡ mem a
poke-ne mem p v a h = rw (ne→== a p h)

copy_outside :
    (n d s : ℕ) (mem : ByteMem) (a : ℕ) → (a < d) ⊎ (d + n ≤ a) → copy_bytes d s n mem a ≡ mem a
unfolding copy_bytes
copy_outside zero d s mem a h = refl
copy_outside (suc n) d s mem a h =
    copy_outside n (d + 1) (s + 1) (poke mem d (mem s)) a (omega arith)
    ∙ poke-ne mem d (mem s) a (omega arith)

copy_inside :
    (n d s : ℕ) (mem : ByteMem) (i : ℕ)
    → (d ≤ s) ⊎ (s + n ≤ d)
    → i < n
    → copy_bytes d s n mem (d + i) ≡ mem (s + i)
unfolding copy_bytes
copy_inside zero d s mem i h lt = absurd (omega arith)
copy_inside (suc n) d s mem zero h lt =
    copy_outside n (d + 1) (s + 1) (poke mem d (mem s)) (d + 0) (omega arith)
    ∙ ap (poke mem d (mem s)) (omega arith)
    ∙ poke-eq mem d (mem s)
    ∙ ap mem (omega arith)
copy_inside (suc n) d s mem (suc i) h lt =
    ap (copy_bytes (d + 1) (s + 1) n (poke mem d (mem s))) (omega arith)
    ∙ copy_inside n (d + 1) (s + 1) (poke mem d (mem s)) i (omega arith) (omega arith)
    ∙ poke-ne mem d (mem s) (s + 1 + i) (omega arith)
    ∙ ap mem (omega arith)

-- Where the destination does not start within the source, behind its first byte: `memcpy` returns
-- the destination, which then holds the bytes that the source held; no other byte changes.
pub memcpy-Filled :
    (d s n : ℕ) (mem : ByteMem)
    → (d ≤ s) ⊎ (s + n ≤ d)
    → ((memcpy d s n mem).0 ≡ d) × Filled (λ i. mem (s + i)) d n mem (memcpy d s n mem).1
unfolding memcpy
memcpy-Filled d s n mem h = (
  refl,
  record {
    inside = λ i lt. copy_inside n d s mem i h lt;
    outside = λ a out. copy_outside n d s mem a out;
  },
)

set_outside :
    (n p c : ℕ) (mem : ByteMem) (a : ℕ) → (a < p) ⊎ (p + n ≤ a) → set_bytes p c n mem a ≡ mem a
unfolding set_bytes
set_outside zero p c mem a h = refl
set_outside (suc n) p c mem a h =
    set_outside n (p + 1) c (poke mem p (c % 256)) a (omega arith)
    ∙ poke-ne mem p (c % 256) a (omega arith)

set_inside : (n p c : ℕ) (mem : ByteMem) (i : ℕ) → i < n → set_bytes p c n mem (p + i) ≡ c % 256
unfolding set_bytes
set_inside zero p c mem i lt = absurd (omega arith)
set_inside (suc n) p c mem zero lt =
    set_outside n (p + 1) c (poke mem p (c % 256)) (p + 0) (omega arith)
    ∙ ap (poke mem p (c % 256)) (omega arith)
    ∙ poke-eq mem p (c % 256)
set_inside (suc n) p c mem (suc i) lt =
    ap (set_bytes (p + 1) c n (poke mem p (c % 256))) (omega arith)
    ∙ set_inside n (p + 1) c (poke mem p (c % 256)) i (omega arith)

-- `memset` returns its pointer, and sets exactly `n` bytes from there on to the low byte of `c`.
pub memset-Filled :
    (s c n : ℕ) (mem : ByteMem)
    → ((memset s c n mem).0 ≡ s) × Filled (λ i. c % 256) s n mem (memset s c n mem).1
unfolding memset
memset-Filled s c n mem = (
  refl,
  record {
    inside = λ i lt. set_inside n s c mem i lt;
    outside = λ a out. set_outside n s c mem a out;
  },
)
