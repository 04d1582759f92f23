-- ===== src/Memory/Mempool/Init.antt =====
-- What `mem_pool_init` leaves: the free list of all the objects that fit, in address order.
use native.Mathlib.Nat.{div-add-mod, mod-lt, mul-le-mul_right}
use xplain_software_framewor.Base.{
  ℕ, zero, suc, ◌+◌, ◌-◌, ◌*◌, ◌/◌, ◌%◌, ◌^◌, ◌≤◌, ◌<◌, ◌≡◌, ◌≢◌, refl, sym, ◌∙◌, subst, Option,
  some, List, [], ◌∷◌, arith, le→leb, lt→leb, lt→ltb, ne→==, ==_self, u32_mod, add32, sub32,
}
use xplain_software_framewor.Memory.Align.{round_up32, round_up32_facts}
use xplain_software_framewor.Memory.Mempool.{
  WordMem, store, object_size, MemPool, link, init_aligned, mem_pool_init,
}
use xplain_software_framewor.Memory.Mempool.Chain.{Chain, Apart}

-- `n` objects of `objsize` bytes one after the other
pub objects : ℕ → ℕ → ℕ → List ℕ
objects a objsize zero = []
objects a objsize (suc n) = a ∷ objects (a + objsize) objsize n

-- The memory differs at most at these addresses.
abbrev pub SameOutside : List ℕ → WordMem → WordMem → Type 0
SameOutside xs mem mem' = (a : ℕ) → Apart a xs → mem' a ≡ mem a

-- The pool's free list is the `n` objects from `a` on, and nothing else was written.
pub record Initialised (a objsize n : ℕ) (mem : WordMem) (out : Option (MemPool × WordMem))
    : Type 0 where
  pub after : WordMem
  pub returned : out ≡ some (record { freelist = a }, after)
  pub chain : Chain after a (objects a objsize n)
  pub same : SameOutside (objects a objsize n) mem after

below-Apart : (a b objsize n : ℕ) → a < b → Apart a (objects b objsize n)
unfolding objects
below-Apart a b objsize zero lt = tt
below-Apart a b objsize (suc n) lt =
    (λ e. omega arith, below-Apart a (b + objsize) objsize n (omega arith))

store_elsewhere : (mem : WordMem) (p v a : ℕ) → p ≢ a → store mem p v a ≡ mem a
store_elsewhere mem p v a ne = rw (ne→== a p (λ e. ne (sym e)))

store_self : (mem : WordMem) (p v : ℕ) → store mem p v p ≡ v
store_self mem p v = rw (==_self p)

-- What the loop and the final store have done, started at the object `prev` with `n` more to come.
record Linked (objsize prev n : ℕ) (mem : WordMem) (out : Option (ℕ × WordMem)) : Type 0 where
  obj : ℕ
  mem' : WordMem
  returned : out ≡ some (obj, mem')
  chain : Chain (store mem' obj 0) prev (objects prev objsize (suc n))
  same : SameOutside (objects prev objsize (suc n)) mem (store mem' obj 0)

Linked-last :
    (objsize prev : ℕ) (mem : WordMem) → prev ≢ 0 → Linked objsize prev 0 mem (some (prev, mem))
unfolding objects
Linked-last objsize prev mem ne = record {
  obj = prev;
  mem' = mem;
  returned = refl;
  chain = (refl, ne, store_self mem prev 0);
  same = λ a out. store_elsewhere mem prev 0 a out.0;
}

module _ (objsize prev obj' n : ℕ) (mem : WordMem) (pos : 0 < objsize) (ne : prev ≢ 0)
    (next : obj' ≡ prev + objsize) where
  Linked-more :
      {out : Option (ℕ × WordMem)}
      → Linked objsize obj' n (store mem prev obj') out
      → Linked objsize prev (suc n) mem out
  unfolding objects
  Linked-more l = record {
    obj = l.obj;
    mem' = l.mem';
    returned = l.returned;
    chain = (
      refl,
      ne,
      rw (← next) (subst (λ q. Chain after q (objects obj' objsize (suc n))) (sym at_prev) l.chain),
    );
    same = λ a out. l.same a (rw next out.1) ∙ store_elsewhere mem prev obj' a out.0;
  }
    where
      after : WordMem
      after = store l.mem' l.obj 0

      at_prev : after prev ≡ obj'
      at_prev =
          l.same prev (below-Apart prev obj' objsize (suc n) (omega arith))
          ∙ store_self mem prev obj'

module _ (aligned_start objsize size : ℕ) (pos : 0 < objsize) (half : size < 2 ^ 31)
    (room : aligned_start + size ≤ u32_mod) (obj_fits : objsize ≤ size)
    (ne : 0 < aligned_start) where
  link-Linked :
      (fuel n offset prev : ℕ) (mem : WordMem)
      → n < fuel
      → prev + objsize ≡ aligned_start + offset
      → aligned_start ≤ prev
      → offset + n * objsize ≤ size
      → size < offset + n * objsize + objsize
      → Linked objsize prev n mem (link fuel aligned_start objsize size offset prev mem)
  unfolding link
  link-Linked zero n offset prev mem lt at low fit full = absurd (omega arith)
  link-Linked (suc fuel) zero offset prev mem lt at low fit full =
      rw (lt→leb (add32 offset objsize) size (omega arith))
        (Linked-last objsize prev mem (omega arith))
  link-Linked (suc fuel) (suc n) offset prev mem lt at low fit full =
      let sum : add32 offset objsize ≡ offset + objsize = omega arith in
      let obj' : add32 aligned_start offset ≡ prev + objsize = omega arith in
      rw (sum, obj', le→leb (offset + objsize) size (omega arith))
        (Linked-more objsize prev (prev + objsize) n mem pos (omega arith) refl (
          link-Linked fuel n (offset + objsize) (prev + objsize) (store mem prev (prev + objsize))
            (omega arith) (omega arith) (omega arith) (omega arith) (omega arith)))

  -- `n` objects fit besides the first.
  init_aligned-Initialised :
      (n : ℕ) (mem : WordMem)
      → object_size ≤ objsize
      → objsize + n * objsize ≤ size
      → size < objsize + n * objsize + objsize
      → n ≤ size
      → Initialised aligned_start objsize (suc n) mem (init_aligned aligned_start size objsize mem)
  unfolding init_aligned
  init_aligned-Initialised n mem big fit full fuel =
      let l =
        link-Linked (suc size) n objsize aligned_start mem (omega arith) refl (omega arith) fit
          full in
      record {
        after = store l.mem' l.obj 0;
        returned = rw (le→leb object_size objsize big, le→leb objsize size obj_fits, l.returned);
        chain = l.chain;
        same = l.same;
      }

Initialised-count :
    {a o : ℕ} {mem : WordMem} {out : Option (MemPool × WordMem)} (q q' : ℕ)
    → q ≡ q'
    → Initialised a o q' mem out
    → Initialised a o q mem out
Initialised-count {a = a} {o = o} {mem = mem} {out = out} q q' e i =
    subst (λ k. Initialised a o k mem out) (sym e) i

-- `q` objects of `o` bytes and a rest make up `s` bytes, which hold at least one.
packed :
    (q o r s : ℕ)
    → o * q + r ≡ s
    → r < o
    → o ≤ s
    → 0 < o
    → (q ≡ suc (q - 1)) × (o + (q - 1) * o ≤ s) × (s < o + (q - 1) * o + o) × (q - 1 ≤ s)
packed zero o r s e lt le pos = absurd (omega arith)
packed (suc q) o r s e lt le pos =
    let down : suc q - 1 ≡ q = omega arith in rw down (omega (arith, mul-le-mul_right q pos))

module _ (start size objsize order : ℕ) (mem : WordMem) (ne : 0 < start) (half : size < 2 ^ 31)
    (room : start + size + (2 ^ order - 1) < u32_mod) where
  -- The asserts pass, and the rest of the area is initialised.
  rounded_lem :
      start ≤ round_up32 start order
      → round_up32 start order < start + size
      → mem_pool_init start size objsize order mem
        ≡ init_aligned
            (round_up32 start order)
            (start + size - round_up32 start order)
            (round_up32 objsize order)
            mem
  unfolding mem_pool_init
  rounded_lem low high =
      let skipped : sub32 (round_up32 start order) start ≡ round_up32 start order - start =
        omega arith in
      let shrunk : sub32 size (round_up32 start order - start)
          ≡ start + size - round_up32 start order =
        omega arith in
      rw (
        skipped,
        shrunk,
        ne→== start 0 (omega arith),
        lt→ltb start (add32 start size) (omega arith),
      )

  -- For an order below 32, a start that is not null and objects of at least the size of a pointer:
  -- where the rounded area holds at least one rounded object, has less than half the address space
  -- and does not pass its end, `mem_pool_init` succeeds. Its free list is then all the objects
  -- that fit, tightly packed in address order from the first aligned address. That address and the
  -- rounded size are multiples of the alignment, the rounded size is at least the size asked for,
  -- the objects lie in the area, and no other memory has been written.
  pub mem_pool_init-Chain :
      order < 32
      → object_size ≤ objsize
      → objsize + (2 ^ order - 1) < u32_mod
      → round_up32 objsize order + round_up32 start order ≤ start + size
      → let a = round_up32 start order in
        let o = round_up32 objsize order in
        let n = (start + size - a) / o in
        Initialised a o n mem (mem_pool_init start size objsize order mem)
        × (a % 2 ^ order ≡ 0)
        × (start ≤ a)
        × (o % 2 ^ order ≡ 0)
        × (objsize ≤ o)
        × (a + o * n ≤ start + size)
        × (start + size < a + o * n + o)
  mem_pool_init-Chain small big obj_word fits =
      let a = round_up32 start order in
      let o = round_up32 objsize order in
      let (a_mult, a_low, a_near) = round_up32_facts order small start (omega arith) in
      let (o_mult, o_low, o_near) = round_up32_facts order small objsize obj_word in
      let n = (start + size - a) / o in
      let whole : o * n + (start + size - a) % o ≡ start + size - a =
        div-add-mod (start + size - a) o in
      let part : (start + size - a) % o < o = mod-lt (start + size - a) {m = o} (omega arith) in
      let (many, last_in, last_out, few) =
        packed n o ((start + size - a) % o) (start + size - a) whole part (omega arith)
          (omega arith) in
      (
        subst (λ out. Initialised a o n mem out) (sym (rounded_lem a_low (omega arith)))
            (Initialised-count n (suc (n - 1)) many (
              init_aligned-Initialised a o (start + size - a) (omega arith) (omega arith)
                (omega arith) (omega arith) (omega arith) (n - 1) mem (omega arith) last_in last_out
                few)),
        a_mult,
        a_low,
        o_mult,
        o_low,
        omega arith,
        omega arith,
      )
