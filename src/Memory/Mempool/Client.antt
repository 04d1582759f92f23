-- ===== src/Memory/Mempool/Client.antt =====
-- Any sequence of calls of a pool's clients: no block is handed out twice, and none is lost.
use mathlib.Core.List.{
  ◌++◌, Perm, Mem, Memᴰ, Nodup, Nodup-append, perm_middle, mem-cons_self, mem-cons_of_mem,
  mem-append_left, mem-append_right, not-mem-nil,
}
use mathlib.Core.List.Perm
use mathlib.Core.Logic.{∥∥₁_elim}
use mathlib.Core.HLevel.{⊥_prop}
use xplain_software_framewor.Base.{ℕ, ◌≡◌, ◌≢◌, refl, sym, subst, List, [], ◌∷◌, ◌⊎◌, inl, inr}
use xplain_software_framewor.Memory.Mempool.{WordMem, store, MemPool, mem_pool_alloc, mem_pool_free}
use xplain_software_framewor.Memory.Mempool.Chain.{
  Chain, Apart, Took, Chain-store, alloc-Chain, free-Chain,
}

-- The pool, the memory, and the blocks that the clients hold.
pub record Client : Type 0 where
  pub pool : MemPool
  pub mem : WordMem
  pub held : List ℕ

-- A call, or a write of a client. Clients free what they hold, and write neither to the first word
-- of a block that they do not hold.
pub data Step (objs : List ℕ) : Client → Client → Type 0 where
  alloc :
      (c : Client) (obj : ℕ) (pool' : MemPool)
      → mem_pool_alloc c.pool c.mem ≡ (obj, pool')
      → obj ≢ 0
      → Step objs c (record { pool = pool'; mem = c.mem; held = obj ∷ c.held })
  exhausted :
      (c : Client) (pool' : MemPool)
      → mem_pool_alloc c.pool c.mem ≡ (0, pool')
      → Step objs c (record { pool = pool'; mem = c.mem; held = c.held })
  free :
      (c : Client) (obj : ℕ) (before after : List ℕ) (pool' : MemPool) (mem' : WordMem)
      → c.held ≡ before ++ (obj ∷ after)
      → mem_pool_free c.pool obj c.mem ≡ (pool', mem')
      → Step objs c (record { pool = pool'; mem = mem'; held = before ++ after })
  write :
      (c : Client) (a v : ℕ)
      → Mem a c.held ⊎ Apart a objs
      → Step objs c (record { pool = c.pool; mem = store c.mem a v; held = c.held })

pub data Steps (objs : List ℕ) : Client → Client → Type 0 where
  done : (c : Client) → Steps objs c c
  more : {c d e : Client} → Step objs c d → Steps objs d e → Steps objs c e

-- The free list and the held blocks are together exactly the pool's blocks.
pub record Shares (objs : List ℕ) (c : Client) : Type 0 where
  pub free_blocks : List ℕ
  pub chain : Chain c.mem c.pool.freelist free_blocks
  pub shared : Perm (free_blocks ++ c.held) objs

not_mem-Apart : (a : ℕ) (xs : List ℕ) → ¬ Mem a xs → Apart a xs
not_mem-Apart a [] out = tt
not_mem-Apart a (x ∷ xs) out = (
  λ e. out (subst (λ y. Mem a (y ∷ xs)) (sym e) mem-cons_self),
  not_mem-Apart a xs (λ m. out (mem-cons_of_mem x m)),
)

pub Apart-not_mem : (a : ℕ) (xs : List ℕ) → Apart a xs → Memᴰ a xs → ⊥
Apart-not_mem a [] out m = not-mem-nil ∣ m ∣₁
Apart-not_mem a (x ∷ xs) out (Memᴰ.head e) = out.0 (sym e)
Apart-not_mem a (x ∷ xs) out (Memᴰ.tail m) = Apart-not_mem a xs out.1 m

module _ {objs : List ℕ} (distinct : Nodup objs) (proper : Apart 0 objs) where
  -- no held block is free
  disjoint : {c : Client} (s : Shares objs c) (a : ℕ) → Mem a c.held → Apart a s.free_blocks
  disjoint {c} s a m = not_mem-Apart a s.free_blocks (λ m'.
      ((Nodup-append {l₁ = s.free_blocks}).0 (Perm.nodup (Perm.symm s.shared) distinct)).2 a m' m)

  -- what is not a block is not free
  outside : {c : Client} (s : Shares objs c) (a : ℕ) → Apart a objs → Apart a s.free_blocks
  outside {c} s a out = not_mem-Apart a s.free_blocks (λ m.
      ∥∥₁_elim (Perm.subset s.shared a (mem-append_left c.held m)) ⊥_prop
        (Apart-not_mem a objs out))

  held_proper : {c : Client} (s : Shares objs c) (a : ℕ) → Mem a c.held → a ≢ 0
  held_proper {c} s a m e =
      ∥∥₁_elim (Perm.subset s.shared a (mem-append_right s.free_blocks m)) ⊥_prop
        (subst (λ z. Apart z objs → Memᴰ a objs → ⊥) e (Apart-not_mem a objs) proper)

  alloc-Shares :
      {c : Client} (s : Shares objs c) (obj : ℕ) (pool' : MemPool)
      → Took c.mem c.pool s.free_blocks (obj, pool')
      → obj ≢ 0
      → Shares objs (record { pool = pool'; mem = c.mem; held = obj ∷ c.held })
  alloc-Shares s obj pool' (inl (e, z, same)) ne = absurd (ne z)
  alloc-Shares {c} s obj pool' (inr (rest, e, nz, chain)) ne = record {
    free_blocks = rest;
    chain = chain;
    shared =
        Perm.trans (perm_middle rest c.held) (subst (λ xs. Perm (xs ++ c.held) objs) e s.shared);
  }

  exhausted-Shares :
      {c : Client} (s : Shares objs c) (pool' : MemPool)
      → Took c.mem c.pool s.free_blocks (0, pool')
      → Shares objs (record { pool = pool'; mem = c.mem; held = c.held })
  exhausted-Shares {c} s pool' (inl (e, z, same)) = record {
    free_blocks = s.free_blocks;
    chain = subst (λ p. Chain c.mem p.freelist s.free_blocks) (sym same) s.chain;
    shared = s.shared;
  }
  exhausted-Shares s pool' (inr (rest, e, nz, chain)) = absurd (nz refl)

  free-Shares :
      {c : Client} (s : Shares objs c) (obj : ℕ) (before after : List ℕ)
      → c.held ≡ before ++ (obj ∷ after)
      → let (pool', mem') = mem_pool_free c.pool obj c.mem in
        Shares objs (record { pool = pool'; mem = mem'; held = before ++ after })
  free-Shares {c} s obj before after e =
      let m : Mem obj c.held =
        subst (λ h. Mem obj h) (sym e) (mem-append_right before mem-cons_self) in
      record {
        free_blocks = obj ∷ s.free_blocks;
        chain =
            free-Chain c.pool c.mem obj s.free_blocks (held_proper s obj m) (disjoint s obj m)
              s.chain;
        shared = Perm.trans (Perm.symm (perm_middle s.free_blocks (before ++ after))) (
            Perm.trans (Perm.append_left s.free_blocks (Perm.symm (perm_middle before after)))
              (subst (λ h. Perm (s.free_blocks ++ h) objs) e s.shared));
      }

  write-Shares :
      {c : Client} (s : Shares objs c) (a v : ℕ)
      → Apart a s.free_blocks
      → Shares objs (record { pool = c.pool; mem = store c.mem a v; held = c.held })
  write-Shares {c} s a v out = record {
    free_blocks = s.free_blocks;
    chain = Chain-store c.mem a v c.pool.freelist s.free_blocks out s.chain;
    shared = s.shared;
  }

  Step-Shares : {c d : Client} → Step objs c d → Shares objs c → Shares objs d
  Step-Shares (alloc c obj pool' e ne) s =
      alloc-Shares s obj pool'
        (subst (Took c.mem c.pool s.free_blocks) e (alloc-Chain c.pool c.mem s.free_blocks s.chain))
        ne
  Step-Shares (exhausted c pool' e) s =
      exhausted-Shares s pool'
        (subst (Took c.mem c.pool s.free_blocks) e (alloc-Chain c.pool c.mem s.free_blocks s.chain))
  Step-Shares (free c obj before after pool' mem' at e) s =
      subst (λ r. Shares objs (record { pool = r.0; mem = r.1; held = before ++ after })) e
        (free-Shares s obj before after at)
  Step-Shares (write c a v (inl m)) s = write-Shares s a v (disjoint s a m)
  Step-Shares (write c a v (inr out)) s = write-Shares s a v (outside s a out)

  -- A pool that shares distinct, non-null blocks with its clients does so after any sequence of
  -- allocations, frees of held blocks and writes elsewhere than in the links of free blocks: the
  -- free list and the held blocks are together a permutation of the pool's blocks, so that no block
  -- is held twice.
  pub Steps-Shares : {c d : Client} → Steps objs c d → Shares objs c → Shares objs d × Nodup d.held
  Steps-Shares (done c) s =
      (s, ((Nodup-append {l₁ = s.free_blocks}).0 (Perm.nodup (Perm.symm s.shared) distinct)).1)
  Steps-Shares (more step steps) s = Steps-Shares steps (Step-Shares step s)

  -- When an allocation fails, after any sequence of steps from a pool that shares distinct, non-
  -- null blocks with its clients, the clients hold every block of the pool.
  pub exhausted-Perm :
      {c d : Client}
      → Steps objs c d
      → Shares objs c
      → (mem_pool_alloc d.pool d.mem).0 ≡ 0
      → Perm d.held objs
  exhausted-Perm {c} {d} steps s z =
      let (s', once) = Steps-Shares steps s in
      elim (alloc-Chain d.pool d.mem s'.free_blocks s'.chain) [
        | inl (e, z', same) ↦ subst (λ xs. Perm (xs ++ d.held) objs) e s'.shared
        | inr (rest, e, nz, chain) ↦ absurd (nz z)
      ]
