-- ===== src/Memory/Mempool/Tests.antt =====
-- A pool of two blocks, and a run of its clients.
use mathlib.Core.List.{Nodup, Nodup-cons, Pairwise, not-mem-nil, mem-cons_self, mem-cons_of_mem}
use mathlib.Core.Logic.{∥∥₁_elim}
use mathlib.Core.HLevel.{⊥_prop}
use mathlib.Core.List.Perm
use xplain_software_framewor.Base.{
  refl, ◌+◌, ◌*◌, ℕ, ◌-◌, ◌/◌, ◌%◌, ◌^◌, ◌≤◌, ◌<◌, ◌≡◌, inl, List, [], ◌∷◌, arith,
}
use xplain_software_framewor.Memory.Align.{round_up32, round_down32}
use xplain_software_framewor.Memory.Mempool.{
  WordMem, store, MemPool, mem_pool_init, mem_pool_alloc, mem_pool_free,
}
use xplain_software_framewor.Memory.Mempool.Chain.{Chain, Apart}
use xplain_software_framewor.Memory.Physmem.{PhysmemPool}
use xplain_software_framewor.Memory.Mempool.Init.{Initialised, mem_pool_init-Chain}
use xplain_software_framewor.Memory.Mempool.Client.{
  Client, alloc, free, write, Steps, done, more, Shares, Apart-not_mem, Steps-Shares,
}

abbrev zeros : WordMem
zeros a = 0

mem_pool_init_example :
    Initialised
      (round_up32 5 2)
      (round_up32 6 2)
      ((5 + 30 - round_up32 5 2) / round_up32 6 2)
      zeros
      (mem_pool_init 5 30 6 2 zeros)
    × (round_up32 5 2 % 2 ^ 2 ≡ 0)
    × (5 ≤ round_up32 5 2)
    × (round_up32 6 2 % 2 ^ 2 ≡ 0)
    × (6 ≤ round_up32 6 2)
    × (round_up32 5 2 + round_up32 6 2 * ((5 + 30 - round_up32 5 2) / round_up32 6 2) ≤ 5 + 30)
    × (5 + 30
        < round_up32 5 2
          + round_up32 6 2 * ((5 + 30 - round_up32 5 2) / round_up32 6 2)
          + round_up32 6 2)
unfolding round_up32 round_down32
mem_pool_init_example =
    mem_pool_init-Chain 5 30 6 2 zeros (omega arith) (omega arith) (omega arith) (omega arith)
      (omega arith) (omega arith) (omega arith)

-- blocks at 8 and 16
abbrev linked : WordMem
linked = store zeros 8 16

abbrev two : MemPool
two = record { freelist = 8 }

abbrev blocks : List ℕ
blocks = 8 ∷ 16 ∷ []

two-Chain : Chain linked 8 blocks
two-Chain = (refl, (λ e. omega arith), (refl, (λ e. omega arith), refl))

abbrev fresh_client : Client
fresh_client = record { pool = two; mem = linked; held = [] }

abbrev full : Client
full = record {
  pool = record { freelist = 0 };
  mem = store (store linked 8 5) 8 0;
  held = 8 ∷ 16 ∷ [];
}

fresh_client-Shares : Shares blocks fresh_client
fresh_client-Shares = record { free_blocks = blocks; chain = two-Chain; shared = Perm.refl blocks }

blocks_distinct : Nodup blocks
blocks_distinct = Nodup-cons.1 (
  (λ m. ∥∥₁_elim m ⊥_prop (Apart-not_mem 8 (16 ∷ []) ((λ e. omega arith), tt))),
  Nodup-cons.1 ((λ m. not-mem-nil m), Pairwise.nil),
)

blocks_proper : Apart 0 blocks
blocks_proper = ((λ e. omega arith), ((λ e. omega arith), tt))

-- Both blocks are allocated; one is written, freed and allocated again.
client_run : Steps blocks fresh_client full
unfolding mem_pool_alloc mem_pool_free
client_run = more (alloc fresh_client 8 (record { freelist = 16 }) refl (λ e. omega arith)) (
    more (alloc _ 16 (record { freelist = 0 }) refl (λ e. omega arith)) (
      more (write _ 8 5 (inl (mem-cons_of_mem 16 mem-cons_self))) (
        more
          (free _ 8 (16 ∷ []) [] (record { freelist = 8 }) (store (store linked 8 5) 8 0) refl refl)
          (more (alloc _ 8 (record { freelist = 0 }) refl (λ e. omega arith)) (done full)))))

Steps_example : Shares blocks full × Nodup full.held
Steps_example = Steps-Shares blocks_distinct blocks_proper client_run fresh_client-Shares

exhausted : (mem_pool_alloc full.pool full.mem).0 ≡ 0
unfolding mem_pool_alloc
exhausted = refl

abbrev region : PhysmemPool
region = record { start = 5; stop = 100 }

objects_size : round_up32 6 2 ≡ 8
unfolding round_up32 round_down32
objects_size = refl
