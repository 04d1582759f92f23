-- ===== src/Ring.antt =====
-- include/ring.h: the generic ring buffer. `head` and `tail` are free-running 32-bit counters,
-- and an index is taken by the mask `ring_size - 1`. The size checks are compiled only under
-- CONFIG_RING_DEBUG, and `barrier()` has no effect on values.
pub mod Counts
pub mod Refine
mod Tests
use xplain_software_framewor.Base.{
  ℕ, ◌≡◌, Bool, bit_and, bit_xor, ◌==◌, if◌then◌else◌, add32, sub32,
}

-- `struct ring_head`
pub record RingHead : Type 0 where
  pub head : ℕ
  pub tail : ℕ

pub get_head : RingHead → ℕ → ℕ
get_head ring ring_size = bit_and ring.head (sub32 ring_size 1)

pub get_tail : RingHead → ℕ → ℕ
get_tail ring ring_size = bit_and ring.tail (sub32 ring_size 1)

pub entries_used : RingHead → ℕ
entries_used ring = sub32 ring.head ring.tail

pub entries_used_before_end : RingHead → ℕ → ℕ
entries_used_before_end ring ring_size =
    if bit_and (bit_xor ring.head ring.tail) ring_size == 0
    then sub32 ring.head ring.tail
    else sub32 ring_size (bit_and ring.tail (sub32 ring_size 1))

pub entries_unused : RingHead → ℕ → ℕ
entries_unused ring ring_size = sub32 ring_size (entries_used ring)

pub entries_unused_before_end : RingHead → ℕ → ℕ
entries_unused_before_end ring ring_size =
    if bit_and (bit_xor ring.head ring.tail) ring_size == 0
    then sub32 ring_size (bit_and ring.head (sub32 ring_size 1))
    else sub32 (add32 ring_size ring.tail) ring.head

pub is_empty : RingHead → Bool
is_empty ring = ring.head == ring.tail

pub is_full : RingHead → ℕ → Bool
is_full ring ring_size = entries_used ring == ring_size

pub insert_entries : RingHead → ℕ → RingHead
insert_entries ring nr_entries = record ring { head = add32 ring.head nr_entries }

pub extract_entries : RingHead → ℕ → RingHead
extract_entries ring nr_entries = record ring { tail = add32 ring.tail nr_entries }

pub reset : RingHead → RingHead
reset ring = record { head = 0; tail = 0 }
