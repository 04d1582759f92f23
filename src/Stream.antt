-- ===== src/Stream.antt =====
-- include/stream.h and util/stream/stream_core.c: character streams over a ring of bytes.
-- The backend behind `ops` and the consumer that runs from an interrupt are parameters.
pub mod Holds
pub mod Buffer
pub mod Write
pub mod Printf
pub mod Deliver
pub mod StringStream
mod Tests
use xplain_software_framewor.Base.{
  ℕ, zero, suc, ◌≡◌, Bool, true, false, not, Option, none, some, List, [], ◌∷◌, min, ltb, ◌==◌,
  if◌then◌else◌, length, get_or, set, take, drop, add32,
}
use xplain_software_framewor.Ring
use xplain_software_framewor.Ring.{RingHead}

-- `struct stream`, less the constant `ops`.
pub record Stream : Type 0 where
  pub ring : RingHead
  pub ring_mask : ℕ
  pub bytes : List ℕ

pub buf_size : Stream → ℕ
buf_size s = add32 s.ring_mask 1

pub buf_has_data : Stream → Bool
buf_has_data s = not (Ring.is_empty s.ring)

pub buf_is_full : Stream → Bool
buf_is_full s = Ring.is_full s.ring (buf_size s)

pub buf_unused : Stream → ℕ
buf_unused s = Ring.entries_unused s.ring (buf_size s)

pub buf_used : Stream → ℕ
buf_used s = Ring.entries_used s.ring

pub buf_unused_before_end : Stream → ℕ
buf_unused_before_end s = Ring.entries_unused_before_end s.ring (buf_size s)

pub buf_used_before_end : Stream → ℕ
buf_used_before_end s = Ring.entries_used_before_end s.ring (buf_size s)

pub buf_head : Stream → ℕ
buf_head s = Ring.get_head s.ring (buf_size s)

pub buf_tail : Stream → ℕ
buf_tail s = Ring.get_tail s.ring (buf_size s)

-- `none` is a failed assertion.
pub buf_insert_char : Stream → ℕ → Option Stream
buf_insert_char s c =
    if buf_is_full s
    then none
    else some (record s { bytes = set s.bytes (buf_head s) c; ring = Ring.insert_entries s.ring 1 })

pub buf_extract_char : Stream → Option (ℕ × Stream)
buf_extract_char s =
    if buf_has_data s
    then some (get_or s.bytes (buf_tail s) 0, record s { ring = Ring.extract_entries s.ring 1 })
    else none

-- `memcpy(&bytes[i], xs, length xs)`
pub copy_to : List ℕ → ℕ → List ℕ → List ℕ
copy_to bytes i [] = bytes
copy_to bytes i (x ∷ xs) = copy_to (set bytes i x) (suc i) xs

-- The part of `stream_priv_write` that runs with interrupts disabled: as much of the characters
-- as fits before the end of the buffer, and what is left of them.
pub write_part : Stream → List ℕ → Stream × List ℕ
write_part s cs =
    let partial = min (length cs) (buf_unused_before_end s) in
    (
      record s {
        bytes = copy_to s.bytes (buf_head s) (take partial cs);
        ring = Ring.insert_entries s.ring partial;
      },
      drop partial cs,
    )

-- `struct stream_ops`, and what an interrupt handler does to the stream while interrupts are
-- enabled. `W` is the state of the backend.
pub record Backend (W : Type 0) : Type 0 where
  pub commit : Stream → W → Stream × W
  pub make_room : Stream → ℕ → W → Bool × Stream × W
  pub interrupt : Stream → W → Stream × W

module _ {W : Type 0} (ops : Backend W) where
  -- the test at the top of the loop: is there room, or can it be made?
  pub ensure_room : Stream → ℕ → W → Bool × Stream × W
  ensure_room s len w = if ltb (buf_unused s) len then ops.make_room s len w else (true, s, w)

  -- `stream_priv_write`; `none` means that the fuel ran out.
  pub write_loop : ℕ → List ℕ → Stream → W → Option (Stream × W)
  write_loop zero cs s w = none
  write_loop (suc fuel) [] s w = some (s, w)
  write_loop (suc fuel) (c ∷ cs) s w =
      let (room, s1, w1) = ensure_room s (length (c ∷ cs)) w in
      let (s2, w2) = ops.interrupt s1 w1 in
      let (s3, rest) = write_part s2 (c ∷ cs) in
      elim room [ true ↦ write_loop fuel rest s3 w2 | false ↦ some (s1, w1) ]

  pub priv_write : List ℕ → Stream → W → Option (Stream × W)
  priv_write cs s w = write_loop (suc (length cs)) cs s w

  abbrev then_write : Option (Stream × W) → List ℕ → Option (Stream × W)
  then_write none cs = none
  then_write (some (s, w)) cs = priv_write cs s w

  -- `stream_priv_putchar`, less its result, which is `c`: a newline is preceded by a carriage return.
  pub priv_putchar : ℕ → Stream → W → Option (Stream × W)
  priv_putchar c s w =
      if c == 10 then then_write (priv_write (13 ∷ []) s w) (c ∷ []) else priv_write (c ∷ []) s w

  abbrev then_commit : Option (Stream × W) → Option (Stream × W)
  then_commit none = none
  then_commit (some (s, w)) = some (ops.commit s w)

  -- `stream_putstr`, less its result, which is the length of the string
  pub putstr : List ℕ → Stream → W → Option (Stream × W)
  putstr str s w = then_commit (priv_write str s w)

  -- `stream_putchar`, less its result, which is `c`
  pub putchar : ℕ → Stream → W → Option (Stream × W)
  putchar c s w = then_commit (priv_putchar c s w)
