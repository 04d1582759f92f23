-- ===== src/Tsfs/Read/Blocks.antt =====
-- A block of the volume in the buffer, and the part of a request that it serves.
use xplain_software_framewor.Base.{
  ℕ, ◌+◌, ◌-◌, ◌*◌, ◌/◌, ◌%◌, ◌≤◌, ◌<◌, u32_mod, ◌≡◌, refl, ap, ◌⊎◌, arith, ltb, true, false,
  lt→ltb, le→ltb, le→leb, none, [], ◌∷◌, ◌++◌,
}
use xplain_software_framewor.Tsfs.{status_ok, blocksize, System, schedule, min_u}
use xplain_software_framewor.Tsfs.Read.{copy_part, with_page}

-- The end of one range does not pass the start of the other.
abbrev pub Apart : ℕ → ℕ → ℕ → ℕ → Type 0
Apart a n b m = (a + n ≤ b) ⊎ (b + m ≤ a)

abbrev pub Outside : ℕ → ℕ → ℕ → Type 0
Outside a b m = (a < b) ⊎ (b + m ≤ a)

pub page_inside :
    (page : ℕ → ℕ) (s : System) (i : ℕ)
    → i < blocksize
    → (with_page page s).memory (s.fs.buffer_data + i) ≡ page i
page_inside page s i lt = rw (le→leb s.fs.buffer_data (s.fs.buffer_data + i) (omega arith)) (
    rw (lt→ltb (s.fs.buffer_data + i) (s.fs.buffer_data + blocksize) (omega arith))
      (ap page (omega arith)))

pub page_elsewhere :
    (page : ℕ → ℕ) (s : System) (a : ℕ)
    → Outside a s.fs.buffer_data blocksize
    → (with_page page s).memory a ≡ s.memory a
page_elsewhere page s a out = ground arith

-- The bytes that the block in the buffer can give to a request.
abbrev pub part : System → ℕ
part s = blocksize - s.fs.current_read_request.cursor % blocksize

-- The state in which the request is done.
abbrev pub done : System → System
done s =
    let s1 = copy_part s in
    schedule s1.fs.current_read_request.task
      (record s1 { fs = record s1.fs { status = status_ok } })

abbrev pub left : System → ℕ
left s = (copy_part s).fs.current_read_request.remaining_bytes

pub copy_part_idle : (s : System) → (copy_part s).fs.current_breq ≡ s.fs.current_breq
unfolding copy_part
copy_part_idle s = refl

pub left_more :
    (s : System) → part s < s.fs.current_read_request.remaining_bytes → ltb 0 (left s) ≡ true
unfolding copy_part
left_more s more = rw (lt→ltb _ _ more) (lt→ltb _ _ (omega arith))

pub left_none :
    (s : System) → s.fs.current_read_request.remaining_bytes ≤ part s → ltb 0 (left s) ≡ false
unfolding copy_part
left_none s less = rw (le→ltb _ _ less) (le→ltb _ _ (omega arith))

-- The bytes that the block in the buffer gives to the request.
abbrev pub given : System → ℕ
given s = min_u (part s) s.fs.current_read_request.remaining_bytes

pub given_le :
    (s : System) → (given s ≤ part s) × (given s ≤ s.fs.current_read_request.remaining_bytes)
given_le s = ground arith

module _ (volume : ℕ → ℕ) where
  -- The block buffer holds the block of the volume that it is said to hold.
  pub record Coherent (s : System) : Type 0 where
    pub held :
        (i : ℕ)
        → i < blocksize
        → s.memory (s.fs.buffer_data + i) ≡ volume (s.fs.lba_in_buf * blocksize + i)

  -- A read request that can go on from the block in the buffer.
  pub record Ready (s : System) : Type 0 where
    pub coherent : Coherent s
    pub idle : s.fs.current_breq ≡ none
    pub lba : s.fs.lba_in_buf ≡ s.fs.current_read_request.cursor / blocksize
    pub some_left : 0 < s.fs.current_read_request.remaining_bytes
    pub word :
        s.fs.current_read_request.cursor + s.fs.current_read_request.remaining_bytes < u32_mod
    pub apart :
        Apart s.fs.current_read_request.buffer s.fs.current_read_request.remaining_bytes
          s.fs.buffer_data blocksize

  -- From `s` to `s'`, `n` bytes from `cursor` on have been copied from the volume to `buffer`, the
  -- task has been scheduled, and nothing else has changed but the block buffer.
  pub record Fetched (buffer cursor n task : ℕ) (s s' : System) : Type 0 where
    pub filled : (i : ℕ) → i < n → s'.memory (buffer + i) ≡ volume (cursor + i)
    pub kept :
        (a : ℕ)
        → Outside a buffer n
        → Outside a s.fs.buffer_data blocksize
        → s'.memory a ≡ s.memory a
    pub coherent : Coherent s'
    pub idle : s'.fs.current_breq ≡ none
    pub ready : s'.fs.status ≡ status_ok
    pub scheduled : s'.scheduled ≡ s.scheduled ++ (task ∷ [])
    pub filetable : s'.fs.filetable ≡ s.fs.filetable
    pub header : s'.fs.header ≡ s.fs.header
    pub buffer_data : s'.fs.buffer_data ≡ s.fs.buffer_data
    pub bdev : s'.fs.bdev ≡ s.fs.bdev

  -- The request of `s` has been served.
  abbrev pub Served : System → System → Type 0
  Served s s' =
      let request = s.fs.current_read_request in
      Fetched request.buffer request.cursor request.remaining_bytes request.task s s'
