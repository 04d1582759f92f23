-- ===== src/Tsfs/Read.antt =====
-- util/fs/tsfs.c: the transfer of a part of a file, block by block, and the completion of requests.
pub mod Blocks
pub mod Transfer
pub mod Requests
pub mod Mount
pub mod Files
pub mod Contents
mod Tests
use xplain_software_framewor.Base.{
  ℕ, zero, suc, ◌+◌, ◌-◌, ◌*◌, ◌/◌, ◌%◌, Bool, true, false, Option, bind, none, some, leb, ltb,
  ◌==◌, ◌&&◌, if◌then◌else◌, add32, sub32,
}
use xplain_software_framewor.Strings.{memcpy}
use xplain_software_framewor.Tsfs.{
  Status, status_ok, err_invalid_arg, err_busy, is_ok, blocksize, TsfsFile, PageCallback,
  header_done, buffer_ready, System, schedule, min_u, read_page, read_header_done,
}

-- The copy from the block buffer, and the metadata that it updates.
pub copy_part : System → System
copy_part s =
    let request = s.fs.current_read_request in
    let copy_start = request.cursor % blocksize in
    let copy_len = min_u (blocksize - copy_start) request.remaining_bytes in
    record s {
      memory = (memcpy request.buffer (s.fs.buffer_data + copy_start) copy_len s.memory).1;
      fs = record s.fs {
        current_read_request = record request {
          buffer = request.buffer + copy_len;
          cursor = add32 request.cursor copy_len;
          remaining_bytes = request.remaining_bytes - copy_len;
        };
      };
    }

pub read_buffer_ready : System → Option System
read_buffer_ready s =
    let s1 = copy_part s in
    let request = s1.fs.current_read_request in
    if ltb 0 request.remaining_bytes
    then read_page (request.cursor / blocksize) buffer_ready s1
    else some (schedule request.task (record s1 { fs = record s1.fs { status = status_ok } }))

-- The device has put the block into the buffer.
abbrev pub with_page : (ℕ → ℕ) → System → System
with_page page s = record s {
  memory = λ a.
      if leb s.fs.buffer_data a && ltb a (s.fs.buffer_data + blocksize)
      then page (a - s.fs.buffer_data)
      else s.memory a;
}

abbrev pub page_read_callback : PageCallback → System → Option System
page_read_callback header_done s = some (read_header_done s)
page_read_callback buffer_ready s = read_buffer_ready s

-- `tsfs_read_page_done`, behind the transfer of the block.
pub read_page_done : (ℕ → ℕ) → System → Option System
read_page_done page s =
    let s1 = with_page page s in
    page_read_callback s1.fs.page_read_callback
      (record s1 { fs = record s1.fs { current_breq = none } })

-- The cursor is not past the end, also where `file->cursor + length` wraps.
abbrev pub trim : TsfsFile → ℕ → ℕ
trim file length =
    if ltb file.end (add32 file.cursor length) then sub32 file.end file.cursor else length

-- The request of `tsfs_read` for a length that is not 0.
pub start_read : TsfsFile → ℕ → ℕ → ℕ → System → Option System
start_read file buffer length task s =
    let block_nr = file.cursor / blocksize in
    let s1 = record s {
      fs = record s.fs {
        status = err_busy;
        current_read_request = record {
          buffer = buffer;
          cursor = file.cursor;
          remaining_bytes = length;
          task = task;
        };
      };
    } in
    if s.fs.lba_in_buf == block_nr then read_buffer_ready s1 else read_page block_nr buffer_ready s1

abbrev pub advanced : TsfsFile → ℕ → Option System → Option (Status × TsfsFile × System)
advanced file length none = none
advanced file length (some s) =
    some (status_ok, record file { cursor = add32 file.cursor length }, s)

pub tsfs_read : TsfsFile → ℕ → ℕ → ℕ → System → Option (Status × TsfsFile × System)
tsfs_read file buffer length task s =
    if is_ok s.fs.status
    then (if trim file length == 0
        then some (err_invalid_arg, file, s)
        else advanced file (trim file length) (start_read file buffer (trim file length) task s))
    else some (err_busy, file, s)

-- A device with this volume completes at most so many requests. `none` means that an assertion
-- failed or that there was one request more.
pub run : ℕ → (ℕ → ℕ) → System → Option System
run zero volume s = elim s.fs.current_breq [ none ↦ some s | some lba ↦ none ]
run (suc fuel) volume s = elim s.fs.current_breq [
  | none ↦ some s
  | some lba ↦ bind (read_page_done (λ i. volume (lba * blocksize + i)) s) (run fuel volume)
]
