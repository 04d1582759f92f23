-- ===== src/Tsfs.antt =====
-- util/fs/tsfs.c and include/fs/tsfs.h without CONFIG_FS_TSFS_USE_HUGEMEM: a read-only file system
-- on a block device. The device is the data that it transfers for each request; a request is
-- completed by `tsfs_read_page_done`. `System` is the file system with the memory and the calls of
-- `workqueue_add_task` so far. This file mounts a volume; Open has the files and Read the transfer.
pub mod Open
pub mod Read
use xplain_software_framewor.Base.{
  ℕ, zero, suc, ◌+◌, ◌-◌, ◌*◌, ◌/◌, ◌%◌, Bool, true, false, Option, none, some, List, [], ◌∷◌, ◌++◌,
  get_or, leb, ltb, ◌==◌, ◌&&◌, if◌then◌else◌, add32, sub32,
}
use xplain_software_framewor.Strings.{ByteMem}
use xplain_software_framewor.Memory.Physmem.{PhysmemPool, malloc}

-- `enum status_code`, as far as this code uses it
pub data Status : Type 0 where
  status_ok : Status
  err_no_memory : Status
  err_invalid_arg : Status
  err_busy : Status
  err_bad_format : Status

abbrev pub is_ok : Status → Bool
is_ok status_ok = true
is_ok _ = false

abbrev pub tsfs_id : ℕ
tsfs_id = 0x17c1

abbrev pub filename_len : ℕ
filename_len = 8

abbrev pub max_files : ℕ
max_files = 31

abbrev pub blocksize : ℕ
blocksize = 512

-- `sizeof(struct tsfs_filetable_entry)`
abbrev pub entry_size : ℕ
entry_size = 16

abbrev pub entries_per_block : ℕ
entries_per_block = blocksize / entry_size

pub record TsfsFile : Type 0 where
  pub start : ℕ
  pub end : ℕ
  pub cursor : ℕ

pub record TsfsHeader : Type 0 where
  pub id : ℕ
  pub version : ℕ
  pub volume_size : ℕ
  pub nr_files : ℕ

pub record ReadRequest : Type 0 where
  pub buffer : ℕ
  pub cursor : ℕ
  pub remaining_bytes : ℕ
  pub task : ℕ

pub record FiletableEntry : Type 0 where
  pub file_offset : ℕ
  pub file_size : ℕ
  pub filename : List ℕ

-- The functions that `page_read_callback` can point to.
pub data PageCallback : Type 0 where
  header_done : PageCallback
  buffer_ready : PageCallback

-- `current_breq` is the block address of the request, if there is one.
pub record Tsfs : Type 0 where
  pub status : Status
  pub header : TsfsHeader
  pub filetable : ℕ → FiletableEntry
  pub bdev : ℕ
  pub current_breq : Option ℕ
  pub buffer_data : ℕ
  pub lba_in_buf : ℕ
  pub current_read_request : ReadRequest
  pub page_read_callback : PageCallback

pub record System : Type 0 where
  pub fs : Tsfs
  pub memory : ByteMem
  pub scheduled : List ℕ

-- `workqueue_add_task(&main_workqueue, task)`
abbrev pub schedule : ℕ → System → System
schedule task s = record s { scheduled = s.scheduled ++ (task ∷ []) }

-- `be16_to_cpu` and `be32_to_cpu` of what is read at an address.
abbrev pub be16 : ByteMem → ℕ → ℕ
be16 mem p = mem p * 256 + mem (p + 1)

abbrev pub be32 : ByteMem → ℕ → ℕ
be32 mem p = be16 mem p * 65536 + be16 mem (p + 2)

-- The bytes from an address on.
pub bytes : ℕ → ByteMem → ℕ → List ℕ
bytes zero mem p = []
bytes (suc n) mem p = mem p ∷ bytes n mem (p + 1)

-- A failed assertion is `none`.
pub read_page : ℕ → PageCallback → System → Option System
read_page lba callback s = elim s.fs.current_breq [
  | some busy ↦ none
  | none ↦ some (record s {
    fs = record s.fs { page_read_callback = callback; current_breq = some lba; lba_in_buf = lba };
  })
]

-- The entry in the buffer, with its numbers in the order of the CPU.
pub parse_entry : ByteMem → ℕ → FiletableEntry
parse_entry mem p = record {
  file_offset = be32 mem p;
  file_size = be32 mem (p + 4);
  filename = bytes filename_len mem (p + 8);
}

abbrev pub set_entry : (ℕ → FiletableEntry) → ℕ → FiletableEntry → ℕ → FiletableEntry
set_entry table k entry j = if j == k then entry else table j

-- `for (i = 0; i < nr_entries; i++)`, with the rounds that are left and `i`.
pub parse_entries : ℕ → ℕ → ℕ → ℕ → ℕ → ByteMem → (ℕ → FiletableEntry) → ℕ → FiletableEntry
parse_entries zero i offset_filetable offset_block buffer mem table = table
parse_entries (suc rounds) i offset_filetable offset_block buffer mem table =
    parse_entries rounds (i + 1) offset_filetable offset_block buffer mem (
      set_entry table (offset_filetable + i)
        (parse_entry mem (buffer + (offset_block + i) * entry_size)))

-- `if (task) workqueue_add_task(&main_workqueue, task);`
abbrev pub notify : System → System
notify s =
    if s.fs.current_read_request.task == 0 then s else schedule s.fs.current_read_request.task s

pub parse_filetable_from_buffer : ℕ → ℕ → ℕ → System → System
parse_filetable_from_buffer offset_filetable offset_block nr_entries s = notify (record s {
  fs = record s.fs {
    filetable =
        parse_entries nr_entries 0 offset_filetable offset_block s.fs.buffer_data s.memory
          s.fs.filetable;
    status = status_ok;
  };
})

-- `memcpy(&tsfs->header, tsfs->buffer_data, sizeof(tsfs->header))`, in the order of the CPU, with
-- the number of files limited.
pub parse_header : ByteMem → ℕ → TsfsHeader
parse_header mem p = record {
  id = be16 mem p;
  version = mem (p + 2);
  volume_size = be32 mem (p + 4);
  nr_files = if ltb max_files (be32 mem (p + 8)) then max_files else be32 mem (p + 8);
}

abbrev pub with_header : System → System
with_header s = record s { fs = record s.fs { header = parse_header s.memory s.fs.buffer_data } }

abbrev pub min_u : ℕ → ℕ → ℕ
min_u a b = if ltb a b then a else b

pub read_header_done : System → System
read_header_done s =
    let s1 = with_header s in
    if s1.fs.header.id == tsfs_id
    then parse_filetable_from_buffer 0 1 (min_u s1.fs.header.nr_files (entries_per_block - 1)) s1
    else notify (record s1 { fs = record s1.fs { status = err_bad_format } })

-- `tsfs_init` once the buffer is allocated.
abbrev pub begin_init : ℕ → ℕ → ℕ → System → Option System
begin_init buffer_data bdev init_done_task s = read_page 0 header_done (record s {
  fs = record s.fs {
    buffer_data = buffer_data;
    bdev = bdev;
    status = err_busy;
    current_read_request = record s.fs.current_read_request { task = init_done_task };
  };
})

pub tsfs_init : PhysmemPool → ℕ → ℕ → System → Option (Status × PhysmemPool × System)
tsfs_init sram bdev init_done_task s = elim (malloc sram blocksize) [
  | none ↦ none
  | some (buffer_data, sram') ↦
      if buffer_data == 0
      then some (err_no_memory, sram', record s { fs = record s.fs { buffer_data = 0 } })
      else (elim (begin_init buffer_data bdev init_done_task s) [
        | none ↦ none
        | some s' ↦ some (status_ok, sram', s')
      ])
]
