-- ===== src/Tsfs/Open.antt =====
-- util/fs/tsfs.c: the lookup of a name in the file table, the file handles, and what the header and
-- the table say.
pub mod Lookup
use xplain_software_framewor.Base.{
  ℕ, zero, suc, ◌+◌, ◌-◌, ◌%◌, Bool, true, false, List, [], ◌∷◌, get_or, leb, ◌==◌, if◌then◌else◌,
  add32, sub32,
}
use xplain_software_framewor.Strings.{ByteMem, poke, strncmp}
use xplain_software_framewor.Base.Int.{ℤ, pos, negsuc}
use xplain_software_framewor.Tsfs.{
  Status, status_ok, err_invalid_arg, is_ok, filename_len, TsfsFile, FiletableEntry, Tsfs, System,
}

pub get_filetable_entry : Tsfs → ℕ → FiletableEntry
get_filetable_entry fs file_index = fs.filetable (file_index % 256)

-- `strncmp(...) == 0`
abbrev pub is_zero : ℤ → Bool
is_zero (pos n) = n == 0
is_zero (negsuc n) = false

-- Whether `name_buffer` and `filename` agree.
pub names_match : Bool → List ℕ → (ℕ → ℕ) → Bool
names_match is_signed name filename =
    is_zero (strncmp is_signed (λ i. get_or name i 0) filename filename_len)

-- `while (file_index < tsfs->header.nr_files)`, with the rounds that are left.
pub locate_from : Bool → Tsfs → (ℕ → ℕ) → ℕ → ℕ → ℕ
locate_from is_signed fs filename zero file_index = file_index
locate_from is_signed fs filename (suc rounds) file_index =
    let rest = locate_from is_signed fs filename rounds (file_index + 1) in
    if names_match is_signed (get_filetable_entry fs file_index).filename filename
    then file_index
    else rest

pub locate_file_in_table : Bool → Tsfs → (ℕ → ℕ) → ℕ
locate_file_in_table is_signed fs filename = locate_from is_signed fs filename fs.header.nr_files 0

pub tsfs_open : Bool → Tsfs → (ℕ → ℕ) → TsfsFile → Status × TsfsFile
tsfs_open is_signed fs filename filehandle =
    let file_index = locate_file_in_table is_signed fs filename in
    let entry = get_filetable_entry fs file_index in
    if leb fs.header.nr_files file_index then (err_invalid_arg, filehandle) else (
      status_ok,
      record {
        start = entry.file_offset;
        cursor = entry.file_offset;
        end = add32 entry.file_offset entry.file_size;
      },
    )

pub data SeekOrigin : Type 0 where
  seek_set : SeekOrigin
  seek_cur : SeekOrigin
  seek_end : SeekOrigin

-- A `uint32_t` plus an `int32_t`.
abbrev pub add_offset : ℕ → ℤ → ℕ
add_offset x (pos n) = add32 x n
add_offset x (negsuc n) = sub32 x (n + 1)

pub tsfs_seek : TsfsFile → ℤ → SeekOrigin → Status × TsfsFile
tsfs_seek file offset seek_set = (status_ok, record file { cursor = add_offset file.start offset })
tsfs_seek file offset seek_cur = (status_ok, record file { cursor = add_offset file.cursor offset })
tsfs_seek file offset seek_end = (status_ok, record file { cursor = add_offset file.end offset })

-- `memcpy(buffer, entry.filename, TSFS_FILENAME_LEN)`
pub poke_list : ℕ → List ℕ → ByteMem → ByteMem
poke_list p [] mem = mem
poke_list p (c ∷ cs) mem = poke_list (p + 1) cs (poke mem p c)

pub tsfs_get_filename : ℕ → ℕ → System → System
tsfs_get_filename file_index buffer s = record s {
  memory = poke_list buffer (get_filetable_entry s.fs file_index).filename s.memory;
}

pub tsfs_get_file_size : TsfsFile → ℕ
tsfs_get_file_size file = sub32 file.end file.start

pub tsfs_nr_files : Tsfs → ℕ
tsfs_nr_files fs = fs.header.nr_files

pub tsfs_volume_size : Tsfs → ℕ
tsfs_volume_size fs = fs.header.volume_size

pub tsfs_is_ready : Tsfs → Bool
tsfs_is_ready fs = if fs.bdev == 0 then false else is_ok fs.status
