-- ===== src/Tsfs/Read/Tests.antt =====
-- A small volume with one file, "hi", of four bytes across the border of two blocks.
use xplain_software_framewor.Base.{
  ℕ, zero, suc, ◌+◌, ◌-◌, ◌*◌, ◌%◌, ◌<◌, u32_mod, ◌≡◌, ◌≢◌, refl, ap, ◌⊎◌, inr, arith, ltb, true,
  none, some, List, [], ◌∷◌, get_or, if◌then◌else◌,
}
use xplain_software_framewor.Memory.Align.{round_down32, round_up32}
use xplain_software_framewor.Memory.Physmem.{PhysmemPool, malloc, physmem_alloc_low}
use xplain_software_framewor.Strings.Compare.{text}
use xplain_software_framewor.Tsfs.{
  status_ok, err_invalid_arg, err_bad_format, err_busy, blocksize, entry_size, tsfs_id,
  buffer_ready, TsfsFile, System, parse_entry, parse_header, tsfs_init, bytes,
}
use xplain_software_framewor.Tsfs.Open.{tsfs_open}
use xplain_software_framewor.Tsfs.Open.Lookup.{Named, ByteNames, tsfs_open_lem}
use xplain_software_framewor.Tsfs.Read.{run, tsfs_read}
use xplain_software_framewor.Tsfs.Read.Blocks.{Outside, Coherent, Fetched}
use xplain_software_framewor.Tsfs.Read.Requests.{tsfs_read-Fetched, tsfs_read-past_end}
use xplain_software_framewor.Tsfs.Read.Mount.{Mounted}
use xplain_software_framewor.Tsfs.Read.Files.{tsfs_init-Mounted}
use xplain_software_framewor.Tsfs.Read.Contents.{entry_on, NamedOn, open-read}

-- The header, and the entry: offset 510, size 4, name "hi".
abbrev image : List ℕ
image =
    0x17 ∷ 0xc1 ∷ 1 ∷ 0 ∷ 0 ∷ 0 ∷ 4 ∷ 0 ∷ 0 ∷ 0 ∷ 0 ∷ 1 ∷ 0 ∷ 0 ∷ 0 ∷ 0 ∷ 0 ∷ 0 ∷ 1 ∷ 254 ∷ 0 ∷ 0
    ∷ 0 ∷ 4 ∷ 104 ∷ 105 ∷ []

abbrev volume : ℕ → ℕ
volume a = (if ltb a 510 then get_or image a 0 else a) % 256

abbrev hi : ℕ → ℕ
hi i = get_or (104 ∷ 105 ∷ []) i 0 % 256

-- The block buffer is at 4096 and holds the first block.
abbrev mounted : System
mounted = record {
  fs = record {
    status = status_ok;
    header = record { id = tsfs_id; version = 1; volume_size = 1024; nr_files = 1 };
    filetable = λ k. record {
      file_offset = 510;
      file_size = 4;
      filename = 104 ∷ 105 ∷ 0 ∷ 0 ∷ 0 ∷ 0 ∷ 0 ∷ 0 ∷ [];
    };
    bdev = 1;
    current_breq = none;
    buffer_data = 4096;
    lba_in_buf = 0;
    current_read_request = record { buffer = 0; cursor = 0; remaining_bytes = 0; task = 0 };
    page_read_callback = buffer_ready;
  };
  memory = λ a. volume (a - 4096);
  scheduled = [];
}

mounted-Coherent : Coherent volume mounted
mounted-Coherent = record {
  held = λ i lt.
      ap volume (let e : mounted.fs.buffer_data + i - 4096 ≡ 0 * blocksize + i = omega arith in e);
}

first_file : (k : ℕ) → k < 1 → mounted.fs.filetable k ≡ parse_entry volume ((k + 1) * entry_size)
unfolding parse_entry bytes
first_file zero h = refl
first_file (suc k) h = absurd (omega arith)

mounted-Mounted : Mounted volume mounted
unfolding parse_header
mounted-Mounted = record {
  coherent = mounted-Coherent;
  idle = refl;
  ready = refl;
  header = refl;
  entries = first_file;
}

hi_there : NamedOn volume hi 0
unfolding text
hi_there = refl

abbrev handle : TsfsFile
handle = record { start = 0; end = 0; cursor = 0 }

-- The file is read to 8192. It starts two bytes before the end of its block.
open-read_example :
    (file file' : TsfsFile) × (s1 s' : System) × (tsfs_open true mounted.fs hi handle
      ≡ (status_ok, file))
    × (tsfs_read file 8192 (entry_on volume 0).file_size 7 mounted ≡ some (status_ok, file', s1))
    × (run 2 volume s1 ≡ some s')
    × ((i : ℕ)
        → i < (entry_on volume 0).file_size
        → s'.memory (8192 + i) ≡ volume ((entry_on volume 0).file_offset + i))
    × ((a : ℕ)
        → Outside a 8192 (entry_on volume 0).file_size
        → Outside a 4096 blocksize
        → s'.memory a ≡ mounted.memory a)
    × (s'.scheduled ≡ 7 ∷ [])
    × Mounted volume s'
unfolding parse_entry
open-read_example =
    open-read volume (λ a. omega arith) mounted mounted-Mounted true hi handle 0 2 8192 7
      (λ i. omega arith) (omega arith) hi_there (λ j h. absurd (omega arith)) (omega arith)
      (omega arith) (inr (omega arith)) (omega arith)

abbrev middle : TsfsFile
middle = record { start = 510; end = 514; cursor = 511 }

tsfs_read_example :
    (s1 s' : System) × (tsfs_read middle 8192 100 7 mounted
      ≡ some (status_ok, record middle { cursor = 514 }, s1))
    × (run 2 volume s1 ≡ some s')
    × Fetched volume 8192 511 3 7 mounted s'
tsfs_read_example =
    tsfs_read-Fetched volume 2 middle 8192 100 7 mounted refl (omega arith) (omega arith)
      (record {
        coherent = mounted-Coherent;
        idle = refl;
        some_bytes = omega arith;
        word = omega arith;
        apart = inr (omega arith);
      })
      (omega arith)

-- One byte past the end
abbrev past : TsfsFile
past = record { start = 510; end = 514; cursor = 515 }

past_end_example :
    (s1 : System) × (tsfs_read past 8192 100 7 mounted
      ≡ some (status_ok, record past { cursor = 514 }, s1))
    × (s1.fs.current_read_request.remaining_bytes ≡ u32_mod - 1)
    × (100 < s1.fs.current_read_request.remaining_bytes)
past_end_example =
    tsfs_read-past_end past 8192 100 7 mounted refl refl (omega arith) (omega arith) (omega arith)

abbrev sram : PhysmemPool
sram = record { start = 4096; stop = 65536 }

room_for_block : malloc sram blocksize ≡ some (4096, record { start = 4608; stop = 65536 })
unfolding malloc physmem_alloc_low round_up32 round_down32
room_for_block = refl

tsfs_init_example :
    (s1 s' : System) × (tsfs_init sram 1 9 mounted
      ≡ some (status_ok, record { start = 4608; stop = 65536 }, s1))
    × (s1.fs.status ≡ err_busy)
    × (run 1 volume s1 ≡ some s')
    × (((parse_header volume 0).id ≡ tsfs_id × Mounted volume s')
        ⊎ ((parse_header volume 0).id ≢ tsfs_id × (s'.fs.status ≡ err_bad_format)))
    × (s'.scheduled ≡ 9 ∷ [])
    × ((a : ℕ) → Outside a 4096 blocksize → s'.memory a ≡ mounted.memory a)
tsfs_init_example =
    tsfs_init-Mounted volume sram (record { start = 4608; stop = 65536 }) 4096 1 9 mounted
      room_for_block (omega arith) refl

hi_names : ByteNames mounted.fs
hi_names k zero h = omega arith
hi_names k (suc zero) h = omega arith
hi_names k (suc (suc zero)) h = omega arith
hi_names k (suc (suc (suc zero))) h = omega arith
hi_names k (suc (suc (suc (suc zero)))) h = omega arith
hi_names k (suc (suc (suc (suc (suc zero))))) h = omega arith
hi_names k (suc (suc (suc (suc (suc (suc zero)))))) h = omega arith
hi_names k (suc (suc (suc (suc (suc (suc (suc zero))))))) h = omega arith
hi_names k (suc (suc (suc (suc (suc (suc (suc (suc i)))))))) h = omega arith

tsfs_open_example :
    ((k : ℕ) × (k < 1)
      × Named mounted.fs hi k
      × ((j : ℕ) → j < k → ¬ Named mounted.fs hi j)
      × (tsfs_open true mounted.fs hi handle
          ≡ (status_ok, record { start = 510; cursor = 510; end = 514 })))
    ⊎ (((k : ℕ) → k < 1 → ¬ Named mounted.fs hi k)
        × (tsfs_open true mounted.fs hi handle ≡ (err_invalid_arg, handle)))
tsfs_open_example =
    tsfs_open_lem true mounted.fs hi hi_names (λ i. omega arith) (omega arith) handle
