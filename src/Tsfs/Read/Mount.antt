-- ===== src/Tsfs/Read/Mount.antt =====
-- `tsfs_init` and the completion of its request: the header and the file table of the volume.
use xplain_software_framewor.Base.{
  ℕ, zero, suc, ◌+◌, ◌*◌, ◌≤◌, ◌<◌, ◌≡◌, ◌≢◌, refl, ap, ap₂, ◌∙◌, inl, inr, arith, ltb, leb, ◌==◌,
  ◌&&◌, Bool-cases, lt→ltb, le→leb, ne→==, eq→==, none, List, [], ◌∷◌, ◌++◌, if◌then◌else◌,
}
use xplain_software_framewor.Strings.{ByteMem}
use xplain_software_framewor.Tsfs.{
  status_ok, err_bad_format, err_busy, header_done, schedule, min_u, blocksize, max_files,
  entry_size, filename_len, tsfs_id, FiletableEntry, System, bytes, be16, be32, parse_entry,
  parse_entries, parse_header, parse_filetable_from_buffer, set_entry, read_header_done, notify,
}
use xplain_software_framewor.Tsfs.Read.{with_page}
use xplain_software_framewor.Tsfs.Read.Blocks.{Coherent, page_inside}

-- Two memories agree on `n` bytes, from two addresses on.
abbrev pub Same : ByteMem → ℕ → ByteMem → ℕ → ℕ → Type 0
Same mem p mem' p' n = (i : ℕ) → i < n → mem (p + i) ≡ mem' (p' + i)

bytes-Same :
    (n : ℕ) (mem : ByteMem) (p : ℕ) (mem' : ByteMem) (p' : ℕ)
    → Same mem p mem' p' n
    → bytes n mem p ≡ bytes n mem' p'
unfolding bytes
bytes-Same zero mem p mem' p' h = refl
bytes-Same (suc n) mem p mem' p' h =
    ap₂ (λ c cs. c ∷ cs)
      (ap mem (let e : p ≡ p + 0 = omega arith in e)
        ∙ h 0 (omega arith)
        ∙ ap mem' (let e : p' + 0 ≡ p' = omega arith in e))
      (bytes-Same n mem (p + 1) mem' (p' + 1) (λ i lt.
        ap mem (let e : p + 1 + i ≡ p + suc i = omega arith in e)
        ∙ h (suc i) (omega arith)
        ∙ ap mem' (let e : p' + suc i ≡ p' + 1 + i = omega arith in e)))

be32-Same :
    (mem : ByteMem) (p : ℕ) (mem' : ByteMem) (p' : ℕ)
    → Same mem p mem' p' 4
    → be32 mem p ≡ be32 mem' p'
be32-Same mem p mem' p' h =
    ground (arith, h 0 (omega arith), h 1 (omega arith), h 2 (omega arith), h 3 (omega arith))

-- The entry that the rounds from `i` on have put at `k`.
parse_entries_at :
    (rounds i ob buffer : ℕ) (mem : ByteMem) (table : ℕ → FiletableEntry) (k : ℕ)
    → parse_entries rounds i 0 ob buffer mem table k ≡ (
        if leb i k && ltb k (i + rounds)
        then parse_entry mem (buffer + (ob + k) * entry_size)
        else table k)
unfolding parse_entries
parse_entries_at zero i ob buffer mem table k = ground arith
parse_entries_at (suc rounds) i ob buffer mem table k = ground (
  arith,
  parse_entries_at rounds (i + 1) ob buffer mem
      (set_entry table (0 + i) (parse_entry mem (buffer + (ob + i) * entry_size))) k,
)

parse_entry-Same :
    (mem : ByteMem) (p : ℕ) (mem' : ByteMem) (p' : ℕ)
    → Same mem p mem' p' entry_size
    → parse_entry mem p ≡ parse_entry mem' p'
unfolding parse_entry
parse_entry-Same mem p mem' p' h = rw (offset, size, name) refl
  where
    later : (k n : ℕ) → k + n ≤ entry_size → Same mem (p + k) mem' (p' + k) n
    later k n le i lt =
        ap mem (let e : p + k + i ≡ p + (k + i) = omega arith in e)
        ∙ h (k + i) (omega arith)
        ∙ ap mem' (let e : p' + (k + i) ≡ p' + k + i = omega arith in e)

    offset : be32 mem p ≡ be32 mem' p'
    offset = be32-Same mem p mem' p' (λ i lt. h i (omega arith))

    size : be32 mem (p + 4) ≡ be32 mem' (p' + 4)
    size = be32-Same mem (p + 4) mem' (p' + 4) (later 4 4 (omega arith))

    name : bytes filename_len mem (p + 8) ≡ bytes filename_len mem' (p' + 8)
    name = bytes-Same filename_len mem (p + 8) mem' (p' + 8) (later 8 8 (omega arith))

parse_header-Same :
    (mem : ByteMem) (p : ℕ) (mem' : ByteMem)
    → Same mem p mem' 0 entry_size
    → parse_header mem p ≡ parse_header mem' 0
unfolding parse_header
parse_header-Same mem p mem' h = rw (id, version, size, files) refl
  where
    later : (k n : ℕ) → k + n ≤ entry_size → Same mem (p + k) mem' k n
    later k n le i lt =
        ap mem (let e : p + k + i ≡ p + (k + i) = omega arith in e)
        ∙ h (k + i) (omega arith)
        ∙ ap mem' (let e : 0 + (k + i) ≡ k + i = omega arith in e)

    id : be16 mem p ≡ be16 mem' 0
    id = ground (arith, h 0 (omega arith), h 1 (omega arith))

    version : mem (p + 2) ≡ mem' (0 + 2)
    version = h 2 (omega arith)

    size : be32 mem (p + 4) ≡ be32 mem' (0 + 4)
    size = be32-Same mem (p + 4) mem' 4 (later 4 4 (omega arith))

    files : be32 mem (p + 8) ≡ be32 mem' (0 + 8)
    files = be32-Same mem (p + 8) mem' 8 (later 8 4 (omega arith))

pub notify_elim {ℓ} :
    (P : System → Type ℓ) (s : System) → P s → ((t : ℕ) → P (schedule t s)) → P (notify s)
notify_elim P s quiet told = elim (Bool-cases (s.fs.current_read_request.task == 0)) [
  | inl e ↦ rw e quiet
  | inr e ↦ rw e (told s.fs.current_read_request.task)
]

module _ (volume : ℕ → ℕ) where
  -- The header and the file table are those of the volume, and the file system is ready and idle.
  pub record Mounted (s : System) : Type 0 where
    pub coherent : Coherent volume s
    pub idle : s.fs.current_breq ≡ none
    pub ready : s.fs.status ≡ status_ok
    pub header : s.fs.header ≡ parse_header volume 0
    pub entries :
        (k : ℕ)
        → k < s.fs.header.nr_files
        → s.fs.filetable k ≡ parse_entry volume ((k + 1) * entry_size)

  -- The state in which the header is parsed.
  abbrev pub paged : ℕ → ℕ → ℕ → System → System
  paged buffer bdev task s =
      with_page (λ i. volume (0 * blocksize + i))
        (record s {
          fs = record s.fs {
            buffer_data = buffer;
            bdev = bdev;
            status = err_busy;
            current_read_request = record s.fs.current_read_request { task = task };
            page_read_callback = header_done;
            current_breq = none;
            lba_in_buf = 0;
          };
        })

  pub paged-Same :
      (buffer bdev task : ℕ) (s : System)
      → Same (paged buffer bdev task s).memory buffer volume 0 blocksize
  paged-Same buffer bdev task s i lt =
      page_inside (λ j. volume (0 * blocksize + j))
        (record s { fs = record s.fs { buffer_data = buffer } }) i lt

  pub limited : (parse_header volume 0).nr_files ≤ max_files
  unfolding parse_header
  limited = ground arith

  -- The buffer holds the first block, and no request is pending.
  module _ (x : System) (same : Same x.memory x.fs.buffer_data volume 0 blocksize)
      (idle : x.fs.current_breq ≡ none) (lba : x.fs.lba_in_buf ≡ 0) where
    header_eq : parse_header x.memory x.fs.buffer_data ≡ parse_header volume 0
    header_eq = parse_header-Same x.memory x.fs.buffer_data volume (λ i lt. same i (omega arith))

    entries_eq :
        (rounds k : ℕ)
        → rounds ≤ max_files
        → k < rounds
        → parse_entries rounds 0 0 1 x.fs.buffer_data x.memory x.fs.filetable k
          ≡ parse_entry volume ((k + 1) * entry_size)
    entries_eq rounds k le lt =
        parse_entries_at rounds 0 1 x.fs.buffer_data x.memory x.fs.filetable k
        ∙ rw (le→leb 0 k (omega arith), lt→ltb k (0 + rounds) (omega arith))
            (parse_entry-Same x.memory (x.fs.buffer_data + (1 + k) * entry_size) volume
              ((k + 1) * entry_size)
              λ i less.
                ap x.memory (omega arith)
                ∙ same ((1 + k) * entry_size + i) (omega arith)
                ∙ ap volume (omega arith))

    coherent : Coherent volume x
    coherent = record { held = λ i lt. same i lt ∙ ap volume (omega (arith, lba)) }

    pub accepted-Mounted : (parse_header volume 0).id ≡ tsfs_id → Mounted (read_header_done x)
    unfolding read_header_done parse_filetable_from_buffer
    accepted-Mounted is_tsfs =
        rw (header_eq, eq→== _ _ is_tsfs)
          (notify_elim Mounted _ (mounted x.scheduled) (λ t. mounted (x.scheduled ++ (t ∷ []))))
      where
        nr : ℕ
        nr = (parse_header volume 0).nr_files

        all : min_u nr 31 ≡ nr
        all = ground (arith, limited)

        mounted :
            (scheduled : List ℕ)
            → Mounted (record x {
              scheduled = scheduled;
              fs = record x.fs {
                header = parse_header volume 0;
                status = status_ok;
                filetable =
                    parse_entries (min_u nr 31) 0 0 1 x.fs.buffer_data x.memory x.fs.filetable;
              };
            })
        mounted scheduled = record {
          coherent = record { held = coherent.held };
          idle = idle;
          ready = refl;
          header = refl;
          entries =
              λ k lt. entries_eq (min_u nr 31) k (omega (arith, all, limited)) (omega (arith, all));
        }

    pub rejected :
        (parse_header volume 0).id ≢ tsfs_id → (read_header_done x).fs.status ≡ err_bad_format
    unfolding read_header_done
    rejected other =
        rw (header_eq, ne→== _ _ other)
          (notify_elim (λ s. s.fs.status ≡ err_bad_format) _ refl (λ t. refl))
