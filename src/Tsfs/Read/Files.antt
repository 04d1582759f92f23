-- ===== src/Tsfs/Read/Files.antt =====
-- From a volume to the contents of its files: `tsfs_init`, `tsfs_open` and `tsfs_read` together.
use xplain_software_framewor.Base.{
  ℕ, ◌+◌, ◌*◌, ◌<◌, ◌≡◌, ◌≢◌, refl, ap, subst, ◌∙◌, ◌⊎◌, inl, inr, arith, ◌==◌, Bool-cases, ==→eq,
  ==_false→ne, ne→==, none, some, [], ◌∷◌, ◌++◌, if◌then◌else◌,
}
use xplain_software_framewor.Memory.Physmem.{PhysmemPool, malloc}
use xplain_software_framewor.Tsfs.{
  status_ok, err_bad_format, err_busy, blocksize, tsfs_id, FiletableEntry, TsfsHeader, System,
  parse_header, read_header_done, tsfs_init, read_page, parse_filetable_from_buffer, header_done,
}
use xplain_software_framewor.Tsfs.Read.{read_page_done, run}
use xplain_software_framewor.Tsfs.Read.Blocks.{page_elsewhere, Outside, Fetched}
use xplain_software_framewor.Tsfs.Read.Transfer.{run_idle}
use xplain_software_framewor.Tsfs.Read.Mount.{
  Mounted, paged, paged-Same, accepted-Mounted, rejected,
}

-- The task of the initialisation is scheduled, if there is one, whatever the header says.
told :
    (x : System)
    → (read_header_done x).scheduled ≡ (
        if x.fs.current_read_request.task == 0
        then x.scheduled
        else x.scheduled ++ (x.fs.current_read_request.task ∷ []))
unfolding read_header_done parse_filetable_from_buffer
told x = ground arith

header_memory : (x : System) → (read_header_done x).memory ≡ x.memory
unfolding read_header_done parse_filetable_from_buffer
header_memory x = ground arith

header_idle : (x : System) → (read_header_done x).fs.current_breq ≡ x.fs.current_breq
unfolding read_header_done parse_filetable_from_buffer
header_idle x = ground arith

-- The state in which the header has been asked for.
abbrev waiting : ℕ → ℕ → ℕ → System → System
waiting buffer bdev task s = record s {
  fs = record s.fs {
    buffer_data = buffer;
    bdev = bdev;
    status = err_busy;
    current_read_request = record s.fs.current_read_request { task = task };
    page_read_callback = header_done;
    current_breq = some 0;
    lba_in_buf = 0;
  };
}

begun_lem :
    (sram sram' : PhysmemPool) (buffer bdev task : ℕ) (s : System)
    → malloc sram blocksize ≡ some (buffer, sram')
    → buffer ≢ 0
    → s.fs.current_breq ≡ none
    → tsfs_init sram bdev task s ≡ some (status_ok, sram', waiting buffer bdev task s)
unfolding read_page tsfs_init
begun_lem sram sram' buffer bdev task s room proper idle =
    rw (room, tsfs_init) (rw (ne→== buffer 0 proper) (rw idle refl))

module _ (volume : ℕ → ℕ) where
  run_init :
      (buffer bdev task : ℕ) (s : System)
      → run 1 volume (waiting buffer bdev task s)
        ≡ some (read_header_done (paged volume buffer bdev task s))
  unfolding read_page_done
  run_init buffer bdev task s =
      unfold run in
      refl
      ∙ run_idle volume 0 (read_header_done (paged volume buffer bdev task s))
          (header_idle (paged volume buffer bdev task s))

  -- For a file system with no pending request whose block buffer is allocated: `tsfs_init` returns
  -- `STATUS_OK` while the file system is busy. After one completed request, it is mounted, with the header and the first
  -- 31 entries of the volume, if the volume has the identifier of TSFS, and of bad format
  -- otherwise. In both cases the task is scheduled, if there is one, and no other memory has changed than the block buffer.
  pub tsfs_init-Mounted :
      (sram sram' : PhysmemPool) (buffer bdev task : ℕ) (s : System)
      → malloc sram blocksize ≡ some (buffer, sram')
      → buffer ≢ 0
      → s.fs.current_breq ≡ none
      → (s1 s' : System) × (tsfs_init sram bdev task s ≡ some (status_ok, sram', s1))
        × (s1.fs.status ≡ err_busy)
        × (run 1 volume s1 ≡ some s')
        × (((parse_header volume 0).id ≡ tsfs_id × Mounted volume s')
            ⊎ ((parse_header volume 0).id ≢ tsfs_id × (s'.fs.status ≡ err_bad_format)))
        × (s'.scheduled ≡ (if task == 0 then s.scheduled else s.scheduled ++ (task ∷ [])))
        × ((a : ℕ) → Outside a buffer blocksize → s'.memory a ≡ s.memory a)
  tsfs_init-Mounted sram sram' buffer bdev task s room proper idle = (
    waiting buffer bdev task s,
    read_header_done x,
    begun,
    refl,
    run_init buffer bdev task s,
    outcome,
    told x,
    λ a out.
        ap (λ (m : ℕ → ℕ). m a) (header_memory x)
        ∙ page_elsewhere (λ i. volume (0 * blocksize + i))
            (record s { fs = record s.fs { buffer_data = buffer } }) a out,
  )
    where
      x : System
      x = paged volume buffer bdev task s

      begun : tsfs_init sram bdev task s ≡ some (status_ok, sram', waiting buffer bdev task s)
      begun = begun_lem sram sram' buffer bdev task s room proper idle

      outcome :
          ((parse_header volume 0).id ≡ tsfs_id × Mounted volume (read_header_done x))
          ⊎ ((parse_header volume 0).id ≢ tsfs_id
              × ((read_header_done x).fs.status ≡ err_bad_format))
      outcome = elim (Bool-cases ((parse_header volume 0).id == tsfs_id)) [
        | inl e ↦ inl (
          ==→eq _ _ e,
          accepted-Mounted volume x (paged-Same volume buffer bdev task s) refl refl (==→eq _ _ e),
        )
        | inr e ↦ inr (
          ==_false→ne _ _ e,
          rejected volume x (paged-Same volume buffer bdev task s) refl refl (==_false→ne _ _ e),
        )
      ]

  -- A request that is served leaves the volume mounted.
  pub Fetched-Mounted :
      (buffer cursor n task : ℕ) (s s' : System)
      → Mounted volume s
      → Fetched volume buffer cursor n task s s'
      → Mounted volume s'
  Fetched-Mounted buffer cursor n task s s' m f = record {
    coherent = f.coherent;
    idle = f.idle;
    ready = f.ready;
    header = f.header ∙ m.header;
    entries = λ k lt.
        ap (λ (t : ℕ → FiletableEntry). t k) f.filetable
        ∙ m.entries k (subst (λ (h : TsfsHeader). k < h.nr_files) f.header lt);
  }
