-- ===== src/Tsfs/Read/Contents.antt =====
-- `tsfs_open` and `tsfs_read` on a mounted volume: the contents of the file of a name.
use xplain_software_framewor.Base.{
  ℕ, zero, suc, ◌+◌, ◌-◌, ◌*◌, ◌%◌, ◌≤◌, ◌<◌, u32_mod, ◌≡◌, sym, ap, subst, ◌∙◌, inl, inr, arith,
  ltb, Bool, Bool-cases, ltb→lt, min, some, [], ◌∷◌, ◌++◌, add32,
}
use xplain_software_framewor.Strings.{ByteMem}
use xplain_software_framewor.Strings.Compare.{text, text-ext}
use xplain_software_framewor.Tsfs.{
  status_ok, blocksize, entry_size, filename_len, bytes, FiletableEntry, TsfsFile, TsfsHeader,
  System, parse_entry,
}
use xplain_software_framewor.Tsfs.Open.{tsfs_open}
use xplain_software_framewor.Tsfs.Open.Lookup.{ByteNames, chars, tsfs_open_lem}
use xplain_software_framewor.Tsfs.Read.{run, tsfs_read}
use xplain_software_framewor.Tsfs.Read.Blocks.{Apart, Outside}
use xplain_software_framewor.Tsfs.Read.Requests.{tsfs_read-Fetched}
use xplain_software_framewor.Tsfs.Read.Mount.{Mounted, limited}
use xplain_software_framewor.Tsfs.Read.Files.{Fetched-Mounted}

chars-bytes : (n i : ℕ) (mem : ByteMem) (p : ℕ) → i < n → chars (bytes n mem p) i ≡ mem (p + i)
unfolding bytes
chars-bytes zero i mem p h = absurd (omega arith)
chars-bytes (suc n) zero mem p h = ap mem (omega arith)
chars-bytes (suc n) (suc i) mem p h =
    chars-bytes n i mem (p + 1) (omega arith) ∙ ap mem (omega arith)

chars-bound :
    (n i : ℕ) (mem : ByteMem) (p : ℕ) → ((a : ℕ) → mem a < 256) → chars (bytes n mem p) i < 256
unfolding bytes
chars-bound zero i mem p h = omega arith
chars-bound (suc n) zero mem p h = h p
chars-bound (suc n) (suc i) mem p h = chars-bound n i mem (p + 1) h

module _ (volume : ℕ → ℕ) where
  -- The entry of file `k` on the volume.
  abbrev pub entry_on : ℕ → FiletableEntry
  entry_on k = parse_entry volume ((k + 1) * entry_size)

  -- File `k` on the volume has this name, as far as eight characters go.
  abbrev pub NamedOn : (ℕ → ℕ) → ℕ → Type 0
  NamedOn filename k =
      text filename_len (λ i. volume ((k + 1) * entry_size + 8 + i)) ≡ text filename_len filename

  name_on :
      (k : ℕ)
      → text filename_len (chars (entry_on k).filename)
        ≡ text filename_len (λ i. volume ((k + 1) * entry_size + 8 + i))
  unfolding parse_entry
  name_on k =
      text-ext filename_len _ _
        (λ i lt. chars-bytes filename_len i volume ((k + 1) * entry_size + 8) lt)

  module _ (byte_volume : (a : ℕ) → volume a < 256) where
    entry_bound : (k i : ℕ) → chars (entry_on k).filename i < 256
    unfolding parse_entry
    entry_bound k i = chars-bound filename_len i volume ((k + 1) * entry_size + 8) byte_volume

    module _ (s : System) (m : Mounted volume s) where
      entry_eq : (k : ℕ) → k < s.fs.header.nr_files → s.fs.filetable k ≡ entry_on k
      entry_eq = m.entries

      named :
          (filename : ℕ → ℕ) (k : ℕ)
          → k < s.fs.header.nr_files
          → text filename_len (chars (s.fs.filetable k).filename)
            ≡ text filename_len (λ i. volume ((k + 1) * entry_size + 8 + i))
      named filename k lt =
          ap (λ (e : FiletableEntry). text filename_len (chars e.filename)) (entry_eq k lt)
          ∙ name_on k

      byte_names : ByteNames s.fs
      byte_names k i lt =
          subst (λ (e : FiletableEntry). chars e.filename i < 256) (sym (entry_eq k lt))
            (entry_bound k i)

      few : s.fs.header.nr_files ≤ 256
      few = omega (arith, ap (λ (h : TsfsHeader). h.nr_files) m.header, limited volume)

      -- The handle of the first file of a name on the volume.
      opened :
          (b : Bool) (filename : ℕ → ℕ) (handle : TsfsFile) (k : ℕ)
          → ((i : ℕ) → filename i < 256)
          → k < s.fs.header.nr_files
          → NamedOn filename k
          → ((j : ℕ) → j < k → ¬ NamedOn filename j)
          → tsfs_open b s.fs filename handle ≡ (
            status_ok,
            record {
              start = (entry_on k).file_offset;
              cursor = (entry_on k).file_offset;
              end = add32 (entry_on k).file_offset (entry_on k).file_size;
            },
          )
      opened b filename handle k ascii lt is_k first =
          elim (tsfs_open_lem b s.fs filename byte_names ascii few handle) [
            | inl (k', lt', is_k', first', eq) ↦
                eq
                ∙ ap
                    (λ (e : FiletableEntry). (
                      status_ok,
                      record {
                        start = e.file_offset;
                        cursor = e.file_offset;
                        end = add32 e.file_offset e.file_size;
                      },
                    ))
                    (entry_eq k' lt'
                      ∙ ap entry_on (
                          same k' lt' (sym (named filename k' lt') ∙ is_k')
                            (λ below. first' k below (named filename k lt ∙ is_k))))
            | inr (none_is, _) ↦ absurd (none_is k lt (named filename k lt ∙ is_k))
          ]
        where
          same : (k' : ℕ) → k' < s.fs.header.nr_files → NamedOn filename k' → ¬ (k < k') → k' ≡ k
          same k' lt' is_k' above = elim (Bool-cases (ltb k' k)) [
            | inl below ↦ absurd (first k' (ltb→lt k' k below) is_k')
            | inr not_below ↦ ground (arith, above)
          ]

      -- For a mounted volume of bytes and the name of a file on it, as bytes, and where the file is
      -- not empty, its end is a word and the buffer for it is apart from the block buffer:
      -- `tsfs_open` opens the first file of that name, and `tsfs_read` of its size is accepted. Once
      -- the device has completed as many requests as the file has blocks, the buffer holds the
      -- contents of the file on the volume, the task has been scheduled once, no other memory has
      -- changed but the block buffer, and the volume is still mounted.
      pub open-read :
          (b : Bool) (filename : ℕ → ℕ) (handle : TsfsFile) (k fuel buffer task : ℕ)
          → ((i : ℕ) → filename i < 256)
          → k < s.fs.header.nr_files
          → NamedOn filename k
          → ((j : ℕ) → j < k → ¬ NamedOn filename j)
          → 0 < (entry_on k).file_size
          → (entry_on k).file_offset + (entry_on k).file_size < u32_mod
          → Apart buffer (entry_on k).file_size s.fs.buffer_data blocksize
          → (entry_on k).file_offset % blocksize + (entry_on k).file_size ≤ fuel * blocksize
          → (file file' : TsfsFile) × (s1 s' : System) × (tsfs_open b s.fs filename handle
              ≡ (status_ok, file))
            × (tsfs_read file buffer (entry_on k).file_size task s ≡ some (status_ok, file', s1))
            × (run fuel volume s1 ≡ some s')
            × ((i : ℕ)
                → i < (entry_on k).file_size
                → s'.memory (buffer + i) ≡ volume ((entry_on k).file_offset + i))
            × ((a : ℕ)
                → Outside a buffer (entry_on k).file_size
                → Outside a s.fs.buffer_data blocksize
                → s'.memory a ≡ s.memory a)
            × (s'.scheduled ≡ s.scheduled ++ (task ∷ []))
            × Mounted volume s'
      open-read b filename handle k fuel buffer task ascii lt is_k first some_bytes word apart
            enough =
          let whole : min size (offset + size - offset) ≡ size = omega arith in
          let (s1, s', accepted, ran, fetched) =
            tsfs_read-Fetched volume fuel file buffer size task s m.ready (omega arith) word
              (rw whole (record {
                coherent = m.coherent;
                idle = m.idle;
                some_bytes = some_bytes;
                word = word;
                apart = apart;
              }))
              (rw whole enough) in
          (
            file,
            record file { cursor = offset + min size (offset + size - offset) },
            s1,
            s',
            opened b filename handle k ascii lt is_k first
                ∙ ap (λ (e : ℕ). (status_ok, record file { end = e })) (omega (arith, word)),
            accepted,
            ran,
            λ i less. fetched.filled i (omega (arith, whole)),
            λ a out. fetched.kept a (omega (arith, whole)),
            fetched.scheduled,
            Fetched-Mounted volume buffer offset (min size (offset + size - offset)) task s s' m
                fetched,
          )
        where
          file : TsfsFile
          file = record {
            start = (entry_on k).file_offset;
            cursor = (entry_on k).file_offset;
            end = (entry_on k).file_offset + (entry_on k).file_size;
          }

          offset : ℕ
          offset = (entry_on k).file_offset

          size : ℕ
          size = (entry_on k).file_size
