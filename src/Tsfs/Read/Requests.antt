-- ===== src/Tsfs/Read/Requests.antt =====
-- `tsfs_read` from the call to the scheduling of its task.
use xplain_software_framewor.Base.{
  ℕ, zero, suc, ◌+◌, ◌-◌, ◌*◌, ◌/◌, ◌%◌, ◌≤◌, ◌<◌, u32_mod, ◌≡◌, ◌≢◌, refl, ap, ◌∙◌, inl, inr,
  arith, ◌==◌, false, Bool-cases, ==→eq, ==_false→ne, ne→==, eq→==, min, Option, bind, bind-eq-some,
  none, some, add32,
}
use xplain_software_framewor.Tsfs.{
  status_ok, err_busy, blocksize, TsfsFile, System, read_page, buffer_ready,
}
use xplain_software_framewor.Tsfs.Read.{
  start_read, read_buffer_ready, with_page, read_page_done, trim, tsfs_read, run,
}
use xplain_software_framewor.Tsfs.Read.Blocks.{
  Apart, Coherent, Ready, Fetched, Served, page_inside, page_elsewhere,
}
use xplain_software_framewor.Tsfs.Read.Transfer.{serve}

-- The state with the request of a read.
abbrev requested : TsfsFile → ℕ → ℕ → ℕ → System → System
requested file buffer n task s = record s {
  fs = record s.fs {
    status = err_busy;
    current_read_request = record {
      buffer = buffer;
      cursor = file.cursor;
      remaining_bytes = n;
      task = task;
    };
  };
}

module _ (volume : ℕ → ℕ) where
  -- What a read needs of the system and of the range that it is asked for.
  pub record Readable (file : TsfsFile) (buffer n : ℕ) (s : System) : Type 0 where
    pub coherent : Coherent volume s
    pub idle : s.fs.current_breq ≡ none
    pub some_bytes : 0 < n
    pub word : file.cursor + n < u32_mod
    pub apart : Apart buffer n s.fs.buffer_data blocksize

  -- The same with the block of the cursor in the buffer.
  abbrev fetched_first : TsfsFile → ℕ → ℕ → ℕ → System → System
  fetched_first file buffer n task s =
      let s1 = requested file buffer n task s in
      let lba = file.cursor / blocksize in
      let s2 =
        with_page (λ i. volume (lba * blocksize + i))
          (record s1 {
            fs = record s1.fs { page_read_callback = buffer_ready; lba_in_buf = lba };
          }) in
      record s2 { fs = record s2.fs { current_breq = none } }

  start_hit :
      (file : TsfsFile) (buffer n task : ℕ) (s : System)
      → s.fs.lba_in_buf ≡ file.cursor / blocksize
      → (f : Option System → Option System)
      → f (start_read file buffer n task s) ≡ f (read_buffer_ready (requested file buffer n task s))
  unfolding start_read
  start_hit file buffer n task s same f = rw (eq→== _ _ same) refl

  start_miss :
      (fuel : ℕ) (file : TsfsFile) (buffer n task : ℕ) (s : System)
      → Readable file buffer n s
      → s.fs.lba_in_buf ≢ file.cursor / blocksize
      → bind (start_read file buffer n task s) (run (suc fuel) volume)
        ≡ bind (read_buffer_ready (fetched_first file buffer n task s)) (run fuel volume)
  unfolding start_read read_page run read_page_done
  start_miss fuel file buffer n task s r other = rw (ne→== _ _ other, r.idle) refl

  hit :
      (fuel : ℕ) (file : TsfsFile) (buffer n task : ℕ) (s : System)
      → Readable file buffer n s
      → file.cursor % blocksize + n ≤ fuel * blocksize
      → s.fs.lba_in_buf ≡ file.cursor / blocksize
      → (s' : System) × (bind (start_read file buffer n task s) (run fuel volume) ≡ some s')
        × Fetched volume buffer file.cursor n task s s'
  hit fuel file buffer n task s r enough same =
      let s1 = requested file buffer n task s in
      let ready : Ready volume s1 = record {
        coherent = record { held = r.coherent.held };
        idle = r.idle;
        lba = same;
        some_left = r.some_bytes;
        word = r.word;
        apart = r.apart;
      } in
      let (s', eq, served) = serve volume fuel s1 ready (omega (arith, enough)) in
      (s', start_hit file buffer n task s same (λ o. bind o (run fuel volume)) ∙ eq, again served)
    where
      again :
          {s' : System}
          → Served volume (requested file buffer n task s) s'
          → Fetched volume buffer file.cursor n task s s'
      again f = record {
        filled = f.filled;
        kept = f.kept;
        coherent = f.coherent;
        idle = f.idle;
        ready = f.ready;
        scheduled = f.scheduled;
        filetable = f.filetable;
        header = f.header;
        buffer_data = f.buffer_data;
        bdev = f.bdev;
      }

  miss :
      (fuel : ℕ) (file : TsfsFile) (buffer n task : ℕ) (s : System)
      → Readable file buffer n s
      → file.cursor % blocksize + n ≤ fuel * blocksize
      → s.fs.lba_in_buf ≢ file.cursor / blocksize
      → (s' : System) × (bind (start_read file buffer n task s) (run fuel volume) ≡ some s')
        × Fetched volume buffer file.cursor n task s s'
  miss zero file buffer n task s r enough other = absurd (omega (arith, r.some_bytes))
  miss (suc fuel) file buffer n task s r enough other =
      let s1 = fetched_first file buffer n task s in
      let page = λ (i : ℕ). volume (file.cursor / blocksize * blocksize + i) in
      let ready : Ready volume s1 = record {
        coherent = record { held = λ i lt. page_inside page s i lt };
        idle = refl;
        lba = refl;
        some_left = r.some_bytes;
        word = r.word;
        apart = r.apart;
      } in
      let (s', eq, served) = serve volume fuel s1 ready (omega (arith, enough)) in
      (s', start_miss fuel file buffer n task s r other ∙ eq, again served)
    where
      again :
          {s' : System}
          → Served volume (fetched_first file buffer n task s) s'
          → Fetched volume buffer file.cursor n task s s'
      again f = record {
        filled = f.filled;
        kept = λ a out apart.
            f.kept a out apart
            ∙ page_elsewhere (λ i. volume (file.cursor / blocksize * blocksize + i)) s a apart;
        coherent = f.coherent;
        idle = f.idle;
        ready = f.ready;
        scheduled = f.scheduled;
        filetable = f.filetable;
        header = f.header;
        buffer_data = f.buffer_data;
        bdev = f.bdev;
      }

  start :
      (fuel : ℕ) (file : TsfsFile) (buffer n task : ℕ) (s : System)
      → Readable file buffer n s
      → file.cursor % blocksize + n ≤ fuel * blocksize
      → (s' : System) × (bind (start_read file buffer n task s) (run fuel volume) ≡ some s')
        × Fetched volume buffer file.cursor n task s s'
  start fuel file buffer n task s r enough =
      elim (Bool-cases (s.fs.lba_in_buf == file.cursor / blocksize)) [
        | inl same ↦ hit fuel file buffer n task s r enough (==→eq _ _ same)
        | inr other ↦ miss fuel file buffer n task s r enough (==_false→ne _ _ other)
      ]

  -- For an idle file system that is ready and whose buffer holds the block that it should, a file
  -- handle with the cursor before the end, a length that is not 0, and a range of bytes that does not pass
  -- the last address: `tsfs_read` is accepted. Once the device has completed
  -- as many requests as there are blocks in the
  -- bytes asked for, counted as full ones, the bytes from the cursor on, up to the length or the end of the file, are in the
  -- caller's buffer, the task has been scheduled once, the file system is ready again, and no other
  -- memory has changed but the block buffer. The cursor of the handle stands behind the bytes.
  pub tsfs_read-Fetched :
      (fuel : ℕ) (file : TsfsFile) (buffer length task : ℕ) (s : System)
      → s.fs.status ≡ status_ok
      → file.cursor < file.end
      → file.cursor + length < u32_mod
      → Readable file buffer (min length (file.end - file.cursor)) s
      → file.cursor % blocksize + min length (file.end - file.cursor) ≤ fuel * blocksize
      → (s1 s' : System) × (tsfs_read file buffer length task s
          ≡ some (
            status_ok,
            record file { cursor = file.cursor + min length (file.end - file.cursor) },
            s1,
          ))
        × (run fuel volume s1 ≡ some s')
        × Fetched volume buffer file.cursor (min length (file.end - file.cursor)) task s s'
  unfolding tsfs_read start_read
  tsfs_read-Fetched fuel file buffer length task s ok before word r enough =
      let n = min length (file.end - file.cursor) in
      let (s', eq, fetched) = start fuel file buffer n task s r enough in
      let (s1, first, rest) = bind-eq-some _ _ eq in (s1, s', accepted s1 first, rest, fetched)
    where
      trimmed : trim file length ≡ min length (file.end - file.cursor)
      trimmed = ground arith

      some_trimmed : (min length (file.end - file.cursor) == 0) ≡ false
      some_trimmed =
          ne→== _ 0 (λ (e : min length (file.end - file.cursor) ≡ 0). omega (arith, r.some_bytes))

      accepted :
          (s1 : System)
          → start_read file buffer (min length (file.end - file.cursor)) task s ≡ some s1
          → tsfs_read file buffer length task s
            ≡ some (
              status_ok,
              record file { cursor = file.cursor + min length (file.end - file.cursor) },
              s1,
            )
      accepted s1 first =
          rw (ok, trimmed, some_trimmed, first)
            (ap (λ (c : ℕ). some (status_ok, record file { cursor = c }, s1))
              (omega (arith, r.word)))

-- A handle whose cursor has been moved behind the end of its file, where the block at the cursor
-- is not in the buffer: `tsfs_read` is accepted, with more bytes to read than were asked for, 2^32
-- less the distance from the end to the cursor.
pub tsfs_read-past_end :
    (file : TsfsFile) (buffer length task : ℕ) (s : System)
    → s.fs.status ≡ status_ok
    → s.fs.current_breq ≡ none
    → file.end < file.cursor
    → file.cursor + length < u32_mod
    → s.fs.lba_in_buf ≢ file.cursor / blocksize
    → (s1 : System) × (tsfs_read file buffer length task s
        ≡ some (status_ok, record file { cursor = file.end }, s1))
      × (s1.fs.current_read_request.remaining_bytes ≡ u32_mod - (file.cursor - file.end))
      × (length < s1.fs.current_read_request.remaining_bytes)
unfolding tsfs_read start_read read_page
tsfs_read-past_end file buffer length task s ok idle past word other = (
  s1,
  rw
      (
        ok,
        ne→== (trim file length) 0 (λ (e : trim file length ≡ 0). omega (arith, wrapped)),
        ne→== _ _ other,
        idle,
      )
      (ap (λ (c : ℕ). some (status_ok, record file { cursor = c }, s1)) end_reached),
  wrapped,
  omega (arith, wrapped),
)
  where
    s1 : System
    s1 =
        let s0 = requested file buffer (trim file length) task s in
        let lba = file.cursor / blocksize in
        record s0 {
          fs = record s0.fs {
            page_read_callback = buffer_ready;
            current_breq = some lba;
            lba_in_buf = lba;
          };
        }

    wrapped : trim file length ≡ u32_mod - (file.cursor - file.end)
    wrapped = ground arith

    end_reached : add32 file.cursor (trim file length) ≡ file.end
    end_reached = omega (arith, wrapped)
