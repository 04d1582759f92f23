-- ===== src/Tsfs/Read/Transfer.antt =====
-- What `tsfs_read_buffer_ready` and the completions that it asks for transfer.
use xplain_software_framewor.Base.{
  ℕ, zero, suc, ◌+◌, ◌-◌, ◌*◌, ◌/◌, ◌%◌, ◌≤◌, ◌<◌, ◌≡◌, refl, ap, ◌∙◌, inl, inr, arith, ltb,
  Bool-cases, ltb→lt, ltb_false→le, bind, none, some, add32,
}
use xplain_software_framewor.Strings.{memcpy}
use xplain_software_framewor.Strings.Copy.{Filled, memcpy-Filled}
use xplain_software_framewor.Tsfs.{blocksize, System, read_page, buffer_ready}
use xplain_software_framewor.Tsfs.Read.{
  copy_part, read_buffer_ready, with_page, read_page_done, run,
}
use xplain_software_framewor.Tsfs.Read.Blocks.{
  page_inside, page_elsewhere, Ready, Served, part, done, copy_part_idle, left_more, left_none,
  given, given_le,
}

module _ (volume : ℕ → ℕ) where
  -- The state in which the request goes on with the next block.
  abbrev next : System → System
  next s =
      let s1 = copy_part s in
      let lba = s1.fs.current_read_request.cursor / blocksize in
      let s2 =
        with_page (λ i. volume (lba * blocksize + i))
          (record s1 {
            fs = record s1.fs { page_read_callback = buffer_ready; lba_in_buf = lba };
          }) in
      record s2 { fs = record s2.fs { current_breq = none } }

  goes_on :
      (fuel : ℕ) (s : System)
      → Ready volume s
      → part s < s.fs.current_read_request.remaining_bytes
      → bind (read_buffer_ready s) (run (suc fuel) volume)
        ≡ bind (read_buffer_ready (next s)) (run fuel volume)
  unfolding read_buffer_ready read_page run read_page_done copy_part
  goes_on fuel s r more = rw (left_more s more, copy_part_idle s, r.idle) refl

  pub run_idle : (fuel : ℕ) (s : System) → s.fs.current_breq ≡ none → run fuel volume s ≡ some s
  unfolding run
  run_idle zero s idle = rw idle refl
  run_idle (suc fuel) s idle = rw idle refl

  ends :
      (fuel : ℕ) (s : System)
      → Ready volume s
      → s.fs.current_read_request.remaining_bytes ≤ part s
      → bind (read_buffer_ready s) (run fuel volume) ≡ some (done s)
  unfolding read_buffer_ready
  ends fuel s r less = rw (left_none s less) (run_idle fuel (done s) (copy_part_idle s ∙ r.idle))

  -- The copy takes the bytes of the volume from the block in the buffer.
  copied :
      (s : System) (n : ℕ)
      → Ready volume s
      → n ≤ part s
      → n ≤ s.fs.current_read_request.remaining_bytes
      → Filled
          (λ i. volume (s.fs.current_read_request.cursor + i))
          s.fs.current_read_request.buffer
          n
          s.memory
          (memcpy s.fs.current_read_request.buffer
            (s.fs.buffer_data + s.fs.current_read_request.cursor % blocksize)
            n
            s.memory).1
  copied s n r fits le =
      let request = s.fs.current_read_request in
      let start = request.cursor % blocksize in
      let (_, copy) =
        memcpy-Filled request.buffer (s.fs.buffer_data + start) n s.memory
          (omega (arith, r.apart)) in
      record {
        inside = λ i lt.
            copy.inside i lt
            ∙ ap s.memory (omega arith)
            ∙ r.coherent.held (start + i) (omega arith)
            ∙ ap volume (omega (arith, r.lba));
        outside = copy.outside;
      }

  copied_given :
      (s : System)
      → Ready volume s
      → Filled
          (λ i. volume (s.fs.current_read_request.cursor + i))
          s.fs.current_read_request.buffer
          (given s)
          s.memory
          (copy_part s).memory
  unfolding copy_part
  copied_given s r = copied s (given s) r (given_le s).0 (given_le s).1

  done-Served :
      (s : System)
      → Ready volume s
      → s.fs.current_read_request.remaining_bytes ≤ part s
      → Served volume s (done s)
  unfolding copy_part
  done-Served s r less =
      let copy = copied_given s r in
      let all : given s ≡ s.fs.current_read_request.remaining_bytes = ground arith in
      record {
        filled = λ i lt. copy.inside i (omega (arith, all));
        kept = λ a out _. copy.outside a (omega (arith, all));
        coherent = record {
          held = λ i lt.
              copy.outside (s.fs.buffer_data + i) (omega (arith, all, r.apart))
              ∙ r.coherent.held i lt;
        };
        idle = r.idle;
        ready = refl;
        scheduled = refl;
        filetable = refl;
        header = refl;
        buffer_data = refl;
        bdev = refl;
      }

  next-Ready :
      (s : System)
      → Ready volume s
      → part s < s.fs.current_read_request.remaining_bytes
      → Ready volume (next s)
  unfolding copy_part
  next-Ready s r more =
      let full : given s ≡ part s = ground arith in
      record {
        coherent = record {
          held = λ i lt.
              page_inside
                (λ j.
                  volume
                    (add32 s.fs.current_read_request.cursor (given s) / blocksize * blocksize + j))
                (copy_part s) i lt;
        };
        idle = refl;
        lba = refl;
        some_left = omega (arith, full);
        word = omega (arith, full, r.word);
        apart = omega (arith, full, r.apart);
      }

  next-Served :
      (s s' : System)
      → Ready volume s
      → part s < s.fs.current_read_request.remaining_bytes
      → Served volume (next s) s'
      → Served volume s s'
  unfolding copy_part
  next-Served s s' r more served = record {
    filled = λ i lt. elim (Bool-cases (ltb i (given s))) [
      | inl first ↦ now i (ltb→lt _ _ first)
      | inr later ↦
          ap s'.memory (omega (arith, ltb_false→le _ _ later))
          ∙ served.filled (i - given s) (omega (arith, ltb_false→le _ _ later, full))
          ∙ ap volume (omega (arith, ltb_false→le _ _ later, full, r.word))
    ];
    kept = λ a out apart.
        served.kept a (omega (arith, full)) apart
        ∙ page_elsewhere page (copy_part s) a apart
        ∙ copy.outside a (omega (arith, full));
    coherent = served.coherent;
    idle = served.idle;
    ready = served.ready;
    scheduled = served.scheduled;
    filetable = served.filetable;
    header = served.header;
    buffer_data = served.buffer_data;
    bdev = served.bdev;
  }
    where
      full : given s ≡ part s
      full = ground arith

      copy :
          Filled
            (λ i. volume (s.fs.current_read_request.cursor + i))
            s.fs.current_read_request.buffer
            (given s)
            s.memory
            (copy_part s).memory
      copy = copied_given s r

      page : ℕ → ℕ
      page j = volume (add32 s.fs.current_read_request.cursor (given s) / blocksize * blocksize + j)

      now :
          (i : ℕ)
          → i < given s
          → s'.memory (s.fs.current_read_request.buffer + i)
            ≡ volume (s.fs.current_read_request.cursor + i)
      now i lt =
          served.kept (s.fs.current_read_request.buffer + i) (omega arith)
            (omega (arith, full, r.apart))
          ∙ page_elsewhere page (copy_part s) (s.fs.current_read_request.buffer + i)
              (omega (arith, full, r.apart))
          ∙ copy.inside i lt

  next_enough :
      (fuel : ℕ) (s : System)
      → Ready volume s
      → part s < s.fs.current_read_request.remaining_bytes
      → s.fs.current_read_request.remaining_bytes ≤ part s + suc fuel * blocksize
      → (next s).fs.current_read_request.remaining_bytes ≤ part (next s) + fuel * blocksize
  unfolding copy_part
  next_enough fuel s r more enough =
      let full : given s ≡ part s = ground arith in omega (arith, full, r.word)

  -- The pages that a request needs beside the one in the buffer are at most `fuel`.
  pub serve :
      (fuel : ℕ) (s : System)
      → Ready volume s
      → s.fs.current_read_request.remaining_bytes ≤ part s + fuel * blocksize
      → (s' : System) × (bind (read_buffer_ready s) (run fuel volume) ≡ some s')
        × Served volume s s'
  serve zero s r enough = (done s, ends zero s r (omega arith), done-Served s r (omega arith))
  serve (suc fuel) s r enough =
      elim (Bool-cases (ltb (part s) s.fs.current_read_request.remaining_bytes)) [
        | inl more ↦
            (let more = ltb→lt _ _ more in
              let (s', eq, served) =
                serve fuel (next s) (next-Ready s r more) (next_enough fuel s r more enough) in
              (s', goes_on fuel s r more ∙ eq, next-Served s s' r more served))
        | inr less ↦
            (let less = ltb_false→le _ _ less in
              (done s, ends (suc fuel) s r less, done-Served s r less))
      ]
