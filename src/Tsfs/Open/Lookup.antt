-- ===== src/Tsfs/Open/Lookup.antt =====
-- `tsfs_locate_file_in_table` and `tsfs_open`: the first file of a name.
use xplain_software_framewor.Base.{
  ℕ, zero, suc, ◌+◌, ◌≤◌, ◌<◌, ◌≡◌, refl, sym, ap, subst, ◌↔◌, ◌⊎◌, inl, inr, arith, ltb, lt→leb,
  ltb→lt, ltb_false→le, ==→eq, ==_false→ne, le→leb, ◌==◌, Bool, true, Bool-cases, List, get_or,
  add32,
}
use xplain_software_framewor.Strings.{strncmp}
use xplain_software_framewor.Base.Int.{ℤ, pos, negsuc}
use xplain_software_framewor.Strings.Compare.{text, strncmp-text}
use xplain_software_framewor.Tsfs.{status_ok, err_invalid_arg, filename_len, Tsfs, TsfsFile}
use xplain_software_framewor.Tsfs.Open.{
  get_filetable_entry, is_zero, names_match, locate_from, locate_file_in_table, tsfs_open,
}

-- The characters of a name in the file table, of which there are at most eight.
abbrev pub chars : List ℕ → ℕ → ℕ
chars name i = get_or name i 0

-- File `k` of the table has this name, as far as eight characters go.
abbrev pub Named : Tsfs → (ℕ → ℕ) → ℕ → Type 0
Named fs filename k =
    text filename_len (chars (fs.filetable k).filename) ≡ text filename_len filename

-- All names in the table are bytes.
abbrev pub ByteNames : Tsfs → Type 0
ByteNames fs = (k i : ℕ) → k < fs.header.nr_files → chars (fs.filetable k).filename i < 256

is_zero_iff : (z : ℤ) → (is_zero z ≡ true) ↔ (z ≡ pos 0)
is_zero_iff (pos n) = (λ e. ground arith, λ e. ground arith)
is_zero_iff (negsuc n) = (λ e. cc, λ e. cc)

module _ (b : Bool) (fs : Tsfs) (filename : ℕ → ℕ) (names : ByteNames fs)
    (bytes : (i : ℕ) → filename i < 256) (limit : fs.header.nr_files ≤ 256) where
  match-Named :
      (k : ℕ)
      → k < fs.header.nr_files
      → (names_match b (fs.filetable k).filename filename ≡ true) ↔ Named fs filename k
  unfolding names_match
  match-Named k h =
      let z = is_zero_iff (strncmp b (chars (fs.filetable k).filename) filename filename_len) in
      let t =
        strncmp-text b filename_len (chars (fs.filetable k).filename) filename (λ i. names k i h)
          bytes in
      (λ e. t.0 (z.0 e), λ e. z.1 (t.1 e))

  -- `r` is the first file of this name from `i` on, or `n` if there is none.
  record Located (i n r : ℕ) : Type 0 where
    low : i ≤ r
    high : r ≤ n
    found : r < n → Named fs filename r
    before : (j : ℕ) → i ≤ j → j < r → ¬ Named fs filename j

  entry : (k : ℕ) → k < 256 → get_filetable_entry fs k ≡ fs.filetable k
  unfolding get_filetable_entry
  entry k h = ap fs.filetable (omega arith)

  here : (i n : ℕ) → i < n → Named fs filename i → Located i n i
  here i n h named = record {
    low = omega arith;
    high = omega arith;
    found = λ _. named;
    before = λ j le lt. absurd (omega arith);
  }

  further : (i n r : ℕ) → ¬ Named fs filename i → Located (i + 1) n r → Located i n r
  further i n r other rest = record {
    low = omega (arith, rest.low);
    high = rest.high;
    found = rest.found;
    before = before;
  }
    where
      before : (j : ℕ) → i ≤ j → j < r → ¬ Named fs filename j
      before j le lt = elim (Bool-cases (j == i)) [
        | inl same ↦ subst (λ k. ¬ Named fs filename k) (sym (==→eq j i same)) other
        | inr away ↦ rest.before j (omega (arith, ==_false→ne j i away)) lt
      ]

  locate_from_lem :
      (rounds i : ℕ)
      → i + rounds ≤ fs.header.nr_files
      → Located i (i + rounds) (locate_from b fs filename rounds i)
  unfolding locate_from
  locate_from_lem zero i h = record {
    low = omega arith;
    high = omega arith;
    found = λ lt. absurd (omega arith);
    before = λ j le lt. absurd (omega arith);
  }
  locate_from_lem (suc rounds) i h =
      rw (entry i (omega (arith, limit)))
        (elim (Bool-cases (names_match b (fs.filetable i).filename filename)) [
          | inl same ↦
              rw same (here i (i + suc rounds) (omega arith) ((match-Named i (omega arith)).0 same))
          | inr other ↦ rw other (
              further i (i + suc rounds) (locate_from b fs filename rounds (i + 1))
                (λ named. absurd (cc ((match-Named i (omega arith)).1 named)))
                (subst (λ n. Located (i + 1) n (locate_from b fs filename rounds (i + 1)))
                  (let e : i + 1 + rounds ≡ i + suc rounds = omega arith in e)
                  (locate_from_lem rounds (i + 1) (omega arith))))
        ])

  -- For a table of at most 256 files whose names are bytes, and a name of bytes, whether `char` is signed or not: `tsfs_open` opens the first file
  -- of that name, with the cursor at its start and the end behind its last byte. Where there is no
  -- file of that name, it fails and leaves the handle as it is.
  pub tsfs_open_lem :
      (handle : TsfsFile)
      → ((k : ℕ) × (k < fs.header.nr_files)
          × Named fs filename k
          × ((j : ℕ) → j < k → ¬ Named fs filename j)
          × (tsfs_open b fs filename handle ≡ (
            status_ok,
            record {
              start = (fs.filetable k).file_offset;
              cursor = (fs.filetable k).file_offset;
              end = add32 (fs.filetable k).file_offset (fs.filetable k).file_size;
            },
          )))
        ⊎ (((k : ℕ) → k < fs.header.nr_files → ¬ Named fs filename k)
            × (tsfs_open b fs filename handle ≡ (err_invalid_arg, handle)))
  unfolding tsfs_open locate_file_in_table
  tsfs_open_lem handle =
      let nr = fs.header.nr_files in
      let r = locate_from b fs filename nr 0 in
      let found : Located 0 (0 + nr) r = locate_from_lem nr 0 (omega arith) in
      elim (Bool-cases (ltb r nr)) [
        | inl inside ↦
            let lt : r < nr = ltb→lt r nr inside in
            inl (
              r,
              lt,
              found.found (omega arith),
              λ j less. found.before j (omega arith) less,
              rw (lt→leb nr r lt, entry r (omega (arith, limit))) refl,
            )
        | inr outside ↦
            let le : nr ≤ r = ltb_false→le r nr outside in
            inr (λ k less. found.before k (omega arith) (omega arith), rw (le→leb nr r le) refl)
      ]
