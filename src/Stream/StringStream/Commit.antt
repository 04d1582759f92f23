-- ===== src/Stream/StringStream/Commit.antt =====
-- What a commit of a string stream of limited size leaves in the string.
use native.Mathlib.Nat.{add-zero}
use xplain_software_framewor.Base.{
  ℕ, zero, suc, ◌+◌, ◌≤◌, ◌<◌, min, ◌≡◌, ◌⊎◌, inl, inr, refl, sym, ◌∙◌, ap, subst, true, ◌&&◌, List,
  [], ◌∷◌, ◌++◌, append-nil, append_assoc, arith, length, length-append, get_or, ltb, leb, ◌==◌,
  if◌then◌else◌, Bool-cases, lt→ltb, le→ltb, le→leb, ltb→lt, ltb_false→le, ==→eq, ==_false→ne,
  fun_ext, add32, u32_mod,
}
use xplain_software_framewor.Stream.{Stream, buf_has_data, buf_used}
use xplain_software_framewor.Stream.Holds.{Holds}
use xplain_software_framewor.Stream.Buffer.{
  queue_observations, size_pos, extract_char_cons, get_or-append_left, get_or-append_right,
}
use xplain_software_framewor.Stream.Write.{Accounts, IsBackend}
use xplain_software_framewor.Stream.StringStream.{
  StringStream, set_char, copy_out, toss_out, snprintf_commit, string_ops,
}

-- the string with the first `m` characters of `g` in it
abbrev pub overlaid : (ℕ → ℕ) → List ℕ → ℕ → ℕ → ℕ
overlaid str g m i = if ltb i m then get_or g i 0 else str i

-- The stream was given the characters `g`: the first `size` of them are in the string, and nothing
-- else of it has changed.
pub record Written (str : ℕ → ℕ) (size : ℕ) (ss : StringStream) (g : List ℕ) : Type 0 where
  pub limit : ss.size ≡ size
  pub end_at : ss.offset ≡ min (length g) size
  pub chars : (i : ℕ) → ss.text i ≡ overlaid str g (min (length g) size) i

-- The buffer is empty, and the stream was given `all`.
abbrev pub Flushed : (ℕ → ℕ) → ℕ → List ℕ → Stream × StringStream → Type 0
Flushed str size all (s, ss) = Holds s [] × Written str size ss all

-- What the first loop of the commit has done.
record Copied (str : ℕ → ℕ) (size : ℕ) (g q : List ℕ) (r : Stream × StringStream) : Type 0 where
  done : List ℕ
  rest : List ℕ
  split : done ++ rest ≡ q
  holds : Holds r.0 rest
  written : Written str size r.1 (g ++ done)
  finished : (rest ≡ []) ⊎ (size ≤ length (g ++ done))

overlaid-append :
    (str : ℕ → ℕ) (g ds : List ℕ) (m i : ℕ)
    → m ≤ length g
    → overlaid str g m i ≡ overlaid str (g ++ ds) m i
overlaid-append str g ds m i le = elim (Bool-cases (ltb i m)) [
  | inl low ↦ rw low (sym (get_or-append_left g ds i (omega (arith, ltb→lt i m low))))
  | inr high ↦ rw high
]

overlaid-set :
    (str : ℕ → ℕ) (g : List ℕ) (c i : ℕ)
    → set_char (overlaid str g (length g)) (length g) c i
      ≡ overlaid str (g ++ c ∷ []) (length g + 1) i
overlaid-set str g c i = elim (Bool-cases (i == length g)) [
  | inl e ↦
      let same : i ≡ length g = ==→eq i (length g) e in
      let last : get_or (g ++ c ∷ []) (length g) 0 ≡ c =
        ap (λ j. get_or (g ++ c ∷ []) j 0) (sym (add-zero (length g)))
        ∙ get_or-append_right g (c ∷ []) 0 in
      rw (e, lt→ltb i (length g + 1) (omega arith), same) (sym last)
  | inr ne ↦ elim (Bool-cases (ltb i (length g))) [
    | inl low ↦
        let lt = ltb→lt i (length g) low in
        rw (ne, low, lt→ltb i (length g + 1) (omega arith))
          (sym (get_or-append_left g (c ∷ []) i lt))
    | inr high ↦
        let ge = ltb_false→le i (length g) high in
        let differ = ==_false→ne i (length g) ne in
        rw (ne, high, le→ltb i (length g + 1) (omega arith))
  ]
]

module _ (str : ℕ → ℕ) (size : ℕ) (word : size + 1 < u32_mod) where
  -- Characters beyond the limit are dropped,
  Written-drop :
      (ss : StringStream) (g ds : List ℕ)
      → size ≤ length g
      → Written str size ss g
      → Written str size ss (g ++ ds)
  Written-drop ss g ds le w =
      let same : min (length (g ++ ds)) size ≡ min (length g) size =
        omega (arith, length-append g ds) in
      record {
        limit = w.limit;
        end_at = w.end_at ∙ sym same;
        chars = λ i.
            w.chars i
            ∙ overlaid-append str g ds (min (length g) size) i (omega arith)
            ∙ ap (λ m. overlaid str (g ++ ds) m i) (sym same);
      }

  -- and one before it is stored.
  Written-store :
      (ss : StringStream) (g : List ℕ) (c : ℕ)
      → length g < size
      → Written str size ss g
      → Written str size
          (record ss { offset = add32 ss.offset 1; text = set_char ss.text ss.offset c })
          (g ++ c ∷ [])
  Written-store ss g c lt w =
      let more : length (g ++ c ∷ []) ≡ length g + 1 = omega (arith, length-append g (c ∷ [])) in
      let whole : min (length g) size ≡ length g = omega arith in
      let off : ss.offset ≡ length g = w.end_at ∙ whole in
      let filled : min (length (g ++ c ∷ [])) size ≡ length g + 1 = omega (arith, more) in
      record {
        limit = w.limit;
        end_at = omega (arith, w.end_at, more);
        chars = λ i.
            ap (λ text. set_char text ss.offset c i)
              (fun_ext (λ j. w.chars j ∙ ap (λ m. overlaid str g m j) whole))
            ∙ ap (λ o. set_char (overlaid str g (length g)) o c i) off
            ∙ overlaid-set str g c i
            ∙ ap (λ m. overlaid str (g ++ c ∷ []) m i) (sym filled);
      }

  Copied-stop :
      (q g : List ℕ) (s : Stream) (ss : StringStream)
      → Holds s q
      → Written str size ss g
      → (q ≡ []) ⊎ (size ≤ length g)
      → Copied str size g q (s, ss)
  Copied-stop q g s ss h w why = record {
    done = [];
    rest = q;
    split = refl;
    holds = h;
    written = rw append-nil w;
    finished = rw append-nil why;
  }

  Copied-more :
      (g : List ℕ) (c : ℕ) (cs : List ℕ) {r : Stream × StringStream}
      → Copied str size (g ++ c ∷ []) cs r
      → Copied str size g (c ∷ cs) r
  Copied-more g c cs {r} k =
      let assoc = append_assoc g (c ∷ []) k.done in
      record {
        done = c ∷ k.done;
        rest = k.rest;
        split = ap (λ l. c ∷ l) k.split;
        holds = k.holds;
        written = subst (Written str size r.1) assoc k.written;
        finished = subst (λ l. (k.rest ≡ []) ⊎ (size ≤ length l)) assoc k.finished;
      }

  -- the test of the first loop, when there is data
  room_test :
      (c : ℕ) (cs g : List ℕ) (s : Stream) (ss : StringStream)
      → Holds s (c ∷ cs)
      → Written str size ss g
      → (buf_has_data s && ltb ss.offset ss.size) ≡ ltb (length g) size
  room_test c cs g s ss h w = rw ((queue_observations h).3, w.end_at, w.limit) (ground arith)

  -- the first loop
  copy_out-Copied :
      (fuel : ℕ) (q g : List ℕ) (s : Stream) (ss : StringStream)
      → length q ≤ fuel
      → Holds s q
      → Written str size ss g
      → Copied str size g q (copy_out (λ ss. ltb ss.offset ss.size) fuel s ss)
  unfolding copy_out
  copy_out-Copied zero [] g s ss le h w = Copied-stop [] g s ss h w (inl refl)
  copy_out-Copied zero (c ∷ cs) g s ss le h w = absurd (omega arith)
  copy_out-Copied (suc fuel) [] g s ss le h w =
      rw ((queue_observations h).3) (Copied-stop [] g s ss h w (inl refl))
  copy_out-Copied (suc fuel) (c ∷ cs) g s ss le h w = elim (Bool-cases (ltb (length g) size)) [
    | inl room ↦
        let (s', e, h') = extract_char_cons c cs h in
        rw (room_test c cs g s ss h w, room, e, copy_out)
          (Copied-more g c cs (
            copy_out-Copied fuel cs (g ++ c ∷ []) s' _ (omega arith) h'
              (Written-store ss g c (ltb→lt _ _ room) w)))
    | inr full ↦
        rw (room_test c cs g s ss h w, full)
          (Copied-stop (c ∷ cs) g s ss h w (inr (ltb_false→le _ _ full)))
  ]

  toss_out-Holds :
      (fuel : ℕ) (q : List ℕ) (s : Stream)
      → length q ≤ fuel
      → Holds s q
      → Holds (toss_out fuel s) []
  unfolding toss_out
  toss_out-Holds zero [] s le h = h
  toss_out-Holds zero (c ∷ cs) s le h = absurd (omega arith)
  toss_out-Holds (suc fuel) [] s le h = rw ((queue_observations h).3) h
  toss_out-Holds (suc fuel) (c ∷ cs) s le h =
      let (s', e, h') = extract_char_cons c cs h in
      let data_there : buf_has_data s ≡ true = rw ((queue_observations h).3) (ground arith) in
      rw (data_there, e, toss_out) (toss_out-Holds fuel cs s' (omega arith) h')

  -- the second loop
  commit_end :
      (rest g : List ℕ) (s : Stream) (ss : StringStream)
      → Holds s rest
      → Written str size ss g
      → (rest ≡ []) ⊎ (size ≤ length g)
      → Flushed str size (g ++ rest) (
          if buf_has_data s && leb ss.size (add32 ss.offset 1)
          then (toss_out (buf_used s) s, ss)
          else (s, ss))
  commit_end [] g s ss h w why = rw ((queue_observations h).3, append-nil) (h, w)
  commit_end (c ∷ cs) g s ss h w (inl e) = absurd (cc e)
  commit_end (c ∷ cs) g s ss h w (inr full) =
      let data_there : buf_has_data s ≡ true = rw ((queue_observations h).3) (ground arith) in
      let at_limit : leb ss.size (add32 ss.offset 1) ≡ true =
        le→leb ss.size (add32 ss.offset 1) (omega (arith, w.end_at, w.limit)) in
      rw (data_there, at_limit)
        (
          toss_out-Holds (buf_used s) (c ∷ cs) s (omega (arith, (queue_observations h).0)) h,
          Written-drop ss g (c ∷ cs) full w,
        )

  -- `snprintf_stream_commit` empties the buffer: the characters up to the limit are stored behind
  -- those before, and the others are dropped.
  pub snprintf_commit_lem :
      (all : List ℕ) (s : Stream) (ss : StringStream)
      → Accounts (Written str size) all s ss
      → Flushed str size all (snprintf_commit s ss)
  unfolding snprintf_commit
  snprintf_commit_lem all s ss a =
      let k =
        copy_out-Copied (buf_used s) a.queue a.taken s ss
          (omega (arith, (queue_observations a.holds).0)) a.holds a.consumed in
      let given : (a.taken ++ k.done) ++ k.rest ≡ all =
        append_assoc a.taken k.done k.rest ∙ ap (λ l. a.taken ++ l) k.split ∙ a.order in
      subst (λ l. Flushed str size l (snprintf_commit s ss)) given
        (commit_end k.rest (a.taken ++ k.done) _ _ k.holds k.written k.finished)

  Accounts-Flushed :
      (all : List ℕ) (r : Stream × StringStream)
      → Flushed str size all r
      → Accounts (Written str size) all r.0 r.1
  Accounts-Flushed all r (empty, w) = record {
    taken = all;
    queue = [];
    consumed = w;
    holds = empty;
    order = append-nil all;
  }

  -- A string stream of limited size, the limit below 2^32 - 1, keeps the documented contract of a
  -- backend: each operation at most consumes characters from the front of the queue, stores them
  -- up to the limit and drops the others, and there is room after `make_room`.
  pub snprintf-IsBackend : IsBackend (Written str size) (string_ops snprintf_commit)
  unfolding string_ops
  snprintf-IsBackend = record {
    commits =
        λ all s ss a. Accounts-Flushed all (snprintf_commit s ss) (snprintf_commit_lem all s ss a);
    makes_room = λ all s goal ss a.
        let f = snprintf_commit_lem all s ss a in
        (
          Accounts-Flushed all (snprintf_commit s ss) f,
          inr (omega (arith, queue_observations f.0, size_pos f.0)),
        );
    interrupts = λ all s ss a. (a, omega arith);
  }
