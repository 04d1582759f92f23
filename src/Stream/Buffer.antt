-- ===== src/Stream/Buffer.antt =====
-- The buffer operations of a stream against the queue of bytes that it holds.
use native.Mathlib.Nat.{mod-lt, zero-add, suc-add, add-zero, add_assoc}
use native.Mathlib.Decide.{dec_lt}
use xplain_software_framewor.Base.{
  ℕ, zero, suc, ◌+◌, ◌-◌, ◌%◌, ◌^◌, ◌≤◌, ◌<◌, min, ◌≡◌, ◌⊎◌, inl, inr, ◌∙◌, refl, sym, true, false,
  not, none, some, List, [], ◌∷◌, ◌++◌, arith, length, get_or, set, take, drop, length-append,
  length-take, Bool-cases, ◌==◌, ==→eq, ==_false→ne,
}
use xplain_software_framewor.Base.Bits.{pow_pos}
use xplain_software_framewor.Ring
use xplain_software_framewor.Ring.Counts.{Tracks, size_small}
use xplain_software_framewor.Ring.Refine.{observations, steps}
use xplain_software_framewor.Stream.{
  Stream, buf_size, buf_has_data, buf_is_full, buf_unused, buf_used, buf_unused_before_end,
  buf_head, buf_tail, buf_insert_char, buf_extract_char, copy_to, write_part,
}
use xplain_software_framewor.Stream.Holds.{
  Holds, in_use_apart, place_add, length-copy_to, copy_to-outside, copy_to-inside,
}

pub get_or-append_left :
    (xs ys : List ℕ) (i : ℕ) → i < length xs → get_or (xs ++ ys) i 0 ≡ get_or xs i 0
get_or-append_left [] ys i h = absurd (omega arith)
get_or-append_left (x ∷ xs) ys zero h = refl
get_or-append_left (x ∷ xs) ys (suc i) h = get_or-append_left xs ys i (omega arith)

pub get_or-append_right :
    (xs ys : List ℕ) (d : ℕ) → get_or (xs ++ ys) (length xs + d) 0 ≡ get_or ys d 0
get_or-append_right [] ys d = rw zero-add
get_or-append_right (x ∷ xs) ys d = rw (suc-add (length xs) d) (get_or-append_right xs ys d)

module _ {s : Stream} {q : List ℕ} (h : Holds s q) where
  size_lem : buf_size s ≡ 2 ^ h.k
  unfolding buf_size
  size_lem = rw h.mask (omega (arith, pow_pos h.k, size_small h.k h.small))

  pub size_pos : 0 < buf_size s
  size_pos = rw size_lem (pow_pos h.k)

  -- A stream that holds a queue of at most its size says how many bytes are in use and free,
  -- and whether it is empty or full.
  pub queue_observations :
      (buf_used s ≡ length q)
      × (buf_unused s ≡ buf_size s - length q)
      × (length q ≤ buf_size s)
      × (buf_has_data s ≡ not (length q == 0))
      × (buf_is_full s ≡ (length q == buf_size s))
  unfolding buf_used buf_unused buf_has_data buf_is_full
  queue_observations = rw size_lem (
      let o = observations h.k h.small h.tracks in
      (
        omega (arith, o.2),
        omega (arith, o.3),
        omega (arith, h.tracks.fits),
        ground (arith, o.6),
        ground (arith, o.7),
      ))

  head_lem : buf_head s ≡ (h.taken + length q) % 2 ^ h.k
  unfolding buf_head
  head_lem = rw size_lem ((observations h.k h.small h.tracks).0)

  tail_lem : buf_tail s ≡ h.taken % 2 ^ h.k
  unfolding buf_tail
  tail_lem = rw size_lem ((observations h.k h.small h.tracks).1)

  end_lem :
      buf_unused_before_end s ≡ min (2 ^ h.k - length q) (2 ^ h.k - (h.taken + length q) % 2 ^ h.k)
  unfolding buf_unused_before_end
  end_lem = rw size_lem (omega (arith, (observations h.k h.small h.tracks).5))

  -- There is room before the end of the buffer whenever there is room at all.
  pub unused_end_pos : 0 < buf_unused s → 0 < buf_unused_before_end s
  unused_end_pos room =
      omega
        (arith, end_lem, size_lem, queue_observations.1, mod-lt (h.taken + length q) (pow_pos h.k))

  -- Writing a block at the head that ends before the buffer does and fits in the free space
  -- appends it to the queue.
  Holds-block :
      (xs : List ℕ)
      → length xs ≤ buf_unused_before_end s
      → Holds
          (record s {
            bytes = copy_to s.bytes (buf_head s) xs;
            ring = Ring.insert_entries s.ring (length xs);
          })
          (q ++ xs)
  Holds-block xs fit = record {
    k = h.k;
    taken = h.taken;
    small = h.small;
    mask = h.mask;
    storage = omega (arith, h.storage, length-copy_to s.bytes xs (buf_head s));
    tracks =
        let grown = (steps h.k h.small h.tracks (length xs) 0 free (omega arith)).0 in
        record {
          head_at =
              rw (length-append q xs, ← add_assoc h.taken (length q) (length xs)) grown.head_at;
          tail_at = grown.tail_at;
          ordered = omega arith;
          fits = omega (arith, length-append q xs, grown.fits);
        };
    stored = λ i lt. elim (dec_lt i (length q)) [
      | yes old ↦ rw head_lem (
          copy_to-outside s.bytes xs _ _ (
            in_use_apart (2 ^ h.k) (h.taken + i) (h.taken + length q) (length xs) (omega arith)
              (omega (arith, room)) (omega (arith, room)))
          ∙ h.stored i old
          ∙ sym (get_or-append_left q xs i old))
      | no fresh ↦
          rw head_lem (new_byte i (i - length q) (omega arith) (omega (arith, length-append q xs)))
    ];
  }
    where
      room :
          (length xs + length q ≤ 2 ^ h.k) × ((h.taken + length q) % 2 ^ h.k + length xs ≤ 2 ^ h.k)
      room =
          let place = mod-lt (h.taken + length q) (pow_pos h.k) in
          let full = h.tracks.fits in omega (arith, end_lem)

      free : length xs ≤ Ring.entries_unused s.ring (2 ^ h.k)
      free = omega (arith, room, (observations h.k h.small h.tracks).3)

      new_byte :
          (i d : ℕ)
          → i ≡ length q + d
          → d < length xs
          → get_or (copy_to s.bytes ((h.taken + length q) % 2 ^ h.k) xs) ((h.taken + i) % 2 ^ h.k) 0
            ≡ get_or (q ++ xs) i 0
      new_byte i d e lt =
          rw
            (
              e,
              ← add_assoc h.taken (length q) d,
              place_add (2 ^ h.k) (h.taken + length q) d (omega (arith, room)),
              get_or-append_right q xs d,
            )
            (copy_to-inside s.bytes xs ((h.taken + length q) % 2 ^ h.k) d
              (omega (arith, room, h.storage)) lt)

  -- In a stream that holds a queue, each round of `stream_priv_write` puts as many characters as
  -- fit before the end of the buffer behind the queue, in order, and keeps the rest.
  pub write_part_lem :
      (cs : List ℕ)
      → let n = min (length cs) (buf_unused_before_end s) in
        Holds (write_part s cs).0 (q ++ take n cs) × ((write_part s cs).1 ≡ drop n cs)
  unfolding write_part
  write_part_lem cs =
      let n = min (length cs) (buf_unused_before_end s) in
      let e : length (take n cs) ≡ n = length-take n cs (omega arith) in
      (rw e at (Holds-block (take n cs) (omega (arith, e))), refl)

  -- A stream that holds a queue and is not full takes a character behind it; a full one fails the
  -- assertion.
  pub insert_char_lem :
      (c : ℕ)
      → let r = buf_insert_char s c in
        (length q ≡ buf_size s) × (r ≡ none)
        ⊎ (length q < buf_size s) × ((s' : Stream) × (r ≡ some s') × Holds s' (q ++ c ∷ []))
  unfolding buf_insert_char
  insert_char_lem c = elim (Bool-cases (buf_is_full s)) [
    | inl full ↦ inl (==→eq _ _ (sym is_full_lem ∙ full), rw full)
    | inr space ↦ inr (
      below space,
      (
        record s { bytes = set s.bytes (buf_head s) c; ring = Ring.insert_entries s.ring 1 },
        rw space,
        unfold copy_to in
            Holds-block (c ∷ []) (unused_end_pos (omega (arith, queue_observations, below space))),
      ),
    )
  ]
    where
      is_full_lem : buf_is_full s ≡ (length q == buf_size s)
      is_full_lem = queue_observations.4

      below : buf_is_full s ≡ false → length q < buf_size s
      below space =
          let ne = ==_false→ne _ _ (sym is_full_lem ∙ space) in omega (arith, queue_observations.2)

-- Taking the first byte of a queue moves the tail past it.
Holds-tail :
    {s : Stream} (c : ℕ) (cs : List ℕ)
    → Holds s (c ∷ cs)
    → (get_or s.bytes (buf_tail s) 0 ≡ c)
      × Holds (record s { ring = Ring.extract_entries s.ring 1 }) cs
Holds-tail {s} c cs h = (
  rw (tail_lem h, ← add-zero h.taken) (h.stored 0 (omega arith)),
  record {
    k = h.k;
    taken = h.taken + 1;
    small = h.small;
    mask = h.mask;
    storage = h.storage;
    tracks = record {
      head_at = rw (one_less h.taken (length cs)) moved.head_at;
      tail_at = moved.tail_at;
      ordered = omega arith;
      fits = omega (arith, moved.fits);
    };
    stored = λ i lt. rw (one_less h.taken i) (h.stored (suc i) (omega arith));
  },
)
  where
    one_less : (a b : ℕ) → a + 1 + b ≡ a + suc b
    one_less a b = omega arith

    used : 1 ≤ Ring.entries_used s.ring
    used = omega (arith, (observations h.k h.small h.tracks).2)

    moved : Tracks h.k (h.taken + suc (length cs)) (h.taken + 1) (Ring.extract_entries s.ring 1)
    moved = (steps h.k h.small h.tracks 0 1 (omega arith) used).1

-- The first byte of a queue that is not empty can be taken.
pub extract_char_cons :
    {s : Stream} (c : ℕ) (cs : List ℕ)
    → Holds s (c ∷ cs)
    → (s' : Stream) × (buf_extract_char s ≡ some (c, s')) × Holds s' cs
unfolding buf_extract_char
extract_char_cons {s} c cs h =
    let (first, rest) = Holds-tail c cs h in
    let some_data : buf_has_data s ≡ true = rw ((queue_observations h).3) (ground arith) in
    (record s { ring = Ring.extract_entries s.ring 1 }, rw (some_data, first), rest)

-- A stream with a queue that is not empty gives its first byte and holds the others; an empty
-- one fails the assertion.
pub extract_char_lem :
    {s : Stream} (q : List ℕ)
    → Holds s q
    → let r = buf_extract_char s in
      (q ≡ []) × (r ≡ none)
      ⊎ ((c : ℕ) × (cs : List ℕ) × (s' : Stream) × (q ≡ c ∷ cs) × (r ≡ some (c, s')) × Holds s' cs)
unfolding buf_extract_char
extract_char_lem [] h = inl (refl, rw ((queue_observations h).3))
extract_char_lem (c ∷ cs) h =
    let (s', e, rest) = extract_char_cons c cs h in inr (c, cs, s', refl, e, rest)
