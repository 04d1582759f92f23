-- ===== src/Ring/Refine.antt =====
-- The ring's operations against the two counters of entries ever inserted and extracted.
use native.Mathlib.Nat.{mod-add-mod}
use xplain_software_framewor.Base.{
  ℕ, ◌+◌, ◌-◌, ◌%◌, ◌^◌, ◌≤◌, ◌<◌, min, ◌≡◌, refl, arith, ◌==◌, add32, u32_mod,
}
use xplain_software_framewor.Ring.{
  RingHead, get_head, get_tail, entries_used, entries_used_before_end, entries_unused,
  entries_unused_before_end, is_empty, is_full, insert_entries, extract_entries, reset,
}
use xplain_software_framewor.Ring.Counts.{
  Tracks, index_lem, used_lem, unused_lem, used_end_lem, unused_end_lem, size_small,
}

module _ (k : ℕ) (small : k < 32) {put taken : ℕ} {r : RingHead} (t : Tracks k put taken r) where
  empty_lem : is_empty r ≡ (put == taken)
  unfolding is_empty
  empty_lem = ground (arith, t.head_at, t.tail_at, t.ordered, t.fits, size_small k small)

  -- A ring of 2^k entries, k below 32, that holds the entries numbered from `taken` up to `put`
  -- reports the indices, the counts of used and unused entries (in all, and before the end of the
  -- array), emptiness and fullness that the two unbounded counters have, though its own counters
  -- wrap at 2^32.
  pub observations :
      (get_head r (2 ^ k) ≡ put % 2 ^ k)
      × (get_tail r (2 ^ k) ≡ taken % 2 ^ k)
      × (entries_used r ≡ put - taken)
      × (entries_unused r (2 ^ k) ≡ 2 ^ k - (put - taken))
      × (entries_used_before_end r (2 ^ k) ≡ min (put - taken) (2 ^ k - taken % 2 ^ k))
      × (entries_unused_before_end r (2 ^ k) ≡ min (2 ^ k - (put - taken)) (2 ^ k - put % 2 ^ k))
      × (is_empty r ≡ (put == taken))
      × (is_full r (2 ^ k) ≡ (put == taken + 2 ^ k))
  unfolding get_head get_tail is_full
  observations = (
    rw (t.head_at, index_lem k small put),
    rw (t.tail_at, index_lem k small taken),
    used_lem k small t,
    omega (arith, unused_lem k small t, t.ordered),
    used_end_lem k small t,
    omega (arith, unused_end_lem k small t, t.ordered),
    empty_lem,
    rw (used_lem k small t) (ground (arith, t.ordered, t.fits)),
  )

  -- In a ring of 2^k entries, k below 32, inserting at most the unused entries and extracting at
  -- most the used ones each moves its own counter by that number, alone and one after the other.
  pub steps :
      (n m : ℕ)
      → n ≤ entries_unused r (2 ^ k)
      → m ≤ entries_used r
      → Tracks k (put + n) taken (insert_entries r n)
        × Tracks k put (taken + m) (extract_entries r m)
        × Tracks k (put + n) (taken + m) (extract_entries (insert_entries r n) m)
  unfolding insert_entries extract_entries
  steps n m hn hm = (
    record {
      head_at = head_at';
      tail_at = t.tail_at;
      ordered = omega (arith, t.ordered);
      fits = fits';
    },
    record {
      head_at = t.head_at;
      tail_at = tail_at';
      ordered = ordered';
      fits = omega (arith, t.fits);
    },
    record {
      head_at = head_at';
      tail_at = tail_at';
      ordered = omega (arith, ordered');
      fits = omega (arith, fits');
    },
  )
    where
      head_at' : add32 r.head n ≡ (put + n) % u32_mod
      head_at' = rw (t.head_at, mod-add-mod put u32_mod n)

      tail_at' : add32 r.tail m ≡ (taken + m) % u32_mod
      tail_at' = rw (t.tail_at, mod-add-mod taken u32_mod m)

      fits' : put + n ≤ taken + 2 ^ k
      fits' = omega (arith, unused_lem k small t, t.fits)

      ordered' : taken + m ≤ put
      ordered' = omega (arith, used_lem k small t, t.ordered)

-- A ring that was reset holds no entry, and counts from zero.
pub Tracks-reset : (k : ℕ) (r : RingHead) → Tracks k 0 0 (reset r)
unfolding reset
Tracks-reset k r = record {
  head_at = refl;
  tail_at = refl;
  ordered = omega arith;
  fits = omega arith;
}
