-- ===== src/Ring/Tests.antt =====
-- A ring of four entries whose counters have wrapped.
use xplain_software_framewor.Base.{◌+◌, ◌-◌, ◌^◌, ◌≡◌, refl, false, arith}
use xplain_software_framewor.Ring.{
  RingHead, get_head, get_tail, entries_used, entries_used_before_end, entries_unused,
  entries_unused_before_end, is_empty, is_full,
}
use xplain_software_framewor.Ring.Counts.{Tracks}
use xplain_software_framewor.Ring.Refine.{observations}

-- two entries, of which one is the last of the array and the other the first
abbrev wrapped : RingHead
wrapped = record { head = 1; tail = 2 ^ 32 - 1 }

wrapped-Tracks : Tracks 2 (2 ^ 32 + 1) (2 ^ 32 - 1) wrapped
wrapped-Tracks = record {
  head_at = refl;
  tail_at = refl;
  ordered = omega arith;
  fits = omega arith;
}

observations_example :
    (get_head wrapped 4 ≡ 1)
    × (get_tail wrapped 4 ≡ 3)
    × (entries_used wrapped ≡ 2)
    × (entries_unused wrapped 4 ≡ 2)
    × (entries_used_before_end wrapped 4 ≡ 1)
    × (entries_unused_before_end wrapped 4 ≡ 2)
    × (is_empty wrapped ≡ false)
    × (is_full wrapped 4 ≡ false)
observations_example = observations 2 (omega arith) wrapped-Tracks
