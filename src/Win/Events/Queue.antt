-- ===== src/Win/Events/Queue.antt =====
-- The event queue against the list of the events in it.
use xplain_software_framewor.Base.{
  ℕ, suc, ◌+◌, ◌%◌, ◌≤◌, ◌<◌, ◌≡◌, refl, sym, ap, subst, ◌∙◌, ◌⊎◌, inl, inr, arith, ◌==◌, true,
  false, Bool-cases, ==→eq, ==_false→ne, ne→==, eq→==, List, [], ◌∷◌, ◌++◌, length, length-append,
  add32,
}
use xplain_software_framewor.Ring.{RingHead}
use xplain_software_framewor.Ring
use xplain_software_framewor.Ring.Counts.{Tracks}
use xplain_software_framewor.Ring.Refine.{observations, steps}
use xplain_software_framewor.Stream.Holds.{mod_apart}
use xplain_software_framewor.Win.{assign}
use xplain_software_framewor.Win.Ring.{assign-eq, assign-ne}
use xplain_software_framewor.Win.Events.{
  WinEvent, WinEventQueue, event_queue_is_empty, event_queue_is_full, event_queue_get_tail,
  event_queue_push, event_queue_pop, win_queue_event,
}

-- The events, oldest first, in the places behind the tail.
abbrev pub Stored : (ℕ → WinEvent) → ℕ → List WinEvent → Type 0
Stored buffer taken [] = Unit
Stored buffer taken (e ∷ es) = (buffer (taken % 16) ≡ e) × Stored buffer (suc taken) es

pub record HoldsEvents (q : WinEventQueue) (es : List WinEvent) : Type 0 where
  pub taken : ℕ
  pub tracks : Tracks 4 (taken + length es) taken q.ring
  pub stored : Stored q.buffer taken es

-- A write to a free place.
Stored-assign :
    (buffer : ℕ → WinEvent) (taken : ℕ) (es : List WinEvent) (put : ℕ) (e : WinEvent)
    → taken + length es ≤ put
    → put < taken + 16
    → Stored buffer taken es
    → Stored (assign buffer (put % 16) e) taken es
Stored-assign buffer taken [] put e le lt s = tt
Stored-assign buffer taken (x ∷ es) put e le lt (here, s) = (
  assign-ne buffer (put % 16) e (taken % 16) (mod_apart 16 taken put (omega arith) lt) ∙ here,
  Stored-assign buffer (suc taken) es put e (omega arith) (omega arith) s,
)

Stored-snoc :
    (buffer : ℕ → WinEvent) (taken : ℕ) (es : List WinEvent) (e : WinEvent)
    → Stored buffer taken es
    → buffer ((taken + length es) % 16) ≡ e
    → Stored buffer taken (es ++ e ∷ [])
Stored-snoc buffer taken [] e s last =
    (ap buffer (let f : taken % 16 ≡ (taken + 0) % 16 = omega arith in f) ∙ last, tt)
Stored-snoc buffer taken (x ∷ es) e (here, s) last = (
  here,
  Stored-snoc buffer (suc taken) es e s (
      ap buffer
        (let f : (suc taken + length es) % 16 ≡ (taken + suc (length es)) % 16 = omega arith in f)
      ∙ last),
)

-- The event as it is stored.
abbrev pub stamped : WinEvent → WinEvent
stamped event = record event { timestamp = 0 }

push-HoldsEvents :
    (event : WinEvent) (q : WinEventQueue) (es : List WinEvent)
    → HoldsEvents q es
    → length es < 16
    → HoldsEvents (event_queue_push event 0 q) (es ++ stamped event ∷ [])
unfolding event_queue_push
push-HoldsEvents event q es h room =
    let seen = observations 4 (omega arith) h.tracks in
    let moved = steps 4 (omega arith) h.tracks 1 0 (omega (arith, seen.3)) (omega arith) in
    let put = h.taken + length es in
    rw seen.0 (record {
      taken = h.taken;
      tracks = rw (length-append es (stamped event ∷ [])) (
          subst (λ (n : ℕ). Tracks 4 n h.taken (Ring.insert_entries q.ring 1)) (omega arith)
            moved.0);
      stored =
          Stored-snoc (assign q.buffer (put % 16) (stamped event)) h.taken es (stamped event)
            (Stored-assign q.buffer h.taken es put (stamped event) (omega arith) (omega arith)
              h.stored)
            (assign-eq q.buffer (put % 16) (stamped event));
    })

pub pop-HoldsEvents :
    (q : WinEventQueue) (e : WinEvent) (es : List WinEvent)
    → HoldsEvents q (e ∷ es)
    → (event_queue_get_tail q ≡ e) × HoldsEvents (event_queue_pop q) es
unfolding event_queue_get_tail event_queue_pop
pop-HoldsEvents q e es h =
    let seen = observations 4 (omega arith) h.tracks in
    let moved = steps 4 (omega arith) h.tracks 0 1 (omega arith) (omega (arith, seen.2)) in
    (
      ap q.buffer seen.1 ∙ h.stored.0,
      record {
        taken = suc h.taken;
        tracks =
            subst (λ (n : ℕ). Tracks 4 n (suc h.taken) (Ring.extract_entries q.ring 1))
              (omega arith)
              (subst
                (λ (n : ℕ). Tracks 4 (h.taken + suc (length es)) n (Ring.extract_entries q.ring 1))
                (let f : h.taken + 1 ≡ suc h.taken = omega arith in f) moved.1);
        stored = h.stored.1;
      },
    )

pub is_empty_lem :
    (q : WinEventQueue) (es : List WinEvent)
    → HoldsEvents q es
    → event_queue_is_empty q ≡ (length es == 0)
unfolding event_queue_is_empty
is_empty_lem q es h =
    (observations 4 (omega arith) h.tracks).6 ∙ elim (Bool-cases (length es == 0)) [
      | inl none_left ↦ rw none_left (eq→== _ _ (let f = ==→eq _ _ none_left in omega (arith, f)))
      | inr some_left ↦
          rw some_left (ne→== _ _ (let f = ==_false→ne _ _ some_left in λ e. omega (arith, f, e)))
    ]

-- For a queue that holds events: `win_queue_event` gives the task of the queue to the main work
-- queue. It puts the event, with the timestamp 0, behind the others if there are fewer than 16,
-- and otherwise drops it and counts it as dropped.
pub queue_event_lem :
    (event : WinEvent) (q : WinEventQueue) (es : List WinEvent)
    → HoldsEvents q es
    → ((win_queue_event event q).task_added ≡ q.task_added + 1)
      × (((length es < 16)
            × HoldsEvents (win_queue_event event q) (es ++ stamped event ∷ [])
            × ((win_queue_event event q).num_dropped_events ≡ q.num_dropped_events))
          ⊎ ((length es ≡ 16)
              × HoldsEvents (win_queue_event event q) es
              × ((win_queue_event event q).num_dropped_events ≡ add32 q.num_dropped_events 1)))
unfolding win_queue_event event_queue_is_full
queue_event_lem event q es h = elim (Bool-cases (Ring.is_full q.ring 16)) [
  | inl full ↦ rw full (
    refl,
    inr (is_full full, record { taken = h.taken; tracks = h.tracks; stored = h.stored }, refl),
  )
  | inr space ↦ rw space (
    unfold event_queue_push in refl,
    inl (
      has_room space,
      push-HoldsEvents event (record q { task_added = q.task_added + 1 }) es
          (record { taken = h.taken; tracks = h.tracks; stored = h.stored }) (has_room space),
      unfold event_queue_push in refl,
    ),
  )
]
  where
    full_iff : Ring.is_full q.ring 16 ≡ (h.taken + length es == h.taken + 16)
    full_iff = (observations 4 (omega arith) h.tracks).7

    is_full : Ring.is_full q.ring 16 ≡ true → length es ≡ 16
    is_full e = let f = ==→eq _ _ (sym full_iff ∙ e) in omega arith

    has_room : Ring.is_full q.ring 16 ≡ false → length es < 16
    has_room e = let f = ==_false→ne _ _ (sym full_iff ∙ e) in omega (arith, h.tracks.fits)
