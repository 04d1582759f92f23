-- ===== src/Stream/Write.antt =====
-- `stream_priv_write`, `stream_putstr` and `stream_putchar` over any backend that does what
-- include/stream.h says of it.
use native.Mathlib.Nat.{le_refl}
use xplain_software_framewor.Base.{
  ℕ, zero, suc, ◌≤◌, ◌<◌, min, ◌≡◌, ◌⊎◌, inl, inr, ◌∙◌, refl, sym, ap, true, false, Option, some,
  List, [], ◌∷◌, ◌++◌, append-nil, append_assoc, arith, length, take, drop, length-drop,
  take-append-drop, Bool, Bool-cases, ltb, ltb→lt, ltb_false→le,
}
use xplain_software_framewor.Stream.{
  Stream, Backend, buf_unused, buf_unused_before_end, write_part, ensure_room, write_loop,
  priv_write,
}
use xplain_software_framewor.Stream.Holds.{Holds}
use xplain_software_framewor.Stream.Buffer.{write_part_lem, unused_end_pos}

-- The stream and the backend account for exactly the characters of `all`, in order: the backend has
-- consumed the first ones, which `gone` relates to its state, and the buffer holds the others.
pub record Accounts {W : Type 0} (gone : W → List ℕ → Type 0) (all : List ℕ) (s : Stream) (w : W)
    : Type 0 where
  pub taken : List ℕ
  pub queue : List ℕ
  pub consumed : gone w taken
  pub holds : Holds s queue
  pub order : taken ++ queue ≡ all

-- What include/stream.h documents of a backend: each of its operations at most consumes
-- characters from the front of the queue, and when `make_room` returns true there is room for at
-- least one character.
pub record IsBackend {W : Type 0} (gone : W → List ℕ → Type 0) (ops : Backend W) : Type 0 where
  pub commits :
      (all : List ℕ) (s : Stream) (w : W)
      → Accounts gone all s w
      → let (s', w') = ops.commit s w in Accounts gone all s' w'
  pub makes_room :
      (all : List ℕ) (s : Stream) (goal : ℕ) (w : W)
      → Accounts gone all s w
      → let (room, s', w') = ops.make_room s goal w in
        Accounts gone all s' w' × ((room ≡ false) ⊎ (0 < buf_unused s'))
  pub interrupts :
      (all : List ℕ) (s : Stream) (w : W)
      → Accounts gone all s w
      → let (s', w') = ops.interrupt s w in Accounts gone all s' w' × (buf_unused s ≤ buf_unused s')

-- What is left of the characters, the stream and the backend after a round of the loop.
abbrev pub after_round : {W : Type 0} → Backend W → List ℕ → Stream → W → List ℕ × Stream × W
after_round ops cs s w =
    let (room, s1, w1) = ensure_room ops s (length cs) w in
    let (s2, w2) = ops.interrupt s1 w1 in let (s3, rest) = write_part s2 cs in (rest, s3, w2)

-- From a write of `cs`, rounds for which there is room lead to a write of what is left.
pub data Rounds {W : Type 0} (ops : Backend W)
    : List ℕ → Stream → W → List ℕ → Stream → W → Type 0 where
  no_more : {cs : List ℕ} {s : Stream} {w : W} → Rounds ops cs s w cs s w
  one_more :
      {c : ℕ} {cs rest : List ℕ} {s s' : Stream} {w w' : W}
      → (ensure_room ops s (length (c ∷ cs)) w).0 ≡ true
      → Rounds ops
          (after_round ops (c ∷ cs) s w).0
          (after_round ops (c ∷ cs) s w).1
          (after_round ops (c ∷ cs) s w).2
          rest
          s'
          w'
      → Rounds ops (c ∷ cs) s w rest s' w'

-- After some rounds of a write of `cs` there is too little room for the `rest`, and this very call
-- of `make_room` refuses, and leaves the stream and the backend that are returned.
pub record Refused {W : Type 0} (ops : Backend W) (cs : List ℕ) (s : Stream) (w : W) (rest : List ℕ)
    (stream : Stream) (backend : W) : Type 0 where
  pub last : Stream
  pub last_backend : W
  pub rounds : Rounds ops cs s w rest last last_backend
  pub few : buf_unused last < length rest
  pub refused : ops.make_room last (length rest) last_backend ≡ (false, stream, backend)

-- How a write of `cs` from `s` and `w` ends: it returns, and the characters of some front part of
-- `cs` have been accepted, in order, behind all that came before; all of `cs`, unless the last
-- round ended in a refusal of `make_room`.
pub record Wrote {W : Type 0} (gone : W → List ℕ → Type 0) (ops : Backend W) (all cs : List ℕ)
    (s : Stream) (w : W) (out : Option (Stream × W)) : Type 0 where
  pub stream : Stream
  pub backend : W
  pub accepted : List ℕ
  pub rest : List ℕ
  pub returned : out ≡ some (stream, backend)
  pub split : accepted ++ rest ≡ cs
  pub complete : (rest ≡ []) ⊎ Refused ops cs s w rest stream backend
  pub accounts : Accounts gone (all ++ accepted) stream backend

module _ {W : Type 0} {gone : W → List ℕ → Type 0} {ops : Backend W} (ok : IsBackend gone ops) where
  -- Behind the test at the top of the loop there is room for a character, or `make_room` refused.
  ensure_room_lem :
      (all : List ℕ) (s : Stream) (n : ℕ) (w : W)
      → Accounts gone all s w
      → let (room, s', w') = ensure_room ops s (suc n) w in
        Accounts gone all s' w'
        × ((room ≡ false) × (buf_unused s < suc n) × (ops.make_room s (suc n) w ≡ (false, s', w'))
            ⊎ (room ≡ true) × (0 < buf_unused s'))
  unfolding ensure_room
  ensure_room_lem all s n w a = elim (Bool-cases (ltb (buf_unused s) (suc n))) [
    | inl few ↦
        let (kept, room) = ok.makes_room all s (suc n) w a in
        let made = ops.make_room s (suc n) w in
        rw few (
          kept,
          elim (Bool-cases made.0) [
            | inl go ↦ inr (go, room_or_stop made.0 go room)
            | inr stop ↦ inl (stop, ltb→lt _ _ few, ap (λ (b : Bool). (b, made.1, made.2)) stop)
          ],
        )
    | inr enough ↦ rw enough (a, inr (refl, omega (arith, ltb_false→le _ _ enough)))
  ]
    where
      room_or_stop : {n : ℕ} (b : Bool) → b ≡ true → (b ≡ false) ⊎ (0 < n) → 0 < n
      room_or_stop b go (inl stop) = absurd (cc (go, stop))
      room_or_stop b go (inr space) = space

  Accounts-write_part :
      (all : List ℕ) (s : Stream) (w : W) (c : ℕ) (cs : List ℕ)
      → Accounts gone all s w
      → 0 < buf_unused s
      → let n = min (suc (length cs)) (buf_unused_before_end s) in
        Accounts gone (all ++ take n (c ∷ cs)) (write_part s (c ∷ cs)).0 w
        × ((write_part s (c ∷ cs)).1 ≡ drop n (c ∷ cs))
        × (0 < n)
  Accounts-write_part all s w c cs a room =
      let (held, rest) = write_part_lem a.holds (c ∷ cs) in
      let n = min (suc (length cs)) (buf_unused_before_end s) in
      (
        record {
          taken = a.taken;
          consumed = a.consumed;
          queue = a.queue ++ take n (c ∷ cs);
          holds = held;
          order = sym (append_assoc a.taken a.queue _) ∙ ap (λ l. l ++ take n (c ∷ cs)) a.order;
        },
        rest,
        omega (arith, unused_end_pos a.holds room),
      )

  Wrote-after :
      (all part : List ℕ) (c : ℕ) (cs : List ℕ) (s : Stream) (w : W) {out : Option (Stream × W)}
      → (ensure_room ops s (length (c ∷ cs)) w).0 ≡ true
      → let (cs1, s1, w1) = after_round ops (c ∷ cs) s w in
        part ++ cs1 ≡ c ∷ cs
        → Wrote gone ops (all ++ part) cs1 s1 w1 out
        → Wrote gone ops all (c ∷ cs) s w out
  Wrote-after all part c cs s w going e r = record {
    stream = r.stream;
    backend = r.backend;
    accepted = part ++ r.accepted;
    rest = r.rest;
    returned = r.returned;
    split = append_assoc part r.accepted r.rest ∙ ap (λ l. part ++ l) r.split ∙ e;
    complete = elim r.complete [
      | inl none_left ↦ inl none_left
      | inr stop ↦ inr (record {
        last = stop.last;
        last_backend = stop.last_backend;
        rounds = one_more going stop.rounds;
        few = stop.few;
        refused = stop.refused;
      })
    ];
    accounts = rw (← append_assoc all part r.accepted) r.accounts;
  }

  Wrote-stop :
      (all cs : List ℕ) (s s' : Stream) (w w' : W)
      → (cs ≡ []) ⊎ Refused ops cs s w cs s' w'
      → Accounts gone all s' w'
      → Wrote gone ops all cs s w (some (s', w'))
  Wrote-stop all cs s s' w w' why a = record {
    stream = s';
    backend = w';
    accepted = [];
    rest = cs;
    returned = refl;
    split = refl;
    complete = why;
    accounts = rw append-nil a;
  }

  pub write_loop-Wrote :
      (fuel : ℕ) (all cs : List ℕ) (s : Stream) (w : W)
      → length cs < fuel
      → Accounts gone all s w
      → Wrote gone ops all cs s w (write_loop ops fuel cs s w)
  unfolding write_loop
  write_loop-Wrote zero all cs s w h a = absurd (omega arith)
  write_loop-Wrote (suc fuel) all [] s w h a = Wrote-stop all [] s s w w (inl refl) a
  write_loop-Wrote (suc fuel) all (c ∷ cs) s w h a =
      let (room, s1, w1) = ensure_room ops s (suc (length cs)) w in
      let (s2, w2) = ops.interrupt s1 w1 in
      let n = min (suc (length cs)) (buf_unused_before_end s2) in
      let (a1, why) = ensure_room_lem all s (length cs) w a in
      let (a2, more) = ok.interrupts all s1 w1 a1 in
      elim why [
        | inl (stop, few, refused) ↦
            rw (stop, write_loop)
              (Wrote-stop all (c ∷ cs) s s1 w w1
                (inr (record {
                  last = s;
                  last_backend = w;
                  rounds = no_more;
                  few = few;
                  refused = refused;
                }))
                a1)
        | inr (going, space) ↦
            let (a3, rest, progress) = Accounts-write_part all s2 w2 c cs a2 (omega arith) in
            let (s3, cs1) = write_part s2 (c ∷ cs) in
            rw (going, write_loop)
              (Wrote-after all (take n (c ∷ cs)) c cs s w going
                (ap (λ l. take n (c ∷ cs) ++ l) rest ∙ take-append-drop n (c ∷ cs))
                (write_loop-Wrote fuel (all ++ take n (c ∷ cs)) cs1 s3 w2
                  (omega (arith, ap length rest, length-drop n (c ∷ cs))) a3))
      ]

  -- Over a backend that keeps the documented contract, `stream_priv_write` returns within as many
  -- rounds as there are characters, and accepts a front part of the characters, in order, behind
  -- those that came before. It is all of them, unless after some rounds of this call there was too
  -- little room for the others and `make_room` refused to make it: then the stream and the backend
  -- are what that call of `make_room` left. No character is lost, duplicated or reordered, whatever
  -- the backend and the interrupts consume meanwhile.
  pub priv_write-Wrote :
      (all cs : List ℕ) (s : Stream) (w : W)
      → Accounts gone all s w
      → Wrote gone ops all cs s w (priv_write ops cs s w)
  unfolding priv_write
  priv_write-Wrote all cs s w a =
      write_loop-Wrote (suc (length cs)) all cs s w (le_refl (suc (length cs))) a
