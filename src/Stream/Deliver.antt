-- ===== src/Stream/Deliver.antt =====
-- The public operations of util/stream/stream_core.c over a backend that never refuses: nothing
-- that they are given is lost.
use mathlib.Core.List.{flatten}
use xplain_software_framewor.Base.{
  ℕ, ◌≡◌, inl, inr, refl, sym, ◌∙◌, ap, true, Option, none, some, List, [], ◌∷◌, ◌++◌, append-nil,
  append_assoc, ◌==◌, if◌then◌else◌, Bool-cases, ==→eq, length,
}
use xplain_software_framewor.Stream.{
  Stream, Backend, priv_write, priv_putchar, putstr, putchar, then_write, then_commit,
}
use xplain_software_framewor.Stream.Write.{Accounts, IsBackend, Wrote, priv_write-Wrote}
use xplain_software_framewor.Stream.Printf.{PrintfConversion, Arg}
use xplain_software_framewor.Stream.Printf.Machine.{vprintf}

module _ {W : Type 0} (ops : Backend W) where
  -- the calls of `stream_priv_write`, one after the other
  pub write_calls : List (List ℕ) → Option (Stream × W) → Option (Stream × W)
  write_calls [] out = out
  write_calls (cs ∷ calls) out = write_calls calls (then_write ops out cs)

  abbrev with_count :
      ℕ → List (ℕ × ℕ) → Option (Stream × W) → Option (Stream × W × ℕ × List (ℕ × ℕ))
  with_count n stores none = none
  with_count n stores (some (s, w)) = some (s, w, n, stores)

  -- `stream_vprintf`: the stream, the value returned, and what %n conversions stored.
  pub stream_vprintf :
      PrintfConversion → List ℕ → List Arg → Stream → W → Option (Stream × W × ℕ × List (ℕ × ℕ))
  stream_vprintf conv format args s w = elim (vprintf conv format args) [
    | none ↦ none
    | some (calls, n, stores) ↦
        with_count n stores (then_commit ops (write_calls calls (some (s, w))))
  ]

-- The backend always makes room.
abbrev pub IsPatient : {W : Type 0} → Backend W → Type 0
IsPatient {W} ops = (s : Stream) (goal : ℕ) (w : W) → (ops.make_room s goal w).0 ≡ true

-- The operation returned, and has delivered exactly `cs` behind `all`.
pub record Delivers {W : Type 0} (gone : W → List ℕ → Type 0) (all cs : List ℕ)
    (out : Option (Stream × W)) : Type 0 where
  pub stream : Stream
  pub backend : W
  pub returned : out ≡ some (stream, backend)
  pub accounts : Accounts gone (all ++ cs) stream backend

module _ {W : Type 0} {gone : W → List ℕ → Type 0} {ops : Backend W} (ok : IsBackend gone ops)
    (patient : IsPatient ops) where
  priv_write-Delivers :
      (all cs : List ℕ) (s : Stream) (w : W)
      → Accounts gone all s w
      → Delivers gone all cs (priv_write ops cs s w)
  priv_write-Delivers all cs s w a = record {
    stream = r.stream;
    backend = r.backend;
    returned = r.returned;
    accounts = rw whole at r.accounts;
  }
    where
      r : Wrote gone ops all cs s w (priv_write ops cs s w)
      r = priv_write-Wrote ok all cs s w a

      whole : r.accepted ≡ cs
      whole = elim r.complete [
        | inl none_left ↦
            sym (append-nil r.accepted) ∙ ap (λ l. r.accepted ++ l) (sym none_left) ∙ r.split
        | inr stop ↦ absurd (cc (patient stop.last (length r.rest) stop.last_backend, stop.refused))
      ]

  then_write-Delivers :
      (all cs ds : List ℕ) {out : Option (Stream × W)}
      → Delivers gone all cs out
      → Delivers gone all (cs ++ ds) (then_write ops out ds)
  then_write-Delivers all cs ds d =
      let r = priv_write-Delivers (all ++ cs) ds d.stream d.backend d.accounts in
      record {
        stream = r.stream;
        backend = r.backend;
        returned = ap (λ out. then_write ops out ds) d.returned ∙ r.returned;
        accounts = rw (← append_assoc all cs ds) r.accounts;
      }

  write_calls-Delivers :
      (all done : List ℕ) (calls : List (List ℕ)) {out : Option (Stream × W)}
      → Delivers gone all done out
      → Delivers gone all (done ++ flatten calls) (write_calls ops calls out)
  unfolding write_calls flatten
  write_calls-Delivers all done [] d = rw append-nil d
  write_calls-Delivers all done (cs ∷ calls) d =
      rw (← append_assoc done cs (flatten calls))
        (write_calls-Delivers all (done ++ cs) calls (then_write-Delivers all done cs d))

  then_commit-Delivers :
      (all cs : List ℕ) {out : Option (Stream × W)}
      → Delivers gone all cs out
      → Delivers gone all cs (then_commit ops out)
  then_commit-Delivers all cs d = record {
    stream = (ops.commit d.stream d.backend).0;
    backend = (ops.commit d.stream d.backend).1;
    returned = ap (then_commit ops) d.returned;
    accounts = ok.commits (all ++ cs) d.stream d.backend d.accounts;
  }

  at_start :
      (all : List ℕ) (s : Stream) (w : W)
      → Accounts gone all s w
      → Delivers gone all [] (some (s, w))
  at_start all s w a = record {
    stream = s;
    backend = w;
    returned = refl;
    accounts = rw append-nil a;
  }

  -- `stream_putstr` sends the string as it is.
  pub putstr-Delivers :
      (all str : List ℕ) (s : Stream) (w : W)
      → Accounts gone all s w
      → Delivers gone all str (putstr ops str s w)
  unfolding putstr
  putstr-Delivers all str s w a = then_commit-Delivers all str (priv_write-Delivers all str s w a)

  -- Over a backend that keeps the documented contract and always makes room, `stream_putchar`
  -- sends the character, with a carriage return before a newline.
  pub putchar-Delivers :
      (all : List ℕ) (c : ℕ) (s : Stream) (w : W)
      → Accounts gone all s w
      → Delivers gone all (if c == 10 then 13 ∷ 10 ∷ [] else c ∷ []) (putchar ops c s w)
  unfolding putchar priv_putchar
  putchar-Delivers all c s w a = elim (Bool-cases (c == 10)) [
    | inl newline ↦ rw newline (
        then_commit-Delivers all (13 ∷ 10 ∷ []) (
          rw (==→eq c 10 newline) (
            then_write-Delivers all (13 ∷ []) (10 ∷ []) (priv_write-Delivers all (13 ∷ []) s w a))))
    | inr other ↦
        rw other (then_commit-Delivers all (c ∷ []) (priv_write-Delivers all (c ∷ []) s w a))
  ]

  -- Over a backend that keeps the documented contract and always makes room, `stream_vprintf`
  -- returns, for every format whose arguments fit it, the count and the stores of its state
  -- machine, and has delivered exactly the characters of the machine's calls, in order.
  pub stream_vprintf-Delivers :
      (conv : PrintfConversion) (format : List ℕ) (args : List Arg) (all : List ℕ) (s : Stream)
      (w : W) {calls : List (List ℕ)} {n : ℕ} {stores : List (ℕ × ℕ)}
      → Accounts gone all s w
      → vprintf conv format args ≡ some (calls, n, stores)
      → (s' : Stream) × (w' : W) × (stream_vprintf ops conv format args s w
          ≡ some (s', w', n, stores))
        × Accounts gone (all ++ flatten calls) s' w'
  unfolding stream_vprintf
  stream_vprintf-Delivers conv format args all s w {calls} {n} {stores} a e =
      let d =
        then_commit-Delivers all (flatten calls)
          (write_calls-Delivers all [] calls (at_start all s w a)) in
      (
        d.stream,
        d.backend,
        rw (e, stream_vprintf) (ap (with_count ops n stores) d.returned),
        d.accounts,
      )

  -- What the backend's commit establishes holds at the end of `stream_vprintf`.
  pub stream_vprintf-commit :
      (Q : List ℕ → Stream × W → Type 0)
      (flush : (all : List ℕ) (s : Stream) (w : W) → Accounts gone all s w → Q all (ops.commit s w))
      (conv : PrintfConversion) (format : List ℕ) (args : List Arg) (all : List ℕ) (s : Stream)
      (w : W) {calls : List (List ℕ)} {n : ℕ} {stores : List (ℕ × ℕ)}
      → Accounts gone all s w
      → vprintf conv format args ≡ some (calls, n, stores)
      → (s' : Stream) × (w' : W) × (stream_vprintf ops conv format args s w
          ≡ some (s', w', n, stores))
        × Q (all ++ flatten calls) (s', w')
  unfolding stream_vprintf
  stream_vprintf-commit Q flush conv format args all s w {calls} {n} {stores} a e =
      let d = write_calls-Delivers all [] calls (at_start all s w a) in
      (
        (ops.commit d.stream d.backend).0,
        (ops.commit d.stream d.backend).1,
        rw (e, stream_vprintf) (ap (λ o. with_count ops n stores (then_commit ops o)) d.returned),
        flush (all ++ flatten calls) d.stream d.backend d.accounts,
      )
