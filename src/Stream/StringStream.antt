-- ===== src/Stream/StringStream.antt =====
-- util/stream/stream_string.c: a stream whose backend stores the characters in a string, and the
-- formatted output to strings on top of it.
pub mod Commit
pub mod Snprintf
mod Tests
use xplain_software_framewor.Base.{
  ℕ, zero, suc, Bool, true, ◌&&◌, Option, none, some, List, [], ◌∷◌, ltb, leb, if◌then◌else◌, ◌==◌,
  add32, sub32,
}
use xplain_software_framewor.Stream.{Stream, Backend, buf_has_data, buf_used, buf_extract_char}
use xplain_software_framewor.Stream.Printf.{PrintfConversion, Arg}
use xplain_software_framewor.Stream.Deliver.{stream_vprintf}

-- `struct string_stream` less its stream: the memory of the output string by its index, and the
-- number of bytes that may be written.
pub record StringStream : Type 0 where
  pub offset : ℕ
  pub size : ℕ
  pub text : ℕ → ℕ

abbrev pub set_char : (ℕ → ℕ) → ℕ → ℕ → ℕ → ℕ
set_char text i c j = if j == i then c else text j

-- `ss->string[ss->offset] = stream_buf_extract_char(s); ss->offset++;`. The loops test that there
-- is data.
abbrev pub store_char : Option (ℕ × Stream) → Stream → StringStream → Stream × StringStream
store_char none s ss = (s, ss)
store_char (some (c, s')) s ss =
    (s', record ss { offset = add32 ss.offset 1; text = set_char ss.text ss.offset c })

abbrev pub toss_char : Option (ℕ × Stream) → Stream → Stream
toss_char none s = s
toss_char (some (c, s')) s = s'

-- The loops end where the fuel does, which is the number of characters in the buffer.
pub copy_out : (StringStream → Bool) → ℕ → Stream → StringStream → Stream × StringStream
copy_out room zero s ss = (s, ss)
copy_out room (suc fuel) s ss =
    let (s', ss') = store_char (buf_extract_char s) s ss in
    let rest = copy_out room fuel s' ss' in if buf_has_data s && room ss then rest else (s, ss)

pub toss_out : ℕ → Stream → Stream
toss_out zero s = s
toss_out (suc fuel) s =
    let rest = toss_out fuel (toss_char (buf_extract_char s) s) in
    if buf_has_data s then rest else s

pub snprintf_commit : Stream → StringStream → Stream × StringStream
snprintf_commit s0 ss0 =
    let (s, ss) = copy_out (λ ss. ltb ss.offset ss.size) (buf_used s0) s0 ss0 in
    if buf_has_data s && leb ss.size (add32 ss.offset 1)
    then (toss_out (buf_used s) s, ss)
    else (s, ss)

pub sprintf_commit : Stream → StringStream → Stream × StringStream
sprintf_commit s ss = copy_out (λ _. true) (buf_used s) s ss

-- `string_stream_make_room` over either commit. No interrupt touches a string stream.
pub string_ops : (Stream → StringStream → Stream × StringStream) → Backend StringStream
string_ops commit = record {
  commit = commit;
  make_room = λ s goal ss. let (s', ss') = commit s ss in (true, s', ss');
  interrupt = λ s ss. (s, ss);
}

abbrev pub zeros : ℕ → List ℕ
zeros zero = []
zeros (suc n) = 0 ∷ zeros n

-- the stream at its start: the ring is empty, and the buffer of 32 bytes is cleared
abbrev pub fresh_stream : Stream
fresh_stream = record { ring = record { head = 0; tail = 0 }; ring_mask = 31; bytes = zeros 32 }

abbrev terminate_at : ℕ → (Stream × StringStream × ℕ × List (ℕ × ℕ)) → (ℕ → ℕ) × ℕ × List (ℕ × ℕ)
terminate_at i (s, ss, n, stores) = (set_char ss.text i 0, n, stores)

abbrev pub terminated :
    ℕ → Option (Stream × StringStream × ℕ × List (ℕ × ℕ)) → Option ((ℕ → ℕ) × ℕ × List (ℕ × ℕ))
terminated size none = none
terminated size (some (s, ss, n, stores)) =
    some (
      terminate_at (if leb size ss.offset then sub32 ss.offset 1 else ss.offset) (s, ss, n, stores))

-- The memory of `str` behind the call, the value returned, and what %n conversions stored. `conv`
-- is the conversion state that `stream_vprintf` leaves uninitialised.
pub snprintf :
    PrintfConversion → (ℕ → ℕ) → ℕ → List ℕ → List Arg → Option ((ℕ → ℕ) × ℕ × List (ℕ × ℕ))
snprintf conv str size format args = terminated size (
    stream_vprintf (string_ops snprintf_commit) conv format args fresh_stream
      (record { offset = 0; size = sub32 size 1; text = str }))

abbrev ended :
    Option (Stream × StringStream × ℕ × List (ℕ × ℕ)) → Option ((ℕ → ℕ) × ℕ × List (ℕ × ℕ))
ended none = none
ended (some (s, ss, n, stores)) = some (terminate_at ss.offset (s, ss, n, stores))

-- `ss.size` is zero, and not used.
pub sprintf : PrintfConversion → (ℕ → ℕ) → List ℕ → List Arg → Option ((ℕ → ℕ) × ℕ × List (ℕ × ℕ))
sprintf conv str format args = ended (
    stream_vprintf (string_ops sprintf_commit) conv format args fresh_stream
      (record { offset = 0; size = 0; text = str }))
