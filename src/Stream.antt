-- ===== src/Stream.antt =====
-- stream_buffer.h: a stream over a buffer in memory, and the calls of stream.h that lexer.h makes.
-- `realloc` is the C library's; a stream whose `grow` is set uses the one function of the source
-- that grows it. Sizes are below 2 ^ 63, so no sum of them wraps.
pub mod Laws
use gsc.Base.{
  ℕ, ◌+◌, ◌-◌, ◌*◌, ◌%◌, ◌≤◌, Bool, true, false, List, [], ◌∷◌, ◌++◌, ltb, leb, ◌==◌, if◌then◌else◌,
  take, drop, length, get_or,
}
use gsc.Base.Word.{word_mod}
use gsc.Base.Int.{ℤ, pos, negsuc}

pub record StreamBuffer : Type 0 where
  pub offset : ℕ
  pub length : ℕ
  pub buffer : List ℕ
  pub grow : Bool

pub data Whence : Type 0 where
  beg cur end : Whence

-- What a read gives: the count that it returns, the bytes it copies, and the stream.
pub record Read : Type 0 where
  pub count : ℕ
  pub bytes : List ℕ
  pub stream : StreamBuffer

-- A read past the end is cut, and still returns `nmemb` if a byte is left.
unfoldable pub read : StreamBuffer → ℕ → ℕ → Read
read s size nmemb =
    let asked = size * nmemb % word_mod in
    let nb = if ltb s.length (s.offset + asked) then s.length - s.offset else asked in
    if nb == 0 then record { count = 0; bytes = []; stream = s } else record {
      count = nmemb;
      bytes = take nb (drop s.offset s.buffer);
      stream = record s { offset = s.offset + nb };
    }

-- `stream_buffer_buffer_grow_realloc`
grow_realloc : (List ℕ → ℕ → List ℕ) → StreamBuffer → ℕ → StreamBuffer
grow_realloc realloc s size = record s { buffer = realloc s.buffer (size * 2); length = size * 2 }

-- `memcpy(&sd->buffer[sd->offset], ptr, nb)`, and the new offset.
pub store : StreamBuffer → List ℕ → ℕ → StreamBuffer
store s bytes nb = record s {
  buffer = take s.offset s.buffer ++ (take nb bytes ++ drop (s.offset + nb) s.buffer);
  offset = s.offset + nb;
}

pub write : (List ℕ → ℕ → List ℕ) → StreamBuffer → List ℕ → ℕ → ℕ → ℕ × StreamBuffer
unfolding grow_realloc store
write realloc s bytes size nmemb =
    let nb = size * nmemb % word_mod in
    if ltb s.length (s.offset + nb)
    then (if s.grow
        then (nmemb, store (grow_realloc realloc s (s.offset + nb)) bytes nb)
        else (0, s))
    else (nmemb, store s bytes nb)

eof : StreamBuffer → Bool
eof s = leb s.length s.offset

pub tell : StreamBuffer → ℕ
tell s = s.offset

abbrev pub base_of : StreamBuffer → Whence → ℕ
base_of s beg = 0
base_of s cur = s.offset
base_of s end = s.length

-- `current += offset`, and 0 where the sum is negative.
abbrev pub target : ℕ → ℤ → ℕ
target base (pos n) = base + n
target base (negsuc n) = if ltb base (n + 1) then 0 else base - (n + 1)

unfoldable pub seek : StreamBuffer → ℤ → Whence → StreamBuffer
seek s offset whence =
    let current = target (base_of s whence) offset in
    record s { offset = if leb s.length current then s.length else current }

-- `init_stream_from_buffer`
unfoldable pub init : List ℕ → ℕ → StreamBuffer
init buffer length = record { offset = 0; length = length; buffer = buffer; grow = false }

-- `stream_unget` and `stream_advance`; a failed read leaves the 0 that the byte started as.
unget : StreamBuffer → StreamBuffer
unfolding seek
unget s = seek s (if s.offset == 0 then negsuc 0 else pos (s.offset - 1)) beg

unfoldable pub advance : StreamBuffer → ℕ × StreamBuffer
unfolding read
advance s = let r = read s 1 1 in (get_or r.bytes 0 0, r.stream)

-- `stream_current`
current : StreamBuffer → ℕ × StreamBuffer
unfolding read unget
current s =
    let r = read s 1 1 in
    if r.count == 1 then (get_or r.bytes 0 0, unget r.stream) else (0, r.stream)
