-- ===== src/Lexer.antt =====
-- lexer.h: tokens from a stream. The lexer's output, user pointer and jump buffer take no part in
-- what it returns and are left out. A loop of the source takes as fuel one more than the bytes that
-- the stream holds: each round reads one.
pub mod Scan
pub mod Forward
pub mod Loops
pub mod Again
pub mod Passes
pub mod Progress
pub mod Run
pub mod Word
pub mod Char
pub mod Step
pub mod Keywords
use gsc.Base.{ℕ, ◌+◌, ◌-◌, ◌≤◌, Bool, true, false, ◌&&◌, ◌||◌, leb, ◌==◌, if◌then◌else◌}
use gsc.Base.Int.{ℤ, pos}
use gsc.Stream.{StreamBuffer, Read, beg}
use gsc.Stream

pub record Token : Type 0 where
  pub type : ℕ
  pub offset : ℕ
  pub length : ℕ
  pub next_offset : ℕ

pub record Lexer : Type 0 where
  pub stream : StreamBuffer
  pub flags : ℕ
  pub line : ℕ

abbrev pub tell : Lexer → ℕ
tell l = l.stream.offset

abbrev seek_to : Lexer → ℕ → Lexer
seek_to l offset = record l { stream = Stream.seek l.stream (pos offset) beg }

-- `lexer_advance`: the next byte, or 0 where there is none.
pub lexer_advance : Lexer → ℕ × Lexer
unfolding Stream.advance
lexer_advance l = let (ch, s) = Stream.advance l.stream in (ch, record l { stream = s })

-- `lexer_match_char`: moves behind the needle only where it is the next byte.
pub lexer_match_char : Lexer → ℕ → Bool × Lexer
unfolding lexer_advance Stream.seek
lexer_match_char l needle =
    let r = Stream.read l.stream 1 1 in
    let next = lexer_advance l in
    if (r.count == 1) && (needle == next.0)
    then (true, next.1)
    else (false, seek_to next.1 (tell l))

-- `lexer_unget(l, NULL)` and `lexer_unget(l, t)`
pub lexer_unget : Lexer → Lexer
unfolding Stream.seek
lexer_unget l = if tell l == 0 then l else seek_to l (tell l - 1)

pub lexer_unget_token : Lexer → Token → Lexer
unfolding Stream.seek
lexer_unget_token l t = if tell l == 0 then l else seek_to l t.offset
