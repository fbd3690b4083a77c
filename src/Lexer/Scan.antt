-- ===== src/Lexer/Scan.antt =====
-- The loops of lexer.h over characters: runs, string literals and comments.
use gsc.Base.{ℕ, zero, suc, ◌+◌, ◌*◌, ◌%◌, Bool, false, not, ◌&&◌, ◌==◌, if◌then◌else◌, bit_xor}
use gsc.Lexer.{Token, Lexer, tell, lexer_advance, lexer_unget}
use gsc.Lexer.Char.{Condition}
use gsc.Token.{tk_string}

-- One round for each byte, and one for the end.
abbrev pub enough : Lexer → ℕ
enough l = suc l.stream.length

-- `hash ^= ch; hash *= prime;` on 32 bits.
abbrev pub fnv_step : ℕ → ℕ → ℕ
fnv_step hash ch = bit_xor hash ch * 0x01000193 % 4294967296

abbrev pub fnv_offset : ℕ
fnv_offset = 0x811c9dc5

-- The state of `lexer_parse_characters`.
pub record Run : Type 0 where
  pub lexer : Lexer
  pub type : ℕ
  pub hash : ℕ
  pub n : ℕ

unfoldable pub run_characters : Condition → ℕ → Run → Run
unfolding lexer_advance lexer_unget
run_characters cond zero r = r
run_characters cond (suc fuel) r =
    let (ch, l) = lexer_advance r.lexer in
    let (stops, type) = cond r.type ch in
    let rest =
      run_characters cond fuel
        (record { lexer = l; type = type; hash = fnv_step r.hash ch; n = r.n + 1 }) in
    if ch == 0
    then record r { lexer = l }
    else if stops
    then record r { lexer = lexer_unget l; type = type }
    else rest

-- The hash of the run, its token and the lexer behind it.
unfoldable pub lexer_parse_characters : Lexer → Token → ℕ → Condition → ℕ × Token × Lexer
unfolding run_characters
lexer_parse_characters l t type cond =
    let r =
      run_characters cond (enough l)
        (record { lexer = l; type = type; hash = fnv_offset; n = 0 }) in
    (r.hash, record t { type = r.type; offset = tell l; length = r.n }, r.lexer)

-- The state of `lexer_parse_string`.
pub record Literal : Type 0 where
  pub lexer : Lexer
  pub escaped : Bool
  pub n : ℕ

unfoldable pub run_string : ℕ → Literal → Literal
unfolding lexer_advance
run_string zero r = r
run_string (suc fuel) r =
    let (ch, l) = lexer_advance r.lexer in
    let rest =
      run_string fuel (record { lexer = l; escaped = not r.escaped && (ch == 92); n = r.n + 1 }) in
    if ch == 0
    then record r { lexer = l }
    else if (ch == b'"') && not r.escaped
    then record r { lexer = l }
    else rest

unfoldable pub lexer_parse_string : Lexer → Token → Token × Lexer
unfolding run_string
lexer_parse_string l t =
    let r = run_string (enough l) (record { lexer = l; escaped = false; n = 0 }) in
    (record t { type = tk_string; length = r.n }, r.lexer)

-- The loop of `lexer_parse_multiline_comment`: the lexer behind the comment and its length.
unfoldable pub run_comment : ℕ → ℕ → Lexer → ℕ → ℕ × Lexer
unfolding lexer_advance lexer_unget
run_comment initial zero l n = (n, l)
run_comment initial (suc fuel) l n =
    let (ch, l1) = lexer_advance l in
    let (second, l2) = lexer_advance l1 in
    let at_initial = run_comment initial fuel (lexer_unget l2) (n + 1) in
    let elsewhere = run_comment initial fuel l1 (n + 1) in
    if ch == 0
    then (n, l1)
    else if ch == initial
    then (if second == b'/' then (n, l2) else at_initial)
    else elsewhere

unfoldable pub lexer_parse_multiline_comment : Lexer → ℕ → Token → ℕ → Token × Lexer
unfolding run_comment
lexer_parse_multiline_comment l type t initial =
    let (n, l') = run_comment initial (enough l) l 0 in
    (record t { type = type; offset = tell l; length = n }, l')
