-- ===== src/Lexer/Char.antt =====
-- The character classes of lexer.h: `cond_numeric_` and its kin. A condition is given the token's
-- type and a character, and gives whether the run stops there and the type from then on; each of
-- them sets `undo`, so the character that stops a run is not part of it.
use gsc.Base.{ℕ, Bool, true, false, not, ◌&&◌, ◌||◌, leb, ◌==◌, if◌then◌else◌}
use gsc.Token.{tk_number}

abbrev pub Condition : Type 0
Condition = ℕ → ℕ → Bool × ℕ

abbrev between : ℕ → ℕ → ℕ → Bool
between lo hi c = leb lo c && leb c hi

unfoldable pub is_digit : ℕ → Bool
is_digit c = between b'0' b'9' c

unfoldable pub is_letter : ℕ → Bool
is_letter c = between b'a' b'z' c || between b'A' b'Z' c

unfoldable pub cond_numeric : Condition
unfolding is_digit
cond_numeric type ch =
    if is_digit ch
    then (false, type)
    else if ch == b'e'
    then (false, type)
    else if ch == b'x'
    then (false, type)
    else if between b'a' b'f' ch
    then (false, type)
    else if between b'A' b'F' ch
    then (false, type)
    else if ch == b'.' || ch == b'f'
    then (false, tk_number)
    else (true, type)

unfoldable pub cond_ident : Condition
unfolding is_digit is_letter
cond_ident type ch =
    if is_letter ch
    then (false, type)
    else if is_digit ch
    then (false, type)
    else if ch == b'_'
    then (false, type)
    else (true, type)

unfoldable pub cond_file_ref : Condition
unfolding cond_ident
cond_file_ref type ch = if ch == 92 then (false, type) else cond_ident type ch

unfoldable pub cond_single_line_comment : Condition
cond_single_line_comment type ch = (ch == 13 || ch == 10, type)

unfoldable pub cond_whitespace : Condition
cond_whitespace type ch = (not (ch == 13 || ch == 32 || ch == 9), type)
