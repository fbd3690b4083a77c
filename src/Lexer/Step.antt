-- ===== src/Lexer/Step.antt =====
-- `lexer_step`: one token.
use gsc.Base.{
  ℕ, zero, suc, ◌+◌, ◌-◌, Bool, not, ◌&&◌, ◌||◌, Option, none, some, List, [], ◌∷◌, ◌==◌,
  if◌then◌else◌, bit_and,
}
use gsc.Lexer.{Token, Lexer, tell, lexer_advance, lexer_match_char, lexer_unget, lexer_unget_token}
use gsc.Lexer.Char.{
  is_digit, is_letter, cond_numeric, cond_ident, cond_file_ref, cond_single_line_comment,
  cond_whitespace,
}
use gsc.Lexer.Scan.{lexer_parse_characters, lexer_parse_string, lexer_parse_multiline_comment}
use gsc.Lexer.Keywords.{idents, match_hash}
use gsc.Token.{
  tk_identifier, tk_file_reference, tk_string, tk_number, tk_integer, tk_comment, tk_whitespace,
  tk_lshift, tk_rshift, tk_logical_and, tk_logical_or, tk_rshift_assign, tk_lshift_assign,
  tk_gequal, tk_lequal, tk_and_assign, tk_or_assign, tk_increment, tk_decrement,
  tk_scope_resolution, tk_div_assign, tk_plus_assign, tk_minus_assign, tk_xor_assign, tk_mod_assign,
  tk_mul_assign, tk_equal, tk_nequal,
}

abbrev pub flag_whitespace : ℕ
flag_whitespace = 2

abbrev pub flag_newlines : ℕ
flag_newlines = 4

abbrev pub flag_comments : ℕ
flag_comments = 8

abbrev pub has_flag : Lexer → ℕ → Bool
has_flag l flag = not (bit_and l.flags flag == 0)

-- What a case of the `switch` ends with: the token, or `goto repeat`.
pub data Outcome : Type 0 where
  found : Token → Lexer → Outcome
  repeat : Lexer → Outcome

-- `if(match(needle)) type = then; else if(…) …`: the first needle that is the next character gives
-- the token its type.
unfoldable pub match_first : List (ℕ × ℕ) → Lexer → Token → Token × Lexer
unfolding lexer_match_char
match_first [] l t = (t, l)
match_first ((needle, type) ∷ rest) l t =
    let (matches, l') = lexer_match_char l needle in
    let others = match_first rest l' t in if matches then (record t { type = type }, l') else others

-- `eq_op_char_map`
unfoldable pub eq_op : ℕ → ℕ
eq_op ch =
    if ch == b'^'
    then tk_xor_assign
    else if ch == b'%'
    then tk_mod_assign
    else if ch == b'*'
    then tk_mul_assign
    else if ch == b'='
    then tk_equal
    else tk_nequal

abbrev pub is_eq_operator : ℕ → Bool
is_eq_operator ch = ch == b'^' || ch == b'%' || ch == b'*' || ch == b'=' || ch == b'!'

-- `<` and `>`: a second one may be followed by `=`.
unfoldable pub match_shift : ℕ → ℕ → ℕ → ℕ → Lexer → Token → Token × Lexer
unfolding lexer_match_char match_first
match_shift ch shift shift_assign or_equal l t =
    let (doubled, l') = lexer_match_char l ch in
    if doubled
    then match_first ((b'=', shift_assign) ∷ []) l' (record t { type = shift })
    else match_first ((b'=', or_equal) ∷ []) l' t

unfoldable pub step_dot : Lexer → Token → Token × Lexer
unfolding lexer_advance lexer_unget lexer_unget_token lexer_parse_characters cond_numeric
step_dot l t =
    let (ch, l1) = lexer_advance l in
    let l2 = lexer_unget l1 in
    if is_digit ch
    then (let (h, t', l') =
          lexer_parse_characters (lexer_unget_token l2 t) t tk_number cond_numeric in
        (t', l'))
    else (t, l2)

abbrev pub kept_if : Lexer → ℕ → Token → Lexer → Outcome
kept_if l flag t' l' = if has_flag l flag then found t' l' else repeat l'

unfoldable pub step_slash : Lexer → Token → Outcome
unfolding lexer_advance lexer_unget lexer_parse_characters lexer_parse_multiline_comment
    cond_single_line_comment
step_slash l t =
    let (ch, l1) = lexer_advance l in
    let (h, line, after_line) = lexer_parse_characters l1 t tk_comment cond_single_line_comment in
    let (block, after_block) = lexer_parse_multiline_comment l1 tk_comment t ch in
    if ch == b'/'
    then kept_if l flag_comments line after_line
    else if ch == b'*' || ch == b'#'
    then kept_if l flag_comments block after_block
    else if ch == b'='
    then found (record t { type = tk_div_assign }) l1
    else found t (lexer_unget l1)

unfoldable pub step_space : Lexer → Token → Outcome
unfolding lexer_unget_token lexer_parse_characters cond_whitespace
step_space l t =
    let (h, t', l') =
      lexer_parse_characters (lexer_unget_token l t) t tk_whitespace cond_whitespace in
    kept_if l flag_whitespace t' l'

-- An identifier or a keyword; one before a backslash is read again as a file reference.
unfoldable pub step_word : Lexer → Token → Token × Lexer
step_word l t =
    let (h, t1, l1) = lexer_parse_characters (lexer_unget_token l t) t tk_identifier cond_ident in
    let t2 = record t1 { type = match_hash idents h t1.type } in
    let (slash, l2) = lexer_match_char l1 92 in
    let (g, t3, l3) =
      lexer_parse_characters (lexer_unget_token l2 t2) t2 tk_file_reference cond_file_ref in
    if t2.type == tk_identifier then (if slash then (t3, l3) else (t2, l2)) else (t2, l1)

unfoldable pub step_digit : Lexer → Token → Token × Lexer
step_digit l t =
    let (h, t', l') = lexer_parse_characters (lexer_unget_token l t) t tk_integer cond_numeric in
    (t', l')

abbrev pub ends : Token × Lexer → Outcome
ends (t, l) = found t l

-- The `switch` on the character that was read.
unfoldable pub step_char : ℕ → Lexer → Token → Outcome
unfolding is_digit is_letter
step_char ch l t =
    if ch == b'"'
    then ends (lexer_parse_string l (record t { offset = tell l }))
    else if ch == b'.'
    then ends (step_dot l t)
    else if is_eq_operator ch
    then ends (match_first ((b'=', eq_op ch) ∷ []) l t)
    else if ch == b':'
    then ends (match_first ((b':', tk_scope_resolution) ∷ []) l t)
    else if ch == b'-'
    then ends (match_first ((b'-', tk_decrement) ∷ (b'=', tk_minus_assign) ∷ []) l t)
    else if ch == b'+'
    then ends (match_first ((b'+', tk_increment) ∷ (b'=', tk_plus_assign) ∷ []) l t)
    else if ch == b'&'
    then ends (match_first ((b'=', tk_and_assign) ∷ (b'&', tk_logical_and) ∷ []) l t)
    else if ch == b'|'
    then ends (match_first ((b'=', tk_or_assign) ∷ (b'|', tk_logical_or) ∷ []) l t)
    else if ch == b'<'
    then ends (match_shift b'<' tk_lshift tk_lshift_assign tk_lequal l t)
    else if ch == b'>'
    then ends (match_shift b'>' tk_rshift tk_rshift_assign tk_gequal l t)
    else if ch == 9 || ch == 32 || ch == 13
    then step_space l t
    else if ch == 10
    then kept_if l flag_newlines t (record l { line = l.line + 1 })
    else if ch == b'/'
    then step_slash l t
    else if is_digit ch
    then ends (step_digit l t)
    else if is_letter ch || ch == b'_'
    then ends (step_word l t)
    else found t l

-- The last lines of the function: a token without a length gets what was read.
unfoldable pub finish : Token → Lexer → Token × Lexer
finish t l =
    let measured = t.length == 0 && not (t.type == tk_string) && not (t.type == tk_comment) in
    (
      record t { length = if measured then tell l - t.offset else t.length; next_offset = tell l },
      l,
    )

-- `none` is the end of the input; the fuel counts the passes through `repeat`.
unfoldable pub lexer_step : ℕ → Lexer → Option (Token × Lexer)
unfolding finish
lexer_step zero l = none
lexer_step (suc fuel) l =
    let (ch, l') = lexer_advance l in
    let t : Token = record {
      type = ch;
      offset = tell l;
      length = 0;
      next_offset = 18446744073709551615;
    } in
    if ch == 0 then none else elim (step_char ch l' t) [
      | found t' l'' ↦ some (finish t' l'')
      | repeat l'' ↦ lexer_step fuel l''
    ]
