-- ===== src/Lexer/Word.antt =====
-- `lexer_step` on words and numbers.
use gsc.Base.{
  ℕ, suc, ◌+◌, true, false, ◌||◌, some, List, [], ◌∷◌, ◌++◌, ◌≡◌, ◌≢◌, refl, sym, ap, ◌∙◌, arith,
  ◌==◌, length,
}
use gsc.Stream.{StreamBuffer, Read, beg}
use gsc.Stream
use gsc.Lexer.{Token, Lexer, tell, lexer_advance, lexer_match_char, lexer_unget_token}
use gsc.Lexer.Char.{is_letter, is_digit, cond_ident}
use gsc.Lexer.Scan.{fnv_offset}
use gsc.Lexer.Run.{
  IsAt, IsRun, settle, fnv, move, IsAt-lt, IsAt-moves, advance_lem, lexer_parse_characters_lem,
}
use gsc.Lexer.Keywords.{idents, match_hash}
use gsc.Lexer.Step.{step_char, step_word, ends, finish, lexer_step}
use gsc.Token.{tk_identifier}

step_char-word :
    (c : ℕ) (l : Lexer) (t : Token)
    → is_letter c || c == b'_' ≡ true
    → step_char c l t ≡ ends (step_word l t)
unfolding step_char is_letter
step_char-word c l t h = ground arith

match-other :
    (l : Lexer) (needle c : ℕ) (rest : List ℕ)
    → IsAt l (c ∷ rest)
    → needle ≢ c
    → lexer_match_char l needle ≡ (false, l)
unfolding lexer_match_char Stream.seek Stream.read Stream.advance lexer_advance
match-other l needle c rest here other = rw here.left (ground (arith, IsAt-lt l c rest here))

unget_token-move :
    (l : Lexer) (t : Token) (c : ℕ) (rest : List ℕ)
    → IsAt l (c ∷ rest)
    → t.offset ≡ tell l
    → lexer_unget_token (move l 1) t ≡ l
unfolding lexer_unget_token Stream.seek
unget_token-move l t c rest here at = ground (arith, IsAt-lt l c rest here)

word-cond : (type c : ℕ) → (cond_ident type c).1 ≡ type
unfolding cond_ident is_letter is_digit
word-cond type c = ground arith

settle-word : (type : ℕ) (w : List ℕ) → settle cond_ident type w ≡ type
settle-word type [] = refl
settle-word type (c ∷ w) = rw (word-cond type c) (settle-word type w)

step_word_lem :
    (l : Lexer) (t : Token) (c stop : ℕ) (w rest : List ℕ)
    → t.offset ≡ tell l
    → IsAt l ((c ∷ w) ++ (stop ∷ rest))
    → IsRun cond_ident tk_identifier (c ∷ w)
    → stop ≢ 0
    → stop ≢ 92
    → (cond_ident tk_identifier stop).0 ≡ true
    → step_word (move l 1) t ≡ (
      record t {
        type = match_hash idents (fnv fnv_offset (c ∷ w)) tk_identifier;
        offset = tell l;
        length = length (c ∷ w);
      },
      move l (length (c ∷ w)),
    )
unfolding step_word
step_word_lem l t c stop w rest at here goes nonzero slash stops =
    let settled = settle-word tk_identifier (c ∷ w) in
    let last = word-cond tk_identifier stop in
    let parsed =
      lexer_parse_characters_lem cond_ident (c ∷ w) l t tk_identifier stop rest here goes nonzero
        (rw settled stops) in
    let other =
      match-other (move l (length (c ∷ w))) 92 stop rest (IsAt-moves (c ∷ w) l (stop ∷ rest) here)
        (λ e. slash (sym e)) in
    rw (unget_token-move l t c (w ++ (stop ∷ rest)) here at, parsed, settled, last, other)
      (ground arith)

finish-measured :
    (t : Token) (l : Lexer) → t.length ≢ 0 → finish t l ≡ (record t { next_offset = tell l }, l)
unfolding finish
finish-measured t l h = ground arith

-- A word in the source is one token of `lexer_step`: letters, digits and underscores that do not
-- begin with a digit, up to a character that is none of these, nor 0 or a backslash. The token starts
-- at the word, is as long as the word and ends before the next token; its type is the keyword under
-- the word's FNV-1a hash, or an identifier where the table has none. The lexer stands behind the
-- word.
pub lexer_step-word :
    (l : Lexer) (fuel c stop : ℕ) (w rest : List ℕ)
    → IsAt l ((c ∷ w) ++ (stop ∷ rest))
    → is_letter c || c == b'_' ≡ true
    → IsRun cond_ident tk_identifier (c ∷ w)
    → stop ≢ 0
    → stop ≢ 92
    → (cond_ident tk_identifier stop).0 ≡ true
    → let n = length (c ∷ w) in
      lexer_step (suc fuel) l
      ≡ some (
        record {
          type = match_hash idents (fnv fnv_offset (c ∷ w)) tk_identifier;
          offset = tell l;
          length = n;
          next_offset = tell l + n;
        },
        move l n,
      )
unfolding lexer_step
lexer_step-word l fuel c stop w rest here first goes nonzero slash stops =
    let t : Token = record {
      type = c;
      offset = tell l;
      length = 0;
      next_offset = 18446744073709551615;
    } in
    let word = step_word_lem l t c stop w rest refl here goes nonzero slash stops in
    let read = advance_lem l c (w ++ (stop ∷ rest)) here in
    let chosen = step_char-word c (move l 1) t first ∙ ap ends word in
    let token : Token = record t {
      type = match_hash idents (fnv fnv_offset (c ∷ w)) tk_identifier;
      length = length (c ∷ w);
    } in
    let nonempty : c == 0 ≡ false = ground (arith, goes.0) in
    rw (read, nonempty, chosen)
      (ap some (finish-measured token (move l (length (c ∷ w))) (omega arith)))
