-- ===== src/Parser/Source.antt =====
-- lexer.h: the text of a token, and the tokens of a source as the parser gets them from `lexer_step`.
use gsc.Base.{
  ℕ, zero, suc, ◌+◌, ◌-◌, none, some, List, [], ◌∷◌, ◌++◌, ◌==◌, ltb, length, if◌then◌else◌,
}
use gsc.Base.Int.{pos}
use gsc.Stream.{beg, Read}
use gsc.Stream
use gsc.Lexer.{Token, Lexer, tell}
use gsc.Lexer.Scan.{enough}
use gsc.Lexer.Step.{lexer_step}
use gsc.Parser.{Lexeme}

-- `lexer_token_read_string`: the text, and the lexer, which stands where it stood.
unfoldable pub lexer_token_read_string : Lexer → Token → ℕ → List ℕ × Lexer
lexer_token_read_string l t size =
    if t.length == 0
    then ([], l)
    else let n = if ltb t.length (size - 1) then t.length else size - 1 in
      let r = Stream.read (Stream.seek l.stream (pos t.offset) beg) 1 n in
      (r.bytes, record l { stream = Stream.seek r.stream (pos (tell l)) beg })

-- The whole text of a token.
unfoldable pub lexeme : Lexer → Token → Lexeme
lexeme l t = record { type = t.type; text = (lexer_token_read_string l t (t.length + 1)).0 }

-- All tokens, up to the end of the input. Each takes a byte at least, and so does each pass through
-- `repeat`.
unfoldable pub lexemes : ℕ → Lexer → List Lexeme
lexemes zero l = []
lexemes (suc fuel) l = elim (lexer_step (enough l) l) [
  | none ↦ []
  | some (t, l') ↦ lexeme l' t ∷ lexemes fuel l'
]

-- The lexer that `compile_file` makes of a text: the buffer ends with a 0.
unfoldable pub lexer_of : List ℕ → Lexer
lexer_of text = record {
  stream = Stream.init (text ++ (0 ∷ [])) (length text + 1);
  flags = 1;
  line = 0;
}

unfoldable pub tokens : List ℕ → List Lexeme
tokens text = lexemes (length text + 2) (lexer_of text)
