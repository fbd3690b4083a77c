-- ===== src/Parser/Whole.antt =====
-- lexer.h, main.c: the end of the list of tokens, and the calls of `lexer_step` behind it.
use gsc.Base.{ℕ, ◌+◌, Option, none, some, List, [], ◌∷◌, ◌≡◌}
use gsc.Stream
use gsc.Lexer.{Token, Lexer}
use gsc.Lexer.Scan.{enough}
use gsc.Lexer.Step.{lexer_step}
use gsc.Parser.{Lexeme}
use gsc.Parser.Source.{lexeme, lexemes}

-- The calls of `lexer_step` from a lexer on, up to the one that reports the end: each gives the same
-- however many passes it is allowed, beyond those that are enough.
pub data Reads : Lexer → List Lexeme → Type 0 where
  stops : {l : Lexer} → ((more : ℕ) → lexer_step (enough l + more) l ≡ none) → Reads l []
  takes :
      {l l' : Lexer} {t : Token} {ts : List Lexeme}
      → ((more : ℕ) → lexer_step (enough l + more) l ≡ some (t, l'))
      → Reads l' ts
      → Reads l (lexeme l' t ∷ ts)

-- What `lexemes` makes of a call.
abbrev listed : ℕ → Option (Token × Lexer) → List Lexeme
listed fuel none = []
listed fuel (some (t, l)) = lexeme l t ∷ lexemes fuel l
