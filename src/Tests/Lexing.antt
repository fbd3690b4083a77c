-- ===== src/Tests/Lexing.antt =====
-- lexer.h on concrete inputs.
use gsc.Parser.Source
use gsc.Base.{
  ℕ, ◌+◌, ◌==◌, ◌||◌, true, some, List, [], ◌∷◌, ◌++◌, map, ◌≡◌, refl, arith, length, codes,
}
use gsc.Stream.{init}
use gsc.Lexer.{Token, Lexer, tell}
use gsc.Lexer.Char.{is_letter, cond_ident, cond_numeric}
use gsc.Lexer.Scan.{fnv_offset, lexer_parse_characters}
use gsc.Lexer.Keywords.{idents, match_hash}
use gsc.Lexer.Run.{IsAt, IsRun, settle, fnv, move, lexer_parse_characters_lem}
use gsc.Lexer.Step.{lexer_step}
use gsc.Lexer.Word.{lexer_step-word}
use gsc.Token.{
  tk_identifier, tk_for, tk_while, tk_if, tk_else, tk_do, tk_continue, tk_break, tk_return,
  tk_switch, tk_default, tk_case, tk_true, tk_false, tk_undefined, tk_null, tk_in, tk_foreach,
  tk_thread, tk_wait, tk_self, tk_waittillframeend, tk_integer,
}

-- The type that a word gets.
abbrev word_type : List ℕ → ℕ
word_type w = match_hash idents (fnv fnv_offset w) tk_identifier

-- The hashes of the table are those of the keywords.
keyword_types :
    map word_type (
      codes "for"
      ∷ codes "while"
      ∷ codes "if"
      ∷ codes "else"
      ∷ codes "do"
      ∷ codes "continue"
      ∷ codes "break"
      ∷ codes "return"
      ∷ codes "switch"
      ∷ codes "default"
      ∷ codes "case"
      ∷ codes "true"
      ∷ codes "false"
      ∷ codes "undefined"
      ∷ codes "null"
      ∷ codes "in"
      ∷ codes "foreach"
      ∷ codes "thread"
      ∷ codes "wait"
      ∷ codes "self"
      ∷ codes "waittillframeend"
      ∷ [])
    ≡ tk_for ∷ tk_while ∷ tk_if ∷ tk_else ∷ tk_do ∷ tk_continue ∷ tk_break ∷ tk_return ∷ tk_switch
      ∷ tk_default ∷ tk_case ∷ tk_true ∷ tk_false ∷ tk_undefined ∷ tk_null ∷ tk_in ∷ tk_foreach
      ∷ tk_thread ∷ tk_wait ∷ tk_self ∷ tk_waittillframeend ∷ []
unfolding match_hash
keyword_types = refl

abbrev lexer_of : List ℕ → Lexer
lexer_of bytes = record { stream = init bytes (length bytes); flags = 0; line = 0 }

abbrev source : Lexer
source = lexer_of (codes "wait 0.5;")

source-IsAt : IsAt source (codes "wait" ++ (32 ∷ codes "0.5;"))
unfolding init
source-IsAt = record { left = refl; whole = refl }

wait-IsRun : IsRun cond_ident tk_identifier (codes "wait")
unfolding cond_ident
wait-IsRun = ground arith

w-starts : is_letter b'w' || b'w' == b'_' ≡ true
unfolding is_letter
w-starts = refl

space-stops : (cond_ident tk_identifier 32).0 ≡ true
unfolding cond_ident
space-stops = refl

lexer_step-word_example :
    lexer_step 1 source
    ≡ some (
      record {
        type = match_hash idents (fnv fnv_offset (codes "wait")) tk_identifier;
        offset = tell source;
        length = 4;
        next_offset = tell source + 4;
      },
      move source 4,
    )
lexer_step-word_example =
    lexer_step-word source 0 b'w' 32 (codes "ait") (codes "0.5;") source-IsAt w-starts wait-IsRun
      (λ e. omega arith) (λ e. omega arith) space-stops

-- A number of the source: its type becomes that of a float at the point.
abbrev number : Lexer
number = lexer_of (codes "0.5;")

number-IsAt : IsAt number (codes "0.5" ++ (b';' ∷ []))
unfolding init
number-IsAt = record { left = refl; whole = refl }

number-IsRun : IsRun cond_numeric tk_integer (codes "0.5")
unfolding cond_numeric
number-IsRun = ground arith

semicolon-stops : (cond_numeric (settle cond_numeric tk_integer (codes "0.5")) b';').0 ≡ true
unfolding cond_numeric
semicolon-stops = refl

abbrev no_token : Token
no_token = record { type = 0; offset = 0; length = 0; next_offset = 0 }

lexer_parse_characters_lem_example :
    lexer_parse_characters number no_token tk_integer cond_numeric ≡ (
      fnv fnv_offset (codes "0.5"),
      record no_token {
        type = (cond_numeric (settle cond_numeric tk_integer (codes "0.5")) b';').1;
        offset = tell number;
        length = 3;
      },
      move number 3,
    )
lexer_parse_characters_lem_example =
    lexer_parse_characters_lem cond_numeric (codes "0.5") number no_token tk_integer b';' []
      number-IsAt number-IsRun (λ e. omega arith) semicolon-stops
