-- ===== src/Parser.antt =====
-- parse.h: the parser's state, and the steps that every rule of the grammar is made of. What the lexer
-- gives is a list of tokens with their texts: its first is `parser->token`, and where it is empty
-- that token is the end of the input, which `lexer_step` gives again and again.
pub mod Operators
pub mod Prefix
pub mod Infix
pub mod Expression
pub mod Statement
pub mod Program
pub mod Source
pub mod Whole
pub mod Ends
pub mod Grammar
use gsc.Base.{ℕ, ◌-◌, Bool, List, [], ◌∷◌, map, take, if◌then◌else◌, ◌==◌}

-- A token, and the bytes of the source that it spans.
pub record Lexeme : Type 0 where
  pub type : ℕ
  pub text : List ℕ

-- The rest of the parser's fields: the name of the animation tree, and the size of its buffer.
pub record Parser : Type 0 where
  pub input : List Lexeme
  pub animtree : List ℕ
  pub max_string_length : ℕ

-- How a run ends: with a value, with `lexer_error` or `syntax_error`, which do not return, or, in the
-- model only, without fuel.
pub data Failure : Type 0 where
  unexpected_token unexpected_nud unexpected_led expected_identifier : Failure
  expected_animtree max_arguments invalid_directive expected_declaration : Failure
  function_already_defined global_already_defined : Failure

pub data Outcome (A : Type 0) : Type 0 where
  parsed : A → Parser → Outcome A
  failed : Failure → Outcome A
  out_of_fuel : Outcome A

abbrev pub Parse : Type 0 → Type 0
Parse A = Parser → Outcome A

abbrev pub continue : {A B : Type 0} → Outcome A → (A → Parse B) → Outcome B
continue (parsed a p) rest = rest a p
continue (failed why) rest = failed why
continue out_of_fuel rest = out_of_fuel

infixl 10 ◌>>=◌ ◌>>◌
unfoldable pub ◌>>=◌ : {A B : Type 0} → Parse A → (A → Parse B) → Parse B
m >>= f = λ p. continue (m p) f

abbrev pub ◌>>◌ : {A B : Type 0} → Parse A → Parse B → Parse B
m >> n = m >>= λ _. n

unfoldable pub pure : {A : Type 0} → A → Parse A
pure a = λ p. parsed a p

unfoldable pub error : {A : Type 0} → Failure → Parse A
error why = λ p. failed why

unfoldable pub exhausted : {A : Type 0} → Parse A
exhausted = λ p. out_of_fuel

-- `parser->token` at the end of the input.
abbrev pub eof : Lexeme
eof = record { type = 0; text = [] }

abbrev pub head : List Lexeme → Lexeme
head [] = eof
head (t ∷ ts) = t

abbrev pub tail : List Lexeme → List Lexeme
tail [] = []
tail (t ∷ ts) = ts

-- `parser->token`
unfoldable pub token : Parse Lexeme
token = λ p. parsed (head p.input) p

unfoldable pub token_type : Parse ℕ
token_type = λ p. parsed (head p.input).type p

-- `Token t = parser->token; lexer_step(…);`
unfoldable pub take_token : Parse Lexeme
take_token = λ p. parsed (head p.input) (record p { input = tail p.input })

-- `advance(parser, type)`
unfoldable pub advance : ℕ → Parse (Unit {0})
advance type = λ p.
    if (head p.input).type == type
    then parsed tt (record p { input = tail p.input })
    else failed unexpected_token

-- `lexer_token_read_string` into a buffer of `size` bytes, the last of which is the final 0.
unfoldable pub read_string : ℕ → Lexeme → List ℕ
read_string size t = take (size - 1) t.text

-- `lexer_token_read_string` into `parser->string`, and the string's `strdup`.
unfoldable pub read_parser_string : Lexeme → Parse (List ℕ)
unfolding read_string
read_parser_string t = λ p. parsed (read_string p.max_string_length t) p

unfoldable pub current_animtree : Parse (List ℕ)
current_animtree = λ p. parsed p.animtree p

abbrev pub slash : ℕ → ℕ
slash c = if c == 92 then 47 else c

-- `convert_backslash`
unfoldable pub convert_backslash : List ℕ → List ℕ
convert_backslash = map slash
