-- ===== src/Tests/Parsing.antt =====
-- The parser and `compile_file` on concrete inputs.
use gsc.Base.{ℕ, true, false, List, [], ◌∷◌, ◌≡◌, ◌⊎◌, refl, arith, codes}
use gsc.HashTrie.{init}
use gsc.Token.{tk_identifier}
use gsc.Compiler.Syntax.{
  Node, absent, end, node, ast_binary_expr, ast_call_expr, ast_identifier, ast_member_expr,
  ast_unary_expr,
}
use gsc.Parser.{
  Lexeme, Parser, parsed, failed, Failure, head, ◌>>=◌, take_token, pure, token_type, read_string,
}
use gsc.Parser.Prefix.{parse_nud, nud_literal, nud_unary}
use gsc.Parser.Infix.{parse_led, led_binary}
use gsc.Parser.Operators.{precedence, operator, next_precedence}
use gsc.Parser.Expression.{expression, parse_expression, led_loop}
use gsc.Parser.Program.{Function, Declarations, parse}
use gsc.Parser.Ends.Declarations.{parse-ends}
use gsc.Parser.Grammar.{Leaf, Expr}
use gsc.Parser.Grammar
use gsc.Parser.Grammar.Complete.{parse_expression-Expr}
use gsc.Parser.Grammar.Grouping.{binary_groups}
use gsc.Tests.Platform.{platform}
use gsc.Tests.Compiling.{tolower}

abbrev word : List ℕ → Lexeme
word text = record { type = tk_identifier; text = text }

abbrev sign : ℕ → Lexeme
sign c = record { type = c; text = c ∷ [] }

abbrev at : List Lexeme → Parser
at input = record { input = input; animtree = []; max_string_length = 16384 }

-- a - b * -c
sums :
    expression platform 10 (
      at (
        word (codes "a")
        ∷ sign b'-'
        ∷ word (codes "b")
        ∷ sign b'*'
        ∷ sign b'-'
        ∷ word (codes "c")
        ∷ []))
    ≡ parsed
        (ast_binary_expr b'-' (ast_identifier (codes "a")) (
          ast_binary_expr b'*'
            (ast_identifier (codes "b"))
            (ast_unary_expr (ast_identifier (codes "c")) b'-' true)))
        (at [])
unfolding expression parse_expression ◌>>=◌ take_token parse_nud operator nud_literal pure led_loop
    token_type precedence parse_led led_binary next_precedence nud_unary read_string
sums = refl

abbrev nothing : Declarations
nothing = record { includes = init ℕ; functions = init Function; globals = init Node }

-- a = b
abbrev short : List Lexeme
short = word (codes "main") ∷ sign b'(' ∷ sign b')' ∷ sign b'{' ∷ sign b'}' ∷ []

parse-ends_example :
    ((d : Declarations) × (p : Parser) × (parse platform tolower 6 nothing (at short) ≡ parsed d p)
      × ((head p.input).type ≡ 0))
    ⊎ ((why : Failure) × (parse platform tolower 6 nothing (at short) ≡ failed why))
parse-ends_example = parse-ends platform tolower 6 nothing (at short) (omega arith)

binary_groups_example :
    parse_expression platform 9 0
      (at (word (codes "a") ∷ sign b'-' ∷ word (codes "b") ∷ sign b'*' ∷ word (codes "c") ∷ []))
    ≡ parsed
        (ast_binary_expr b'-'
          (ast_identifier (codes "a"))
          (ast_binary_expr b'*' (ast_identifier (codes "b")) (ast_identifier (codes "c"))))
        (at [])
unfolding precedence operator read_string
binary_groups_example =
    binary_groups platform (at []) (word (codes "a")) (word (codes "b")) (word (codes "c"))
      (sign b'-') (sign b'*') (ast_identifier (codes "a")) (ast_identifier (codes "b"))
      (ast_identifier (codes "c")) (Grammar.name (codes "a")) (Grammar.name (codes "b"))
      (Grammar.name (codes "c")) refl refl 9 (omega arith)

-- a.b(c)
abbrev tokens : List Lexeme
tokens =
    word (codes "a") ∷ sign b'.' ∷ word (codes "b") ∷ sign b'(' ∷ word (codes "c") ∷ sign b')' ∷ []

abbrev tree : Node
tree =
    ast_call_expr false absent
      (ast_member_expr (ast_identifier (codes "a")) (ast_identifier (codes "b")) b'.')
      (node (ast_identifier (codes "c")) end)

tree-Expr : Expr platform 16384 0 0 tokens tree
unfolding precedence operator read_string
tree-Expr =
    Grammar.back {q = 80} {ts = word (codes "a") ∷ sign b'.' ∷ word (codes "b") ∷ []}
      (Grammar.back {q = 80} {ts = word (codes "a") ∷ []}
        (Grammar.front (Grammar.leaf (Grammar.name (codes "a")))) (omega arith) (omega arith)
        (Grammar.member (b'.' ∷ []) (codes "b") (omega arith)))
      (omega arith) (omega arith)
      (Grammar.call {ts = word (codes "c") ∷ []} (b'(' ∷ []) (b')' ∷ [])
        (Grammar.last (Grammar.front (Grammar.leaf (Grammar.name (codes "c"))))) (omega arith))

parse_expression-Expr_example :
    parse_expression platform 9 0 (
      at (
        word (codes "a")
        ∷ sign b'.'
        ∷ word (codes "b")
        ∷ sign b'('
        ∷ word (codes "c")
        ∷ sign b')'
        ∷ sign b';'
        ∷ []))
    ≡ parsed tree (at (sign b';' ∷ []))
unfolding precedence operator
parse_expression-Expr_example =
    parse_expression-Expr platform (at []) 0 0 9 tokens (sign b';' ∷ []) tree tree-Expr
      (omega arith) (omega arith) (omega arith)
