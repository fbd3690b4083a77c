-- ===== src/Parser/Prefix.antt =====
-- precedence.c: names and arguments of calls, and the functions for a token in front of an expression.
-- `expr` is `parse_expression`; the loop over arguments has its fuel as an argument.
use gsc.Base.{
  ℕ, zero, suc, ◌+◌, true, Option, none, some, List, [], ◌∷◌, leb, ◌==◌, if◌then◌else◌, bytes_eq,
  codes,
}
use gsc.Platform.{Platform}
use gsc.Token.{
  tk_identifier, tk_file_reference, tk_string, tk_number, tk_integer, tk_scope_resolution, tk_true,
  tk_false, tk_undefined, tk_null,
}
use gsc.Compiler.Syntax.{
  Node, absent, present, Nodes, end, node, ast_function_pointer_expr, ast_struct_expr,
  ast_array_expr, ast_group_expr, ast_call_expr, ast_file_reference, ast_identifier, ast_literal,
  ast_self, ast_unary_expr, ast_vector_expr, literal_string, literal_localized_string,
  literal_integer, literal_boolean, literal_float, literal_function, literal_undefined,
}
use gsc.Parser.{
  Lexeme, Parse, ◌>>=◌, ◌>>◌, pure, error, exhausted, token, token_type, advance, read_string,
  read_parser_string, current_animtree, convert_backslash, unexpected_token, max_arguments,
  expected_animtree, unexpected_nud,
}
use gsc.Parser.Operators.{
  Nud, no_nud, unary, literal, group, array, struct, self, file_ref, thread_call, precedence,
}

-- `strchr(s, c)`: what follows the first `c`.
unfoldable pub after_char : ℕ → List ℕ → Option (List ℕ)
after_char c [] = none
after_char c (x ∷ xs) = if x == c then some xs else after_char c xs

-- `lexer_token_read_int`
unfoldable pub read_int : Platform → Lexeme → ℕ
unfolding after_char read_string
read_int lib t = elim (after_char b'x' (read_string 64 t)) [
  | some digits ↦ lib.strtoll_hex digits
  | none ↦ lib.strtoll (read_string 64 t)
]

-- `lexer_token_read_float`
unfoldable pub read_float : Platform → Lexeme → ℕ
unfolding read_string
read_float lib t = lib.atof (read_string 256 t)

-- An identifier from a token, and the `TK_IDENTIFIER` that stands next.
abbrev pub identifier : Lexeme → Node
identifier t = ast_identifier (read_string 256 t)

unfoldable pub take_identifier : Parse Node
take_identifier = do t ← token; advance tk_identifier; pure (identifier t)

-- `expr`: what parses an expression of at least a precedence.
module _ (expr : ℕ → Parse Node) where
  -- `parse_function_name` with a token that has been taken already.
  unfoldable pub function_name_of : Lexeme → Parse Node
  function_name_of t =
      if t.type == b'['
      then (do pure (ast_function_pointer_expr (← expr 0)))
      else if t.type == tk_file_reference
      then (do
        advance tk_scope_resolution
        name ← take_identifier
        let file = ast_file_reference (convert_backslash (read_string 256 t))
        pure (ast_literal (literal_function (present file) name)))
      else pure (identifier t)

  -- `parse_function_name(parser, NULL)`: the token is the current one.
  unfoldable pub function_name : Parse Node
  function_name = do
    t ← token
    if t.type == b'['
        then (do
          advance b'['
          advance b'['
          name ← function_name_of t
          advance b']'
          advance b']'
          pure name)
        else if t.type == tk_file_reference
        then (do advance tk_file_reference; function_name_of t)
        else (do advance tk_identifier; function_name_of t)

  -- The arguments of a call, behind the `(`.
  unfoldable pub arguments : ℕ → ℕ → Parse Nodes
  arguments zero nargs = exhausted
  arguments (suc fuel) nargs = do
    t ← token_type
    if t == b')' then pure end else (do
      arg ← expr 0
      next ← token_type
      if leb 32 nargs
          then error max_arguments
          else if next == b','
          then (do advance b','; args ← arguments fuel (nargs + 1); pure (node arg args))
          else pure (node arg end))

  -- `call_expression`: the arguments with the `)` behind them. The callers build the node.
  unfoldable pub call_arguments : ℕ → Parse Nodes
  call_arguments fuel = do args ← arguments fuel 0; advance b')'; pure args

  unfoldable pub nud_thread_call : ℕ → Parse Node
  nud_thread_call fuel = do
    name ← function_name
    advance b'('
    args ← call_arguments fuel
    pure (ast_call_expr true absent name args)

  unfoldable pub nud_group : Parse Node
  nud_group = do
    first ← expr 0
    t ← token_type
    if t == b','
        then (do
          advance b','
          second ← expr 0
          advance b','
          third ← expr 0
          advance b')'
          pure (ast_vector_expr (node first (node second (node third end)))))
        else (do advance b')'; pure (ast_group_expr first))

  unfoldable pub nud_array : Parse Node
  nud_array = do
    t ← token_type
    if t == b'['
        then (do
          advance b'['
          fp ← expr 0
          advance b']'
          advance b']'
          pure (ast_function_pointer_expr fp))
        else if t == b']'
        then (do advance b']'; pure (ast_array_expr end))
        else pure (ast_array_expr end)

  unfoldable pub nud_unary : Lexeme → Parse Node
  nud_unary t =
      if t.type == b'#'
      then (do
        directive ← token
        name ← read_parser_string directive
        if bytes_eq name (codes "animtree")
            then (do
              advance tk_identifier
              tree ← current_animtree
              pure (ast_literal (literal_string tree)))
            else error expected_animtree)
      else (do argument ← expr (precedence t.type); pure (ast_unary_expr argument t.type true))

unfoldable pub nud_struct : Parse Node
nud_struct = do
  t ← token_type
  if t == b'}' then (do advance b'}'; pure (ast_struct_expr end)) else pure (ast_struct_expr end)

-- The cases of `nud_literal` that read on.
unfoldable pub nud_localized_string : Parse Node
nud_localized_string = do
  t ← token
  s ← read_parser_string t
  advance tk_string
  pure (ast_literal (literal_localized_string s))

unfoldable pub nud_animation : Parse Node
nud_animation = do
  t ← token
  s ← read_parser_string t
  advance tk_identifier
  pure (ast_literal (literal_string s))

unfoldable pub nud_function : Parse Node
nud_function = do name ← take_identifier; pure (ast_literal (literal_function absent name))

unfoldable pub nud_literal : Platform → Lexeme → Parse Node
nud_literal lib t =
    if t.type == b'&'
    then nud_localized_string
    else if t.type == tk_scope_resolution
    then nud_function
    else if t.type == b'%'
    then nud_animation
    else if t.type == tk_identifier
    then pure (identifier t)
    else if t.type == tk_true
    then pure (ast_literal (literal_boolean 1))
    else if t.type == tk_false
    then pure (ast_literal (literal_boolean 0))
    else if t.type == tk_null
    then pure (ast_literal literal_undefined)
    else if t.type == tk_undefined
    then pure (ast_literal literal_undefined)
    else if t.type == tk_integer
    then pure (ast_literal (literal_integer (read_int lib t)))
    else if t.type == tk_number
    then pure (ast_literal (literal_float (read_float lib t)))
    else if t.type == tk_string
    then (do s ← read_parser_string t; pure (ast_literal (literal_string s)))
    else error unexpected_token

-- `parse_nud`, with the table's entry for the token.
unfoldable pub parse_nud : Platform → (ℕ → Parse Node) → ℕ → Nud → Lexeme → Parse Node
parse_nud lib expr fuel no_nud t = error unexpected_nud
parse_nud lib expr fuel unary t = nud_unary expr t
parse_nud lib expr fuel literal t = nud_literal lib t
parse_nud lib expr fuel group t = nud_group expr
parse_nud lib expr fuel array t = nud_array expr
parse_nud lib expr fuel struct t = nud_struct
parse_nud lib expr fuel self t = pure ast_self
parse_nud lib expr fuel file_ref t = function_name_of expr t
parse_nud lib expr fuel thread_call t = nud_thread_call expr fuel
