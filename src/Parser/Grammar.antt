-- ===== src/Parser/Grammar.antt =====
-- The expressions of the language as a grammar, apart from the parser: which tokens stand for which
-- tree. Thread calls, calls through a file or a pointer and directives are left out.
pub mod Steps
pub mod Starts
pub mod Loops
pub mod Complete
pub mod Grouping
use gsc.Base.{ℕ, true, suc, ◌≤◌, ◌<◌, List, [], ◌∷◌, ◌++◌, ◌≡◌, ◌==◌, false}
use gsc.Platform.{Platform}
use gsc.Token.{
  tk_identifier, tk_string, tk_number, tk_integer, tk_scope_resolution, tk_true, tk_false,
  tk_undefined, tk_null, tk_self,
}
use gsc.Compiler.Syntax.{
  Node, absent, present, Nodes, end, node, ast_array_expr, ast_assignment_expr, ast_binary_expr,
  ast_call_expr, ast_function_pointer_expr, ast_group_expr, ast_if_stmt, ast_literal,
  ast_member_expr, ast_self, ast_struct_expr, ast_unary_expr, ast_vector_expr, literal_string,
  literal_localized_string, literal_integer, literal_boolean, literal_float, literal_function,
  literal_undefined,
}
use gsc.Parser.{Lexeme, head, read_string}
use gsc.Parser.Operators.{operator, precedence, next_precedence}
use gsc.Parser.Operators
use gsc.Parser.Prefix.{identifier, read_int, read_float}

abbrev pub lex : ℕ → List ℕ → Lexeme
lex type text = record { type = type; text = text }

abbrev pub count : Nodes → ℕ
count end = 0
count (node n ns) = suc (count ns)

-- A token that is an expression. `size` is that of the parser's string.
pub data Leaf (lib : Platform) (size : ℕ) : Lexeme → Node → Type 0 where
  name : (s : List ℕ) → Leaf lib size (lex tk_identifier s) (identifier (lex tk_identifier s))
  integer :
      (s : List ℕ)
      → Leaf lib size
          (lex tk_integer s)
          (ast_literal (literal_integer (read_int lib (lex tk_integer s))))
  number :
      (s : List ℕ)
      → Leaf lib size
          (lex tk_number s)
          (ast_literal (literal_float (read_float lib (lex tk_number s))))
  text :
      (s : List ℕ)
      → Leaf lib size
          (lex tk_string s)
          (ast_literal (literal_string (read_string size (lex tk_string s))))
  true_word : (s : List ℕ) → Leaf lib size (lex tk_true s) (ast_literal (literal_boolean 1))
  false_word : (s : List ℕ) → Leaf lib size (lex tk_false s) (ast_literal (literal_boolean 0))
  undefined : (s : List ℕ) → Leaf lib size (lex tk_undefined s) (ast_literal literal_undefined)
  null : (s : List ℕ) → Leaf lib size (lex tk_null s) (ast_literal literal_undefined)
  self : (s : List ℕ) → Leaf lib size (lex tk_self s) ast_self

-- `Expr m q ts e`: the tokens `ts` are the expression `e`, whose operators outside brackets and right
-- sides bind tighter than `m`; a token behind it that binds no tighter than `q` is not part of it.
mutual
  pub data Expr (lib : Platform) (size : ℕ) : ℕ → ℕ → List Lexeme → Node → Type 0 where
    front :
        {m q : ℕ} {t : Lexeme} {ts : List Lexeme} {e : Node}
        → Front lib size q t ts e
        → Expr lib size m q (t ∷ ts) e
    back :
        {m q q' : ℕ} {t : Lexeme} {ts ts' : List Lexeme} {left e : Node}
        → Expr lib size m q ts left
        → m < precedence t.type
        → precedence t.type ≤ q
        → Back lib size q' t left ts' e
        → Expr lib size m q' (ts ++ (t ∷ ts')) e

  -- An expression by its first token and the others.
  pub data Front (lib : Platform) (size : ℕ) : ℕ → Lexeme → List Lexeme → Node → Type 0 where
    leaf : {q : ℕ} {t : Lexeme} {e : Node} → Leaf lib size t e → Front lib size q t [] e
    unary :
        {q : ℕ} {t : Lexeme} {ts : List Lexeme} {e : Node}
        → (operator t.type).nud ≡ Operators.unary
        → (t.type == b'#') ≡ false
        → q ≤ precedence t.type
        → Expr lib size (precedence t.type) q ts e
        → Front lib size q t ts (ast_unary_expr e t.type true)
    group :
        {q : ℕ} {ts : List Lexeme} {e : Node} (s s' : List ℕ)
        → Expr lib size 0 0 ts e
        → Front lib size q (lex b'(' s) (ts ++ (lex b')' s' ∷ [])) (ast_group_expr e)
    vector :
        {q : ℕ} {xs ys zs : List Lexeme} {x y z : Node} (s s' s'' s''' : List ℕ)
        → Expr lib size 0 0 xs x
        → Expr lib size 0 0 ys y
        → Expr lib size 0 0 zs z
        → Front lib size q
            (lex b'(' s)
            (xs ++ (lex b',' s' ∷ (ys ++ (lex b',' s'' ∷ (zs ++ (lex b')' s''' ∷ []))))))
            (ast_vector_expr (node x (node y (node z end))))
    array :
        {q : ℕ} (s s' : List ℕ)
        → Front lib size q (lex b'[' s) (lex b']' s' ∷ []) (ast_array_expr end)
    struct :
        {q : ℕ} (s s' : List ℕ)
        → Front lib size q (lex b'{' s) (lex b'}' s' ∷ []) (ast_struct_expr end)
    pointer :
        {q : ℕ} {ts : List Lexeme} {e : Node} (s s' s'' s''' : List ℕ)
        → Expr lib size 0 0 ts e
        → Front lib size q
            (lex b'[' s)
            (lex b'[' s' ∷ (ts ++ (lex b']' s'' ∷ lex b']' s''' ∷ [])))
            (ast_function_pointer_expr e)
    function :
        {q : ℕ} (s s' : List ℕ)
        → Front lib size q
            (lex tk_scope_resolution s)
            (lex tk_identifier s' ∷ [])
            (ast_literal (literal_function absent (identifier (lex tk_identifier s'))))
    localized :
        {q : ℕ} (s s' : List ℕ)
        → Front lib size q
            (lex b'&' s)
            (lex tk_string s' ∷ [])
            (ast_literal (literal_localized_string (read_string size (lex tk_string s'))))

  -- What a token behind the expression `left`, and the tokens behind that, make of it.
  pub data Back (lib : Platform) (size : ℕ) : ℕ → Lexeme → Node → List Lexeme → Node → Type 0 where
    binary :
        {q : ℕ} {t : Lexeme} {ts : List Lexeme} {left e : Node}
        → (operator t.type).led ≡ Operators.binary
        → q ≤ next_precedence (operator t.type)
        → Expr lib size (next_precedence (operator t.type)) q ts e
        → Back lib size q t left ts (ast_binary_expr t.type left e)
    assignment :
        {q : ℕ} {t : Lexeme} {ts : List Lexeme} {left e : Node}
        → (operator t.type).led ≡ Operators.assignment
        → q ≤ next_precedence (operator t.type)
        → Expr lib size (next_precedence (operator t.type)) q ts e
        → Back lib size q t left ts (ast_assignment_expr t.type left e)
    ternary :
        {ts ts' : List Lexeme} {left e e' : Node} (s s' : List ℕ)
        → Expr lib size 0 0 ts e
        → Expr lib size 0 0 ts' e'
        → Back lib size 0
            (lex b'?' s)
            left
            (ts ++ (lex b':' s' ∷ ts'))
            (ast_if_stmt left e (present e'))
    postfix :
        {q : ℕ} {t : Lexeme} {left : Node}
        → (operator t.type).led ≡ Operators.postfix
        → Back lib size q t left [] (ast_unary_expr left t.type false)
    member :
        {q : ℕ} {left : Node} (s s' : List ℕ)
        → q ≤ 80
        → Back lib size q
            (lex b'.' s)
            left
            (lex tk_identifier s' ∷ [])
            (ast_member_expr left (identifier (lex tk_identifier s')) b'.')
    index :
        {q : ℕ} {ts : List Lexeme} {left e : Node} (s s' : List ℕ)
        → ((head ts).type == b'[') ≡ false
        → Expr lib size 0 0 ts e
        → Back lib size q (lex b'[' s) left (ts ++ (lex b']' s' ∷ [])) (ast_member_expr left e b'[')
    call :
        {q : ℕ} {ts : List Lexeme} {left : Node} {args : Nodes} (s s' : List ℕ)
        → Args lib size ts args
        → count args ≤ 32
        → Back lib size q
            (lex b'(' s)
            left
            (ts ++ (lex b')' s' ∷ []))
            (ast_call_expr false absent left args)
    method :
        {q : ℕ} {ts : List Lexeme} {left : Node} {args : Nodes} (s s' s'' : List ℕ)
        → Args lib size ts args
        → count args ≤ 32
        → Back lib size q
            (lex tk_identifier s)
            left
            (lex b'(' s' ∷ (ts ++ (lex b')' s'' ∷ [])))
            (ast_call_expr false (present left) (identifier (lex tk_identifier s)) args)

  -- The arguments of a call. A comma may follow the last one.
  pub data Args (lib : Platform) (size : ℕ) : List Lexeme → Nodes → Type 0 where
    none : Args lib size [] end
    last : {ts : List Lexeme} {e : Node} → Expr lib size 0 0 ts e → Args lib size ts (node e end)
    more :
        {ts ts' : List Lexeme} {e : Node} {args : Nodes} (s : List ℕ)
        → Expr lib size 0 0 ts e
        → Args lib size ts' args
        → Args lib size (ts ++ (lex b',' s ∷ ts')) (node e args)
