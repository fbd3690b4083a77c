-- ===== src/Parser/Grammar/Steps.antt =====
-- One function of the expression parser at a time: what it gives where the expressions inside it are
-- read as they should be.
use mathlib.Core.List.{append_assoc}
use gsc.Base.{
  ℕ, suc, ◌+◌, ◌≤◌, ◌<◌, true, false, List, [], ◌∷◌, ◌++◌, ◌≡◌, refl, ap, arith, ltb, leb, ◌==◌,
}
use gsc.Platform.{Platform}
use gsc.Compiler.Syntax.{
  Node, present, Nodes, end, node, ast_function_pointer_expr, ast_group_expr, ast_if_stmt,
  ast_member_expr, ast_unary_expr, ast_vector_expr,
}
use gsc.Parser.{
  Lexeme, Parser, Outcome, parsed, Parse, continue, ◌>>=◌, pure, token_type, take_token, advance,
  head, read_parser_string,
}
use gsc.Parser.Operators.{operator, precedence, next_precedence}
use gsc.Parser.Prefix.{
  nud_group, nud_array, nud_unary, nud_literal, parse_nud, arguments, call_arguments,
}
use gsc.Parser.Infix.{parse_led, led_ternary, led_bracket}
use gsc.Parser.Expression.{led_loop}
use gsc.Parser.Grammar.{Leaf, Expr, Front, Back, Args, lex, count}
use gsc.Parser.Grammar

-- `m` reads `a` off `input` and leaves `rest`; the other fields of the parser are those of `p`.
abbrev pub Gives : Parser → {A : Type 0} → Parse A → List Lexeme → A → List Lexeme → Type 0
Gives p m input a rest = m (record p { input = input }) ≡ parsed a (record p { input = rest })

module _ (lib : Platform) (p : Parser) where
  -- An expression of one token.
  pub leaf-Gives :
      (expr : ℕ → Parse Node) (fuel : ℕ) (t : Lexeme) (e : Node) (rest : List Lexeme)
      → Leaf lib p.max_string_length t e
      → Gives p (parse_nud lib expr fuel (operator t.type).nud t) rest e rest
  unfolding operator parse_nud nud_literal ◌>>=◌ read_parser_string pure
  leaf-Gives expr fuel t e rest (Grammar.name s) = refl
  leaf-Gives expr fuel t e rest (Grammar.integer s) = refl
  leaf-Gives expr fuel t e rest (Grammar.number s) = refl
  leaf-Gives expr fuel t e rest (Grammar.text s) = refl
  leaf-Gives expr fuel t e rest (Grammar.true_word s) = refl
  leaf-Gives expr fuel t e rest (Grammar.false_word s) = refl
  leaf-Gives expr fuel t e rest (Grammar.undefined s) = refl
  leaf-Gives expr fuel t e rest (Grammar.null s) = refl
  leaf-Gives expr fuel t e rest (Grammar.self s) = refl

module _ (p : Parser) where
  pub group-Gives :
      (expr : ℕ → Parse Node) (ts rest : List Lexeme) (e : Node) (s : List ℕ)
      → Gives p (expr 0) (ts ++ (lex b')' s ∷ rest)) e (lex b')' s ∷ rest)
      → Gives p (nud_group expr) ((ts ++ (lex b')' s ∷ [])) ++ rest) (ast_group_expr e) rest
  unfolding nud_group ◌>>=◌ token_type advance pure
  group-Gives expr ts rest e s h = rw (append_assoc ts (lex b')' s ∷ []) rest, h)

  pub led_loop-stops :
      (expr : ℕ → Parse Node) (inner g m : ℕ) (e : Node) (rest : List Lexeme)
      → precedence (head rest).type ≤ m
      → Gives p (led_loop expr inner (suc g) m e) rest e rest
  unfolding led_loop ◌>>=◌ token_type pure
  led_loop-stops expr inner g m e rest le =
      let stop : ltb m (precedence (head rest).type) ≡ false = ground arith in rw stop refl

  pub led_loop-goes :
      (expr : ℕ → Parse Node) (inner g m : ℕ) (left e : Node) (t : Lexeme) (ts rest : List Lexeme)
      → m < precedence t.type
      → Gives p
          (parse_led expr inner (operator t.type).led left t (next_precedence (operator t.type)))
          ts
          e
          rest
      → led_loop expr inner (suc g) m left (record p { input = t ∷ ts })
        ≡ led_loop expr inner g m e (record p { input = rest })
  unfolding led_loop ◌>>=◌ token_type take_token
  led_loop-goes expr inner g m left e t ts rest lt h =
      let goes : ltb m (precedence t.type) ≡ true = ground arith in
      rw goes (ap (λ (r : Outcome Node). continue r (led_loop expr inner g m)) h)

  pub vector-Gives :
      (expr : ℕ → Parse Node) (xs ys zs rest : List Lexeme) (x y z : Node) (s s' s'' : List ℕ)
      → Gives p
          (expr 0)
          (xs ++ (lex b',' s ∷ (ys ++ (lex b',' s' ∷ (zs ++ (lex b')' s'' ∷ rest))))))
          x
          (lex b',' s ∷ (ys ++ (lex b',' s' ∷ (zs ++ (lex b')' s'' ∷ rest)))))
      → Gives p
          (expr 0)
          (ys ++ (lex b',' s' ∷ (zs ++ (lex b')' s'' ∷ rest))))
          y
          (lex b',' s' ∷ (zs ++ (lex b')' s'' ∷ rest)))
      → Gives p (expr 0) (zs ++ (lex b')' s'' ∷ rest)) z (lex b')' s'' ∷ rest)
      → Gives p
          (nud_group expr)
          ((xs ++ (lex b',' s ∷ (ys ++ (lex b',' s' ∷ (zs ++ (lex b')' s'' ∷ [])))))) ++ rest)
          (ast_vector_expr (node x (node y (node z end))))
          rest
  unfolding nud_group ◌>>=◌ token_type advance pure
  vector-Gives expr xs ys zs rest x y z s s' s'' hx hy hz =
      simp append_assoc (rw hx (rw hy (rw hz refl)))

  pub pointer-Gives :
      (expr : ℕ → Parse Node) (ts rest : List Lexeme) (e : Node) (s s' s'' : List ℕ)
      → Gives p
          (expr 0)
          (ts ++ (lex b']' s' ∷ lex b']' s'' ∷ rest))
          e
          (lex b']' s' ∷ lex b']' s'' ∷ rest)
      → Gives p
          (nud_array expr)
          (lex b'[' s ∷ ((ts ++ (lex b']' s' ∷ lex b']' s'' ∷ [])) ++ rest))
          (ast_function_pointer_expr e)
          rest
  unfolding nud_array ◌>>=◌ token_type advance pure
  pointer-Gives expr ts rest e s s' s'' h =
      rw (append_assoc ts (lex b']' s' ∷ lex b']' s'' ∷ []) rest, h)

  pub unary-Gives :
      (expr : ℕ → Parse Node) (t : Lexeme) (ts rest : List Lexeme) (e : Node)
      → (t.type == b'#') ≡ false
      → Gives p (expr (precedence t.type)) (ts ++ rest) e rest
      → Gives p (nud_unary expr t) (ts ++ rest) (ast_unary_expr e t.type true) rest
  unfolding nud_unary ◌>>=◌ pure
  unary-Gives expr t ts rest e other h = rw (other, h)

  pub ternary-Gives :
      (expr : ℕ → Parse Node) (left e e' : Node) (ts ts' rest : List Lexeme) (s : List ℕ)
      → Gives p (expr 0) (ts ++ (lex b':' s ∷ (ts' ++ rest))) e (lex b':' s ∷ (ts' ++ rest))
      → Gives p (expr 0) (ts' ++ rest) e' rest
      → Gives p
          (led_ternary expr left)
          ((ts ++ (lex b':' s ∷ ts')) ++ rest)
          (ast_if_stmt left e (present e'))
          rest
  unfolding led_ternary ◌>>=◌ advance pure
  ternary-Gives expr left e e' ts ts' rest s h h' =
      rw (append_assoc ts (lex b':' s ∷ ts') rest) (rw h (rw h' refl))

  pub index-Gives :
      (expr : ℕ → Parse Node) (fuel : ℕ) (left e : Node) (ts rest : List Lexeme) (s s' : List ℕ)
      → ((head (ts ++ (lex b']' s' ∷ rest))).type == b'[') ≡ false
      → Gives p (expr 0) (ts ++ (lex b']' s' ∷ rest)) e (lex b']' s' ∷ rest)
      → Gives p
          (led_bracket expr fuel left (lex b'[' s))
          ((ts ++ (lex b']' s' ∷ [])) ++ rest)
          (ast_member_expr left e b'[')
          rest
  unfolding led_bracket ◌>>=◌ token_type advance pure
  index-Gives expr fuel left e ts rest s s' other h =
      rw (append_assoc ts (lex b']' s' ∷ []) rest, other, h)

  pub call_arguments-Gives :
      (expr : ℕ → Parse Node) (fuel : ℕ) (ts rest : List Lexeme) (args : Nodes) (s : List ℕ)
      → Gives p (arguments expr fuel 0) (ts ++ (lex b')' s ∷ rest)) args (lex b')' s ∷ rest)
      → Gives p (call_arguments expr fuel) ((ts ++ (lex b')' s ∷ [])) ++ rest) args rest
  unfolding call_arguments ◌>>=◌ advance pure
  call_arguments-Gives expr fuel ts rest args s h = rw (append_assoc ts (lex b')' s ∷ []) rest, h)

  pub arguments-none :
      (expr : ℕ → Parse Node) (fuel nargs : ℕ) (rest : List Lexeme)
      → (head rest).type ≡ b')'
      → Gives p (arguments expr (suc fuel) nargs) rest end rest
  unfolding arguments ◌>>=◌ token_type pure
  arguments-none expr fuel nargs rest close = rw close refl

  pub arguments-last :
      (expr : ℕ → Parse Node) (fuel nargs : ℕ) (ts rest : List Lexeme) (e : Node)
      → ((head (ts ++ rest)).type == b')') ≡ false
      → nargs < 32
      → (head rest).type ≡ b')'
      → Gives p (expr 0) (ts ++ rest) e rest
      → Gives p (arguments expr (suc fuel) nargs) (ts ++ rest) (node e end) rest
  unfolding arguments ◌>>=◌ token_type pure
  arguments-last expr fuel nargs ts rest e starts few close h =
      let room : leb 32 nargs ≡ false = ground arith in rw (starts, h, room, close) refl

  pub arguments-more :
      (expr : ℕ → Parse Node) (fuel nargs : ℕ) (ts ts' rest : List Lexeme) (e : Node) (args : Nodes)
      (s : List ℕ)
      → ((head (ts ++ (lex b',' s ∷ (ts' ++ rest)))).type == b')') ≡ false
      → nargs < 32
      → Gives p (expr 0) (ts ++ (lex b',' s ∷ (ts' ++ rest))) e (lex b',' s ∷ (ts' ++ rest))
      → Gives p (arguments expr fuel (nargs + 1)) (ts' ++ rest) args rest
      → Gives p
          (arguments expr (suc fuel) nargs)
          ((ts ++ (lex b',' s ∷ ts')) ++ rest)
          (node e args)
          rest
  unfolding arguments ◌>>=◌ token_type advance pure
  arguments-more expr fuel nargs ts ts' rest e args s starts few h h' =
      let room : leb 32 nargs ≡ false = ground arith in
      rw (append_assoc ts (lex b',' s ∷ ts') rest) (rw (starts, h, room) (rw h' refl))
