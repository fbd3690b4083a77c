-- ===== src/Parser/Grammar/Complete.antt =====
-- `parse_expression` on the tokens of the grammar.
use gsc.Base.{
  ℕ, zero, suc, ◌+◌, ◌≤◌, ◌<◌, false, List, [], ◌∷◌, ◌++◌, ◌≡◌, refl, ◌∙◌, ap, arith, ◌==◌, length,
}
use gsc.Platform.{Platform}
use gsc.Compiler.Syntax.{
  Node, absent, present, Nodes, ast_call_expr, ast_binary_expr, ast_assignment_expr,
  ast_member_expr,
}
use gsc.Token.{tk_identifier}
use gsc.Parser.{
  Lexeme, Parser, Outcome, parsed, continue, ◌>>=◌, pure, token, token_type, advance, head,
  read_parser_string,
}
use gsc.Parser.Operators.{operator, precedence, next_precedence}
use gsc.Parser.Prefix.{
  parse_nud, arguments, nud_array, nud_struct, nud_literal, nud_function, nud_localized_string,
  take_identifier, function_name_of, identifier,
}
use gsc.Parser.Infix.{
  parse_led, led_binary, led_assignment, led_member, led_function, led_member_call, method_call,
}
use gsc.Parser.Expression.{parse_expression}
use gsc.Parser.Grammar.{Expr, Front, Back, Args, lex, count}
use gsc.Parser.Grammar
use gsc.Parser.Grammar.Starts.{expr-close, expr-head}
use gsc.Parser.Grammar.Steps.{
  Gives, leaf-Gives, group-Gives, vector-Gives, pointer-Gives, unary-Gives, ternary-Gives,
  index-Gives, call_arguments-Gives, arguments-none, arguments-last, arguments-more,
}
use gsc.Parser.Grammar.Loops.{
  lengths, at_close, at_bracket, at_comma, at_colon, Looped, Looped-back, Looped-front, read-Gives,
}

module _ (lib : Platform) (p : Parser) where
  name-Gives :
      (f : ℕ) (s : List ℕ) (rest : List Lexeme)
      → 1 < f
      → precedence (head rest).type ≤ 80
      → Gives p
          (parse_expression lib f 80)
          (lex tk_identifier s ∷ rest)
          (identifier (lex tk_identifier s))
          rest
  name-Gives f s rest short stop =
      let t = lex tk_identifier s in
      read-Gives lib p f 80 (t ∷ []) rest (identifier t)
        (λ g fit.
          Looped-front lib p g 80 t [] rest (identifier t)
            (leaf-Gives lib p (parse_expression lib g) g t (identifier t) rest (Grammar.name s)))
        short stop

  mutual
    unfolding operator next_precedence parse_nud nud_array nud_struct nud_literal nud_function
        nud_localized_string take_identifier function_name_of ◌>>=◌ token token_type advance pure
        read_parser_string parse_led led_binary led_assignment led_member led_function
        led_member_call method_call

    expr-Looped :
        (f m q : ℕ) (ts rest : List Lexeme) (e : Node)
        → Expr lib p.max_string_length m q ts e
        → length ts ≤ f
        → precedence (head rest).type ≤ q
        → Looped lib p f m ts e rest
    expr-Looped f m q ts' rest e (Grammar.front {t = t} {ts = ts} d) short stop =
        Looped-front lib p f m t ts rest e (front-Gives f q t ts rest e d (omega arith) stop)
    expr-Looped f m q whole rest e
          (Grammar.back {q = q'} {t = t} {ts = ts} {ts' = ts'} {left = left} d above below b) short
          stop =
        Looped-back lib p f m ts ts' rest left e t
          (expr-Looped f m q' ts (t ∷ (ts' ++ rest)) left d (omega lengths) below) short above
          (back-Gives f q t left ts' rest e b (omega lengths) stop)

    front-Gives :
        (f q : ℕ) (t : Lexeme) (ts rest : List Lexeme) (e : Node)
        → Front lib p.max_string_length q t ts e
        → length ts < f
        → precedence (head rest).type ≤ q
        → Gives p
            (parse_nud lib (parse_expression lib f) f (operator t.type).nud t)
            (ts ++ rest)
            e
            rest
    front-Gives f q t ts rest e (Grammar.leaf l) short stop =
        leaf-Gives lib p (parse_expression lib f) f t e rest l
    front-Gives f q t ts rest e (Grammar.array s s') short stop = refl
    front-Gives f q t ts rest e (Grammar.struct s s') short stop = refl
    front-Gives f q t ts rest e (Grammar.function s s') short stop = refl
    front-Gives f q t ts rest e (Grammar.localized s s') short stop = refl
    front-Gives f q t ts rest e (Grammar.unary {e = a} nud other le d) short stop = rw nud (
        unary-Gives p (parse_expression lib f) t ts rest a other (
          read-Gives lib p f (precedence t.type) ts rest a
            (λ g fit. expr-Looped g (precedence t.type) q ts rest a d fit stop) short
            (omega arith)))
    front-Gives f q t whole rest e (Grammar.group {ts = ts} {e = a} s s' d) short stop =
        group-Gives p (parse_expression lib f) ts rest a s' (
          read-Gives lib p f 0 ts (lex b')' s' ∷ rest) a
            (λ g fit. expr-Looped g 0 0 ts (lex b')' s' ∷ rest) a d fit (at_close 0))
            (omega lengths) (at_close 0))
    front-Gives f q t whole rest e
          (Grammar.vector {xs = xs} {ys = ys} {zs = zs} {x = x} {y = y} {z = z} s s' s'' s''' dx dy
            dz)
          short stop =
        let last = lex b')' s''' ∷ rest in
        let second = lex b',' s'' ∷ (zs ++ last) in
        let first = lex b',' s' ∷ (ys ++ second) in
        vector-Gives p (parse_expression lib f) xs ys zs rest x y z s' s'' s'''
          (read-Gives lib p f 0 xs first x
            (λ g fit. expr-Looped g 0 0 xs first x dx fit (at_comma 0)) (omega lengths)
            (at_comma 0))
          (read-Gives lib p f 0 ys second y
            (λ g fit. expr-Looped g 0 0 ys second y dy fit (at_comma 0)) (omega lengths)
            (at_comma 0))
          (read-Gives lib p f 0 zs last z (λ g fit. expr-Looped g 0 0 zs last z dz fit (at_close 0))
            (omega lengths) (at_close 0))
    front-Gives f q t whole rest e (Grammar.pointer {ts = ts} {e = a} s s' s'' s''' d) short stop =
        let after = lex b']' s'' ∷ lex b']' s''' ∷ rest in
        pointer-Gives p (parse_expression lib f) ts rest a s' s'' s''' (
          read-Gives lib p f 0 ts after a
            (λ g fit. expr-Looped g 0 0 ts after a d fit (at_bracket 0)) (omega lengths)
            (at_bracket 0))

    back-Gives :
        (f q : ℕ) (t : Lexeme) (left : Node) (ts rest : List Lexeme) (e : Node)
        → Back lib p.max_string_length q t left ts e
        → length ts < f
        → precedence (head rest).type ≤ q
        → Gives p
            (parse_led
              (parse_expression lib f)
              f
              (operator t.type).led
              left
              t
              (next_precedence (operator t.type)))
            (ts ++ rest)
            e
            rest
    back-Gives f q t left ts rest e (Grammar.binary {e = a} led le d) short stop =
        let bp = next_precedence (operator t.type) in
        rw led (
          ap (λ (r : Outcome Node). continue r (λ rhs. pure (ast_binary_expr t.type left rhs)))
            (read-Gives lib p f bp ts rest a (λ g fit. expr-Looped g bp q ts rest a d fit stop)
              short (omega arith)))
    back-Gives f q t left ts rest e (Grammar.assignment {e = a} led le d) short stop =
        let bp = next_precedence (operator t.type) in
        rw led (
          ap (λ (r : Outcome Node). continue r (λ rhs. pure (ast_assignment_expr t.type left rhs)))
            (read-Gives lib p f bp ts rest a (λ g fit. expr-Looped g bp q ts rest a d fit stop)
              short (omega arith)))
    back-Gives f q t left whole rest e
          (Grammar.ternary {ts = ts} {ts' = ts'} {e = a} {e' = b} s s' d d') short stop =
        let after = lex b':' s' ∷ (ts' ++ rest) in
        ternary-Gives p (parse_expression lib f) left a b ts ts' rest s'
          (read-Gives lib p f 0 ts after a
            (λ g fit. expr-Looped g 0 0 ts after a d fit (at_colon 0)) (omega lengths) (at_colon 0))
          (read-Gives lib p f 0 ts' rest b (λ g fit. expr-Looped g 0 0 ts' rest b d' fit stop)
            (omega lengths) stop)
    back-Gives f q t left ts rest e (Grammar.postfix led) short stop = rw led
    back-Gives f q t left ts rest e (Grammar.member s s' le) short stop =
        ap (λ (r : Outcome Node). continue r (λ prop. pure (ast_member_expr left prop b'.')))
          (name-Gives f s' rest short (omega arith))
    back-Gives f q t left whole rest e (Grammar.index {ts = ts} {e = a} s s' other d) short stop =
        let after = lex b']' s' ∷ rest in
        index-Gives p (parse_expression lib f) f left a ts rest s s'
          (ap (λ (u : Lexeme). u.type == b'[') (expr-head d after) ∙ other)
          (read-Gives lib p f 0 ts after a
            (λ g fit. expr-Looped g 0 0 ts after a d fit (at_bracket 0)) (omega lengths)
            (at_bracket 0))
    back-Gives f q t left whole rest e (Grammar.call {ts = ts} {args = args} s s' d few) short
          stop =
        ap (λ (r : Outcome Nodes). continue r (λ ns. pure (ast_call_expr false absent left ns)))
          (call_arguments-Gives p (parse_expression lib f) f ts rest args s' (
            Args-Gives f f 0 ts (lex b')' s' ∷ rest) args d (omega lengths) (omega lengths)
              (omega arith) refl))
    back-Gives f q t left whole rest e (Grammar.method {ts = ts} {args = args} s s' s'' d few) short
          stop =
        ap
          (λ (r : Outcome Nodes).
            continue r (λ ns.
              pure (ast_call_expr false (present left) (identifier (lex tk_identifier s)) ns)))
          (call_arguments-Gives p (parse_expression lib f) f ts rest args s'' (
            Args-Gives f f 0 ts (lex b')' s'' ∷ rest) args d (omega lengths) (omega lengths)
              (omega arith) refl))

    Args-Gives :
        (f h nargs : ℕ) (ts rest : List Lexeme) (args : Nodes)
        → Args lib p.max_string_length ts args
        → length ts < f
        → length ts < h
        → nargs + count args ≤ 32
        → (head rest).type ≡ b')'
        → Gives p (arguments (parse_expression lib f) h nargs) (ts ++ rest) args rest
    Args-Gives f zero nargs ts rest args d short rounds few close = absurd (omega arith)
    Args-Gives f (suc h) nargs ts rest args Grammar.none short rounds few close =
        arguments-none p (parse_expression lib f) h nargs rest close
    Args-Gives f (suc h) nargs ts rest args (Grammar.last {e = a} d) short rounds few close =
        arguments-last p (parse_expression lib f) h nargs ts rest a (expr-close d rest)
          (omega arith) close
          (read-Gives lib p f 0 ts rest a
            (λ g fit. expr-Looped g 0 0 ts rest a d fit (rw close (at_close 0))) short
            (rw close (at_close 0)))
    Args-Gives f (suc h) nargs whole rest args
          (Grammar.more {ts = ts} {ts' = ts'} {e = a} {args = args'} s d d') short rounds few
          close =
        let after = lex b',' s ∷ (ts' ++ rest) in
        arguments-more p (parse_expression lib f) h nargs ts ts' rest a args' s (expr-close d after)
          (omega arith)
          (read-Gives lib p f 0 ts after a
            (λ g fit. expr-Looped g 0 0 ts after a d fit (at_comma 0)) (omega lengths) (at_comma 0))
          (Args-Gives f h (nargs + 1) ts' rest args' d' (omega lengths) (omega lengths)
            (omega arith) close)

  -- `parse_expression` reads every expression of the grammar off the front of its input, gives the
  -- tree that the grammar gives, and leaves what follows: the operators group as the table of
  -- precedences says. The token behind it binds no tighter than the caller and the expression's last
  -- part allow, and the fuel is more than the tokens of the expression.
  pub parse_expression-Expr :
      (m q fuel : ℕ) (ts rest : List Lexeme) (e : Node)
      → Expr lib p.max_string_length m q ts e
      → length ts < fuel
      → precedence (head rest).type ≤ m
      → precedence (head rest).type ≤ q
      → parse_expression lib fuel m (record p { input = ts ++ rest })
        ≡ parsed e (record p { input = rest })
  parse_expression-Expr m q fuel ts rest e d short above below =
      read-Gives lib p fuel m ts rest e (λ g fit. expr-Looped g m q ts rest e d fit below) short
        above
