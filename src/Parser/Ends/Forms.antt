-- ===== src/Parser/Ends/Forms.antt =====
-- precedence.c: the tokens that the functions of the table of operators leave.
use gsc.Base.{ℕ, zero, suc, ◌+◌, ◌<◌, Bool, arith, ◌==◌}
use gsc.Platform.{Platform}
use gsc.Compiler.Syntax.{Node, end, ast_self}
use gsc.Parser.{Lexeme, Parse, unexpected_nud, unexpected_led}
use gsc.Parser.Operators.{
  Nud, no_nud, unary, literal, group, array, struct, self, file_ref, thread_call, Led, no_led,
  binary, assignment, ternary, call, bracket, member, postfix, member_call, thread_member_call,
}
use gsc.Parser.Prefix.{
  take_identifier, function_name_of, function_name, arguments, call_arguments, nud_thread_call,
  nud_group, nud_array, nud_unary, nud_struct, nud_literal, nud_localized_string, nud_animation,
  nud_function, parse_nud,
}
use gsc.Parser.Infix.{
  led_binary, led_assignment, led_ternary, led_member, led_function, method_call, led_member_call,
  led_thread_member_call, led_bracket, parse_led,
}
use gsc.Parser.Ends.{
  Keeps, Takes, keeps, Takes-Keeps, Takes-mono, Takes-shorter, Keeps-bind, Keeps-if, Keeps-pure,
  Keeps-token_type, Keeps-error,
}

take_identifier-Keeps : (n : ℕ) → Keeps n take_identifier
unfolding take_identifier
take_identifier-Keeps n = search keeps

-- Each round takes an expression.
arguments-Keeps :
    (expr : ℕ → Parse Node) (n fuel nargs : ℕ)
    → ((bp : ℕ) → Takes n (expr bp))
    → n < fuel
    → Keeps n (arguments expr fuel nargs)
unfolding arguments
arguments-Keeps expr n zero nargs ready enough = absurd (omega arith)
arguments-Keeps expr n (suc fuel) nargs ready enough = Keeps-bind Keeps-token_type λ t.
    Keeps-if (t == b')') (Keeps-pure end) (
      Takes-Keeps (
        Takes-shorter (ready 0) λ arg k less.
          let rest =
            arguments-Keeps expr k fuel (nargs + 1) (λ bp. Takes-mono k (omega arith) (ready bp))
              (omega arith) in
          search keeps depth 12))

module _ (expr : ℕ → Parse Node) (n : ℕ) (ready : (bp : ℕ) → Takes n (expr bp)) where
  expr-Keeps : (bp : ℕ) → Keeps n (expr bp)
  expr-Keeps bp = Takes-Keeps (ready bp)

  function_name_of-Keeps : (t : Lexeme) → Keeps n (function_name_of expr t)
  unfolding function_name_of
  function_name_of-Keeps t = search (keeps, expr-Keeps, take_identifier-Keeps) depth 8

  function_name-Keeps : Keeps n (function_name expr)
  unfolding function_name
  function_name-Keeps = search (keeps, function_name_of-Keeps) depth 12

  nud_group-Keeps : Keeps n (nud_group expr)
  unfolding nud_group
  nud_group-Keeps = search (keeps, expr-Keeps) depth 12

  nud_array-Keeps : Keeps n (nud_array expr)
  unfolding nud_array
  nud_array-Keeps = search (keeps, expr-Keeps) depth 12

  nud_unary-Keeps : (t : Lexeme) → Keeps n (nud_unary expr t)
  unfolding nud_unary
  nud_unary-Keeps t = search (keeps, expr-Keeps) depth 12

  module _ (fuel : ℕ) (enough : n < fuel) where
    call_arguments-Keeps : Keeps n (call_arguments expr fuel)
    unfolding call_arguments
    call_arguments-Keeps =
        let args = arguments-Keeps expr n fuel 0 ready enough in search keeps depth 8

    nud_thread_call-Keeps : Keeps n (nud_thread_call expr fuel)
    unfolding nud_thread_call
    nud_thread_call-Keeps = search (keeps, function_name-Keeps, call_arguments-Keeps) depth 8

nud_struct-Keeps : (n : ℕ) → Keeps n nud_struct
unfolding nud_struct
nud_struct-Keeps n = search keeps depth 8

nud_literal-Keeps : (lib : Platform) (n : ℕ) (t : Lexeme) → Keeps n (nud_literal lib t)
unfolding nud_literal nud_localized_string nud_animation nud_function
nud_literal-Keeps lib n t = search (keeps, take_identifier-Keeps) depth 20

module _ (expr : ℕ → Parse Node) (n fuel : ℕ) (ready : (bp : ℕ) → Takes n (expr bp))
    (enough : n < fuel) where
  pub parse_nud-Keeps :
      (lib : Platform) (nud : Nud) (t : Lexeme) → Keeps n (parse_nud lib expr fuel nud t)
  unfolding parse_nud
  parse_nud-Keeps lib no_nud t = Keeps-error unexpected_nud
  parse_nud-Keeps lib unary t = nud_unary-Keeps expr n ready t
  parse_nud-Keeps lib literal t = nud_literal-Keeps lib n t
  parse_nud-Keeps lib group t = nud_group-Keeps expr n ready
  parse_nud-Keeps lib array t = nud_array-Keeps expr n ready
  parse_nud-Keeps lib struct t = nud_struct-Keeps n
  parse_nud-Keeps lib self t = Keeps-pure ast_self
  parse_nud-Keeps lib file_ref t = function_name_of-Keeps expr n ready t
  parse_nud-Keeps lib thread_call t = nud_thread_call-Keeps expr n ready fuel enough

  method_call-Keeps :
      (threaded : Bool) (object callee : Node)
      → Keeps n (method_call expr fuel threaded object callee)
  unfolding method_call
  method_call-Keeps threaded object callee =
      let args = call_arguments-Keeps expr n ready fuel enough in search keeps depth 8

  pub parse_led-Keeps :
      (led : Led) (left : Node) (t : Lexeme) (bp : ℕ) → Keeps n (parse_led expr fuel led left t bp)
  unfolding parse_led led_binary led_assignment led_ternary led_function led_bracket led_member
      led_member_call led_thread_member_call
  parse_led-Keeps no_led left t bp = Keeps-error unexpected_led
  parse_led-Keeps call left t bp =
      let args = call_arguments-Keeps expr n ready fuel enough in search keeps depth 8
  parse_led-Keeps postfix left t bp = search keeps
  parse_led-Keeps bracket left t bp =
      let name = function_name_of-Keeps expr n ready t in
      search (keeps, expr-Keeps expr n ready, method_call-Keeps) depth 12
  parse_led-Keeps member_call left t bp =
      let name = function_name_of-Keeps expr n ready t in search (keeps, method_call-Keeps) depth 12
  parse_led-Keeps thread_member_call left t bp =
      let name = function_name-Keeps expr n ready in search (keeps, method_call-Keeps) depth 12
  parse_led-Keeps binary left t bp = search (keeps, expr-Keeps expr n ready) depth 12
  parse_led-Keeps assignment left t bp = search (keeps, expr-Keeps expr n ready) depth 12
  parse_led-Keeps ternary left t bp = search (keeps, expr-Keeps expr n ready) depth 12
  parse_led-Keeps member left t bp = search (keeps, expr-Keeps expr n ready) depth 12
