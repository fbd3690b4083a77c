-- ===== src/Parser/Operators.antt =====
-- precedence.c: the table of operators.
use gsc.Base.{ℕ, ◌-◌, List, [], ◌∷◌, if◌then◌else◌, ◌==◌}
use gsc.Token.{
  tk_identifier, tk_file_reference, tk_string, tk_number, tk_integer, tk_lshift, tk_rshift,
  tk_logical_and, tk_logical_or, tk_rshift_assign, tk_lshift_assign, tk_gequal, tk_lequal,
  tk_and_assign, tk_or_assign, tk_increment, tk_decrement, tk_scope_resolution, tk_div_assign,
  tk_plus_assign, tk_minus_assign, tk_xor_assign, tk_mod_assign, tk_mul_assign, tk_equal, tk_nequal,
  tk_true, tk_false, tk_undefined, tk_null, tk_thread, tk_self,
}

-- The functions that the table names, for a token in front of an expression and behind one.
pub data Nud : Type 0 where
  no_nud unary literal group array struct self file_ref thread_call : Nud

pub data Led : Type 0 where
  no_led binary assignment ternary call bracket member postfix member_call : Led
  thread_member_call : Led

pub data Associativity : Type 0 where
  left_assoc right_assoc : Associativity

pub record Operator : Type 0 where
  pub precedence : ℕ
  pub associativity : Associativity
  pub nud : Nud
  pub led : Led

abbrev entry : ℕ → Associativity → Nud → Led → Operator
entry p a n l = record { precedence = p; associativity = a; nud = n; led = l }

abbrev infix_left : ℕ → Operator
infix_left p = entry p left_assoc no_nud binary

abbrev assign : Operator
assign = entry 10 right_assoc no_nud assignment

abbrev leaf : Operator
leaf = entry 0 left_assoc literal no_led

abbrev pub operator_table : List (ℕ × Operator)
operator_table =
    (b'#', entry 0 left_assoc unary no_led)
    ∷ (b'+', entry 50 left_assoc unary binary)
    ∷ (b'-', entry 50 left_assoc unary binary)
    ∷ (b'*', infix_left 60)
    ∷ (b'/', infix_left 60)
    ∷ (b'%', entry 60 left_assoc literal binary)
    ∷ (tk_lshift, infix_left 40)
    ∷ (tk_rshift, infix_left 40)
    ∷ (b'<', infix_left 40)
    ∷ (tk_lequal, infix_left 40)
    ∷ (b'>', infix_left 40)
    ∷ (tk_gequal, infix_left 40)
    ∷ (tk_equal, infix_left 40)
    ∷ (tk_nequal, infix_left 40)
    ∷ (tk_logical_and, infix_left 30)
    ∷ (tk_logical_or, infix_left 30)
    ∷ (b'&', entry 40 left_assoc literal binary)
    ∷ (b'|', infix_left 40)
    ∷ (b'^', infix_left 40)
    ∷ (b'=', assign)
    ∷ (tk_div_assign, assign)
    ∷ (tk_mul_assign, assign)
    ∷ (tk_mod_assign, assign)
    ∷ (tk_lshift_assign, assign)
    ∷ (tk_rshift_assign, assign)
    ∷ (tk_xor_assign, assign)
    ∷ (tk_or_assign, assign)
    ∷ (tk_and_assign, assign)
    ∷ (tk_plus_assign, assign)
    ∷ (tk_minus_assign, assign)
    ∷ (b'?', entry 20 right_assoc no_nud ternary)
    ∷ (b'(', entry 80 left_assoc group call)
    ∷ (b'[', entry 80 left_assoc array bracket)
    ∷ (b'{', entry 80 left_assoc struct no_led)
    ∷ (b'.', entry 80 left_assoc no_nud member)
    ∷ (tk_increment, entry 80 left_assoc no_nud postfix)
    ∷ (tk_decrement, entry 80 left_assoc no_nud postfix)
    ∷ (b'!', entry 70 right_assoc unary no_led)
    ∷ (b'~', entry 70 right_assoc unary no_led)
    ∷ (tk_number, leaf)
    ∷ (tk_integer, leaf)
    ∷ (tk_string, leaf)
    ∷ (tk_true, leaf)
    ∷ (tk_false, leaf)
    ∷ (tk_identifier, entry 80 left_assoc literal member_call)
    ∷ (tk_self, entry 80 left_assoc self no_led)
    ∷ (tk_file_reference, entry 80 left_assoc file_ref member_call)
    ∷ (tk_thread, entry 80 left_assoc thread_call thread_member_call)
    ∷ (tk_scope_resolution, leaf)
    ∷ (tk_undefined, leaf)
    ∷ (tk_null, leaf)
    ∷ []

-- A token that the table does not name has the entry of zeros.
unfoldable pub lookup : List (ℕ × Operator) → ℕ → Operator
lookup [] type = entry 0 left_assoc no_nud no_led
lookup ((t, op) ∷ ops) type = if t == type then op else lookup ops type

-- `operator_table[type]`
unfoldable pub operator : ℕ → Operator
unfolding lookup
operator type = lookup operator_table type

unfoldable pub precedence : ℕ → ℕ
unfolding operator
precedence type = (operator type).precedence

-- The precedence that the right side of an operator is parsed with.
unfoldable pub next_precedence : Operator → ℕ
next_precedence op = elim op.associativity [
  | left_assoc ↦ op.precedence
  | right_assoc ↦ op.precedence - 1
]
