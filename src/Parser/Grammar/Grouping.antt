-- ===== src/Parser/Grammar/Grouping.antt =====
-- How the table of operators groups operands that stand in a row.
use gsc.Base.{
  ℕ, ◌+◌, ◌≤◌, ◌<◌, Bool, true, ◌&&◌, List, [], ◌∷◌, ◌≡◌, refl, arith, ltb, ◌==◌, if◌then◌else◌,
  Bool-cases, inl, inr, ltb→lt, ltb-false,
}
use gsc.Platform.{Platform}
use gsc.Compiler.Syntax.{Node, ast_binary_expr}
use gsc.Parser.{Lexeme, Parser, parsed}
use gsc.Parser.Operators.{
  Operator, Led, binary, assignment, operator_table, lookup, operator, precedence, next_precedence,
}
use gsc.Parser.Operators
use gsc.Parser.Expression.{parse_expression}
use gsc.Parser.Grammar.{Leaf, Expr}
use gsc.Parser.Grammar
use gsc.Parser.Grammar.Complete.{parse_expression-Expr}

-- What the entries have in common: an operator between expressions binds tighter than nothing, the
-- binary ones group to the left and the assignments to the right.
sound_entry : Led → ℕ → ℕ → Bool
sound_entry binary p next = ltb 0 p && (next == p)
sound_entry assignment p next = ltb 0 p && (next + 1 == p)
sound_entry _ p next = true

sound : Operator → Bool
unfolding sound_entry
sound op = sound_entry op.led op.precedence (next_precedence op)

all_sound : List (ℕ × Operator) → Bool
all_sound [] = true
all_sound ((t, op) ∷ ops) = sound op && all_sound ops

lookup-sound :
    (ops : List (ℕ × Operator)) (type : ℕ) → all_sound ops ≡ true → sound (lookup ops type) ≡ true
unfolding all_sound lookup sound next_precedence
lookup-sound [] type h = refl
lookup-sound ((t, op) ∷ ops) type h = ground (arith, lookup-sound ops type)

operator-sound : (type : ℕ) → sound (operator type) ≡ true
unfolding operator all_sound sound next_precedence
operator-sound type = lookup-sound operator_table type refl

entry-binary :
    (led : Led) (p next : ℕ) → led ≡ binary → sound_entry led p next ≡ true → (0 < p) × (next ≡ p)
unfolding sound_entry
entry-binary binary p next e h = ground arith
entry-binary Operators.no_led p next e h = cc
entry-binary assignment p next e h = cc
entry-binary Operators.ternary p next e h = cc
entry-binary Operators.call p next e h = cc
entry-binary Operators.bracket p next e h = cc
entry-binary Operators.member p next e h = cc
entry-binary Operators.postfix p next e h = cc
entry-binary Operators.member_call p next e h = cc
entry-binary Operators.thread_member_call p next e h = cc

binary-left :
    (type : ℕ)
    → (operator type).led ≡ binary
    → (0 < precedence type) × (next_precedence (operator type) ≡ precedence type)
unfolding precedence sound
binary-left type e =
    entry-binary (operator type).led (operator type).precedence (next_precedence (operator type)) e
      (operator-sound type)

at_the_end : precedence 0 ≤ 0
unfolding precedence operator
at_the_end = omega arith

module _ (lib : Platform) (p : Parser) (a b c s t : Lexeme) (x y z : Node)
    (is_x : Leaf lib p.max_string_length a x) (is_y : Leaf lib p.max_string_length b y)
    (is_z : Leaf lib p.max_string_length c z) (first : (operator s.type).led ≡ binary)
    (second : (operator t.type).led ≡ binary) where
  to_left :
      precedence t.type ≤ precedence s.type
      → Expr lib p.max_string_length 0 0
          (a ∷ s ∷ b ∷ t ∷ c ∷ [])
          (ast_binary_expr t.type (ast_binary_expr s.type x y) z)
  to_left le =
      let (s_pos, s_next) = binary-left s.type first in
      let (t_pos, t_next) = binary-left t.type second in
      Grammar.back {q = precedence s.type} {ts = a ∷ s ∷ b ∷ []}
        (Grammar.back {q = precedence s.type} {ts = a ∷ []} (Grammar.front (Grammar.leaf is_x))
          s_pos (omega arith)
          (Grammar.binary first (omega arith) (Grammar.front (Grammar.leaf is_y))))
        t_pos le (Grammar.binary second (omega arith) (Grammar.front (Grammar.leaf is_z)))

  to_right :
      precedence s.type < precedence t.type
      → Expr lib p.max_string_length 0 0
          (a ∷ s ∷ b ∷ t ∷ c ∷ [])
          (ast_binary_expr s.type x (ast_binary_expr t.type y z))
  to_right lt =
      let (s_pos, s_next) = binary-left s.type first in
      let (t_pos, t_next) = binary-left t.type second in
      Grammar.back {q = precedence s.type} {ts = a ∷ []} (Grammar.front (Grammar.leaf is_x)) s_pos
        (omega arith)
        (Grammar.binary first (omega arith) (
          Grammar.back {q = precedence t.type} {ts = b ∷ []} (Grammar.front (Grammar.leaf is_y))
            (omega arith) (omega arith)
            (Grammar.binary second (omega arith) (Grammar.front (Grammar.leaf is_z)))))

  -- Of two binary operators in a row the one with the higher precedence takes the operand between
  -- them, and the first one where the precedences are equal. The operands are single tokens, and the
  -- fuel is more than the five tokens.
  pub binary_groups :
      (fuel : ℕ)
      → 5 < fuel
      → parse_expression lib fuel 0 (record p { input = a ∷ s ∷ b ∷ t ∷ c ∷ [] })
        ≡ parsed
            (if ltb (precedence s.type) (precedence t.type)
              then ast_binary_expr s.type x (ast_binary_expr t.type y z)
              else ast_binary_expr t.type (ast_binary_expr s.type x y) z)
            (record p { input = [] })
  binary_groups fuel enough = elim (Bool-cases (ltb (precedence s.type) (precedence t.type))) [
    | inl tighter ↦ rw tighter (
        parse_expression-Expr lib p 0 0 fuel (a ∷ s ∷ b ∷ t ∷ c ∷ []) []
          (ast_binary_expr s.type x (ast_binary_expr t.type y z)) (to_right (ltb→lt _ _ tighter))
          (omega arith) at_the_end at_the_end)
    | inr looser ↦ rw looser (
        parse_expression-Expr lib p 0 0 fuel (a ∷ s ∷ b ∷ t ∷ c ∷ []) []
          (ast_binary_expr t.type (ast_binary_expr s.type x y) z) (to_left (ltb-false _ _ looser))
          (omega arith) at_the_end at_the_end)
  ]
