-- ===== src/Compiler/Switch.antt =====
-- compiler.c: the visitor of `switch`. All tests stand in front, each with a jump to its body; the
-- bodies follow in the order of the cases, and the last default behind them.
use gsc.Base.{ℕ, ◌+◌, true, false, Option, none, some, List, [], ◌∷◌, if◌then◌else◌, leb}
use gsc.Base.Result.{max_cases, expected_case, undefined_behaviour}
use gsc.Token.{tk_equal}
use gsc.Compiler.Code.{op_test, op_jmp, op_jnz}
use gsc.Compiler.State.{Compile, Action, ◌>>=◌, ◌>>◌, pure, error}
use gsc.Compiler.Emit.{emit, emit_base, ip, patch_reljmp}
use gsc.Compiler.Scope.{increment_scope, decrement_scope}
use gsc.Compiler.Handlers.{emit_binop, visit_block_stmt}

-- A node of the list: a case with the action of its test, the default, or a node of another type.
-- A case has the actions of its statements.
pub data SwitchCase : Type 0 where
  tested : Action → List Action → SwitchCase
  default : List Action → SwitchCase
  not_a_case : SwitchCase

abbrev pub max_case_count : ℕ
max_case_count = 256

abbrev pub visit_test : Action → ℕ → Action → Compile ℕ
visit_test discriminant numcases test = do
  discriminant
  test
  emit_binop tk_equal
  emit op_test
  jnz ← emit_base op_jnz
  if leb max_case_count numcases then error max_cases else pure jnz

-- The first loop, behind `numcases` tests: the jumps of `case_jnz` that it adds.
unfoldable pub visit_tests : Action → ℕ → List SwitchCase → Compile (List ℕ)
visit_tests discriminant numcases [] = pure []
visit_tests discriminant numcases (not_a_case ∷ cases) = error expected_case
visit_tests discriminant numcases (default body ∷ cases) = visit_tests discriminant numcases cases
visit_tests discriminant numcases (tested test body ∷ cases) = do
  jnz ← visit_test discriminant numcases test
  jumps ← visit_tests discriminant (numcases + 1) cases
  pure (jnz ∷ jumps)

-- `default_case` behind the first loop: the last default, if there is one.
abbrev pub default_of : Option (List Action) → List SwitchCase → Option (List Action)
default_of default_case [] = default_case
default_of default_case (default body ∷ cases) = default_of (some body) cases
default_of default_case (tested test body ∷ cases) = default_of default_case cases
default_of default_case (not_a_case ∷ cases) = default_of default_case cases

-- The second loop: each case with a test, and the jump to it. The first loop has refused the other
-- nodes and has one jump for each test.
unfoldable pub visit_bodies : List SwitchCase → List ℕ → Action
visit_bodies [] jumps = pure tt
visit_bodies (not_a_case ∷ cases) jumps = error undefined_behaviour
visit_bodies (default body ∷ cases) jumps = visit_bodies cases jumps
visit_bodies (tested test body ∷ cases) [] = error undefined_behaviour
visit_bodies (tested test body ∷ cases) (jnz ∷ jumps) = do
  patch_reljmp jnz
  visit_block_stmt body
  visit_bodies cases jumps

-- The jump to the default between the tests and the bodies, the bodies, and the default behind them.
abbrev pub visit_consequents : List SwitchCase → List ℕ → Option (List Action) → Action
visit_consequents cases jumps none = visit_bodies cases jumps
visit_consequents cases jumps (some default_case) = do
  jmp_default ← emit_base op_jmp
  visit_bodies cases jumps
  patch_reljmp jmp_default
  visit_block_stmt default_case

unfoldable pub visit_switch_stmt : Action → List SwitchCase → Action
visit_switch_stmt discriminant cases = do
  increment_scope true false
  jumps ← visit_tests discriminant 0 cases
  visit_consequents cases jumps (default_of none cases)
  break_offset ← ip
  decrement_scope none break_offset
