-- ===== src/Vm/Step/Negation.antt =====
-- compiler.c and vm.c together: what the code of a unary `-` computes.
use mathlib.Core.Path.{subst}
use gsc.Base.{
  ℕ, ◌+◌, ◌<◌, some, inl, inr, Bool-cases, true, false, List, ◌∷◌, ◌≡◌, refl, sym, ap, ◌∙◌, arith,
  length, leb, ◌==◌,
}
use gsc.Base.Word
use gsc.Base.Word.{word_mod}
use gsc.Base.Result.{Result, ok, err}
use gsc.Platform.{Platform}
use gsc.Compiler.Code.{Instruction, integer, op_const_0, op_binop, update}
use gsc.Compiler.Syntax.{Node, ast_unary_expr}
use gsc.Compiler.State.{Compiler, Action, continue, ◌>>=◌, ◌>>◌, pure}
use gsc.Compiler.Emit.{emit, emit_base, emit_operands, set_operands, started}
use gsc.Compiler.Handlers.{emit_binop, visit_unary_expr}
use gsc.Compiler.Visit.{visit}
use gsc.Vm.Variable.{Variable}
use gsc.Vm.Value.{coerce_int, promote_type}
use gsc.Vm.Binop.{binop, operate, binop_int}
use gsc.Vm.Machine.{Machine}
use gsc.Vm.Stack.{vm_stack_size, push, pop, read_int, assert_stack}
use gsc.Vm.Instructions.{execute_const}
use gsc.Vm.Execute.{execute_binop, go_on, vm_execute_instruction}

minus_zero : (x : ℕ) → x < word_mod → Word.sub x 0 ≡ x
unfolding Word.sub
minus_zero x lt = omega arith

binop_minus_zero :
    (p : Platform) (m : Machine) (x : ℕ)
    → x < word_mod
    → binop p m.strings (Variable.integer x) (Variable.integer 0) 45 m.pool
      ≡ ok (Variable.integer x, m.pool)
unfolding binop operate binop_int promote_type coerce_int
binop_minus_zero p m x lt = ap (λ n. ok (Variable.integer n, m.pool)) (minus_zero x lt)

push_ok :
    (m : Machine) (v : Variable)
    → length m.stack < 256
    → push m v ≡ ok (record m { stack = v ∷ m.stack })
unfolding push
push_ok m v lt =
    let room : leb vm_stack_size (length m.stack) ≡ false = ground arith in rw room refl

assert_stack_ok :
    (expected : ℕ) (m : Machine) → length m.stack ≡ expected → assert_stack expected m ≡ ok m
unfolding assert_stack
assert_stack_ok expected m e =
    let same : (length m.stack == expected) ≡ true = ground arith in rw same refl

execute_const_ok :
    (i : ℕ) (m : Machine)
    → length m.stack < 256
    → execute_const i m ≡ ok (record m { stack = Variable.integer i ∷ m.stack })
unfolding execute_const
execute_const_ok i m lt = rw (push_ok m (Variable.integer i) lt) (
    assert_stack_ok (length m.stack + 1) (record m { stack = Variable.integer i ∷ m.stack })
      (omega arith))

-- OP_BINOP with the operator `-` on an integer below the constant 0.
execute_binop_minus :
    (p : Platform) (m : Machine) (ins : Instruction) (x : ℕ) (stack : List Variable)
    → m.stack ≡ Variable.integer x ∷ stack
    → x < word_mod
    → length stack < 255
    → ins.operand0 ≡ integer 45
    → execute_binop p ins (record m { stack = Variable.integer 0 ∷ m.stack })
      ≡ ok (record m { stack = Variable.integer x ∷ stack })
unfolding execute_binop pop read_int
execute_binop_minus p m ins x stack at_top lt room minus =
    rw
      (
        at_top,
        minus,
        binop_minus_zero p m x lt,
        push_ok (record m { stack = stack }) (Variable.integer x) (omega arith),
      )
      (assert_stack_ok _ (record m { stack = Variable.integer x ∷ stack }) (omega arith))

-- What `visit_ASTUnaryExpr_` appends for a `-`.
abbrev minus_tail : Action
minus_tail = do emit op_const_0; emit_binop b'-'

abbrev Appended : Compiler → Result (Unit {0} × Compiler) → Type 0
Appended c (err fault) = Unit
Appended c (ok (_, c')) =
    ((c'.instructions c.instruction_count).opcode ≡ op_const_0)
    × ((c'.instructions (c.instruction_count + 1)).opcode ≡ op_binop)
    × ((c'.instructions (c.instruction_count + 1)).operand0 ≡ integer b'-')
    × (c'.instruction_count ≡ c.instruction_count + 2)

minus_tail-Appended : (c : Compiler) → Appended c (minus_tail c)
unfolding emit_base emit_operands set_operands started update ◌>>=◌ pure
minus_tail-Appended c = elim (Bool-cases (leb c.max_instruction_count c.instruction_count)) [
  | inl full ↦ rw full tt
  | inr room ↦ elim (Bool-cases (leb c.max_instruction_count (c.instruction_count + 1))) [
    | inl full ↦ rw room (rw full tt)
    | inr room' ↦ rw room (rw room' (ground arith, ground arith, ground arith, omega arith))
  ]
]

-- The compiled `-`: the code of the operand, and behind it OP_CONST_0 and OP_BINOP.
minus_code :
    (tolower : ℕ → ℕ) (argument : Node) (c c1 c' : Compiler)
    → visit tolower argument c ≡ ok (tt, c1)
    → visit tolower (ast_unary_expr argument b'-' true) c ≡ ok (tt, c')
    → ((c'.instructions c1.instruction_count).opcode ≡ op_const_0)
      × ((c'.instructions (c1.instruction_count + 1)).opcode ≡ op_binop)
      × ((c'.instructions (c1.instruction_count + 1)).operand0 ≡ integer b'-')
      × (c'.instruction_count ≡ c1.instruction_count + 2)
unfolding visit visit_unary_expr ◌>>=◌
minus_code tolower argument c c1 c' operand e =
    subst (Appended c1) (ap (λ r. continue r (λ _. minus_tail)) (sym operand) ∙ e)
      (minus_tail-Appended c1)

-- The compiled `-` does not negate: the two instructions that `visit_ASTUnaryExpr_` appends behind
-- the code of the operand, OP_CONST_0 and OP_BINOP with the operator `-`, run one after the other on
-- an integer on top of the stack, give that integer back, and leave the rest of the machine as it
-- was. There is room for one more value on the stack.
pub minus_restores :
    (p : Platform) (tolower : ℕ → ℕ) (argument : Node) (c c1 c' : Compiler) (m : Machine) (x : ℕ)
    (stack : List Variable)
    → visit tolower argument c ≡ ok (tt, c1)
    → visit tolower (ast_unary_expr argument b'-' true) c ≡ ok (tt, c')
    → m.stack ≡ Variable.integer x ∷ stack
    → x < word_mod
    → length stack < 255
    → let k = c1.instruction_count in
      let m0 : Machine = record m { stack = Variable.integer 0 ∷ m.stack } in
      (c'.instruction_count ≡ k + 2)
      × (vm_execute_instruction p (c'.instructions k) m ≡ some (ok (m0, true)))
      × (vm_execute_instruction p (c'.instructions (k + 1)) m0 ≡ some (ok (m, true)))
unfolding vm_execute_instruction execute_binop
minus_restores p tolower argument c c1 c' m x stack operand e at_top lt room =
    let (const, binop', minus, count) = minus_code tolower argument c c1 c' operand e in
    let full : length m.stack < 256 = rw at_top (omega arith) in
    (
      count,
      rw const (ap go_on (execute_const_ok 0 m full)),
      rw binop' (
          ap go_on (
            execute_binop_minus p m (c'.instructions (c1.instruction_count + 1)) x stack at_top lt
              room minus
            ∙ ap (λ (s : List Variable). ok (record m { stack = s })) (sym at_top))),
    )
