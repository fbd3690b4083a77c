-- ===== src/Tests/Running.antt =====
-- vm.c: a compiled function on a thread.
use gsc.Base.{
  ℕ, ◌+◌, ◌<◌, List, true, Option, none, some, [], ◌∷◌, ◌≡◌, ◌∙◌, refl, arith, ◌==◌, if◌then◌else◌,
}
use gsc.Base.Result.{Result, ok, err}
use gsc.Compiler.Code.{Instruction, op_load, integer, update}
use gsc.Compiler.Syntax.{Node, node, end, ast_literal, literal_integer, ast_unary_expr}
use gsc.Compiler.State.{Compiler, ◌>>=◌, pure}
use gsc.Compiler.Emit.{emit_base, emit_operands, set_operands, started}
use gsc.Compiler.Handlers.{visit_unary_expr}
use gsc.Compiler.Calls.{visit_literal}
use gsc.Compiler.Visit.{visit}
use gsc.Vm.Variable.{Variable}
use gsc.Vm.Event.{ThreadState}
use gsc.Vm.Machine.{StackFrame, Machine}
use gsc.Vm.Stack.{local, read_int, push, assert_stack}
use gsc.Vm.Instructions.{execute_load}
use gsc.Vm.Execute.{vm_execute_instruction}
use gsc.Vm.Step.{advanced, step, run_thread}
use gsc.Vm.Step.Bounds.{ThreadInBounds, step-InBounds}
use gsc.Vm.Step.Compiled.{Reached, IsEntered, IsEntered-InBounds, compiled-Reached}
use gsc.Vm.Step.Negation.{minus_restores}
use gsc.Tests.Platform.{platform}
use gsc.Tests.Compiling.{tolower, strings, n_var, body, start, compiled, compile, compiled_start}

abbrev entered : List ℕ → ℕ → Compiler → StackFrame
entered locals n c = record {
  locals = locals;
  instructions = c.instructions;
  instruction_count = n;
  ip = 0;
}

abbrev start_function : Compiler
start_function = record start { max_instruction_count = 131072 }

abbrev out_of : Result (Unit {0} × Compiler) → Compiler
out_of (err fault) = start
out_of (ok (_, c)) = c

-- The function of the compiler's test with `self` undefined and `n` 0.
abbrev machine : Machine
machine = record {
  stack = [];
  frame = entered (100 ∷ 101 ∷ []) 22 compiled;
  callers = [];
  result = 0;
  thread = record {
    state = ThreadState.active;
    wait = 0;
    waittill_name = 0;
    waittill_object = 0;
    waittill_arguments = [];
    endon = [];
  };
  return_value = none;
  cells = λ a. if a == 101 then Variable.integer 0 else Variable.undefined;
  global_object = 200;
  strings = strings;
  events = [];
  pool = record { struct_size = 16; size = 0; capacity = 0; free_list = []; initial_memory = none };
}

abbrev value_of : Option (Result Machine) → Option Variable
value_of none = none
value_of (some (err fault)) = none
value_of (some (ok m)) = m.return_value

abbrev result : Option Variable
result = value_of (run_thread platform 40 machine)

machine-IsEntered : IsEntered 22 compiled machine.frame
machine-IsEntered = record { code = refl; count = refl; at_start = refl }

machine-ThreadInBounds : ThreadInBounds machine
machine-ThreadInBounds = (
  IsEntered-InBounds tolower (node n_var end) body start compiled 22 machine.frame compile
      machine-IsEntered,
  tt,
)

step-InBounds_example :
    (step platform machine
      ≡ vm_execute_instruction platform (compiled.instructions 0) (advanced machine))
    × ((m' : Machine) → step platform machine ≡ some (ok (m', true)) → ThreadInBounds m')
step-InBounds_example = step-InBounds platform machine machine-ThreadInBounds

-- The machine behind the first instruction, which loads `n`.
abbrev second : Machine
second = record (advanced machine) { stack = Variable.integer 0 ∷ [] }

load_n :
    (ins : Instruction)
    → ins.opcode ≡ op_load
    → ins.operand0 ≡ integer 1
    → vm_execute_instruction platform ins (advanced machine) ≡ some (ok (second, true))
unfolding vm_execute_instruction execute_load read_int local push assert_stack
load_n ins op slot = rw (op, slot) refl

first_step : step platform machine ≡ some (ok (second, true))
first_step =
    (step-InBounds platform machine machine-ThreadInBounds).0
    ∙ load_n (compiled.instructions 0) compiled_start.0 compiled_start.1

compiled-Reached_example :
    (second.frame.ip < second.frame.instruction_count)
    × (step platform second
        ≡ vm_execute_instruction platform
            (second.frame.instructions second.frame.ip)
            (advanced second))
compiled-Reached_example =
    compiled-Reached platform tolower (node n_var end) body start compiled 22 machine second compile
      machine-IsEntered tt (Reached.next Reached.start refl first_step)

-- `-7` behind nothing else.
abbrev seven : Node
seven = ast_literal (literal_integer 7)

abbrev behind_seven : Compiler
behind_seven = out_of (visit tolower seven start_function)

abbrev behind_minus : Compiler
behind_minus = out_of (visit tolower (ast_unary_expr seven b'-' true) start_function)

code_of_seven : visit tolower seven start_function ≡ ok (tt, behind_seven)
unfolding visit visit_literal emit_base emit_operands set_operands started ◌>>=◌ pure update
code_of_seven = refl

code_of_minus :
    visit tolower (ast_unary_expr seven b'-' true) start_function ≡ ok (tt, behind_minus)
unfolding visit visit_unary_expr visit_literal emit_base emit_operands set_operands started ◌>>=◌
    pure update
code_of_minus = refl

abbrev on_seven : Machine
on_seven = record machine { stack = Variable.integer 7 ∷ [] }

minus_restores_example :
    (behind_minus.instruction_count ≡ behind_seven.instruction_count + 2)
    × (vm_execute_instruction platform
          (behind_minus.instructions behind_seven.instruction_count)
          on_seven
        ≡ some (ok (record machine { stack = Variable.integer 0 ∷ Variable.integer 7 ∷ [] }, true)))
    × (vm_execute_instruction platform
          (behind_minus.instructions (behind_seven.instruction_count + 1))
          (record machine { stack = Variable.integer 0 ∷ Variable.integer 7 ∷ [] })
        ≡ some (ok (on_seven, true)))
minus_restores_example =
    minus_restores platform tolower seven start_function behind_seven behind_minus on_seven 7 []
      code_of_seven code_of_minus refl (omega arith) (omega arith)
