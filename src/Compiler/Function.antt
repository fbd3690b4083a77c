-- ===== src/Compiler/Function.antt =====
-- compiler.c: the compilation of one function, and of a single node.
use gsc.Base.{ℕ, true, false, ◌&&◌, Option, none, List, [], ◌∷◌, if◌then◌else◌, ltb, ◌==◌}
use gsc.Base.Result.{ok, not_an_identifier}
use gsc.HashTrie.{HashTrie, init}
use gsc.StringTable.{StringTable}
use gsc.Compiler.Syntax.{Node, Nodes, end, node, ast_identifier}
use gsc.Compiler.Code.{
  Instruction, op_undef, op_ret, integer, integer_of, is_jump, max_instructions_count,
}
use gsc.Compiler.State.{Compiler, Compile, Action, ◌>>◌, pure, error, gets}
use gsc.Compiler.Emit.{emit, unresolved}
use gsc.Compiler.Locals.{define_local_variable}
use gsc.Compiler.Visit.{visit}

-- "self".
abbrev pub name_self : List ℕ
name_self = 115 ∷ 101 ∷ 108 ∷ 102 ∷ []

-- The fields that `compile_function` sets before it starts. The instructions, the strings and the
-- scopes of the function before stay in place.
unfoldable pub reset : Compiler → Compiler
reset c = record c {
  variables = init ℕ;
  variable_index = 0;
  current_scope = 0;
  instruction_count = 0;
  max_instruction_count = max_instructions_count;
  jumps = [];
}

-- The last loop: a jump that no scope has resolved goes to the next instruction.
unfoldable pub resolve : Instruction → Instruction
resolve instr =
    if is_jump instr.opcode && integer_of instr.operand0 == unresolved
    then record instr { operand0 = integer 0 }
    else instr

unfoldable pub resolve_jumps : Action
resolve_jumps = λ c. ok (
  tt,
  record c {
    instructions =
        λ i. if ltb i c.instruction_count then resolve (c.instructions i) else c.instructions i;
  },
)

-- The fields that `compile_node` sets. It keeps `jump_count` as the caller left it.
unfoldable pub reset_node :
    (ℕ → Instruction) → ℕ → StringTable → Option (HashTrie ℕ) → Compiler → Compiler
reset_node instructions max_instruction_count strings globals c = record c {
  variables = init ℕ;
  globals = globals;
  strings = strings;
  print_expression = false;
  path = none;
  variable_index = 0;
  instructions = instructions;
  instruction_count = 0;
  max_instruction_count = max_instruction_count;
  current_scope = 0;
}

module _ (tolower : ℕ → ℕ) where
  unfoldable pub define_parameters : Nodes → Action
  define_parameters end = pure tt
  define_parameters (node (ast_identifier name) ns) = do
    define_local_variable tolower name true
    define_parameters ns
  define_parameters (node _ ns) = error not_an_identifier

  -- The locals, the body, and the return that ends every function.
  unfoldable pub compile_body : Nodes → Node → Action
  compile_body parameters body = do
    define_local_variable tolower name_self true
    define_parameters parameters
    visit tolower body
    emit op_undef
    emit op_ret

  -- `compile_function`: the number of instructions, with the compiler that holds them and has the
  -- number of locals as `variable_index`.
  unfoldable pub compile_function : Nodes → Node → Compile ℕ
  compile_function parameters body = λ c.
      (do compile_body parameters body; resolve_jumps; gets (λ c'. c'.instruction_count)) (reset c)

  unfoldable pub compile_node :
      (ℕ → Instruction) → ℕ → StringTable → Option (HashTrie ℕ) → Node → Compile ℕ
  compile_node instructions max_instruction_count strings globals n = λ c.
      (do visit tolower n; gets (λ c'. c'.instruction_count))
        (reset_node instructions max_instruction_count strings globals c)
