-- ===== src/Compiler/Locals.antt =====
-- compiler.c: the slots of the local variables, and the code that names a variable.
use gsc.Base.{ℕ, ◌+◌, Bool, true, false, Option, none, some, List, map, if◌then◌else◌}
use gsc.Base.Result.{Result, ok, err, already_defined, undefined_behaviour}
use gsc.HashTrie.{HashTrie, upsert, value_at, set_value}
use gsc.Compiler.Syntax.{Node, ast_identifier}
use gsc.Compiler.Code.{
  Opcode, op_push, op_ref, op_load, op_global, op_field_ref, op_load_field, none_operand, integer,
}
use gsc.Compiler.State.{Compiler, Compile, Action, ◌>>=◌, ◌>>◌, error, gets}
use gsc.Compiler.Emit.{emit, emit1, emit4, string}

-- `define_local_variable` from the entry of the name and the value that the entry holds.
abbrev pub define_at : Compiler → Bool → HashTrie ℕ → ℕ → Option ℕ → Result (ℕ × Compiler)
define_at c is_parm variables p (some slot) =
    if is_parm then err already_defined else ok (slot, record c { variables = variables })
define_at c is_parm variables p none = ok (
  c.variable_index,
  record c {
    variables = set_value variables p c.variable_index;
    variable_index = c.variable_index + 1;
  },
)

abbrev pub define_entry : Compiler → Bool → HashTrie ℕ × Option ℕ → Result (ℕ × Compiler)
define_entry c is_parm (variables, none) = err undefined_behaviour
define_entry c is_parm (variables, some p) = define_at c is_parm variables p (value_at variables p)

-- The property's name as a string: the case AST_IDENTIFIER of `property`.
unfoldable pub push_name : List ℕ → Action
push_name name = do s ← string name; emit4 op_push (integer 0) s none_operand none_operand

-- A variable of the global object, as a field of it or a reference to the field.
abbrev pub global_field : Opcode → ℕ → List ℕ → Action
global_field op by_reference name = do
  push_name name
  emit1 op_global (integer by_reference)
  emit op

-- `tolower` is the C library's.
module _ (tolower : ℕ → ℕ) where
  unfoldable pub define_local_variable : List ℕ → Bool → Compile ℕ
  define_local_variable name is_parm =
      λ c. define_entry c is_parm (upsert tolower c.variables (map tolower name) true false)

  -- Whether the name is a key of `globals`, which are not extended here.
  abbrev is_global : List ℕ → Option (HashTrie ℕ) → Bool
  is_global name none = false
  is_global name (some globals) = elim ((upsert tolower globals name false false).1) [
    | some _ ↦ true
    | none ↦ false
  ]

  unfoldable pub names_global : List ℕ → Compile Bool
  names_global name = gets (λ c. is_global name c.globals)

  -- A local variable, which its first use defines.
  abbrev pub local_variable : Opcode → List ℕ → Action
  local_variable op name = do
    slot ← define_local_variable name false
    emit4 op (integer slot) none_operand none_operand none_operand

  -- A variable: by its slot, or as a field of the global object. `identifier` and the visitor of an
  -- identifier differ in the two opcodes and the operand of OP_GLOBAL.
  unfoldable pub variable : Opcode → Opcode → ℕ → List ℕ → Action
  variable local_op field_op by_reference name = do
    global ← names_global name
    if global then global_field field_op by_reference name else local_variable local_op name

  abbrev pub visit_identifier : List ℕ → Action
  visit_identifier = variable op_load op_load_field 0

  -- `identifier`: the reference to a variable. Any other node is read as if it were an identifier.
  abbrev pub identifier : Node → Action
  identifier (ast_identifier name) = variable op_ref op_field_ref 1 name
  identifier _ = error undefined_behaviour
