-- ===== src/Compiler/Calls.antt =====
-- compiler.c: the visitors of literals and calls.
use gsc.Base.{
  ℕ, ◌+◌, Bool, true, false, ◌||◌, Option, none, some, List, [], ◌∷◌, length, bytes_eq,
  if◌then◌else◌,
}
use gsc.Base.Result.{
  not_a_function, not_a_file_reference, not_an_identifier, undefined_behaviour, invalid_property,
}
use gsc.Compiler.Syntax.{
  Node, MaybeNode, Literal, absent, present, literal_type, ast_identifier, ast_file_reference,
  literal_string, literal_localized_string, literal_integer, literal_boolean, literal_float,
  literal_function, literal_undefined,
}
use gsc.Compiler.Code.{
  Opcode, Operand, op_push, op_load, op_call, op_call_ptr, op_waittill, op_notify, op_endon,
  none_operand, integer, number,
}
use gsc.Compiler.State.{Compile, Action, ◌>>=◌, ◌>>◌, pure, error, gets}
use gsc.Compiler.Emit.{emit2, emit4, emit_operands, set_operands, string}
use gsc.Compiler.Handlers.{visit_self}

abbrev pub call_flag_threaded : ℕ
call_flag_threaded = 1

abbrev pub call_flag_method : ℕ
call_flag_method = 2

-- `string(c, c->path)`: `compile_node` leaves the path NULL.
abbrev pub path_operand : Option (List ℕ) → Compile Operand
path_operand none = error undefined_behaviour
path_operand (some path) = string path

-- The file that a function literal names, or the one that is compiled.
abbrev pub file_operand : MaybeNode → Compile Operand
file_operand absent = do path ← gets (λ c. c.path); path_operand path
file_operand (present (ast_file_reference file)) = string file
file_operand (present _) = error not_a_file_reference

abbrev pub name_operand : Node → Compile Operand
name_operand (ast_identifier name) = string name
name_operand _ = error not_an_identifier

-- The operands behind the type, written into the instruction `i`.
abbrev pub literal_operands : ℕ → Literal → Action
literal_operands i (literal_string s) = do
  o ← string s
  set_operands i (λ instr. record instr { operand1 = o })
literal_operands i (literal_localized_string s) = do
  o ← string s
  set_operands i (λ instr. record instr { operand1 = o })
literal_operands i (literal_boolean b) =
    set_operands i (λ instr. record instr { operand1 = integer b })
literal_operands i (literal_integer w) =
    set_operands i (λ instr. record instr { operand1 = integer w })
literal_operands i literal_undefined =
    set_operands i (λ instr. record instr { operand1 = none_operand })
literal_operands i (literal_float b) =
    set_operands i (λ instr. record instr { operand1 = number b })
literal_operands i (literal_function file function) = do
  f ← file_operand file
  set_operands i (λ instr. record instr { operand2 = f })
  name ← name_operand function
  set_operands i (λ instr. record instr { operand1 = name })

unfoldable pub visit_literal : Literal → Action
visit_literal literal = do
  i ← emit_operands op_push (λ instr. record instr { operand0 = integer (literal_type literal) })
  literal_operands i literal

-- A property behind a `.` that is a literal.
unfoldable pub literal_name : Literal → Action
literal_name (literal_string s) = do
  o ← string s
  emit4 op_push (integer 0) o none_operand none_operand
literal_name _ = error invalid_property

-- `callee` for a name, for a pointer that the stack holds, and for a literal. The compiler may
-- evaluate the two strings of a literal in either order; here the name comes first.
unfoldable pub call_name : List ℕ → ℕ → ℕ → Action
call_name name flags numarguments = do
  s ← string name
  emit4 op_call s none_operand (integer numarguments) (integer flags)

unfoldable pub call_pointer : Action → ℕ → ℕ → Action
call_pointer pointer flags numarguments = do
  pointer
  emit4 op_call_ptr none_operand none_operand (integer numarguments) (integer flags)

unfoldable pub call_literal : Literal → ℕ → ℕ → Action
call_literal (literal_function absent function) flags numarguments = error undefined_behaviour
call_literal (literal_function (present (ast_file_reference file)) (ast_identifier name)) flags
      numarguments =
    do s ← string name; f ← string file; emit4 op_call s f (integer numarguments) (integer flags)
call_literal (literal_function (present (ast_file_reference file)) function) flags numarguments =
    error not_an_identifier
call_literal (literal_function (present file) function) flags numarguments =
    error not_a_file_reference
call_literal literal flags numarguments = error not_a_function

-- "waittill", "waittillmatch", "notify" and "endon".
abbrev name_waittill : List ℕ
name_waittill = 119 ∷ 97 ∷ 105 ∷ 116 ∷ 116 ∷ 105 ∷ 108 ∷ 108 ∷ []

abbrev name_waittillmatch : List ℕ
name_waittillmatch = 119 ∷ 97 ∷ 105 ∷ 116 ∷ 116 ∷ 105 ∷ 108 ∷ 108 ∷ 109 ∷ 97 ∷ 116 ∷ 99 ∷ 104 ∷ []

abbrev name_notify : List ℕ
name_notify = 110 ∷ 111 ∷ 116 ∷ 105 ∷ 102 ∷ 121 ∷ []

abbrev name_endon : List ℕ
name_endon = 101 ∷ 110 ∷ 100 ∷ 111 ∷ 110 ∷ []

-- The opcode of a name that is one of the first two, the third or the fourth.
abbrev pub thread_opcode : Bool → Bool → Bool → Option Opcode
thread_opcode true notify endon = some op_waittill
thread_opcode false true endon = some op_notify
thread_opcode false false true = some op_endon
thread_opcode false false false = none

-- `get_thread_opcode`, with `none` for -1.
abbrev pub get_thread_opcode : Bool → Node → Option Opcode
get_thread_opcode true (ast_identifier name) =
    thread_opcode (bytes_eq name name_waittill || bytes_eq name name_waittillmatch)
      (bytes_eq name name_notify) (bytes_eq name name_endon)
get_thread_opcode has_object callee = none

abbrev pub is_waittill : Opcode → Bool
is_waittill op_waittill = true
is_waittill _ = false

abbrev pub calls_waittill : Node → Bool
calls_waittill (ast_identifier name) = bytes_eq name name_waittill
calls_waittill _ = false

-- An argument: the action that visits it, and the one that refers to it as a variable.
pub record Argument : Type 0 where
  pub visited : Action
  pub referenced : Action

-- The arguments from the last to the first. All but the first may be passed by reference.
unfoldable pub visit_more : Bool → List Argument → Action
visit_more by_reference [] = pure tt
visit_more by_reference (a ∷ arguments) = do
  visit_more by_reference arguments
  if by_reference then a.referenced else a.visited

unfoldable pub visit_arguments : Bool → List Argument → Action
visit_arguments by_reference [] = pure tt
visit_arguments by_reference (a ∷ arguments) = do visit_more by_reference arguments; a.visited

unfoldable pub visit_thread_call : Opcode → Action → List Argument → Action
visit_thread_call op object arguments = do
  visit_arguments (is_waittill op) arguments
  object
  emit2 op (integer (length arguments)) none_operand

-- The object of a call, that of a member, or `self`, and whether the call is that of a method.
abbrev pub object_of : Option Action → Option Action → Action
object_of (some object) member = object
object_of none (some member) = member
object_of none none = visit_self op_load

abbrev pub is_present : Option Action → Bool
is_present (some _) = true
is_present none = false

abbrev pub call_flags : Bool → Option Action → Option Action → ℕ
call_flags threaded object member =
    (if threaded then call_flag_threaded else 0)
    + (if is_present object || is_present member then call_flag_method else 0)

-- A call, from the actions of its object, of the object of a callee that is a member, and of the
-- callee, which takes the flags and the number of arguments.
unfoldable pub visit_regular_call :
    Bool → Option Action → Node → Option Action → (ℕ → ℕ → Action) → List Argument → Action
visit_regular_call threaded object callee member call arguments = do
  visit_arguments (calls_waittill callee) arguments
  object_of object member
  emit2 op_push (integer 1) (integer (length arguments))
  call (call_flags threaded object member) (length arguments)

abbrev pub dispatch_call : Option Opcode → Option Action → List Argument → Action → Action
dispatch_call (some op) (some object) arguments regular = visit_thread_call op object arguments
dispatch_call op object arguments regular = regular

abbrev pub visit_call_expr :
    Bool → Option Action → Node → Option Action → (ℕ → ℕ → Action) → List Argument → Action
visit_call_expr threaded object callee member call arguments =
    dispatch_call (get_thread_opcode (is_present object) callee) object arguments
      (visit_regular_call threaded object callee member call arguments)
