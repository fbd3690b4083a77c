-- ===== src/Compiler/Sound/Calls.antt =====
-- compiler.c: the visitors of literals and calls keep the state sound.
use gsc.Base.{ℕ, Bool, true, false, Option, none, some, List, [], ◌∷◌, ◌≡◌, refl}
use gsc.Compiler.Syntax.{
  Node, MaybeNode, Literal, absent, present, ast_identifier, ast_file_reference, literal_string,
  literal_localized_string, literal_integer, literal_boolean, literal_float, literal_function,
  literal_undefined,
}
use gsc.Compiler.Code.{Opcode, Operand, op_push, op_load, is_jump, is_local}
use gsc.Compiler.State.{Action}
use gsc.Compiler.Emit.{set_operands}
use gsc.Compiler.Calls.{
  path_operand, file_operand, name_operand, literal_operands, visit_literal, literal_name,
  call_name, call_pointer, call_literal, get_thread_opcode, thread_opcode, is_waittill,
  calls_waittill, Argument, visit_more, visit_arguments, visit_thread_call, object_of, is_present,
  visit_regular_call, dispatch_call, visit_call_expr,
}
use gsc.Compiler.Sound.Invariant.{Keeps, no_new}
use gsc.Compiler.Sound.Actions.{Keeps-bind, KeepsWith-error, Keeps-gets}
use gsc.Compiler.Sound.Emit.{emit2-Keeps, emit_operands-Keeps, set_operands-Keeps, string-Keeps}
use gsc.Compiler.Sound.Locals.{visit_self-Keeps}
use gsc.Compiler.Sound.Handlers.{Kept, OptionKept, keeps_rules}

ruleset string_rules = (Keeps-bind, Keeps-gets, KeepsWith-error, string-Keeps)

path_operand-Keeps :
    (lo : ℕ) (js : List ℕ) (path : Option (List ℕ)) → Keeps lo js (path_operand path)
path_operand-Keeps lo js none = search string_rules
path_operand-Keeps lo js (some path) = search string_rules

file_operand-Keeps : (lo : ℕ) (js : List ℕ) (file : MaybeNode) → Keeps lo js (file_operand file)
file_operand-Keeps lo js absent = search (path_operand-Keeps, string_rules)
file_operand-Keeps lo js (present (ast_file_reference file)) = search string_rules
file_operand-Keeps lo js (present n) = search string_rules

name_operand-Keeps : (lo : ℕ) (js : List ℕ) (n : Node) → Keeps lo js (name_operand n)
name_operand-Keeps lo js (ast_identifier name) = search string_rules
name_operand-Keeps lo js n = search string_rules

operand1-Keeps :
    (lo : ℕ) (js : List ℕ) (i : ℕ) (o : Operand)
    → Keeps lo js (set_operands i (λ instr. record instr { operand1 = o }))
operand1-Keeps lo js i o = set_operands-Keeps lo js i _ (λ x. refl) (λ x. refl) (λ x. refl)

operand2-Keeps :
    (lo : ℕ) (js : List ℕ) (i : ℕ) (o : Operand)
    → Keeps lo js (set_operands i (λ instr. record instr { operand2 = o }))
operand2-Keeps lo js i o = set_operands-Keeps lo js i _ (λ x. refl) (λ x. refl) (λ x. refl)

ruleset operand_rules = (
  Keeps-bind, string-Keeps, file_operand-Keeps, name_operand-Keeps, operand1-Keeps, operand2-Keeps,
)

literal_operands-Keeps :
    (lo : ℕ) (js : List ℕ) (i : ℕ) (literal : Literal) → Keeps lo js (literal_operands i literal)
literal_operands-Keeps lo js i (literal_string s) = search operand_rules
literal_operands-Keeps lo js i (literal_localized_string s) = search operand_rules
literal_operands-Keeps lo js i (literal_boolean b) = search operand_rules
literal_operands-Keeps lo js i (literal_integer b) = search operand_rules
literal_operands-Keeps lo js i literal_undefined = search operand_rules
literal_operands-Keeps lo js i (literal_float b) = search operand_rules
literal_operands-Keeps lo js i (literal_function file function) = search operand_rules

pub visit_literal-Keeps : (literal : Literal) → Kept (visit_literal literal)
unfolding visit_literal
visit_literal-Keeps literal lo js =
    Keeps-bind lo js no_new _ _
      (emit_operands-Keeps lo js op_push _ refl refl (λ x. refl) (λ x. refl))
      (λ i. literal_operands-Keeps lo js i literal)

pub literal_name-Keeps : (literal : Literal) → Kept (literal_name literal)
unfolding literal_name
literal_name-Keeps (literal_string s) lo js = search (string-Keeps, keeps_rules)
literal_name-Keeps literal lo js = KeepsWith-error lo js no_new _

pub call_name-Keeps :
    (name : List ℕ) (flags numarguments : ℕ) → Kept (call_name name flags numarguments)
unfolding call_name
call_name-Keeps name flags numarguments lo js = search (string-Keeps, keeps_rules)

pub call_pointer-Keeps :
    (pointer : Action) (flags numarguments : ℕ)
    → Kept pointer
    → Kept (call_pointer pointer flags numarguments)
unfolding call_pointer
call_pointer-Keeps pointer flags numarguments k lo js = search keeps_rules

pub call_literal-Keeps :
    (literal : Literal) (flags numarguments : ℕ) → Kept (call_literal literal flags numarguments)
unfolding call_literal
call_literal-Keeps (literal_function (present (ast_file_reference file)) (ast_identifier name))
      flags numarguments lo js =
    search (string-Keeps, keeps_rules)
call_literal-Keeps (literal_function absent function) flags numarguments lo js =
    KeepsWith-error lo js no_new _
call_literal-Keeps (literal_function (present file) function) flags numarguments lo js =
    KeepsWith-error lo js no_new _
call_literal-Keeps literal flags numarguments lo js = KeepsWith-error lo js no_new _

-- The two visitors of an argument keep the state sound.
abbrev pub ArgumentsKept : List Argument → Type 0
ArgumentsKept [] = Unit
ArgumentsKept (a ∷ arguments) = Kept a.visited × Kept a.referenced × ArgumentsKept arguments

visit_more-Keeps :
    (by_reference : Bool) (arguments : List Argument)
    → ArgumentsKept arguments
    → Kept (visit_more by_reference arguments)
unfolding visit_more
visit_more-Keeps by_reference [] k lo js = search keeps_rules
visit_more-Keeps by_reference (a ∷ arguments) (kv, kr, k) lo js =
    let rest = visit_more-Keeps by_reference arguments k in search keeps_rules

visit_arguments-Keeps :
    (by_reference : Bool) (arguments : List Argument)
    → ArgumentsKept arguments
    → Kept (visit_arguments by_reference arguments)
unfolding visit_arguments
visit_arguments-Keeps by_reference [] k lo js = search keeps_rules
visit_arguments-Keeps by_reference (a ∷ arguments) (kv, kr, k) lo js =
    let rest = visit_more-Keeps by_reference arguments k in search keeps_rules

-- The opcodes of the calls that wait for events or send them take no target and no slot.
abbrev IsEvent : Opcode → Type 0
IsEvent op = (is_jump op ≡ false) × (is_local op ≡ false)

visit_thread_call-Keeps :
    (op : Opcode) (object : Action) (arguments : List Argument)
    → IsEvent op
    → Kept object
    → ArgumentsKept arguments
    → Kept (visit_thread_call op object arguments)
unfolding visit_thread_call
visit_thread_call-Keeps op object arguments (h, h') ko k lo js =
    let ka = visit_arguments-Keeps (is_waittill op) arguments k in search (emit2-Keeps, keeps_rules)

object_of-Keeps :
    (object member : Option Action)
    → OptionKept object
    → OptionKept member
    → Kept (object_of object member)
object_of-Keeps (some object) member ko km lo js = ko lo js
object_of-Keeps none (some member) ko km lo js = km lo js
object_of-Keeps none none ko km lo js = visit_self-Keeps lo js op_load refl

visit_regular_call-Keeps :
    (threaded : Bool) (object : Option Action) (callee : Node) (member : Option Action)
    (call : ℕ → ℕ → Action) (arguments : List Argument)
    → OptionKept object
    → OptionKept member
    → ((flags numarguments : ℕ) → Kept (call flags numarguments))
    → ArgumentsKept arguments
    → Kept (visit_regular_call threaded object callee member call arguments)
unfolding visit_regular_call
visit_regular_call-Keeps threaded object callee member call arguments ko km kc k lo js =
    let ka = visit_arguments-Keeps (calls_waittill callee) arguments k in
    let self = object_of-Keeps object member ko km in search (emit2-Keeps, keeps_rules)

abbrev EventOption : Option Opcode → Type 0
EventOption none = Unit
EventOption (some op) = IsEvent op

thread_opcode-EventOption :
    (waittill notify endon : Bool) → EventOption (thread_opcode waittill notify endon)
thread_opcode-EventOption true notify endon = (refl, refl)
thread_opcode-EventOption false true endon = (refl, refl)
thread_opcode-EventOption false false true = (refl, refl)
thread_opcode-EventOption false false false = tt

get_thread_opcode-EventOption :
    (has_object : Bool) (callee : Node) → EventOption (get_thread_opcode has_object callee)
get_thread_opcode-EventOption true (ast_identifier name) = thread_opcode-EventOption _ _ _
get_thread_opcode-EventOption true callee = tt
get_thread_opcode-EventOption false callee = tt

dispatch_call-Keeps :
    (o : Option Opcode) (object : Option Action) (arguments : List Argument) (regular : Action)
    → EventOption o
    → OptionKept object
    → ArgumentsKept arguments
    → Kept regular
    → Kept (dispatch_call o object arguments regular)
dispatch_call-Keeps (some op) (some object) arguments regular e ko k kr =
    visit_thread_call-Keeps op object arguments e ko k
dispatch_call-Keeps (some op) none arguments regular e ko k kr = kr
dispatch_call-Keeps none object arguments regular e ko k kr = kr

pub visit_call_expr-Keeps :
    (threaded : Bool) (object : Option Action) (callee : Node) (member : Option Action)
    (call : ℕ → ℕ → Action) (arguments : List Argument)
    → OptionKept object
    → OptionKept member
    → ((flags numarguments : ℕ) → Kept (call flags numarguments))
    → ArgumentsKept arguments
    → Kept (visit_call_expr threaded object callee member call arguments)
visit_call_expr-Keeps threaded object callee member call arguments ko km kc k =
    dispatch_call-Keeps (get_thread_opcode (is_present object) callee) object arguments _
      (get_thread_opcode-EventOption (is_present object) callee) ko k
      (visit_regular_call-Keeps threaded object callee member call arguments ko km kc k)
