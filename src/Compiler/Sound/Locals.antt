-- ===== src/Compiler/Sound/Locals.antt =====
-- compiler.c: naming a variable keeps the state sound: each local variable has a slot below the
-- number of the variables.
use mathlib.Core.Bool.{true≢false}
use mathlib.Core.Option.{some-injective}
use gsc.Base.{
  ℕ, ◌+◌, ◌≤◌, ◌<◌, Bool, true, false, Option, none, some, List, [], map, ◌≡◌, refl, sym, ap, ◌∙◌,
  arith, inl, inr,
}
use gsc.Base.Result.{Result, ok, err}
use gsc.HashTrie.{HashTrie, value_at, set_value}
use gsc.HashTrie.Values.{upsert-value, set_value-value}
use gsc.Compiler.Syntax.{Node, ast_identifier}
use gsc.Compiler.Code.{
  Opcode, op_push, op_ref, op_global, op_field_ref, Operand, integer, none_operand, is_jump,
  is_local,
}
use gsc.Compiler.State.{Compiler, continue, ◌>>=◌, pure}
use gsc.Compiler.Emit.{emit4, emit_operands}
use gsc.Compiler.Handlers.{visit_self}
use gsc.Compiler.Locals.{
  push_name, define_at, define_entry, define_local_variable, local_variable, global_field,
  names_global, variable, identifier,
}
use gsc.Compiler.Sound.Invariant.{IsSound, Extends, Grows, Keeps, no_new}
use gsc.Compiler.Sound.Actions.{
  Keeps-bind, Keeps-gets, KeepsWith-error, KeepsWith-if, Keeps-pure, Fits-mono, weaken-Grows,
  continue-Grows,
}
use gsc.Compiler.Sound.Emit.{
  emit_operands-Grows, emit-Keeps, emit1-Keeps, emit4-Keeps, string-Keeps,
}

-- The values in the table are below `n`.
abbrev pub Below : ℕ → HashTrie ℕ → Type 0
Below n variables = (p v : ℕ) → value_at variables p ≡ some v → v < n

pub set_value-Below :
    (n : ℕ) (variables : HashTrie ℕ) (p : ℕ)
    → Below n variables
    → Below (n + 1) (set_value variables p n)
set_value-Below n variables p below q v e = elim (set_value-value variables p q n v e) [
  | inl new ↦ let same : n ≡ v = some-injective _ _ new in omega arith
  | inr old ↦ let lt = below q v old in omega arith
]

-- A name's slot, with the table in which it stands.
defined-IsSound :
    (c : Compiler) (variables : HashTrie ℕ) (n : ℕ)
    → IsSound c
    → c.variable_index ≤ n
    → Below n variables
    → IsSound (record c { variables = variables; variable_index = n })
defined-IsSound c variables n s le below = record {
  count_le = s.count_le;
  max_le = s.max_le;
  self_defined = let d = s.self_defined in omega arith;
  slots = below;
  fits = λ i lt. Fits-mono (omega arith) le (s.fits i lt);
  pending_patchable = s.pending_patchable;
}

-- What `define_local_variable` does: the slot that it returns is below the number of variables.
abbrev Defines : Compiler → Result (ℕ × Compiler) → Type 0
Defines c (err fault) = Unit
Defines c (ok (slot, c')) = Extends c c' × (slot < c'.variable_index)

define_at-Defines :
    (c : Compiler) (is_parm : Bool) (variables : HashTrie ℕ) (p : ℕ) (o : Option ℕ)
    → IsSound c
    → Below c.variable_index variables
    → value_at variables p ≡ o
    → Defines c (define_at c is_parm variables p o)
define_at-Defines c true variables p (some slot) s below e = tt
define_at-Defines c false variables p (some slot) s below e = (
  record {
    sound = defined-IsSound c variables c.variable_index s (omega arith) below;
    count_mono = omega arith;
    opcodes = λ i lt. refl;
  },
  below p slot e,
)
define_at-Defines c is_parm variables p none s below e = (
  record {
    sound =
        defined-IsSound c (set_value variables p c.variable_index) (c.variable_index + 1) s
          (omega arith) (set_value-Below c.variable_index variables p below);
    count_mono = omega arith;
    opcodes = λ i lt. refl;
  },
  omega arith,
)

define_entry-Defines :
    (c : Compiler) (is_parm : Bool) (r : HashTrie ℕ × Option ℕ)
    → IsSound c
    → Below c.variable_index r.0
    → Defines c (define_entry c is_parm r)
define_entry-Defines c is_parm (variables, none) s below = tt
define_entry-Defines c is_parm (variables, some p) s below =
    define_at-Defines c is_parm variables p (value_at variables p) s below refl

Defines-Grows : (c : Compiler) (r : Result (ℕ × Compiler)) → Defines c r → Grows c no_new r
Defines-Grows c (err fault) d = tt
Defines-Grows c (ok (slot, c')) (e, lt) = (e, tt)

-- An instruction that names a slot of the state.
emit_slot-Grows :
    (c : Compiler) (op : Opcode) (slot : ℕ) (o1 o2 o3 : Operand)
    → IsSound c
    → is_jump op ≡ false
    → slot < c.variable_index
    → Grows c no_new (emit4 op (integer slot) o1 o2 o3 c)
unfolding ◌>>=◌
emit_slot-Grows c op slot o1 o2 o3 s not_jump lt =
    continue-Grows no_new no_new 0 [] c (emit_operands op _ c) (λ _. pure tt) (omega arith) tt
      (emit_operands-Grows c op _ s λ instr at_end is_op. record {
        offset_eq = at_end;
        jump_lands = λ h. absurd (true≢false (sym h ∙ ap is_jump is_op ∙ not_jump));
        local_slot = λ h. (slot, lt, refl);
      })
      (λ _. Keeps-pure 0 [] tt)

emit_local-Grows :
    (c : Compiler) (op : Opcode) (o1 o2 o3 : Operand) (r : Result (ℕ × Compiler))
    → is_jump op ≡ false
    → Defines c r
    → Grows c no_new (continue r (λ slot. emit4 op (integer slot) o1 o2 o3))
emit_local-Grows c op o1 o2 o3 (err fault) not_jump d = tt
emit_local-Grows c op o1 o2 o3 (ok (slot, c')) not_jump (e, lt) =
    weaken-Grows c c' no_new _ e (emit_slot-Grows c' op slot o1 o2 o3 e.sound not_jump lt)

-- `self`, which is the first local variable of every function.
pub visit_self-Keeps :
    (lo : ℕ) (js : List ℕ) (op : Opcode) → is_jump op ≡ false → Keeps lo js (visit_self op)
visit_self-Keeps lo js op not_jump = record {
  at = λ c s le all.
      emit_slot-Grows c op 0 none_operand none_operand none_operand s not_jump s.self_defined;
}

pub push_name-Keeps : (lo : ℕ) (js : List ℕ) (name : List ℕ) → Keeps lo js (push_name name)
unfolding push_name
push_name-Keeps lo js name =
    Keeps-bind lo js no_new _ _ (string-Keeps lo js name)
      (λ s. emit4-Keeps lo js op_push _ _ _ _ refl refl)

global_field-Keeps :
    (lo : ℕ) (js : List ℕ) (op : Opcode) (by_reference : ℕ) (name : List ℕ)
    → is_local op ≡ false
    → Keeps lo js (global_field op by_reference name)
global_field-Keeps lo js op by_reference name not_local =
    Keeps-bind lo js no_new _ _ (push_name-Keeps lo js name) λ _.
      Keeps-bind lo js no_new _ _ (emit1-Keeps lo js op_global (integer by_reference) refl refl)
        λ _. emit-Keeps lo js op not_local

module _ (tolower : ℕ → ℕ) where
  define_local_variable-Defines :
      (c : Compiler) (name : List ℕ) (is_parm : Bool)
      → IsSound c
      → Defines c (define_local_variable tolower name is_parm c)
  unfolding define_local_variable
  define_local_variable-Defines c name is_parm s =
      define_entry-Defines c is_parm _ s (λ p v e.
        s.slots p v (upsert-value tolower c.variables (map tolower name) true false p v e))

  pub define_local_variable-Keeps :
      (lo : ℕ) (js : List ℕ) (name : List ℕ) (is_parm : Bool)
      → Keeps lo js (define_local_variable tolower name is_parm)
  define_local_variable-Keeps lo js name is_parm = record {
    at = λ c s le all. Defines-Grows c _ (define_local_variable-Defines c name is_parm s);
  }

  local_variable-Keeps :
      (lo : ℕ) (js : List ℕ) (op : Opcode) (name : List ℕ)
      → is_jump op ≡ false
      → Keeps lo js (local_variable tolower op name)
  unfolding ◌>>=◌
  local_variable-Keeps lo js op name not_jump = record {
    at = λ c s le all.
        emit_local-Grows c op none_operand none_operand none_operand
          (define_local_variable tolower name false c) not_jump
          (define_local_variable-Defines c name false s);
  }

  pub variable-Keeps :
      (lo : ℕ) (js : List ℕ) (local_op field_op : Opcode) (by_reference : ℕ) (name : List ℕ)
      → is_jump local_op ≡ false
      → is_local field_op ≡ false
      → Keeps lo js (variable tolower local_op field_op by_reference name)
  unfolding variable names_global
  variable-Keeps lo js local_op field_op by_reference name not_jump not_local =
      Keeps-bind lo js no_new _ _ (Keeps-gets lo js _) λ global.
        KeepsWith-if lo js no_new _ _ _
          (global_field-Keeps lo js field_op by_reference name not_local)
          (local_variable-Keeps lo js local_op name not_jump)

  pub identifier-Keeps : (lo : ℕ) (js : List ℕ) (n : Node) → Keeps lo js (identifier tolower n)
  identifier-Keeps lo js (ast_identifier name) =
      variable-Keeps lo js op_ref op_field_ref 1 name refl refl
  identifier-Keeps lo js n = KeepsWith-error lo js no_new _
