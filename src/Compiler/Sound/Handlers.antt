-- ===== src/Compiler/Sound/Handlers.antt =====
-- compiler.c: the visitors of statements and operators keep the state sound when those of the
-- children do.
use gsc.Base.{
  ℕ, ◌≤◌, Bool, true, false, Option, none, some, List, [], ◌∷◌, ◌≡◌, refl, arith, length,
  if◌then◌else◌, ◌==◌,
}
use gsc.Compiler.Syntax.{Node}
use gsc.Compiler.Code.{Opcode, is_local, op_jmp}
use gsc.Compiler.State.{Compile, Action}
use gsc.Compiler.Handlers.{
  visit_or, visit_wait_stmt, visit_return_stmt, visit_expr_stmt, visit_block_stmt, visit_reversed,
  visit_vector_expr, update_of, finish_loop, visit_loop, visit_for_stmt, visit_else, visit_if_stmt,
  visit_logical, visit_binary_expr, visit_assignment_expr, visit_unary_expr, choose_property,
  visit_field,
}
use gsc.Compiler.Sound.Invariant.{Keeps, no_new}
use gsc.Compiler.Sound.Actions.{
  Among, here, there, Keeps-bind, Keeps-pure, KeepsWith-error, Keeps-gets, KeepsWith-if, Keeps-ip,
}
use gsc.Compiler.Sound.Emit.{
  emit_base-Keeps, emit_operands-Keeps, emit-Keeps, emit1-Keeps, emit4-Keeps, Keeps-jump,
  reljmp_current-Keeps, patch_reljmp-Keeps,
}
use gsc.Compiler.Sound.Scope.{AtMost, increment_scope-Keeps, decrement_scope-Keeps}

-- A child whose visitor keeps the state sound.
abbrev pub Kept : {A : Type 0} → Compile A → Type 0
Kept m = (lo : ℕ) (js : List ℕ) → Keeps lo js m

abbrev pub OptionKept : Option Action → Type 0
OptionKept none = Unit
OptionKept (some m) = Kept m

abbrev pub AllKept : List Action → Type 0
AllKept [] = Unit
AllKept (m ∷ ms) = Kept m × AllKept ms

pub ruleset keeps_rules = (
  Keeps-bind, Keeps-pure, KeepsWith-error, Keeps-gets, KeepsWith-if, emit-Keeps, emit1-Keeps,
  emit4-Keeps, patch_reljmp-Keeps, increment_scope-Keeps, here, there, refl,
)

visit_or-Keeps :
    (lo : ℕ) (js : List ℕ) (op : Opcode) (child : Option Action)
    → is_local op ≡ false
    → OptionKept child
    → Keeps lo js (visit_or op child)
visit_or-Keeps lo js op none not_local k = emit-Keeps lo js op not_local
visit_or-Keeps lo js op (some m) not_local k = k lo js

pub visit_wait_stmt-Keeps :
    (duration : Option Action) → OptionKept duration → Kept (visit_wait_stmt duration)
unfolding visit_wait_stmt
visit_wait_stmt-Keeps duration k lo js = search (visit_or-Keeps, keeps_rules)

pub visit_return_stmt-Keeps :
    (argument : Option Action) → OptionKept argument → Kept (visit_return_stmt argument)
unfolding visit_return_stmt
visit_return_stmt-Keeps argument k lo js = search (visit_or-Keeps, keeps_rules)

pub visit_expr_stmt-Keeps :
    (expression : Action) → Kept expression → Kept (visit_expr_stmt expression)
unfolding visit_expr_stmt
visit_expr_stmt-Keeps expression k lo js = search keeps_rules

pub visit_block_stmt-Keeps : (ms : List Action) → AllKept ms → Kept (visit_block_stmt ms)
unfolding visit_block_stmt
visit_block_stmt-Keeps [] k lo js = search keeps_rules
visit_block_stmt-Keeps (m ∷ ms) (k, ks) lo js =
    let rest = visit_block_stmt-Keeps ms ks in search keeps_rules

visit_reversed-Keeps : (ms : List Action) → AllKept ms → Kept (visit_reversed ms)
unfolding visit_reversed
visit_reversed-Keeps [] k lo js = search keeps_rules
visit_reversed-Keeps (m ∷ ms) (k, ks) lo js =
    let rest = visit_reversed-Keeps ms ks in search keeps_rules

pub visit_vector_expr-Keeps : (ms : List Action) → AllKept ms → Kept (visit_vector_expr ms)
unfolding visit_vector_expr
visit_vector_expr-Keeps ms k lo js = let elements = visit_reversed-Keeps ms k in search keeps_rules

update_of-Keeps : (update : Option Action) → OptionKept update → Kept (update_of update)
update_of-Keeps none k lo js = search keeps_rules
update_of-Keeps (some m) k lo js = search keeps_rules

-- The jump back and the pending jumps go to instructions that are there.
finish_loop-Keeps :
    (lo : ℕ) (js : List ℕ) (loop_begin jz : ℕ) (update : Option Action)
    → loop_begin ≤ lo
    → Among jz js
    → OptionKept update
    → Keeps lo js (finish_loop loop_begin jz update)
unfolding finish_loop
finish_loop-Keeps lo js loop_begin jz update le among k = Keeps-ip lo js _ λ continue_offset from.
    Keeps-bind continue_offset js no_new _ _ (update_of-Keeps update k continue_offset js) λ _.
      Keeps-bind continue_offset js no_new _ _
        (reljmp_current-Keeps continue_offset js op_jmp loop_begin (omega arith) refl)
        λ _.
          Keeps-bind continue_offset js no_new _ _ (patch_reljmp-Keeps continue_offset js jz among)
            λ _. Keeps-ip continue_offset js _ λ break_offset from'.
              decrement_scope-Keeps break_offset js (some continue_offset) break_offset
                (λ d e. ground arith) (omega arith)

pub visit_loop-Keeps :
    (test update : Option Action) (body : Action)
    → OptionKept test
    → OptionKept update
    → Kept body
    → Kept (visit_loop test update body)
unfolding visit_loop
visit_loop-Keeps test update body kt ku kb lo js =
    Keeps-bind lo js no_new _ _ (increment_scope-Keeps lo js true true) λ _.
      Keeps-ip lo js _ λ loop_begin from.
        Keeps-bind loop_begin js no_new _ _ (visit_or-Keeps loop_begin js _ test refl kt) λ _.
          Keeps-bind loop_begin js no_new _ _ (emit-Keeps loop_begin js _ refl) λ _.
            Keeps-jump loop_begin js no_new _ _ refl λ jz.
              Keeps-bind loop_begin (jz ∷ js) no_new _ _ (kb loop_begin (jz ∷ js)) λ _.
                finish_loop-Keeps loop_begin (jz ∷ js) loop_begin jz update (omega arith) here ku

pub visit_for_stmt-Keeps :
    (init test update : Option Action) (body : Action)
    → OptionKept init
    → OptionKept test
    → OptionKept update
    → Kept body
    → Kept (visit_for_stmt init test update body)
unfolding visit_for_stmt
visit_for_stmt-Keeps init test update body ki kt ku kb lo js =
    Keeps-bind lo js no_new _ _ (update_of-Keeps init ki lo js)
      (λ _. visit_loop-Keeps test update body kt ku kb lo js)

visit_else-Keeps :
    (lo : ℕ) (js : List ℕ) (jz : ℕ) (alternative : Option Action)
    → Among jz js
    → OptionKept alternative
    → Keeps lo js (visit_else jz alternative)
visit_else-Keeps lo js jz none among k = patch_reljmp-Keeps lo js jz among
visit_else-Keeps lo js jz (some m) among k =
    Keeps-jump lo js no_new op_jmp _ refl λ jmp. search keeps_rules

pub visit_if_stmt-Keeps :
    (test consequent : Action) (alternative : Option Action)
    → Kept test
    → Kept consequent
    → OptionKept alternative
    → Kept (visit_if_stmt test consequent alternative)
unfolding visit_if_stmt
visit_if_stmt-Keeps test consequent alternative kt kc ka lo js =
    Keeps-bind lo js no_new _ _ (kt lo js) λ _.
      Keeps-bind lo js no_new _ _ (emit-Keeps lo js _ refl) λ _.
        Keeps-jump lo js no_new _ _ refl λ jz.
          Keeps-bind lo (jz ∷ js) no_new _ _ (kc lo (jz ∷ js))
            λ _. visit_else-Keeps lo (jz ∷ js) jz alternative here ka

visit_logical-Keeps :
    (skip neutral decided : Opcode) (op : ℕ) (lhs rhs : Action)
    → is_local skip ≡ false
    → is_local neutral ≡ false
    → is_local decided ≡ false
    → Kept lhs
    → Kept rhs
    → Kept (visit_logical skip neutral decided op lhs rhs)
unfolding visit_logical
visit_logical-Keeps skip neutral decided op lhs rhs hs hn hd kl kr lo js =
    Keeps-bind lo js no_new _ _ (kl lo js) λ _.
      Keeps-bind lo js no_new _ _ (emit-Keeps lo js _ refl) λ _.
        Keeps-jump lo js no_new skip _ hs λ jump.
          Keeps-bind lo (jump ∷ js) no_new _ _ (emit-Keeps lo (jump ∷ js) neutral hn) λ _.
            Keeps-bind lo (jump ∷ js) no_new _ _ (kr lo (jump ∷ js)) λ _.
              Keeps-bind lo (jump ∷ js) no_new _ _ (search keeps_rules)
                λ _. Keeps-jump lo (jump ∷ js) no_new op_jmp _ refl λ jmp. search keeps_rules

pub visit_binary_expr-Keeps :
    (op : ℕ) (lhs rhs : Action) → Kept lhs → Kept rhs → Kept (visit_binary_expr op lhs rhs)
unfolding visit_binary_expr
visit_binary_expr-Keeps op lhs rhs kl kr lo js = search (visit_logical-Keeps, keeps_rules)

pub visit_assignment_expr-Keeps :
    (op : ℕ) (lhs lvalue rhs : Action)
    → Kept lhs
    → Kept lvalue
    → Kept rhs
    → Kept (visit_assignment_expr op lhs lvalue rhs)
unfolding visit_assignment_expr
visit_assignment_expr-Keeps op lhs lvalue rhs kl kv kr lo js = search keeps_rules depth 8

pub visit_unary_expr-Keeps :
    (op : ℕ) (prefix : Bool) (argument lvalue : Action)
    → Kept argument
    → Kept lvalue
    → Kept (visit_unary_expr op prefix argument lvalue)
unfolding visit_unary_expr
visit_unary_expr-Keeps op prefix argument lvalue ka kv lo js = search keeps_rules depth 14

pub choose_property-Keeps :
    (op : ℕ) (n : Node) (visited named : Action)
    → Kept visited
    → Kept named
    → Kept (choose_property op n visited named)
choose_property-Keeps op n visited named kv kn lo js = search keeps_rules

pub visit_field-Keeps :
    (op : Opcode) (property object : Action)
    → is_local op ≡ false
    → Kept property
    → Kept object
    → Kept (visit_field op property object)
unfolding visit_field
visit_field-Keeps op property object h kp ko lo js = search keeps_rules
