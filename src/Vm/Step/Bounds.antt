-- ===== src/Vm/Step/Bounds.antt =====
-- vm.c: a thread that runs compiled functions fetches instructions of them only. The check of
-- `run_thread` on `ip` never fails.
use mathlib.Core.Path.{subst}
use mathlib.Core.Bool.{true≢false}
use gsc.Base.{
  ℕ, ◌+◌, ◌%◌, ◌≤◌, ◌<◌, Bool, true, false, Option, none, some, List, [], ◌∷◌, ◌≡◌, ◌≢◌, refl, sym,
  ap, ◌∙◌, arith, leb,
}
use gsc.Base.Result.{Result, ok, err, ◌>>=◌}
use gsc.Platform.{Platform}
use gsc.Compiler.Code.{
  Opcode, Operand, integer, is_jump, op_push, op_pop, op_undef, op_nop, op_invalid, op_load,
  op_store, op_ref, op_binop, op_ret, op_test, op_jmp, op_jz, op_jnz, op_const_0, op_const_1,
  op_wait, op_unary, op_vector, op_global, op_waittill, op_notify, op_endon,
}
use gsc.Compiler.Sound.Resolving.{jump_target}
use gsc.Vm.Variable.{Variable}
use gsc.Vm.Machine.{StackFrame, Machine}
use gsc.Vm.Stack.{read_int, assert_stack}
use gsc.Vm.Instructions.{
  int_mod, jump, jump_if, execute_jump, store_reference, store_top, leave, execute_ret,
}
use gsc.Vm.Execute.{go_on, go_on_if, execute, vm_execute_instruction, is_zero, is_nonzero, always}
use gsc.Vm.Step.{advanced, step, int_sign}
use gsc.Vm.Step.Frames.{Kept, push-Kept, assert_stack-Kept}
use gsc.Vm.Step.Keeps.{
  execute_push-Kept, execute_pop-Kept, execute_const-Kept, execute_test-Kept, execute_load-Kept,
  execute_ref-Kept, store_reference-Kept, execute_global-Kept, execute_waittill-Kept,
  execute_notify-Kept, execute_endon-Kept, execute_wait-Kept, execute_unary-Kept,
  execute_vector-Kept, execute_binop-Kept,
}

-- A frame that runs code whose jumps stay within it and which ends with OP_RET, at one of its
-- instructions.
pub record InBounds (frame : StackFrame) : Type 0 where
  pub jumps :
      (i : ℕ)
      → i < frame.instruction_count
      → is_jump (frame.instructions i).opcode ≡ true
      → (w : ℕ) × ((frame.instructions i).operand0 ≡ integer w)
        × (jump_target i w < frame.instruction_count)
  pub ends :
      (last : ℕ) × (frame.instruction_count ≡ last + 1)
      × ((frame.instructions last).opcode ≡ op_ret)
  pub count_le : frame.instruction_count ≤ 131072
  pub ip_lt : frame.ip < frame.instruction_count

abbrev pub AllInBounds : List StackFrame → Type 0
AllInBounds [] = Unit
AllInBounds (frame ∷ frames) = InBounds frame × AllInBounds frames

abbrev pub ThreadInBounds : Machine → Type 0
ThreadInBounds m = InBounds m.frame × AllInBounds m.callers

-- What holds of the state with which the thread goes on.
abbrev IsNext : Option (Result (Machine × Bool)) → Type 0
IsNext none = Unit
IsNext (some (err fault)) = Unit
IsNext (some (ok (m, false))) = Unit
IsNext (some (ok (m, true))) = ThreadInBounds m

abbrev is_ret : Opcode → Bool
is_ret op_ret = true
is_ret _ = false

-- A frame at another of its instructions.
moved-InBounds :
    (frame : StackFrame) (ip : ℕ)
    → InBounds frame
    → ip < frame.instruction_count
    → InBounds (record frame { ip = ip })
moved-InBounds frame ip b lt = record {
  jumps = b.jumps;
  ends = b.ends;
  count_le = b.count_le;
  ip_lt = lt;
}

-- The instruction behind one that does not return.
next-lt :
    (frame : StackFrame)
    → InBounds frame
    → is_ret (frame.instructions frame.ip).opcode ≡ false
    → (frame.ip + 1) % int_mod < frame.instruction_count
next-lt frame b not_ret =
    let (last, count, ret) = b.ends in
    let lt = b.ip_lt in
    let le = b.count_le in
    let inside : frame.ip ≢ last = λ e.
      true≢false (sym (ap is_ret (ap (λ i. (frame.instructions i).opcode) e ∙ ret)) ∙ not_ret) in
    omega arith

Kept-IsNext : (m : Machine) (r : Result Machine) → ThreadInBounds m → Kept m r → IsNext (go_on r)
Kept-IsNext m (err fault) b k = tt
Kept-IsNext m (ok m') (b, bs) k =
    let (same, same') = k.at in (subst InBounds (sym same) b, subst AllInBounds (sym same') bs)

store_top-IsNext :
    (m : Machine) (stack : List Variable) → ThreadInBounds m → IsNext (go_on_if (store_top m stack))
store_top-IsNext m [] b = Kept-IsNext m (store_reference m) b (store_reference-Kept m)
store_top-IsNext m (Variable.function f g ∷ stack) b = tt
store_top-IsNext m (Variable.native_function f ∷ stack) b = tt
store_top-IsNext m (v ∷ stack) b = Kept-IsNext m (store_reference m) b (store_reference-Kept m)

assert_stack-IsNext :
    (expected : ℕ) (m : Machine) → ThreadInBounds m → IsNext (go_on (assert_stack expected m))
assert_stack-IsNext expected m b =
    Kept-IsNext m (assert_stack expected m) b (assert_stack-Kept m expected m (refl, refl))

read_int-IsNext :
    (o : Operand) (w : ℕ) (f : ℕ → Result Machine)
    → o ≡ integer w
    → IsNext (go_on (f w))
    → IsNext (go_on (read_int o >>= f))
unfolding read_int
read_int-IsNext o w f e h = subst (λ o'. IsNext (go_on (read_int o' >>= f))) (sym e) h

-- The next instruction by a jump, whether it is taken or not.
jump_if-InBounds :
    (m : Machine) (taken : Bool) (w : ℕ)
    → ThreadInBounds m
    → is_ret (m.frame.instructions m.frame.ip).opcode ≡ false
    → jump_target m.frame.ip w < m.frame.instruction_count
    → ThreadInBounds (jump_if taken w (advanced m))
jump_if-InBounds m false w (b, bs) not_ret lands =
    (moved-InBounds m.frame _ b (next-lt m.frame b not_ret), bs)
jump_if-InBounds m true w (b, bs) not_ret lands =
    let le = b.count_le in let lt = b.ip_lt in (moved-InBounds m.frame _ b (omega arith), bs)

execute_jump-IsNext :
    (m : Machine) (taken : ℕ → Bool)
    → ThreadInBounds m
    → is_jump (m.frame.instructions m.frame.ip).opcode ≡ true
    → is_ret (m.frame.instructions m.frame.ip).opcode ≡ false
    → IsNext (go_on (execute_jump taken (m.frame.instructions m.frame.ip) (advanced m)))
unfolding execute_jump
execute_jump-IsNext m taken (b, bs) jump not_ret =
    let (w, at_w, lands) = b.jumps m.frame.ip b.ip_lt jump in
    read_int-IsNext _ w _ at_w
      (assert_stack-IsNext _ _ (jump_if-InBounds m (taken m.result) w (b, bs) not_ret lands))

ended-IsNext :
    (r : Result (Variable × Machine)) (f : Variable × Machine → Machine)
    → IsNext (some (r >>= λ v. ok (f v, false)))
ended-IsNext (err fault) f = tt
ended-IsNext (ok (v, m)) f = tt

leave-IsNext :
    (m : Machine) (callers : List StackFrame)
    → AllInBounds callers
    → IsNext (some (leave m callers))
leave-IsNext m [] b = ended-IsNext _ _
leave-IsNext m (frame ∷ callers) b = b

-- An instruction that keeps the frames, behind the fetch.
kept :
    (m : Machine)
    → ThreadInBounds m
    → is_ret (m.frame.instructions m.frame.ip).opcode ≡ false
    → (r : Result Machine) → Kept (advanced m) r
    → IsNext (go_on r)
kept m (b, bs) not_ret r k =
    Kept-IsNext (advanced m) r (moved-InBounds m.frame _ b (next-lt m.frame b not_ret), bs) k

module _ (p : Platform) where
  execute-IsNext :
      (op : Opcode) (m : Machine)
      → ThreadInBounds m
      → (m.frame.instructions m.frame.ip).opcode ≡ op
      → IsNext (execute p op (m.frame.instructions m.frame.ip) (advanced m))
  unfolding execute_ret
  execute-IsNext op_ret m (b, bs) e = leave-IsNext _ m.callers bs
  execute-IsNext op_jmp m b e = execute_jump-IsNext m always b (ap is_jump e) (ap is_ret e)
  execute-IsNext op_jz m b e = execute_jump-IsNext m is_zero b (ap is_jump e) (ap is_ret e)
  execute-IsNext op_jnz m b e = execute_jump-IsNext m is_nonzero b (ap is_jump e) (ap is_ret e)
  execute-IsNext op_pop m b e = kept m b (ap is_ret e) _ (execute_pop-Kept _)
  execute-IsNext op_undef m b e = kept m b (ap is_ret e) _ (push-Kept _ _ _ (refl, refl))
  execute-IsNext op_const_0 m b e = kept m b (ap is_ret e) _ (execute_const-Kept 0 _)
  execute-IsNext op_const_1 m b e = kept m b (ap is_ret e) _ (execute_const-Kept 1 _)
  execute-IsNext op_push m b e = kept m b (ap is_ret e) _ (execute_push-Kept _ _)
  execute-IsNext op_load m b e = kept m b (ap is_ret e) _ (execute_load-Kept _ _)
  execute-IsNext op_ref m b e = kept m b (ap is_ret e) _ (execute_ref-Kept _ _)
  execute-IsNext op_store m (b, bs) e =
      store_top-IsNext (advanced m) m.stack
        (moved-InBounds m.frame _ b (next-lt m.frame b (ap is_ret e)), bs)
  execute-IsNext op_global m b e = kept m b (ap is_ret e) _ (execute_global-Kept _ _)
  execute-IsNext op_binop m b e = kept m b (ap is_ret e) _ (execute_binop-Kept p _ _)
  execute-IsNext op_unary m b e = kept m b (ap is_ret e) _ (execute_unary-Kept p _ _)
  execute-IsNext op_vector m b e = kept m b (ap is_ret e) _ (execute_vector-Kept p _ _)
  execute-IsNext op_test m b e = kept m b (ap is_ret e) _ (execute_test-Kept _)
  execute-IsNext op_wait m b e = kept m b (ap is_ret e) _ (execute_wait-Kept p _)
  execute-IsNext op_waittill m b e = kept m b (ap is_ret e) _ (execute_waittill-Kept _ _)
  execute-IsNext op_notify m b e = kept m b (ap is_ret e) _ (execute_notify-Kept _ _)
  execute-IsNext op_endon m b e = kept m b (ap is_ret e) _ (execute_endon-Kept _)
  execute-IsNext op_nop m b e = tt
  execute-IsNext op_invalid m b e = tt
  execute-IsNext op m b e = tt

  -- A thread whose frames run compiled code passes the check of `run_thread` on `ip`, so the
  -- instruction at `ip` is executed. If the thread goes on, its frames do so within their code again.
  -- Calls and the instructions that read fields are not among those that go on here.
  pub step-InBounds :
      (m : Machine)
      → ThreadInBounds m
      → (step p m ≡ vm_execute_instruction p (m.frame.instructions m.frame.ip) (advanced m))
        × ((m' : Machine) → step p m ≡ some (ok (m', true)) → ThreadInBounds m')
  unfolding step vm_execute_instruction
  step-InBounds m b =
      let lt = b.0.ip_lt in
      let count_le = b.0.count_le in
      let positive : leb int_sign m.frame.ip ≡ false = ground arith in
      let passes : leb m.frame.instruction_count m.frame.ip ≡ false = ground arith in
      let runs : step p m
          ≡ vm_execute_instruction p (m.frame.instructions m.frame.ip) (advanced m) =
        rw (positive, passes) refl in
      (runs, λ m' e. subst IsNext (sym runs ∙ e) (execute-IsNext _ m b refl))
