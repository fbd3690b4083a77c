-- ===== src/Vm/Step/Keeps.antt =====
-- vm.c: each instruction that neither jumps nor returns keeps the frames.
use gsc.Base.{ℕ}
use gsc.Platform.{Platform}
use gsc.ObjectPool.{ObjectPool}
use gsc.Compiler.Code.{Instruction}
use gsc.Vm.Variable.{Variable}
use gsc.Vm.Machine.{Machine}
use gsc.Vm.Instructions.{
  execute_push, execute_pop, execute_const, execute_test, execute_load, execute_ref,
  store_reference, execute_global,
}
use gsc.Vm.Messages.{execute_waittill, execute_notify, add_endon, execute_endon}
use gsc.Vm.Execute.{wait_for, execute_wait, execute_unary, execute_vector, with_pool, execute_binop}
use gsc.Vm.Step.Frames.{SameFrames, Kept, frame_rules}

pub execute_push-Kept : (ins : Instruction) (m : Machine) → Kept m (execute_push ins m)
unfolding execute_push
execute_push-Kept ins m = search frame_rules

pub execute_pop-Kept : (m : Machine) → Kept m (execute_pop m)
unfolding execute_pop
execute_pop-Kept m = search frame_rules

pub execute_const-Kept : (i : ℕ) (m : Machine) → Kept m (execute_const i m)
unfolding execute_const
execute_const-Kept i m = search frame_rules

pub execute_test-Kept : (m : Machine) → Kept m (execute_test m)
unfolding execute_test
execute_test-Kept m = search frame_rules

pub execute_load-Kept : (ins : Instruction) (m : Machine) → Kept m (execute_load ins m)
unfolding execute_load
execute_load-Kept ins m = search frame_rules

pub execute_ref-Kept : (ins : Instruction) (m : Machine) → Kept m (execute_ref ins m)
unfolding execute_ref
execute_ref-Kept ins m = search frame_rules

pub store_reference-Kept : (m : Machine) → Kept m (store_reference m)
unfolding store_reference
store_reference-Kept m = search frame_rules depth 8

pub execute_global-Kept : (ins : Instruction) (m : Machine) → Kept m (execute_global ins m)
unfolding execute_global
execute_global-Kept ins m = search frame_rules

pub execute_waittill-Kept : (ins : Instruction) (m : Machine) → Kept m (execute_waittill ins m)
unfolding execute_waittill
execute_waittill-Kept ins m = search frame_rules depth 16

pub execute_notify-Kept : (ins : Instruction) (m : Machine) → Kept m (execute_notify ins m)
unfolding execute_notify
execute_notify-Kept ins m = search frame_rules depth 16

add_endon-Kept : (m₀ m : Machine) (index : ℕ) → SameFrames m₀ m → Kept m₀ (add_endon m index)
add_endon-Kept m₀ m index s = search frame_rules

pub execute_endon-Kept : (m : Machine) → Kept m (execute_endon m)
unfolding execute_endon
execute_endon-Kept m = search (add_endon-Kept, frame_rules) depth 16

module _ (p : Platform) where
  wait_for-Kept : (m₀ m : Machine) (v : Variable) → SameFrames m₀ m → Kept m₀ (wait_for p m v)
  wait_for-Kept m₀ m Variable.undefined s = search frame_rules
  wait_for-Kept m₀ m v s = search frame_rules

  pub execute_wait-Kept : (m : Machine) → Kept m (execute_wait p m)
  unfolding execute_wait
  execute_wait-Kept m = search (wait_for-Kept, frame_rules)

  pub execute_unary-Kept : (ins : Instruction) (m : Machine) → Kept m (execute_unary p ins m)
  unfolding execute_unary
  execute_unary-Kept ins m = search frame_rules depth 8

  pub execute_vector-Kept : (ins : Instruction) (m : Machine) → Kept m (execute_vector p ins m)
  unfolding execute_vector
  execute_vector-Kept ins m = search frame_rules depth 16

  with_pool-Kept :
      (m₀ m : Machine) (r : Variable × ObjectPool) → SameFrames m₀ m → Kept m₀ (with_pool p m r)
  with_pool-Kept m₀ m (v, pool) s = search frame_rules

  pub execute_binop-Kept : (ins : Instruction) (m : Machine) → Kept m (execute_binop p ins m)
  unfolding execute_binop
  execute_binop-Kept ins m = search (with_pool-Kept, frame_rules) depth 10
