-- ===== src/CompiledFile/Sound.antt =====
-- main.c: the functions that `compile_file` makes.
use gsc.Base.{ℕ, ◌+◌, ◌≤◌, ◌<◌, true, some, ◌≡◌}
use gsc.Base.Result.{Result, ok, err}
use gsc.Platform.{Platform}
use gsc.HashTrie.{HashTrie, value_at}
use gsc.HashTrie
use gsc.StringTable.{StringTable}
use gsc.Compiler.Code.{integer, is_jump, is_local, op_ret, max_instructions_count}
use gsc.Compiler.State.{Compiler}
use gsc.Compiler.Sound.Invariant.{IsSlot}
use gsc.Compiler.Sound.Resolving.{jump_target}
use gsc.Parser.{Parser}
use gsc.Parser.Program.{Function, Declarations}
use gsc.CompiledFile.{CompiledFunction, CompiledFile, Compilation, compiled, aborted, unfinished}

-- A function of a file that the machine can run: the target of each jump is one of its instructions,
-- OP_LOAD and OP_REF name one of its locals, and the last instruction returns.
pub record IsRunnable (f : CompiledFunction) : Type 0 where
  pub jumps :
      (i : ℕ)
      → i < f.instruction_count
      → is_jump (f.instructions i).opcode ≡ true
      → (w : ℕ) × ((f.instructions i).operand0 ≡ integer w)
        × (jump_target i w < f.instruction_count)
  pub locals :
      (i : ℕ)
      → i < f.instruction_count
      → is_local (f.instructions i).opcode ≡ true
      → IsSlot f.local_count (f.instructions i).operand0
  pub count_le : f.instruction_count ≤ max_instructions_count
  pub ends : (last : ℕ) × (f.instruction_count ≡ last + 1) × ((f.instructions last).opcode ≡ op_ret)

abbrev pub AllRunnable : HashTrie CompiledFunction → Type 0
AllRunnable t = (p : ℕ) (f : CompiledFunction) → value_at t p ≡ some f → IsRunnable f

-- `compile_file` has ended: all functions of the file can run, if it returns one.
abbrev pub HasRunnable : Compilation → Type 0
HasRunnable (compiled cf strings globals) = AllRunnable cf.functions
HasRunnable aborted = Unit
HasRunnable unfinished = ⊥

abbrev ResultRunnable : Result (CompiledFile × Compiler) → Type 0
ResultRunnable (ok (cf, c)) = AllRunnable cf.functions
ResultRunnable (err fault) = Unit
