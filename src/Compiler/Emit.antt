-- ===== src/Compiler/Emit.antt =====
-- compiler.c: operands, the functions that append an instruction, and those that set a jump's target.
use gsc.Base.{ℕ, ◌+◌, List, if◌then◌else◌, leb}
use gsc.Base.Word.{sub}
use gsc.Base.Result.{Result, ok, err, out_of_memory, undefined_behaviour, max_instructions}
use gsc.StringTable.{StringTable, Interned, interned, jumped_oom, crashed, intern}
use gsc.Compiler.Code.{Opcode, Operand, Instruction, integer, string_index, is_jump, update}
use gsc.Compiler.State.{Compiler, Compile, Action, ◌>>=◌, ◌>>◌, pure, gets}

-- `integer(-1)`: the target is not known yet.
abbrev pub unresolved : ℕ
unresolved = 18446744073709551615

-- What `string` returns for the table's answer.
abbrev pub interned_operand : Compiler → StringTable × Interned → Result (Operand × Compiler)
interned_operand c (t, interned i) = ok (string_index i, record c { strings = t })
interned_operand c (t, jumped_oom) = err out_of_memory
interned_operand c (t, crashed) = err undefined_behaviour

unfoldable pub string : List ℕ → Compile Operand
string s = λ c. interned_operand c (intern c.strings s)

-- The instruction as `emit_base` leaves it: only a jump's first operand is written.
unfoldable pub started : ℕ → Opcode → Instruction → Instruction
started i op instr = record instr {
  opcode = op;
  offset = i;
  operand0 = if is_jump op then integer unresolved else instr.operand0;
}

unfoldable pub emit_base : Opcode → Compile ℕ
emit_base op = λ c.
    if leb c.max_instruction_count c.instruction_count
    then err max_instructions
    else ok (
      c.instruction_count,
      record c {
        instructions = update c.instructions c.instruction_count (started c.instruction_count op);
        instruction_count = c.instruction_count + 1;
      },
    )

-- Operands that are written into the instruction `i`.
unfoldable pub set_operands : ℕ → (Instruction → Instruction) → Action
set_operands i change = λ c. ok (tt, record c { instructions = update c.instructions i change })

abbrev pub emit : Opcode → Action
emit op = do emit_base op; pure tt

-- `emit_operands`, which returns the index.
unfoldable pub emit_operands : Opcode → (Instruction → Instruction) → Compile ℕ
emit_operands op change = do i ← emit_base op; set_operands i change; pure i

abbrev pub emit1 : Opcode → Operand → Action
emit1 op o1 = do emit_operands op (λ instr. record instr { operand0 = o1 }); pure tt

abbrev pub emit2 : Opcode → Operand → Operand → Action
emit2 op o1 o2 = do
  emit_operands op (λ instr. record instr { operand0 = o1; operand1 = o2 })
  pure tt

abbrev pub emit4 : Opcode → Operand → Operand → Operand → Operand → Action
emit4 op o1 o2 o3 o4 = do
  emit_operands op
      λ instr. record instr { operand0 = o1; operand1 = o2; operand2 = o3; operand3 = o4 }
  pure tt

-- The next instruction's index.
abbrev pub ip : Compile ℕ
ip = gets (λ c. c.instruction_count)

-- `destination - current - 1`, which `int` holds.
abbrev pub distance : ℕ → ℕ → ℕ
distance current destination = sub (sub destination current) 1

unfoldable pub reljmp_current : Opcode → ℕ → Action
reljmp_current op destination = do current ← ip; emit1 op (integer (distance current destination))

-- The jump's target becomes the next instruction.
unfoldable pub patch_reljmp : ℕ → Action
patch_reljmp ins = λ c. ok (
  tt,
  record c {
    instructions = update c.instructions ins λ instr. record instr {
      operand0 = integer (distance (c.instructions ins).offset c.instruction_count);
    };
  },
)
