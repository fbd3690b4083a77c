-- ===== src/Compiler/Code.antt =====
-- instruction.h: the instructions. The buffer that the compiler writes is a function of the index:
-- it outlives a function, so an operand that is not written keeps what it held. Line numbers, which
-- only messages read, are left out.
use gsc.Base.{ℕ, Bool, true, false, ◌==◌, if◌then◌else◌}

pub data Opcode : Type 0 where
  op_invalid op_push op_pop op_undef op_nop op_load op_store op_ref op_load_field op_field_ref
        op_binop op_ret op_call op_call_ptr op_test op_jmp op_jz op_jnz op_const_0 op_const_1
        op_table op_wait op_unary op_vector op_print_expr op_global op_waittill op_notify op_endon :
      Opcode

-- An integer operand is a 64-bit word.
pub data Operand : Type 0 where
  none_operand : Operand
  integer number string_index : ℕ → Operand

-- `value.integer` of the union: a number or an index has its low bits there, the rest is 0.
unfoldable pub integer_of : Operand → ℕ
integer_of none_operand = 0
integer_of (integer w) = w
integer_of (number b) = b
integer_of (string_index i) = i

pub record Instruction : Type 0 where
  pub offset : ℕ
  pub opcode : Opcode
  pub operand0 : Operand
  pub operand1 : Operand
  pub operand2 : Operand
  pub operand3 : Operand

-- Whether `emit_base` gives the instruction the unresolved target -1.
abbrev pub is_jump : Opcode → Bool
is_jump op_jmp = true
is_jump op_jz = true
is_jump op_jnz = true
is_jump _ = false

-- Whether the first operand is the slot of a local variable.
abbrev pub is_local : Opcode → Bool
is_local op_load = true
is_local op_ref = true
is_local _ = false

abbrev pub max_instructions_count : ℕ
max_instructions_count = 131072

-- The instruction `i` of the buffer replaced.
unfoldable pub update : (ℕ → Instruction) → ℕ → (Instruction → Instruction) → ℕ → Instruction
update code i change j = if j == i then change (code j) else code j
