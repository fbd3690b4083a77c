-- ===== src/Vm/Stack.antt =====
-- vm.c: the stack of a thread, the operands of an instruction, and the local variables.
use gsc.Base.{ℕ, zero, suc, List, [], ◌∷◌, length, leb, ◌==◌, if◌then◌else◌}
use gsc.Base.Result.{
  Result, ok, err, ◌>>=◌, stack_underflow, stack_overflow, bad_reference, bad_operand, bad_local,
  not_an_integer, stack_cookie, undefined_behaviour, out_of_memory,
}
use gsc.StringTable.{StringTable, Interned, interned, jumped_oom, crashed, intern}
use gsc.Compiler.Code.{Operand, integer, number, string_index}
use gsc.Vm.Variable.{Variable}
use gsc.Vm.Machine.{Machine}

abbrev pub vm_stack_size : ℕ
vm_stack_size = 256

unfoldable pub push : Machine → Variable → Result Machine
push m v =
    if leb vm_stack_size (length m.stack)
    then err stack_overflow
    else ok (record m { stack = v ∷ m.stack })

abbrev pub pop_from : Machine → List Variable → Result (Variable × Machine)
pop_from m [] = err stack_underflow
pop_from m (v ∷ stack) = ok (v, record m { stack = stack })

unfoldable pub pop : Machine → Result (Variable × Machine)
pop m = pop_from m m.stack

-- The address in a reference that is on top.
abbrev pub reference_of : Variable × Machine → Result (ℕ × Machine)
reference_of (Variable.reference a, m) = ok (a, m)
reference_of (v, m) = err bad_reference

unfoldable pub pop_ref : Machine → Result (ℕ × Machine)
pop_ref m = do r ← pop m; reference_of r

-- The stack is not checked: an empty one is read below its first cell.
abbrev pub int_of : Machine → List Variable → Result (ℕ × Machine)
int_of m [] = err undefined_behaviour
int_of m (Variable.integer i ∷ stack) = ok (i, record m { stack = stack })
int_of m (Variable.boolean b ∷ stack) = ok (b, record m { stack = stack })
int_of m (v ∷ stack) = err not_an_integer

unfoldable pub pop_int : Machine → Result (ℕ × Machine)
pop_int m = int_of m m.stack

unfoldable pub read_int : Operand → Result ℕ
read_int (integer w) = ok w
read_int _ = err bad_operand

pub read_string_index : Operand → Result ℕ
read_string_index (string_index i) = ok i
read_string_index _ = err bad_operand

pub read_float : Operand → Result ℕ
read_float (number b) = ok b
read_float _ = err bad_operand

-- `local`: the address of a local variable. The array holds VM_MAX_LOCALS of them, and a frame that
-- counts more reads behind it.
abbrev pub vm_max_locals : ℕ
vm_max_locals = 256

abbrev pub local_at : List ℕ → ℕ → Result ℕ
local_at [] index = err bad_local
local_at (a ∷ locals) zero = ok a
local_at (a ∷ locals) (suc index) = local_at locals index

unfoldable pub local : Machine → ℕ → Result ℕ
local m index = do
  a ← local_at m.frame.locals index
  if leb vm_max_locals index then err undefined_behaviour else ok a

-- `vm_string_index`.
abbrev pub interned_name : Machine → StringTable × Interned → Result (ℕ × Machine)
interned_name m (t, interned i) = ok (i, record m { strings = t })
interned_name m (t, jumped_oom) = err out_of_memory
interned_name m (t, crashed) = err undefined_behaviour

unfoldable pub vm_string_index : Machine → List ℕ → Result (ℕ × Machine)
vm_string_index m s = interned_name m (intern m.strings s)

-- `ASSERT_STACK`, from the `sp` that is expected.
unfoldable pub assert_stack : ℕ → Machine → Result Machine
assert_stack expected m = if length m.stack == expected then ok m else err stack_cookie

-- `pop` of `n` values, the first popped first.
abbrev pub popped : Variable → List Variable × Machine → Result (List Variable × Machine)
popped v (vs, m) = ok (v ∷ vs, m)

unfoldable pub pop_many : ℕ → Machine → Result (List Variable × Machine)
pop_many zero m = ok ([], m)
pop_many (suc n) m = do r ← pop m; rest ← pop_many n r.1; popped r.0 rest
