-- ===== src/Base/Result.antt =====
-- How a call of the virtual machine or of the compiler ends: with a value, with `vm_error` or the
-- compiler's `error`, which print and abort or jump away, or
-- with what C leaves undefined (a trap of the processor, a null pointer that is followed).

pub data Fault : Type 0 where
  not_a_string cannot_coerce unsupported_operator no_strings_left : Fault
  stack_underflow stack_overflow bad_reference not_an_object bad_operand : Fault
  no_threads_left max_threads event_overflow no_variables_left no_fields_left : Fault
  out_of_memory frame_overflow no_function bad_local bad_opcode stack_cookie endon_overflow
        out_of_bounds :
      Fault
  undefined_behaviour : Fault
  not_an_integer bad_vector bad_global ip_out_of_bounds : Fault
  max_instructions max_scope scope_error too_many_jumps unimplemented not_a_function : Fault
  not_a_file_reference not_an_identifier unsupported_callee invalid_property invalid_lvalue : Fault
  already_defined max_cases expected_case unsupported_prefix outside_calling_context : Fault
  nested_function assertion_failed : Fault

pub data Result {ℓ} (A : Type ℓ) : Type ℓ where
  ok : A → Result A
  err : Fault → Result A

-- The rest of a call, after a part of it that may fail.
infixl 5 ◌>>=◌
abbrev pub ◌>>=◌ {ℓ κ} : {A : Type ℓ} {B : Type κ} → Result A → (A → Result B) → Result B
err fault >>= rest = err fault
ok a >>= rest = rest a
