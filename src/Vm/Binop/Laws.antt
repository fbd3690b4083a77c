-- ===== src/Vm/Binop/Laws.antt =====
-- What holds of the operators on values of every type.
use gsc.Base.{ℕ, Bool, true, false, ◌&&◌, ◌||◌, ◌≡◌, ◌≢◌, refl, arith, ◌==◌}
use gsc.Base.Result.{Result, ok, err, ◌>>=◌, unsupported_operator, cannot_coerce}
use gsc.Platform.{Platform}
use gsc.StringTable.{StringTable}
use gsc.ObjectPool.{ObjectPool}
use gsc.Token.{
  tk_equal, tk_nequal, tk_plus_assign, tk_div_assign, tk_mul_assign, tk_minus_assign, tk_or_assign,
  tk_and_assign, tk_xor_assign, tk_mod_assign, tk_lshift_assign, tk_lshift, tk_rshift_assign,
  tk_rshift,
}
use gsc.Vm.Variable.{VariableType, Variable, type_of, is_type}
use gsc.Vm.Value.{promote_type, bit, coerce_float}
use gsc.Vm.Binop.{
  Operation, case_labels, select, binop_int, binop_float, binop_vector, binop_string, binop_default,
  binop_undefined, binop_text, operate, binop,
}

-- `!` of a result that is a boolean.
abbrev pub negated : Variable × ObjectPool → Result (Variable × ObjectPool)
negated (Variable.boolean b, pool) = ok (Variable.boolean (bit (b == 0)), pool)
negated (v, pool) = ok (v, pool)

module _ (p : Platform) (t : StringTable) where
  -- `a != b` is the negation of `a == b` at every two values: it fails with the same fault, and
  -- where one gives 1 the other gives 0.
  pub binop-nequal :
      (a b : Variable) (pool : ObjectPool)
      → binop p t a b tk_nequal pool ≡ (binop p t a b tk_equal pool >>= negated)
  unfolding binop operate binop_int binop_float binop_vector binop_string binop_text binop_default
      binop_undefined
  binop-nequal a b pool = ground arith

  -- `undefined` is equal to `undefined` alone, from either side.
  pub binop-undefined :
      (v : Variable) (pool : ObjectPool)
      → (binop p t Variable.undefined v tk_equal pool
          ≡ ok (Variable.boolean (bit (is_type (type_of v) VariableType.undefined)), pool))
        × (binop p t v Variable.undefined tk_equal pool
            ≡ ok (Variable.boolean (bit (is_type (type_of v) VariableType.undefined)), pool))
  unfolding binop operate binop_undefined promote_type
  binop-undefined v pool = (ground arith, ground arith)

  -- `undefined` takes no operator but `==` and `!=`: with any other one, on either side, the
  -- operation is unsupported, whatever the other value is.
  pub binop-undefined_other :
      (v : Variable) (op : ℕ) (pool : ObjectPool)
      → select case_labels op ≢ Operation.eq
      → select case_labels op ≢ Operation.ne
      → (binop p t Variable.undefined v op pool ≡ err unsupported_operator)
        × (binop p t v Variable.undefined op pool ≡ err unsupported_operator)
  unfolding binop operate binop_undefined promote_type
  binop-undefined_other v op pool h k = (ground arith, ground arith)

  -- The compound assignment operators compute what the plain ones do, at all values: `+= /= *= -=
  -- |= &= ^= %= <<= >>=`.
  binop_compound :
      (a b : Variable) (pool : ObjectPool)
      → (binop p t a b tk_plus_assign pool ≡ binop p t a b b'+' pool)
        × (binop p t a b tk_div_assign pool ≡ binop p t a b b'/' pool)
        × (binop p t a b tk_mul_assign pool ≡ binop p t a b b'*' pool)
        × (binop p t a b tk_minus_assign pool ≡ binop p t a b b'-' pool)
        × (binop p t a b tk_or_assign pool ≡ binop p t a b b'|' pool)
        × (binop p t a b tk_and_assign pool ≡ binop p t a b b'&' pool)
        × (binop p t a b tk_xor_assign pool ≡ binop p t a b b'^' pool)
        × (binop p t a b tk_mod_assign pool ≡ binop p t a b b'%' pool)
        × (binop p t a b tk_lshift_assign pool ≡ binop p t a b tk_lshift pool)
        × (binop p t a b tk_rshift_assign pool ≡ binop p t a b tk_rshift pool)
  unfolding binop
  binop_compound a b pool = (refl, refl, refl, refl, refl, refl, refl, refl, refl, refl)

  -- `promote_type` takes a boolean and a float to a float, which `coerce_type` refuses for the
  -- boolean: no operator is defined between them, on either side.
  binop_boolean_float :
      (b f op : ℕ) (pool : ObjectPool)
      → (binop p t (Variable.boolean b) (Variable.float f) op pool ≡ err cannot_coerce)
        × (binop p t (Variable.float f) (Variable.boolean b) op pool ≡ err cannot_coerce)
  unfolding binop operate promote_type coerce_float
  binop_boolean_float b f op pool = (refl, refl)

-- The types that `promote_type` ranks: all but functions, objects, references and threads.
abbrev is_ranked : VariableType → Bool
is_ranked VariableType.function = false
is_ranked VariableType.object = false
is_ranked VariableType.reference = false
is_ranked VariableType.thread = false
is_ranked _ = true

-- `promote_type` does not depend on the order of its arguments where one of the two is ranked.
promote_type_comm :
    (a b : VariableType) → is_ranked a || is_ranked b ≡ true → promote_type a b ≡ promote_type b a
unfolding promote_type
promote_type_comm a b h = ground arith

-- `promote_type` is associative on ranked types, so a chain of operators has one type however it is
-- grouped.
pub promote_type_assoc :
    (a b c : VariableType)
    → is_ranked a && is_ranked b && is_ranked c ≡ true
    → promote_type (promote_type a b) c ≡ promote_type a (promote_type b c)
unfolding promote_type
promote_type_assoc a b c h = ground arith
