-- ===== src/Vm/Binop.antt =====
-- `binop` of vm.c: the binary operators on values. The `case` labels of its `switch` statements are
-- a table that gives each operator token its operation; each type takes some of the operations.
pub mod Laws
pub mod Words
pub mod Division
use gsc.Base.{
  ℕ, ◌+◌, Bool, true, false, not, ◌&&◌, ◌||◌, List, [], ◌∷◌, ◌++◌, Option, none, some, ltb, leb,
  ◌==◌, if◌then◌else◌, length, bit_and, bit_or, bit_xor, bytes_eq,
}
use gsc.Base.Result.{
  Result, ok, err, ◌>>=◌, Fault, unsupported_operator, undefined_behaviour, no_strings_left,
}
use gsc.Base.Word
use gsc.Platform.{Platform}
use gsc.StringTable.{StringTable}
use gsc.ObjectPool.{ObjectPool, Taken, unit, null, aborted, allocate}
use gsc.Token.{
  tk_lshift, tk_rshift, tk_logical_and, tk_logical_or, tk_rshift_assign, tk_lshift_assign,
  tk_gequal, tk_lequal, tk_and_assign, tk_or_assign, tk_div_assign, tk_plus_assign, tk_minus_assign,
  tk_xor_assign, tk_mod_assign, tk_mul_assign, tk_equal, tk_nequal,
}
use gsc.Vm.Variable.{VariableType, Variable, type_of, is_type}
use gsc.Vm.Value.{promote_type, stringify, follow, coerce_int, coerce_float, coerce_vector, bit}

pub data Operation : Type 0 where
  add div mul sub rem : Operation
  or_bits and_bits xor_bits shl shr : Operation
  ge le ne eq gt lt : Operation
  land lor : Operation
  unlisted : Operation

abbrev pub case_labels : List (ℕ × Operation)
case_labels =
    (tk_plus_assign, Operation.add)
    ∷ (b'+', Operation.add)
    ∷ (tk_div_assign, Operation.div)
    ∷ (b'/', Operation.div)
    ∷ (tk_mul_assign, Operation.mul)
    ∷ (b'*', Operation.mul)
    ∷ (tk_minus_assign, Operation.sub)
    ∷ (b'-', Operation.sub)
    ∷ (tk_or_assign, Operation.or_bits)
    ∷ (b'|', Operation.or_bits)
    ∷ (tk_and_assign, Operation.and_bits)
    ∷ (b'&', Operation.and_bits)
    ∷ (tk_xor_assign, Operation.xor_bits)
    ∷ (b'^', Operation.xor_bits)
    ∷ (tk_gequal, Operation.ge)
    ∷ (tk_lequal, Operation.le)
    ∷ (tk_nequal, Operation.ne)
    ∷ (tk_equal, Operation.eq)
    ∷ (b'>', Operation.gt)
    ∷ (b'<', Operation.lt)
    ∷ (tk_logical_and, Operation.land)
    ∷ (tk_logical_or, Operation.lor)
    ∷ (tk_mod_assign, Operation.rem)
    ∷ (b'%', Operation.rem)
    ∷ (tk_lshift_assign, Operation.shl)
    ∷ (tk_lshift, Operation.shl)
    ∷ (tk_rshift_assign, Operation.shr)
    ∷ (tk_rshift, Operation.shr)
    ∷ []

-- The operation under the first label that is the operator; `default` is `unlisted`.
unfoldable pub select : List (ℕ × Operation) → ℕ → Operation
select [] op = Operation.unlisted
select ((label, o) ∷ labels) op = if label == op then o else select labels op

abbrev truth : Bool → Result Variable
truth b = ok (Variable.boolean (bit b))

abbrev number : ℕ → Result Variable
number n = ok (Variable.integer n)

unfoldable pub binop_int : Operation → ℕ → ℕ → Result Variable
binop_int Operation.add a b = number (Word.add a b)
binop_int Operation.div a b = if b == 0 then number 0 else (do q ← Word.div a b; number q)
binop_int Operation.mul a b = number (Word.mul a b)
binop_int Operation.sub a b = number (Word.sub a b)
binop_int Operation.rem a b = do r ← Word.rem a b; number r
binop_int Operation.or_bits a b = number (bit_or a b)
binop_int Operation.and_bits a b = number (bit_and a b)
binop_int Operation.xor_bits a b = number (bit_xor a b)
binop_int Operation.shl a b = do r ← Word.shl a b; number r
binop_int Operation.shr a b = do r ← Word.shr a b; number r
binop_int Operation.ge a b = truth (not (Word.less a b))
binop_int Operation.le a b = truth (not (Word.less b a))
binop_int Operation.ne a b = truth (not (a == b))
binop_int Operation.eq a b = truth (a == b)
binop_int Operation.gt a b = truth (Word.less b a)
binop_int Operation.lt a b = truth (Word.less a b)
binop_int Operation.land a b = truth (not (a == 0) && not (b == 0))
binop_int Operation.lor a b = truth (not (a == 0) || not (b == 0))
binop_int Operation.unlisted a b = err unsupported_operator

-- `memcmp` of the two unions, where the types that `promote_type` has no case for meet.
same_payload : Variable → Variable → Bool
same_payload (Variable.function f g) (Variable.function f' g') = (f == f') && (g == g')
same_payload (Variable.native_function f) (Variable.native_function f') = f == f'
same_payload (Variable.object o) (Variable.object o') = o == o'
same_payload (Variable.reference r) (Variable.reference r') = r == r'
same_payload _ _ = false

pub binop_default : Operation → Variable → Variable → Result Variable
binop_default Operation.eq a b = truth (is_type (type_of a) (type_of b) && same_payload a b)
binop_default Operation.ne a b = truth (not (is_type (type_of a) (type_of b) && same_payload a b))
binop_default _ a b = err unsupported_operator

abbrev is_undefined : Variable → Bool
is_undefined v = is_type (type_of v) VariableType.undefined

pub binop_undefined : Operation → Variable → Variable → Result Variable
binop_undefined Operation.eq a b = truth (is_undefined a && is_undefined b)
binop_undefined Operation.ne a b = truth (not (is_undefined a) || not (is_undefined b))
binop_undefined _ a b = err unsupported_operator

-- `allocate_variable_string`: up to 64 bytes from the pool, and more from `malloc`.
allocate_variable_string : ObjectPool → ℕ → Result ObjectPool
allocate_variable_string pool len =
    if leb len 64
    then elim (allocate pool 1 none).1 [
      | unit u ↦ ok (allocate pool 1 none).0
      | null ↦ err no_strings_left
      | aborted ↦ err undefined_behaviour
    ]
    else ok pool

module _ (p : Platform) where
  abbrev ratio : ℕ → ℕ → ℕ
  ratio a b = if p.feq b 0 then 0 else p.fdiv a b

  pub binop_float : Operation → ℕ → ℕ → Result Variable
  binop_float Operation.add a b = ok (Variable.float (p.fadd a b))
  binop_float Operation.div a b = ok (Variable.float (ratio a b))
  binop_float Operation.mul a b = ok (Variable.float (p.fmul a b))
  binop_float Operation.sub a b = ok (Variable.float (p.fsub a b))
  binop_float Operation.ge a b = truth (p.fle b a)
  binop_float Operation.ne a b = truth (not (p.feq a b))
  binop_float Operation.eq a b = truth (p.feq a b)
  binop_float Operation.le a b = truth (p.fle a b)
  binop_float Operation.gt a b = truth (p.flt b a)
  binop_float Operation.lt a b = truth (p.flt a b)
  binop_float Operation.rem a b = ok (Variable.float (p.fmod a b))
  binop_float _ a b = err unsupported_operator

  -- 0.001f
  abbrev epsilon : ℕ
  epsilon = 0x3a83126f

  -- `fabs(b - a) > 0.001f`
  is_far : ℕ → ℕ → Bool
  is_far a b = p.flt epsilon (p.fabs (p.fsub b a))

  vector_eq : ℕ × ℕ × ℕ → ℕ × ℕ × ℕ → Bool
  unfolding is_far
  vector_eq (x, y, z) (x', y', z') = not (is_far x x') && not (is_far y y') && not (is_far z z')

  abbrev each : (ℕ → ℕ → ℕ) → ℕ × ℕ × ℕ → ℕ × ℕ × ℕ → Result Variable
  each f (x, y, z) (x', y', z') = ok (Variable.vector (f x x') (f y y') (f z z'))

  pub binop_vector : Operation → ℕ × ℕ × ℕ → ℕ × ℕ × ℕ → Result Variable
  binop_vector Operation.eq a b = truth (vector_eq a b)
  binop_vector Operation.ne a b = truth (not (vector_eq a b))
  binop_vector Operation.add a b = each p.fadd a b
  binop_vector Operation.div a b = each p.fdiv a b
  binop_vector Operation.mul a b = each p.fmul a b
  binop_vector Operation.sub a b = each p.fsub a b
  binop_vector _ a b = err unsupported_operator

  abbrev kept : ObjectPool → Result Variable → Result (Variable × ObjectPool)
  kept pool r = r >>= λ v. ok (v, pool)

  pub binop_string : Operation → List ℕ → List ℕ → ObjectPool → Result (Variable × ObjectPool)
  binop_string Operation.add a b pool = do
    pool' ← allocate_variable_string pool (length a + length b + 1)
    ok (Variable.string (a ++ b), pool')
  binop_string Operation.eq a b pool = kept pool (truth (bytes_eq a b))
  binop_string Operation.ne a b pool = kept pool (truth (not (bytes_eq a b)))
  binop_string _ a b pool = err unsupported_operator

  -- The case for strings: an unsupported operator is reported before a text that is NULL is read.
  pub binop_text :
      Operation → Option (List ℕ) → Option (List ℕ) → ObjectPool → Result (Variable × ObjectPool)
  unfolding binop_string
  binop_text o (some a) (some b) pool = binop_string o a b pool
  binop_text Operation.add a b pool = err undefined_behaviour
  binop_text Operation.eq a b pool = err undefined_behaviour
  binop_text Operation.ne a b pool = err undefined_behaviour
  binop_text _ a b pool = err unsupported_operator

  module _ (t : StringTable) where
    unfoldable pub operate :
        VariableType → Operation → Variable → Variable → ObjectPool → Result (Variable × ObjectPool)
    operate VariableType.undefined o a b pool = kept pool (binop_undefined o a b)
    operate VariableType.integer o a b pool = do
      x ← coerce_int p t a
      y ← coerce_int p t b
      kept pool (binop_int o x y)
    operate VariableType.float o a b pool = do
      x ← coerce_float p t a
      y ← coerce_float p t b
      kept pool (binop_float o x y)
    operate VariableType.vector o a b pool = do
      x ← coerce_vector p t a
      y ← coerce_vector p t b
      kept pool (binop_vector o x y)
    operate VariableType.string o a b pool = do
      x ← stringify p t a 4096
      y ← stringify p t b 4096
      binop_text o x y pool
    operate VariableType.interned_string o a b pool = do
      x ← stringify p t a 4096
      y ← stringify p t b 4096
      binop_text o x y pool
    operate _ o a b pool = kept pool (binop_default o a b)

    unfoldable pub binop : Variable → Variable → ℕ → ObjectPool → Result (Variable × ObjectPool)
    unfolding select
    binop lhs rhs op pool =
        operate (promote_type (type_of lhs) (type_of rhs)) (select case_labels op) lhs rhs pool
