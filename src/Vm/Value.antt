-- ===== src/Vm/Value.antt =====
-- The operations of vm.c on single values: `promote_type`, `coerce_type`, `vm_stringify`, `unary`.
use gsc.Base.{
  ℕ, ◌-◌, Bool, true, false, ◌||◌, List, [], ◌∷◌, Option, none, some, ◌==◌, if◌then◌else◌, take,
  codes,
}
use gsc.Base.Int.{pos}
use gsc.Base.Result.{
  Result, ok, err, ◌>>=◌, not_a_string, cannot_coerce, unsupported_operator, undefined_behaviour,
}
use gsc.Base.Word
use gsc.Platform.{Platform}
use gsc.StringTable.{StringTable, get}
use gsc.Vm.Variable.{VariableType, Variable, is_type}

-- `T lhs || T rhs`
abbrev either : VariableType → VariableType → VariableType → Bool
either t lhs rhs = is_type lhs t || is_type rhs t

unfoldable pub promote_type : VariableType → VariableType → VariableType
promote_type lhs rhs =
    if either VariableType.undefined lhs rhs
    then VariableType.undefined
    else if either VariableType.string lhs rhs
    then VariableType.string
    else if either VariableType.interned_string lhs rhs
    then VariableType.string
    else if either VariableType.vector lhs rhs
    then VariableType.vector
    else if either VariableType.float lhs rhs
    then VariableType.float
    else if either VariableType.integer lhs rhs
    then VariableType.integer
    else if either VariableType.boolean lhs rhs
    then VariableType.integer
    else lhs

-- `variable_string`: an index that the table does not have gives a null pointer.
pub variable_string : StringTable → Variable → Result (Option (List ℕ))
variable_string t (Variable.string s) = ok (some s)
variable_string t (Variable.interned_string i) = ok (get t (pos i))
variable_string t _ = err not_a_string

-- A null pointer that the caller follows.
pub follow : Option (List ℕ) → Result (List ℕ)
follow (some s) = ok s
follow none = err undefined_behaviour

abbrev pub bit : Bool → ℕ
bit true = 1
bit false = 0

-- `unary` on an integer.
unary_int : ℕ → ℕ → Result Variable
unary_int a op =
    if op == b'!'
    then ok (Variable.integer (bit (a == 0)))
    else if op == b'~'
    then ok (Variable.integer (Word.lnot a))
    else if op == b'-'
    then ok (Variable.integer (Word.neg a))
    else if op == b'+'
    then ok (Variable.integer a)
    else err unsupported_operator

abbrev is_blank : Option (List ℕ) → Bool
is_blank none = true
is_blank (some []) = true
is_blank (some (c ∷ s)) = false

module _ (p : Platform) (t : StringTable) where
  -- `vm_stringify` with a buffer of `n` bytes; `snprintf` cuts what it prints. A reference gives a
  -- null pointer.
  pub stringify : Variable → ℕ → Result (Option (List ℕ))
  unfolding variable_string
  stringify Variable.undefined n = ok (some (codes "undefined"))
  stringify (Variable.boolean b) n = ok (some (if b == 0 then codes "0" else codes "1"))
  stringify (Variable.float f) n = ok (some (take (n - 1) (p.show_float f)))
  stringify (Variable.integer i) n = ok (some (take (n - 1) (p.show_int i)))
  stringify (Variable.interned_string i) n = variable_string t (Variable.interned_string i)
  stringify (Variable.string s) n = variable_string t (Variable.string s)
  stringify (Variable.object o) n = ok (some (take (n - 1) (p.show_pointer o)))
  stringify (Variable.function f g) n = ok (some (codes "[function]"))
  stringify (Variable.native_function f) n = ok (some (codes "[function]"))
  stringify (Variable.vector x y z) n = ok (some (take (n - 1) (p.show_vector x y z)))
  stringify (Variable.reference r) n = ok none

  -- `coerce_type` to `VAR_INTEGER`: `u.ival` of the result.
  unfoldable pub coerce_int : Variable → Result ℕ
  unfolding variable_string follow
  coerce_int (Variable.boolean b) = ok b
  coerce_int (Variable.integer i) = ok i
  coerce_int (Variable.float f) = ok (p.int_of_float f)
  coerce_int (Variable.interned_string i) = do
    s ← variable_string t (Variable.interned_string i)
    r ← follow s
    ok (p.strtoll r)
  coerce_int (Variable.string s) = ok (p.strtoll s)
  coerce_int _ = err cannot_coerce

  -- To `VAR_FLOAT`: `u.fval`.
  unfoldable pub coerce_float : Variable → Result ℕ
  unfolding variable_string follow
  coerce_float (Variable.integer i) = ok (p.float_of_int i)
  coerce_float (Variable.float f) = ok f
  coerce_float (Variable.interned_string i) = do
    s ← variable_string t (Variable.interned_string i)
    r ← follow s
    ok (p.atof r)
  coerce_float (Variable.string s) = ok (p.atof s)
  coerce_float _ = err cannot_coerce

  -- To `VAR_VECTOR`: `u.vval`.
  pub coerce_vector : Variable → Result (ℕ × ℕ × ℕ)
  coerce_vector (Variable.integer i) = let f = p.float_of_int i in ok (f, f, f)
  coerce_vector (Variable.float f) = ok (f, f, f)
  coerce_vector (Variable.vector x y z) = ok (x, y, z)
  coerce_vector _ = err cannot_coerce

  unary_float : ℕ → ℕ → Result Variable
  unary_float a op =
      if op == b'-'
      then ok (Variable.float (p.fneg a))
      else if op == b'+'
      then ok (Variable.float a)
      else err unsupported_operator

  unary_string : Variable → ℕ → Result Variable
  unfolding variable_string
  unary_string v op =
      if op == b'!'
      then (do s ← variable_string t v; ok (Variable.boolean (bit (is_blank s))))
      else err unsupported_operator

  pub unary : Variable → ℕ → Result Variable
  unfolding unary_int unary_float unary_string
  unary Variable.undefined op =
      if op == b'!' then ok (Variable.boolean 1) else err unsupported_operator
  unary (Variable.boolean b) op =
      if op == b'!' then ok (Variable.boolean (bit (b == 0))) else err unsupported_operator
  unary (Variable.integer i) op = unary_int i op
  unary (Variable.float f) op = unary_float f op
  unary (Variable.string s) op = unary_string (Variable.string s) op
  unary (Variable.interned_string i) op = unary_string (Variable.interned_string i) op
  unary _ op = err unsupported_operator
