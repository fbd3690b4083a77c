-- ===== src/Vm/Variable.antt =====
-- variable.h and the `Variable` of vm.h. A string carries its bytes, an object and a reference
-- their address. `thread` is a type that no operation makes a value of.
use gsc.Base.{ℕ, Bool, List, ◌==◌}

pub data VariableType : Type 0 where
  undefined string interned_string integer boolean float : VariableType
  vector function object reference thread : VariableType

-- The enumeration's values.
abbrev pub code : VariableType → ℕ
code undefined = 0
code string = 1
code interned_string = 2
code integer = 3
code boolean = 4
code float = 5
code vector = 6
code function = 7
code object = 8
code reference = 9
code thread = 10

pub data Variable : Type 0 where
  undefined : Variable
  string : List ℕ → Variable
  interned_string : ℕ → Variable
  integer : ℕ → Variable
  boolean : ℕ → Variable
  float : ℕ → Variable
  vector : ℕ → ℕ → ℕ → Variable
  function : ℕ → ℕ → Variable
  native_function : ℕ → Variable
  object : ℕ → Variable
  reference : ℕ → Variable

-- `v->type`
abbrev pub type_of : Variable → VariableType
type_of Variable.undefined = VariableType.undefined
type_of (Variable.string s) = VariableType.string
type_of (Variable.interned_string i) = VariableType.interned_string
type_of (Variable.integer i) = VariableType.integer
type_of (Variable.boolean i) = VariableType.boolean
type_of (Variable.float f) = VariableType.float
type_of (Variable.vector x y z) = VariableType.vector
type_of (Variable.function f g) = VariableType.function
type_of (Variable.native_function f) = VariableType.function
type_of (Variable.object o) = VariableType.object
type_of (Variable.reference r) = VariableType.reference

abbrev pub is_type : VariableType → VariableType → Bool
is_type a b = code a == code b
