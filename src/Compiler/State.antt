-- ===== src/Compiler/State.antt =====
-- compiler.h: the compiler's state, and its actions: each takes the state and returns a value with
-- the state after it, or the error that ends the compilation.
use gsc.Base.{ℕ, Bool, List, Option}
use gsc.Base.Result.{Fault, Result, ok, err}
use gsc.HashTrie.{HashTrie}
use gsc.StringTable.{StringTable}
use gsc.Compiler.Code.{Instruction}

pub data JumpKind : Type 0 where
  jump_break jump_continue : JumpKind

-- A `break` or `continue` whose target is not known yet. An `ip` of -1 is `none`: it is patched.
pub record PendingJump : Type 0 where
  pub ip : Option ℕ
  pub scope : ℕ
  pub kind : JumpKind

pub record Scope : Type 0 where
  pub allows_break : Bool
  pub allows_continue : Bool

-- `variables` has the slot of each local variable; of `globals` only the keys are read.
-- `print_expression` is the flag `GSC_COMPILE_FLAG_PRINT_EXPRESSION`.
pub record Compiler : Type 0 where
  pub variable_index : ℕ
  pub variables : HashTrie ℕ
  pub globals : Option (HashTrie ℕ)
  pub instructions : ℕ → Instruction
  pub instruction_count : ℕ
  pub max_instruction_count : ℕ
  pub strings : StringTable
  pub scopes : ℕ → Scope
  pub current_scope : ℕ
  pub jumps : List PendingJump
  pub path : Option (List ℕ)
  pub print_expression : Bool

abbrev pub Compile : Type 0 → Type 0
Compile A = Compiler → Result (A × Compiler)

-- The visit of a node, and each step that returns nothing.
abbrev pub Action : Type 0
Action = Compile (Unit {0})

abbrev pub continue :
    {A B : Type 0} → Result (A × Compiler) → (A → Compile B) → Result (B × Compiler)
continue (err fault) rest = err fault
continue (ok (a, c)) rest = rest a c

infixl 10 ◌>>=◌ ◌>>◌
unfoldable pub ◌>>=◌ : {A B : Type 0} → Compile A → (A → Compile B) → Compile B
m >>= f = λ c. continue (m c) f

abbrev pub ◌>>◌ : {A B : Type 0} → Compile A → Compile B → Compile B
m >> n = m >>= λ _. n

unfoldable pub pure : {A : Type 0} → A → Compile A
pure a = λ c. ok (a, c)

unfoldable pub error : {A : Type 0} → Fault → Compile A
error fault = λ c. err fault

unfoldable pub gets : {A : Type 0} → (Compiler → A) → Compile A
gets f = λ c. ok (f c, c)
