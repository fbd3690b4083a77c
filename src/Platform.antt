-- ===== src/Platform.antt =====
-- What the program takes from the C library and the processor: floats and the conversions between
-- numbers and text. A `float` is its 32-bit pattern and an `int64_t` its 64-bit pattern. Nothing is
-- assumed of the operations but their types; a theorem that needs more names it.
use gsc.Base.{ℕ, Bool, List}

pub record Platform : Type 0 where
  pub fadd : ℕ → ℕ → ℕ
  pub fsub : ℕ → ℕ → ℕ
  pub fmul : ℕ → ℕ → ℕ
  pub fdiv : ℕ → ℕ → ℕ
  pub fmod : ℕ → ℕ → ℕ
  pub fneg : ℕ → ℕ
  pub fabs : ℕ → ℕ
  pub feq : ℕ → ℕ → Bool
  pub flt : ℕ → ℕ → Bool
  pub fle : ℕ → ℕ → Bool
  pub float_of_int : ℕ → ℕ
  pub int_of_float : ℕ → ℕ
  pub atof : List ℕ → ℕ
  pub strtoll : List ℕ → ℕ
  pub strtoll_hex : List ℕ → ℕ
  pub show_int : ℕ → List ℕ
  pub show_float : ℕ → List ℕ
  pub show_vector : ℕ → ℕ → ℕ → List ℕ
  pub show_pointer : ℕ → List ℕ
