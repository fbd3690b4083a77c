-- ===== src/Tests/Platform.antt =====
-- A platform for the tests: its floats are the numbers 0, 1, 2, ….
use gsc.Base.{◌+◌, ◌-◌, ◌*◌, ◌/◌, ◌%◌, [], ◌∷◌, ◌==◌, ltb, leb}
use gsc.Platform

abbrev pub platform : Platform.Platform
platform = record {
  fadd = λ a b. a + b;
  fsub = λ a b. a - b;
  fmul = λ a b. a * b;
  fdiv = λ a b. a / b;
  fmod = λ a b. a % b;
  fneg = λ a. a;
  fabs = λ a. a;
  feq = λ a b. a == b;
  flt = λ a b. ltb a b;
  fle = λ a b. leb a b;
  float_of_int = λ a. a;
  int_of_float = λ a. a;
  atof = λ s. 0;
  strtoll = λ s. 0;
  strtoll_hex = λ s. 0;
  show_int = λ a. (48 + a % 10) ∷ [];
  show_float = λ a. (48 + a % 10) ∷ [];
  show_vector = λ a b c. (48 + a % 10) ∷ [];
  show_pointer = λ a. (48 + a % 10) ∷ [];
}
