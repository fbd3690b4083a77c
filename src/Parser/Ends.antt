-- ===== src/Parser/Ends.antt =====
-- The rules for what is left of the input after a part of a rule of the grammar.
pub mod Forms
pub mod Expressions
pub mod Statements
pub mod Declarations
use gsc.Base.{
  ℕ, ◌≤◌, ◌<◌, Bool, true, false, List, [], ◌∷◌, ◌≡◌, refl, arith, if◌then◌else◌, ◌==◌, length,
}
use gsc.Parser.{
  Lexeme, Parser, Outcome, parsed, failed, out_of_fuel, Failure, Parse, continue, ◌>>=◌, pure,
  error, token, token_type, take_token, advance, read_parser_string, current_animtree,
}

-- A run that ends with at most `n` tokens left, if it ends with a value, and does not run out of fuel.
abbrev pub Within : {A : Type 0} → ℕ → Outcome A → Type 0
Within n (parsed a p) = length p.input ≤ n
Within n (failed why) = Unit
Within n out_of_fuel = ⊥

-- With less than `n` tokens left.
abbrev pub Below : {A : Type 0} → ℕ → Outcome A → Type 0
Below n (parsed a p) = length p.input < n
Below n (failed why) = Unit
Below n out_of_fuel = ⊥

-- Up to `n` tokens of input, `m` ends and puts none back; with `Takes` it takes one at least.
pub record Keeps {A : Type 0} (n : ℕ) (m : Parse A) : Type 0 where
  pub run : (p : Parser) → length p.input ≤ n → Within (length p.input) (m p)

pub record Takes {A : Type 0} (n : ℕ) (m : Parse A) : Type 0 where
  pub run : (p : Parser) → length p.input ≤ n → Below (length p.input) (m p)

pub Within-mono : {A : Type 0} (i j : ℕ) (r : Outcome A) → i ≤ j → Within i r → Within j r
Within-mono i j (parsed a p) le w = omega arith
Within-mono i j (failed why) le w = tt
Within-mono i j out_of_fuel le w = elim w [ ]

pub Below-mono : {A : Type 0} (i j : ℕ) (r : Outcome A) → i < j → Within i r → Below j r
Below-mono i j (parsed a p) le w = omega arith
Below-mono i j (failed why) le w = tt
Below-mono i j out_of_fuel le w = elim w [ ]

Below-le : {A : Type 0} (i j : ℕ) (r : Outcome A) → i ≤ j → Below i r → Below j r
Below-le i j (parsed a p) le w = omega arith
Below-le i j (failed why) le w = tt
Below-le i j out_of_fuel le w = elim w [ ]

Below-Within : {A : Type 0} (i : ℕ) (r : Outcome A) → Below i r → Within i r
Below-Within i (parsed a p) w = omega arith
Below-Within i (failed why) w = tt
Below-Within i out_of_fuel w = elim w [ ]

module _ {A B : Type 0} (i n : ℕ) (f : A → Parse B) where
  continue-Within :
      (r : Outcome A) → i ≤ n → Within i r → ((a : A) → Keeps n (f a)) → Within i (continue r f)
  continue-Within (parsed a p) le w k =
      Within-mono (length p.input) i (f a p) w ((k a).run p (omega arith))
  continue-Within (failed why) le w k = tt
  continue-Within out_of_fuel le w k = elim w [ ]

  continue-Below :
      (r : Outcome A) → i ≤ n → Below i r → ((a : A) → Keeps n (f a)) → Below i (continue r f)
  continue-Below (parsed a p) le w k =
      Below-mono (length p.input) i (f a p) w ((k a).run p (omega arith))
  continue-Below (failed why) le w k = tt
  continue-Below out_of_fuel le w k = elim w [ ]

  continue-Takes :
      (r : Outcome A) → i ≤ n → Within i r → ((a : A) → Takes n (f a)) → Below i (continue r f)
  continue-Takes (parsed a p) le w k =
      Below-le (length p.input) i (f a p) w ((k a).run p (omega arith))
  continue-Takes (failed why) le w k = tt
  continue-Takes out_of_fuel le w k = elim w [ ]

  continue-shorter :
      (r : Outcome A)
      → i ≤ n
      → Below i r
      → ((a : A) (k : ℕ) → k < n → Keeps k (f a))
      → Below i (continue r f)
  continue-shorter (parsed a p) le w k =
      Below-mono (length p.input) i (f a p) w
        ((k a (length p.input) (omega arith)).run p (omega arith))
  continue-shorter (failed why) le w k = tt
  continue-shorter out_of_fuel le w k = elim w [ ]

module _ {A : Type 0} {n : ℕ} where
  pub Takes-Keeps : {m : Parse A} → Takes n m → Keeps n m
  Takes-Keeps {m} t = record { run = λ p le. Below-Within (length p.input) (m p) (t.run p le) }

  pub Takes-mono : {m : Parse A} (k : ℕ) → k ≤ n → Takes n m → Takes k m
  Takes-mono k le t = record { run = λ p le'. t.run p (omega arith) }

  pub Keeps-pure : (a : A) → Keeps n (pure a)
  unfolding pure
  Keeps-pure a = record { run = λ p le. omega arith }

  pub Takes-error : (why : Failure) → Takes n (error {A = A} why)
  unfolding error
  Takes-error why = record { run = λ p le. tt }

  pub Keeps-error : (why : Failure) → Keeps n (error {A = A} why)
  Keeps-error why = Takes-Keeps (Takes-error why)

  pub Keeps-if : (b : Bool) {x y : Parse A} → Keeps n x → Keeps n y → Keeps n (if b then x else y)
  Keeps-if true kx ky = kx
  Keeps-if false kx ky = ky

  pub Takes-if : (b : Bool) {x y : Parse A} → Takes n x → Takes n y → Takes n (if b then x else y)
  Takes-if true kx ky = kx
  Takes-if false kx ky = ky

advance-run :
    (type : ℕ) (p : Parser) (input : List Lexeme)
    → (0 == type) ≡ false
    → Below (length input) (advance type (record p { input = input }))
unfolding advance
advance-run type p [] nonzero = rw nonzero tt
advance-run type p (t ∷ ts) nonzero = ground arith

module _ {n : ℕ} where
  pub Keeps-token : Keeps n token
  unfolding token
  Keeps-token = record { run = λ p le. omega arith }

  pub Keeps-token_type : Keeps n token_type
  unfolding token_type
  Keeps-token_type = record { run = λ p le. omega arith }

  pub Keeps-current_animtree : Keeps n current_animtree
  unfolding current_animtree
  Keeps-current_animtree = record { run = λ p le. omega arith }

  pub Keeps-read_parser_string : (t : Lexeme) → Keeps n (read_parser_string t)
  unfolding read_parser_string
  Keeps-read_parser_string t = record { run = λ p le. omega arith }

  pub Takes-advance : (type : ℕ) → (0 == type) ≡ false → Takes n (advance type)
  Takes-advance type nonzero = record { run = λ p le. advance-run type p p.input nonzero }

module _ {A B : Type 0} {n : ℕ} {m : Parse A} {f : A → Parse B} where
  pub Keeps-bind : Keeps n m → ((a : A) → Keeps n (f a)) → Keeps n (m >>= f)
  unfolding ◌>>=◌
  Keeps-bind km kf = record {
    run = λ p le. continue-Within (length p.input) n f (m p) le (km.run p le) kf;
  }

  pub Takes-first : Takes n m → ((a : A) → Keeps n (f a)) → Takes n (m >>= f)
  unfolding ◌>>=◌
  Takes-first tm kf = record {
    run = λ p le. continue-Below (length p.input) n f (m p) le (tm.run p le) kf;
  }

  pub Takes-then : Keeps n m → ((a : A) → Takes n (f a)) → Takes n (m >>= f)
  unfolding ◌>>=◌
  Takes-then km tf = record {
    run = λ p le. continue-Takes (length p.input) n f (m p) le (km.run p le) tf;
  }

  -- What follows a token that was taken has a shorter input.
  pub Takes-shorter : Takes n m → ((a : A) (k : ℕ) → k < n → Keeps k (f a)) → Takes n (m >>= f)
  unfolding ◌>>=◌
  Takes-shorter tm kf = record {
    run = λ p le. continue-shorter (length p.input) n f (m p) le (tm.run p le) kf;
  }

pub ruleset keeps = (
  Keeps-bind, Keeps-pure, Keeps-error, Keeps-if, Keeps-token, Keeps-token_type,
  Keeps-read_parser_string, Keeps-current_animtree, Takes-Keeps, Takes-advance, Takes-error, refl,
)
