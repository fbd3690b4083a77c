-- ===== src/Parser/Ends/Declarations.antt =====
-- parse.c: the tokens that `parse` leaves.
use gsc.Base.{
  ℕ, zero, suc, ◌<◌, true, false, Option, none, some, List, ◌≡◌, refl, ◌⊎◌, inl, inr, arith, ◌==◌,
  length, Bool-cases, ==_iff,
}
use gsc.Platform.{Platform}
use gsc.Token.{tk_identifier}
use gsc.HashTrie.{HashTrie, upsert, value_at}
use gsc.Parser.{
  Parser, Outcome, parsed, failed, out_of_fuel, Failure, Parse, continue, head, ◌>>=◌, pure,
  token_type, global_already_defined, expected_declaration,
}
use gsc.Parser.Prefix.{take_identifier}
use gsc.Parser.Expression.{expression}
use gsc.Parser.Statement.{statement}
use gsc.Parser.Program.{
  Declarations, string, set_animtree, more_parameters, parameters, directive, define_function,
  function_declaration, vacant, new_entry, initial_value, global_declaration, declaration,
  parse_declarations, parse,
}
use gsc.Parser.Ends.{
  Below, Keeps, Takes, keeps, Takes-Keeps, Takes-first, Takes-then, Takes-if, Takes-shorter,
  Takes-advance, Takes-error, Keeps-pure, Keeps-error, Keeps-token_type,
}
use gsc.Parser.Ends.Statements.{expression-Takes, statement-Takes, block-Keeps}

string-Takes : (n type : ℕ) → (0 == type) ≡ false → Takes n (string type)
unfolding string
string-Takes n type nonzero =
    let last = Takes-advance {n = n} type nonzero in search (keeps, Takes-then, Takes-first) depth 8

set_animtree-Keeps : (n : ℕ) (name : List ℕ) → Keeps n (set_animtree name)
unfolding set_animtree pure
set_animtree-Keeps n name = record { run = λ p le. omega arith }

take_identifier-Takes : (n : ℕ) → Takes n take_identifier
unfolding take_identifier
take_identifier-Takes n = search (keeps, Takes-then, Takes-first) depth 8

more_parameters-Keeps : (n fuel : ℕ) → n < fuel → Keeps n (more_parameters fuel)
unfolding more_parameters
more_parameters-Keeps n zero enough = absurd (omega arith)
more_parameters-Keeps n (suc fuel) enough = Takes-Keeps (
    Takes-shorter (take_identifier-Takes n)
      λ name k less. let rest = more_parameters-Keeps k fuel (omega arith) in search keeps depth 8)

parameters-Keeps : (n fuel : ℕ) → n < fuel → Keeps n (parameters fuel)
unfolding parameters
parameters-Keeps n fuel enough =
    let more = more_parameters-Keeps n fuel enough in search keeps depth 8

module _ {ℓ} {V : Type ℓ} (n : ℕ) (taken : Failure) where
  vacant-Keeps :
      (v : Option V) (next : Parse Declarations) → Keeps n next → Keeps n (vacant v taken next)
  unfolding vacant
  vacant-Keeps none next k = k
  vacant-Keeps (some v) next k = Keeps-error taken

  new_entry-Keeps :
      (entry : HashTrie V × Option ℕ) (d : Declarations)
      (next : HashTrie V → ℕ → Parse Declarations)
      → ((t : HashTrie V) (p : ℕ) → Keeps n (next t p))
      → Keeps n (new_entry entry taken d next)
  unfolding new_entry
  new_entry-Keeps (t, none) d next k = Keeps-pure d
  new_entry-Keeps (t, some p) d next k = vacant-Keeps (value_at t p) (next t p) (k t p)

module _ (lib : Platform) (tolower : ℕ → ℕ) (n : ℕ) where
  directive-Takes : (d : Declarations) → Takes n (directive lib tolower d)
  unfolding directive
  directive-Takes d =
      Takes-first (Takes-advance b'#' refl)
        λ _. search (keeps, string-Takes, set_animtree-Keeps) depth 16

  module _ (fuel : ℕ) (enough : n < fuel) where
    initial_value-Keeps : (p : ℕ) (d : Declarations) → Keeps n (initial_value lib tolower fuel p d)
    unfolding initial_value
    initial_value-Keeps p d = let init = expression-Takes lib fuel n enough in search keeps depth 12

    function_declaration-Keeps :
        (name : List ℕ) (d : Declarations) → Keeps n (function_declaration lib tolower fuel name d)
    unfolding function_declaration define_function
    function_declaration-Keeps name d =
        let names = parameters-Keeps n fuel enough in
        let body =
          block-Keeps (expression lib fuel) (statement lib fuel) n
            (expression-Takes lib fuel n enough) (statement-Takes lib fuel n enough) fuel enough in
        search (keeps, new_entry-Keeps) depth 20

    global_declaration-Keeps :
        (name : List ℕ) (d : Declarations) → Keeps n (global_declaration lib tolower fuel name d)
    unfolding global_declaration
    global_declaration-Keeps name d =
        new_entry-Keeps n global_already_defined (upsert tolower d.globals name true false) d _
          λ t p. initial_value-Keeps p (record d { globals = t })

    declaration-Takes : (d : Declarations) → Takes n (declaration lib tolower fuel d)
    unfolding declaration
    declaration-Takes d =
        let name = string-Takes n tk_identifier refl in
        Takes-then Keeps-token_type λ t. Takes-if (t == b'#') (directive-Takes d) (
          Takes-if (t == tk_identifier)
            (Takes-first name
              λ s. search (keeps, function_declaration-Keeps, global_declaration-Keeps) depth 8)
            (Takes-error expected_declaration))

-- What `parse` returns with: all tokens are read, up to one of type 0, which ends the input.
abbrev IsRead : Outcome Declarations → Type 0
IsRead (parsed d p) = (head p.input).type ≡ 0
IsRead (failed why) = Unit
IsRead out_of_fuel = ⊥

continue-IsRead :
    (n : ℕ) (r : Outcome Declarations) (f : Declarations → Parse Declarations)
    → Below n r
    → ((d : Declarations) (p : Parser) → length p.input < n → IsRead (f d p))
    → IsRead (continue r f)
continue-IsRead n (parsed d p) f b h = h d p b
continue-IsRead n (failed why) f b h = tt
continue-IsRead n out_of_fuel f b h = elim b [ ]

parse_declarations-IsRead :
    (lib : Platform) (tolower : ℕ → ℕ) (inner fuel : ℕ) (d : Declarations) (p : Parser)
    → length p.input < inner
    → length p.input < fuel
    → IsRead (parse_declarations lib tolower inner fuel d p)
unfolding parse_declarations ◌>>=◌ token_type pure
parse_declarations-IsRead lib tolower inner zero d p ready enough = absurd (omega arith)
parse_declarations-IsRead lib tolower inner (suc fuel) d p ready enough =
    elim (Bool-cases ((head p.input).type == 0)) [
      | inl done ↦ rw done ((==_iff _ _).0 done)
      | inr more ↦ rw more (
          continue-IsRead (length p.input) (declaration lib tolower inner d p)
            (parse_declarations lib tolower inner fuel)
            ((declaration-Takes lib tolower (length p.input) inner ready d).run p (omega arith))
            λ d' p' less.
              parse_declarations-IsRead lib tolower inner fuel d' p' (omega arith) (omega arith))
    ]

IsRead-cases :
    (r : Outcome Declarations)
    → IsRead r
    → ((d : Declarations) × (p : Parser) × (r ≡ parsed d p) × ((head p.input).type ≡ 0))
      ⊎ ((why : Failure) × (r ≡ failed why))
IsRead-cases (parsed d p) read = inl (d, p, refl, read)
IsRead-cases (failed why) read = inr (why, refl)
IsRead-cases out_of_fuel read = elim read [ ]

-- `parse` ends on every input: it returns once the next token is the end of the input, or ends in an
-- error, and no loop or recursion of the parser runs on. The fuel is more than the tokens.
pub parse-ends :
    (lib : Platform) (tolower : ℕ → ℕ) (fuel : ℕ) (d : Declarations) (p : Parser)
    → length p.input < fuel
    → ((d' : Declarations) × (p' : Parser) × (parse lib tolower fuel d p ≡ parsed d' p')
        × ((head p'.input).type ≡ 0))
      ⊎ ((why : Failure) × (parse lib tolower fuel d p ≡ failed why))
unfolding parse
parse-ends lib tolower fuel d p enough =
    IsRead-cases (parse lib tolower fuel d p)
      (parse_declarations-IsRead lib tolower fuel fuel d p enough enough)
