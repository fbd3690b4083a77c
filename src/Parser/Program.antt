-- ===== src/Parser/Program.antt =====
-- parse.c: `parse`, the declarations of a file. The memory of the arenas is taken to be enough.
use gsc.Base.{
  ℕ, zero, suc, true, false, Option, none, some, List, [], if◌then◌else◌, ◌==◌, bytes_eq, codes,
  take, get_or, set,
}
use gsc.Platform.{Platform}
use gsc.HashTrie.{HashTrie, upsert, value_at, set_value}
use gsc.HashTrie
use gsc.Token.{tk_identifier, tk_file_reference, tk_string}
use gsc.Compiler.Syntax.{Node, Nodes, end, node}
use gsc.Parser.{
  Parse, Failure, ◌>>=◌, ◌>>◌, pure, error, exhausted, token, token_type, advance,
  read_parser_string, convert_backslash, invalid_directive, expected_declaration,
  function_already_defined, global_already_defined,
}
use gsc.Parser.Prefix.{take_identifier}
use gsc.Parser.Expression.{expression}
use gsc.Parser.Statement.{statement, block}

-- `ASTFunction`. Its name is the key that it is stored under.
pub record Function : Type 0 where
  pub parameters : Nodes
  pub body : Node

-- What the file declares. No code sets the value of an include.
pub record Declarations : Type 0 where
  pub includes : HashTrie ℕ
  pub functions : HashTrie Function
  pub globals : HashTrie Node

-- `string`
unfoldable pub string : ℕ → Parse (List ℕ)
string type = do t ← token; s ← read_parser_string t; advance type; pure s

-- The key of a node is written over: its backslashes become slashes.
abbrev pub slash_key : HashTrie.Node ℕ → HashTrie.Node ℕ
slash_key n = record n { key = convert_backslash n.key }

unfoldable pub rewrite_key : HashTrie ℕ → ℕ → HashTrie ℕ
rewrite_key t p = record t {
  nodes = set t.nodes p (slash_key (get_or t.nodes p (record { key = []; value = none })));
}

unfoldable pub set_animtree : List ℕ → Parse (Unit {0})
set_animtree name = λ p. pure tt (record p { animtree = take 255 name })

-- The names of the parameters, up to the `)`.
unfoldable pub more_parameters : ℕ → Parse Nodes
more_parameters zero = exhausted
more_parameters (suc fuel) = do
  name ← take_identifier
  t ← token_type
  if t == b','
      then (do advance b','; names ← more_parameters fuel; pure (node name names))
      else pure (node name end)

unfoldable pub parameters : ℕ → Parse Nodes
parameters fuel = do t ← token_type; if t == b')' then pure end else more_parameters fuel

-- `if(entry->value)` and what follows it, for the entry of a name.
unfoldable pub vacant {ℓ} :
    {V : Type ℓ} → Option V → Failure → Parse Declarations → Parse Declarations
vacant none taken next = next
vacant (some v) taken next = error taken

unfoldable pub new_entry {ℓ} :
    {V : Type ℓ}
    → HashTrie V × Option ℕ
    → Failure
    → Declarations
    → (HashTrie V → ℕ → Parse Declarations)
    → Parse Declarations
unfolding vacant
new_entry (t, none) taken d next = pure d
new_entry (t, some p) taken d next = vacant (value_at t p) taken (next t p)

module _ (lib : Platform) (tolower : ℕ → ℕ) where
  -- An include: a path that is new gets a node, and its key is changed where it stands.
  unfoldable pub add_include : List ℕ → HashTrie ℕ → HashTrie ℕ
  add_include path t =
      let (t', entry) = upsert tolower t path true false in
      elim entry [ some p ↦ rewrite_key t' p | none ↦ t' ]

  -- `#include` and `#using_animtree`
  unfoldable pub directive : Declarations → Parse Declarations
  directive d = do
    advance b'#'
    name ← string tk_identifier
    if bytes_eq name (codes "include")
        then (do
          path ← string tk_file_reference
          advance b';'
          pure (record d { includes = add_include path d.includes }))
        else if bytes_eq name (codes "using_animtree")
        then (do
          advance b'('
          tree ← string tk_string
          set_animtree tree
          advance b')'
          advance b';'
          pure d)
        else error invalid_directive

  unfoldable pub define_function : List ℕ → Function → Declarations → Parse Declarations
  unfolding new_entry
  define_function name f d =
      new_entry (upsert tolower d.functions name true false) function_already_defined d
        λ t p. pure (record d { functions = set_value t p f })

  unfoldable pub function_declaration : ℕ → List ℕ → Declarations → Parse Declarations
  function_declaration fuel name d = do
    advance b'('
    names ← parameters fuel
    advance b')'
    advance b'{'
    body ← block (expression lib fuel) (statement lib fuel) fuel
    define_function (take 255 name) (record { parameters = names; body = body }) d

  unfoldable pub initial_value : ℕ → ℕ → Declarations → Parse Declarations
  initial_value fuel p d = do
    advance b'='
    init ← expression lib fuel
    advance b';'
    pure (record d { globals = set_value d.globals p init })

  unfoldable pub global_declaration : ℕ → List ℕ → Declarations → Parse Declarations
  unfolding new_entry
  global_declaration fuel name d =
      new_entry (upsert tolower d.globals name true false) global_already_defined d
        λ t p. initial_value fuel p (record d { globals = t })

  unfoldable pub declaration : ℕ → Declarations → Parse Declarations
  declaration fuel d = do
    t ← token_type
    if t == b'#'
        then directive d
        else if t == tk_identifier
        then (do
          name ← string tk_identifier
          next ← token_type
          if next == b'(' then function_declaration fuel name d else global_declaration fuel name d)
        else error expected_declaration

  -- `parse`; the fuel of the loop is also that of the rules below it.
  unfoldable pub parse_declarations : ℕ → ℕ → Declarations → Parse Declarations
  parse_declarations inner zero d = exhausted
  parse_declarations inner (suc fuel) d = do
    t ← token_type
    if t == 0 then pure d else (do d' ← declaration inner d; parse_declarations inner fuel d')

  unfoldable pub parse : ℕ → Declarations → Parse Declarations
  parse fuel d = parse_declarations fuel fuel d
