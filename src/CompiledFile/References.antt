-- ===== src/CompiledFile/References.antt =====
-- main.c, traverse.c: the file references of a compiled file.
use mathlib.Core.Path.{subst}
use gsc.Base.{
  ℕ, ◌-◌, true, false, Option, none, some, List, [], ◌∷◌, ◌++◌, ◌≡◌, ◌≢◌, refl, ◌∙◌, sym, take, map,
  bytes_eq_refl, Bool-cases, inl, inr,
}
use gsc.Base.Result.{Result, ok, err, ◌>>=◌}
use gsc.HashTrie.{HashTrie, walk, upsert, norm}
use gsc.HashTrie
use gsc.HashTrie.Laws.{IsValid, walk-upsert, upsert-IsValid, same_key}
use gsc.Compiler.Syntax.{Node, ast_file_reference}
use gsc.Compiler.State.{Compiler}
use gsc.Compiler.Function.{compile_function}
use gsc.Traverse.{traverse_function}
use gsc.Traverse.Occurs.{Occurs}
use gsc.Traverse.Keeps.{traverse_function-keeps}
use gsc.Traverse.Reaches.{traverse_function-reaches}
use gsc.Parser.Program.{Function}
use gsc.CompiledFile.{
  CompiledFile, node_fn, compile_declared, compile_functions, finish_function, string_size,
}

-- The file references of a file that is returned.
abbrev Refers : (HashTrie ℕ → Type 0) → Result (CompiledFile × Compiler) → Type 0
Refers P (ok (cf, c)) = P cf.file_references
Refers P (err fault) = Unit

module _ (tolower : ℕ → ℕ) where
  -- A walk for the path meets an entry.
  pub record Records (path : List ℕ) (t : HashTrie ℕ) : Type 0 where
    pub valid : IsValid tolower false t
    pub found : walk tolower false t path ≢ none

  same_path : (path : List ℕ) → same_key tolower false path path ≡ true
  same_path path = bytes_eq_refl (map tolower path)

  upsert-found :
      (t : HashTrie ℕ) (k path : List ℕ)
      → IsValid tolower false t
      → walk tolower false t path ≢ none
      → walk tolower false (upsert tolower t k true false).0 path ≢ none
  upsert-found t k path v found =
      let (returned, after) = walk-upsert tolower false t k path v in
      elim (Bool-cases (same_key tolower false k path)) [
        | inl same ↦ λ absent. returned (sym (after ∙ rw same refl) ∙ absent)
        | inr other ↦ λ absent. found (sym (after ∙ rw other refl) ∙ absent)
      ]

  upsert-Records :
      (t : HashTrie ℕ) (k path : List ℕ)
      → Records path t
      → Records path (upsert tolower t k true false).0
  upsert-Records t k path r = record {
    valid = (upsert-IsValid tolower false t k true r.valid).0;
    found = upsert-found t k path r.valid r.found;
  }

  node_fn-IsValid :
      (n : Node) (t : HashTrie ℕ)
      → IsValid tolower false t
      → IsValid tolower false (node_fn tolower n t)
  unfolding node_fn
  node_fn-IsValid (ast_file_reference file) t v =
      (upsert-IsValid tolower false t (take (string_size - 1) file) true v).0
  node_fn-IsValid _ t v = v

  node_fn-Records :
      (path : List ℕ) (n : Node) (t : HashTrie ℕ)
      → Records path t
      → Records path (node_fn tolower n t)
  unfolding node_fn
  node_fn-Records path (ast_file_reference file) t r =
      upsert-Records t (take (string_size - 1) file) path r
  node_fn-Records path _ t r = r

  node_fn-found :
      (file : List ℕ) (t : HashTrie ℕ)
      → IsValid tolower false t
      → Records (take (string_size - 1) file) (node_fn tolower (ast_file_reference file) t)
  unfolding node_fn
  node_fn-found file t v =
      let path = take (string_size - 1) file in
      let (returned, after) = walk-upsert tolower false t path path v in
      record {
        valid = (upsert-IsValid tolower false t path true v).0;
        found = λ absent. returned (sym (after ∙ rw (same_path path) refl) ∙ absent);
      }

  -- What the callback keeps, all the functions keep.
  module _ (P : HashTrie ℕ → Type 0)
      (stable : (n : Node) (t : HashTrie ℕ) → P t → P (node_fn tolower n t)) where
    finish-Refers :
        (name : List ℕ) (f : Function) (references : HashTrie ℕ) (cf : CompiledFile)
        (r : Result (ℕ × Compiler))
        → P references
        → Refers P
            (r >>= λ (count, c'). ok (finish_function tolower name f references cf count c', c'))
    unfolding finish_function
    finish-Refers name f references cf (err fault) h = tt
    finish-Refers name f references cf (ok (count, c')) h = h

    declared-Refers :
        (name : List ℕ) (f : Option Function) (cf : CompiledFile) (c : Compiler)
        → P cf.file_references
        → Refers P (compile_declared tolower name f cf c)
    unfolding compile_declared
    declared-Refers name none cf c h = tt
    declared-Refers name (some f) cf c h =
        finish-Refers name f
          (traverse_function (node_fn tolower) name f.parameters f.body cf.file_references) cf
          (compile_function tolower f.parameters f.body c)
          (traverse_function-keeps (node_fn tolower) P stable name f.parameters f.body
            cf.file_references h)

    bind-Refers :
        (r : Result (CompiledFile × Compiler)) (ns : List (HashTrie.Node Function))
        (Q : HashTrie ℕ → Type 0)
        → Refers Q r
        → ((cf : CompiledFile) (c : Compiler)
            → Q cf.file_references
            → Refers P (compile_functions tolower ns cf c))
        → Refers P (r >>= λ (cf, c). compile_functions tolower ns cf c)
    bind-Refers (err fault) ns Q h rest = tt
    bind-Refers (ok (cf, c)) ns Q h rest = rest cf c h

    functions-Refers :
        (ns : List (HashTrie.Node Function)) (cf : CompiledFile) (c : Compiler)
        → P cf.file_references
        → Refers P (compile_functions tolower ns cf c)
    unfolding compile_functions
    functions-Refers [] cf c h = h
    functions-Refers (n ∷ ns) cf c h =
        bind-Refers (compile_declared tolower n.key n.value cf c) ns P
          (declared-Refers n.key n.value cf c h) (functions-Refers ns)

  module _ (name file : List ℕ) (f : Function)
      (occurs : Occurs (ast_file_reference file) f.body) where
    abbrev path : List ℕ
    path = take (string_size - 1) file

    declared-Records :
        (cf : CompiledFile) (c : Compiler)
        → IsValid tolower false cf.file_references
        → Refers (Records path) (compile_declared tolower name (some f) cf c)
    unfolding compile_declared
    declared-Records cf c v =
        finish-Refers (Records path) (node_fn-Records path) name f
          (traverse_function (node_fn tolower) name f.parameters f.body cf.file_references) cf
          (compile_function tolower f.parameters f.body c)
          (traverse_function-reaches (node_fn tolower) (IsValid tolower false) (Records path)
            node_fn-IsValid (node_fn-Records path) (ast_file_reference file) (node_fn-found file)
            name f.parameters f.body cf.file_references v occurs)

    functions-Records :
        (before after : List (HashTrie.Node Function)) (cf : CompiledFile) (c : Compiler)
        → IsValid tolower false cf.file_references
        → Refers (Records path) (
            compile_functions tolower
              (before ++ (record { key = name; value = some f } ∷ after))
              cf
              c)
    unfolding compile_functions
    functions-Records [] after cf c v =
        bind-Refers (Records path) (node_fn-Records path)
          (compile_declared tolower name (some f) cf c) after (Records path)
          (declared-Records cf c v) (functions-Refers (Records path) (node_fn-Records path) after)
    functions-Records (n ∷ before) after cf c v =
        bind-Refers (Records path) (node_fn-Records path)
          (compile_declared tolower n.key n.value cf c)
          (before ++ (record { key = name; value = some f } ∷ after)) (IsValid tolower false)
          (declared-Refers (IsValid tolower false) node_fn-IsValid n.key n.value cf c v)
          (functions-Records before after)

    -- Each file that a function refers to, anywhere in its body, is among the file references of the
    -- compiled file: a walk for its path meets an entry, whatever functions are compiled before and
    -- after. The trie of file references is valid at the start.
    pub compile_functions-Records :
        (before after : List (HashTrie.Node Function)) (cf cf' : CompiledFile) (c c' : Compiler)
        → IsValid tolower false cf.file_references
        → compile_functions tolower (before ++ (record { key = name; value = some f } ∷ after)) cf c
          ≡ ok (cf', c')
        → Records path cf'.file_references
    compile_functions-Records before after cf cf' c c' v e =
        subst (Refers (Records path)) e (functions-Records before after cf c v)
