-- ===== src/Compiler/Sound/Function.antt =====
-- compiler.c: what `compile_function` returns. Every jump of a function goes to one of its
-- instructions, every local variable has a slot, and the last instruction returns.
use mathlib.Core.Path.{subst}
use gsc.Base.{
  ℕ, ◌+◌, ◌≤◌, ◌<◌, true, false, [], map, ◌≡◌, refl, sym, ap, ◌∙◌, arith, ltb, lt→ltb,
  if◌then◌else◌,
}
use gsc.Base.Result.{Result, ok, err}
use gsc.HashTrie.{init}
use gsc.HashTrie.Values.{upsert-value}
use gsc.Compiler.Syntax.{Node, Nodes, end, node, ast_identifier}
use gsc.Compiler.Code.{
  op_undef, op_ret, integer, Instruction, is_jump, is_local, max_instructions_count,
}
use gsc.Compiler.State.{Compiler, Compile, continue, ◌>>=◌, gets}
use gsc.Compiler.Emit.{emit}
use gsc.Compiler.Locals.{define_local_variable}
use gsc.Compiler.Visit.{visit}
use gsc.Compiler.Function.{
  name_self, reset, resolve, resolve_jumps, define_parameters, compile_body, compile_function,
}
use gsc.Compiler.Sound.Invariant.{IsSlot, IsSound, Keeps, no_new}
use gsc.Compiler.Sound.Actions.{Keeps-bind, Keeps-pure, KeepsWith-error}
use gsc.Compiler.Sound.Emit.{emit-Keeps}
use gsc.Compiler.Sound.Locals.{define_local_variable-Keeps}
use gsc.Compiler.Sound.Visit.{visit-Keeps}
use gsc.Compiler.Sound.Returning.{
  Post, continue-Post, Post-and, Post-Keeps, define_entry-Started, init-Below, IsReturning,
  return-IsReturning,
}
use gsc.Compiler.Sound.Resolving.{jump_target, resolve-Lands, resolve-opcode, resolve-local}

-- The first `n` instructions of the buffer as a function that can run.
pub record IsExecutable (n : ℕ) (c : Compiler) : Type 0 where
  pub jumps :
      (i : ℕ)
      → i < n
      → is_jump (c.instructions i).opcode ≡ true
      → (w : ℕ) × ((c.instructions i).operand0 ≡ integer w) × (jump_target i w < n)
  pub locals :
      (i : ℕ)
      → i < n
      → is_local (c.instructions i).opcode ≡ true
      → IsSlot c.variable_index (c.instructions i).operand0
  pub count_le : n ≤ max_instructions_count
  pub ends : (last : ℕ) × (n ≡ last + 1) × ((c.instructions last).opcode ≡ op_ret)

abbrev IsCompiled : Result (ℕ × Compiler) → Type 0
IsCompiled (err fault) = Unit
IsCompiled (ok (n, c)) = IsExecutable n c

continue-IsCompiled :
    {A : Type 0} {P : Compiler → Type 0} (r : Result (A × Compiler)) (f : A → Compile ℕ)
    → Post P r
    → ((a : A) (c : Compiler) → P c → IsCompiled (f a c))
    → IsCompiled (continue r f)
continue-IsCompiled (err fault) f p h = tt
continue-IsCompiled (ok (a, c)) f p h = h a c p

-- The buffer behind `resolve_jumps`, at an instruction of the function.
abbrev resolved : Compiler → ℕ → Instruction
resolved c i = if ltb i c.instruction_count then resolve (c.instructions i) else c.instructions i

resolved-below :
    (c : Compiler) (i : ℕ) → i < c.instruction_count → resolved c i ≡ resolve (c.instructions i)
resolved-below c i lt = rw (lt→ltb _ _ lt) refl

resolved-opcode :
    (c : Compiler) (i : ℕ)
    → i < c.instruction_count
    → (resolved c i).opcode ≡ (c.instructions i).opcode
resolved-opcode c i lt =
    ap (λ (x : Instruction). x.opcode) (resolved-below c i lt) ∙ resolve-opcode (c.instructions i)

resolve_jumps-IsExecutable :
    (c : Compiler)
    → IsSound c
    → IsReturning c
    → IsExecutable c.instruction_count (record c { instructions = resolved c })
resolve_jumps-IsExecutable c s r = record {
  jumps = λ i lt h.
      let m = r.size in
      let count_eq = r.count_eq in
      let count_le = s.count_le in
      let max_le = s.max_le in
      let jump = sym (ap is_jump (resolved-opcode c i lt)) ∙ h in
      let (i-lt, lands) = r.strict i lt jump in
      let (w, at_w, le) = resolve-Lands (c.instructions i) i m (omega arith) i-lt jump lands in
      (w, ap (λ (x : Instruction). x.operand0) (resolved-below c i lt) ∙ at_w, omega arith);
  locals = λ i lt h.
      let local = sym (ap is_local (resolved-opcode c i lt)) ∙ h in
      let (v, v-lt, at_v) = (s.fits i lt).local_slot local in
      (
        v,
        v-lt,
        ap (λ (x : Instruction). x.operand0) (resolved-below c i lt)
            ∙ resolve-local (c.instructions i) local
            ∙ at_v,
      );
  count_le = let count_le = s.count_le in let max_le = s.max_le in omega arith;
  ends =
      let count_eq = r.count_eq in
      (r.size + 1, omega arith, resolved-opcode c (r.size + 1) (omega arith) ∙ r.returns);
}

module _ (tolower : ℕ → ℕ) where
  define_parameters-Keeps : (ns : Nodes) → Keeps 0 [] (define_parameters tolower ns)
  unfolding define_parameters
  define_parameters-Keeps end = Keeps-pure 0 [] tt
  define_parameters-Keeps (node (ast_identifier name) ns) =
      Keeps-bind 0 [] no_new _ _ (define_local_variable-Keeps tolower 0 [] name true)
        (λ _. define_parameters-Keeps ns)
  define_parameters-Keeps (node n ns) = KeepsWith-error 0 [] no_new _

  self-Started :
      (c : Compiler) → Post IsSound (define_local_variable tolower name_self true (reset c))
  unfolding define_local_variable reset init
  self-Started c = define_entry-Started c _ (λ p v e.
      init-Below p v (upsert-value tolower (init ℕ) (map tolower name_self) true false p v e))

  -- The whole function, before the jumps that are left are resolved.
  compile_body-Post :
      (parameters : Nodes) (body : Node) (c : Compiler)
      → Post (λ c'. IsSound c' × IsReturning c') (compile_body tolower parameters body (reset c))
  unfolding compile_body ◌>>=◌
  compile_body-Post parameters body c = continue-Post _ _ _ (self-Started c) λ _ c₁ s₁.
      continue-Post _ _ _
        (Post-Keeps (define_parameters tolower parameters) c₁ (define_parameters-Keeps parameters)
          s₁)
        λ _ c₂ s₂.
          continue-Post _ _ _
            (Post-Keeps (visit tolower body) c₂ (visit-Keeps tolower body 0 []) s₂)
            λ _ c₃ s₃.
              Post-and IsSound IsReturning ((emit op_undef >>= λ _. emit op_ret) c₃)
                (Post-Keeps (emit op_undef >>= λ _. emit op_ret) c₃
                  (Keeps-bind 0 [] no_new _ _ (emit-Keeps 0 [] op_undef refl)
                    (λ _. emit-Keeps 0 [] op_ret refl))
                  s₃)
                (return-IsReturning c₃ s₃)

  -- A function that `compile_function` returns can run: the target of each of its jumps is one of its
  -- instructions, each OP_LOAD and OP_REF names a slot below the number of the locals, the last
  -- instruction is OP_RET, and there are at most MAX_INSTRUCTIONS. This holds for every syntax tree, whatever the buffer held before.
  pub compile_function-IsExecutable :
      (parameters : Nodes) (body : Node) (c c' : Compiler) (n : ℕ)
      → compile_function tolower parameters body c ≡ ok (n, c')
      → IsExecutable n c'
  unfolding compile_function resolve_jumps gets ◌>>=◌
  compile_function-IsExecutable parameters body c c' n e = subst IsCompiled e (
      continue-IsCompiled (compile_body tolower parameters body (reset c)) _
        (compile_body-Post parameters body c) (λ _ c₁ (s, r). resolve_jumps-IsExecutable c₁ s r))
