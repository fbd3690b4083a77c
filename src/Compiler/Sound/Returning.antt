-- ===== src/Compiler/Sound/Returning.antt =====
-- compiler.c: the first local variable of a function, and the two instructions that end it.
use mathlib.Core.Bool.{true≢false}
use gsc.Base.{
  ℕ, ◌+◌, ◌<◌, true, false, Option, none, some, [], ◌≡◌, refl, sym, ap, ◌∙◌, arith, Bool-cases, ltb,
  leb, ltb→lt, ◌==◌, ==_iff, inl, inr,
}
use gsc.Base.Result.{Result, ok, err}
use gsc.HashTrie.{HashTrie, value_at, init}
use gsc.Compiler.Code.{op_undef, op_ret, Instruction, is_jump, update}
use gsc.Compiler.State.{Compiler, Compile, continue, ◌>>=◌, pure}
use gsc.Compiler.Emit.{emit, emit_base, started}
use gsc.Compiler.Locals.{define_at, define_entry}
use gsc.Compiler.Function.{reset}
use gsc.Compiler.Sound.Invariant.{Lands, IsSound, Grows, Keeps, no_new}
use gsc.Compiler.Sound.Actions.{update-eq, update-ne}
use gsc.Compiler.Sound.Locals.{Below, set_value-Below}

-- What holds of the state that an action leaves behind, where it returns.
abbrev pub Post : {A : Type 0} → (Compiler → Type 0) → Result (A × Compiler) → Type 0
Post P (err fault) = Unit
Post P (ok (a, c)) = P c

pub continue-Post :
    {A B : Type 0} {P : Compiler → Type 0} (Q : Compiler → Type 0) (r : Result (A × Compiler))
    (f : A → Compile B)
    → Post P r
    → ((a : A) (c : Compiler) → P c → Post Q (f a c))
    → Post Q (continue r f)
continue-Post Q (err fault) f p h = tt
continue-Post Q (ok (a, c)) f p h = h a c p

pub Post-and :
    {A : Type 0} (P Q : Compiler → Type 0) (r : Result (A × Compiler))
    → Post P r
    → Post Q r
    → Post (λ c. P c × Q c) r
Post-and P Q (err fault) p q = tt
Post-and P Q (ok (a, c)) p q = (p, q)

Post-Grows :
    {A : Type 0} (c : Compiler) (r : Result (A × Compiler)) → Grows c no_new r → Post IsSound r
Post-Grows c (err fault) g = tt
Post-Grows c (ok (a, c')) (e, n) = e.sound

pub Post-Keeps :
    {A : Type 0} (m : Compile A) (c : Compiler) → Keeps 0 [] m → IsSound c → Post IsSound (m c)
Post-Keeps m c k s = Post-Grows c (m c) (k.at c s (omega arith) tt)

-- The first local variable is `self`.
define_at-Started :
    (c : Compiler) (variables : HashTrie ℕ) (p : ℕ) (o : Option ℕ)
    → Below 0 variables
    → value_at variables p ≡ o
    → Post IsSound (define_at (reset c) true variables p o)
unfolding reset
define_at-Started c variables p (some slot) below e = tt
define_at-Started c variables p none below e = record {
  count_le = omega arith;
  max_le = omega arith;
  self_defined = omega arith;
  slots = set_value-Below 0 variables p below;
  fits = λ i lt. absurd (omega arith);
  pending_patchable = tt;
}

pub define_entry-Started :
    (c : Compiler) (r : HashTrie ℕ × Option ℕ)
    → Below 0 r.0
    → Post IsSound (define_entry (reset c) true r)
define_entry-Started c (variables, none) below = tt
define_entry-Started c (variables, some p) below =
    define_at-Started c variables p (value_at variables p) below refl

pub init-Below : Below 0 (init ℕ)
unfolding init value_at
init-Below p v e = ground arith

-- A complete function: `size` instructions, and behind them the return.
pub record IsReturning (c : Compiler) : Type 0 where
  pub size : ℕ
  pub count_eq : c.instruction_count ≡ size + 2
  pub strict :
      (i : ℕ)
      → i < c.instruction_count
      → is_jump (c.instructions i).opcode ≡ true
      → (i < size) × Lands size i (c.instructions i).operand0
  pub returns : (c.instructions (size + 1)).opcode ≡ op_ret

-- The two instructions behind the body.
abbrev returned : Compiler → ℕ → Instruction
returned c =
    update (update c.instructions c.instruction_count (started c.instruction_count op_undef))
      (c.instruction_count + 1) (started (c.instruction_count + 1) op_ret)

returned-undef : (c : Compiler) → is_jump (returned c c.instruction_count).opcode ≡ false
unfolding started
returned-undef c =
    ap (λ (x : Instruction). is_jump x.opcode)
      (update-ne _ c.instruction_count (c.instruction_count + 1) _ (omega arith)
        ∙ update-eq c.instructions c.instruction_count _)

returned-ret : (c : Compiler) → (returned c (c.instruction_count + 1)).opcode ≡ op_ret
unfolding started
returned-ret c = ap (λ (x : Instruction). x.opcode) (update-eq _ (c.instruction_count + 1) _)

returned-below : (c : Compiler) (i : ℕ) → i < c.instruction_count → returned c i ≡ c.instructions i
returned-below c i lt =
    update-ne _ i (c.instruction_count + 1) _ (omega arith)
    ∙ update-ne _ i c.instruction_count _ (omega arith)

returned-strict :
    (c : Compiler) (i : ℕ)
    → IsSound c
    → i < c.instruction_count + 1 + 1
    → is_jump (returned c i).opcode ≡ true
    → (i < c.instruction_count) × Lands c.instruction_count i (returned c i).operand0
returned-strict c i s lt h = elim (Bool-cases (ltb i c.instruction_count)) [
  | inl e ↦
      let below : i < c.instruction_count = ltb→lt _ _ e in
      (
        below,
        rw (returned-below c i below) (
            (s.fits i below).jump_lands
              (sym (ap (λ (x : Instruction). is_jump x.opcode) (returned-below c i below)) ∙ h)),
      )
  | inr e ↦ absurd (elim (Bool-cases (i == c.instruction_count)) [
    | inl e' ↦
        let p : i ≡ c.instruction_count = (==_iff _ _).0 e' in
        true≢false (sym h ∙ ap (λ k. is_jump (returned c k).opcode) p ∙ returned-undef c)
    | inr e' ↦
        let p : i ≡ c.instruction_count + 1 = ground arith in
        true≢false (sym h ∙ ap (λ k. is_jump (returned c k).opcode) p ∙ ap is_jump (returned-ret c))
  ])
]

pub return-IsReturning :
    (c : Compiler) → IsSound c → Post IsReturning ((emit op_undef >>= λ _. emit op_ret) c)
unfolding ◌>>=◌ emit_base pure
return-IsReturning c s = elim (Bool-cases (leb c.max_instruction_count c.instruction_count)) [
  | inl full ↦ rw full tt
  | inr room ↦ elim (Bool-cases (leb c.max_instruction_count (c.instruction_count + 1))) [
    | inl full ↦ rw (room, full) tt
    | inr room' ↦
        rw (room, room')
          (record {
            size = c.instruction_count;
            count_eq = omega arith;
            strict = λ i lt h. returned-strict c i s lt h;
            returns = returned-ret c;
          })
  ]
]
