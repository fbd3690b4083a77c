-- ===== src/Compiler/Sound/Switch.antt =====
-- compiler.c: the visitor of `switch` keeps the state sound: the jumps behind the tests go to the
-- bodies.
use gsc.Base.{ℕ, ◌+◌, true, false, Option, none, some, List, [], ◌∷◌, ◌++◌, refl, arith}
use gsc.Compiler.Code.{Instruction, op_jmp, op_jnz}
use gsc.Compiler.State.{Action, pure}
use gsc.Compiler.Switch.{
  SwitchCase, tested, default, not_a_case, visit_test, visit_tests, default_of, visit_bodies,
  visit_consequents, visit_switch_stmt,
}
use gsc.Compiler.Sound.Invariant.{AllPatchable, KeepsWith, Keeps, no_new}
use gsc.Compiler.Sound.Actions.{
  Patchable-Among, KeepsWith-if, Among, here, there, Keeps-bind, KeepsWith-bind, Keeps-pure,
  KeepsWith-error, Keeps-ip, Extends-refl,
}
use gsc.Compiler.Sound.Emit.{emit-Keeps, Keeps-jump, patch_reljmp-Keeps}
use gsc.Compiler.Sound.Scope.{increment_scope-Keeps, decrement_scope-Keeps}
use gsc.Compiler.Sound.Handlers.{Kept, AllKept, keeps_rules, visit_block_stmt-Keeps}

-- The visitors of a case's test and statements keep the state sound.
abbrev pub CaseKept : SwitchCase → Type 0
CaseKept (tested test body) = Kept test × AllKept body
CaseKept (default body) = AllKept body
CaseKept not_a_case = Unit

abbrev pub CasesKept : List SwitchCase → Type 0
CasesKept [] = Unit
CasesKept (c ∷ cs) = CaseKept c × CasesKept cs

-- The jumps that a list of indices adds to those that are known.
abbrev AllAmong : List ℕ → List ℕ → Type 0
AllAmong [] js = Unit
AllAmong (i ∷ is) js = Among i js × AllAmong is js

AllAmong-there : (j : ℕ) (is js : List ℕ) → AllAmong is js → AllAmong is (j ∷ js)
AllAmong-there j [] js all = tt
AllAmong-there j (i ∷ is) js (a, all) = (there a, AllAmong-there j is js all)

AllAmong-append : (is js : List ℕ) → AllAmong is (is ++ js)
AllAmong-append [] js = tt
AllAmong-append (i ∷ is) js = (here, AllAmong-there i is (is ++ js) (AllAmong-append is js))

Among-behind : (i : ℕ) (is js : List ℕ) → Among i (is ++ (i ∷ js))
Among-behind i [] js = here
Among-behind i (j ∷ is) js = there (Among-behind i is js)

AllPatchable-Among :
    (count : ℕ) (code : ℕ → Instruction) (is js : List ℕ)
    → AllAmong is js
    → AllPatchable count code js
    → AllPatchable count code is
AllPatchable-Among count code [] js all p = tt
AllPatchable-Among count code (i ∷ is) js (a, all) p =
    (Patchable-Among a p, AllPatchable-Among count code is js all p)

pure-KeepsWith :
    {A : Type 0} (lo : ℕ) (js : List ℕ) (new : A → List ℕ) (a : A)
    → AllAmong (new a) js
    → KeepsWith lo js new (pure a)
unfolding pure
pure-KeepsWith lo js new a all = record {
  at = λ c s le p. (Extends-refl c s, AllPatchable-Among _ _ (new a) js all p);
}

visit_test-Keeps :
    (lo : ℕ) (js : List ℕ) (discriminant : Action) (numcases : ℕ) (test : Action)
    → Kept discriminant
    → Kept test
    → KeepsWith lo js (λ i. i ∷ []) (visit_test discriminant numcases test)
visit_test-Keeps lo js discriminant numcases test kd kt = Keeps-bind lo js _ _ _ (kd lo js) λ _.
    Keeps-bind lo js _ _ _ (kt lo js) λ _. Keeps-bind lo js _ _ _ (search keeps_rules) λ _.
      Keeps-bind lo js _ _ _ (emit-Keeps lo js _ refl) λ _. Keeps-jump lo js _ op_jnz _ refl λ jnz.
        KeepsWith-if lo (jnz ∷ js) _ _ _ _ (KeepsWith-error lo (jnz ∷ js) _ _)
          (pure-KeepsWith lo (jnz ∷ js) (λ i. i ∷ []) jnz (here, tt))

abbrev all_new : List ℕ → List ℕ
all_new is = is

-- A target may be written at each jump that the tests add.
visit_tests-Keeps :
    (lo : ℕ) (js : List ℕ) (discriminant : Action) (numcases : ℕ) (cases : List SwitchCase)
    → Kept discriminant
    → CasesKept cases
    → KeepsWith lo js all_new (visit_tests discriminant numcases cases)
unfolding visit_tests
visit_tests-Keeps lo js discriminant numcases [] kd k = pure-KeepsWith lo js all_new [] tt
visit_tests-Keeps lo js discriminant numcases (not_a_case ∷ cases) kd k = KeepsWith-error lo js _ _
visit_tests-Keeps lo js discriminant numcases (default body ∷ cases) kd (_, k) =
    visit_tests-Keeps lo js discriminant numcases cases kd k
visit_tests-Keeps lo js discriminant numcases (tested test body ∷ cases) kd ((kt, _), k) =
    KeepsWith-bind (λ i. i ∷ []) all_new lo js _ _
      (visit_test-Keeps lo js discriminant numcases test kd kt)
      λ jnz.
        KeepsWith-bind all_new all_new lo (jnz ∷ js) _ _
          (visit_tests-Keeps lo (jnz ∷ js) discriminant (numcases + 1) cases kd k)
          λ jumps.
            pure-KeepsWith lo (jumps ++ (jnz ∷ js)) all_new (jnz ∷ jumps)
              (Among-behind jnz jumps js, AllAmong-append jumps (jnz ∷ js))

visit_bodies-Keeps :
    (lo : ℕ) (js : List ℕ) (cases : List SwitchCase) (jumps : List ℕ)
    → CasesKept cases
    → AllAmong jumps js
    → Keeps lo js (visit_bodies cases jumps)
unfolding visit_bodies
visit_bodies-Keeps lo js [] jumps k all = Keeps-pure lo js tt
visit_bodies-Keeps lo js (not_a_case ∷ cases) jumps k all = KeepsWith-error lo js _ _
visit_bodies-Keeps lo js (default body ∷ cases) jumps (_, k) all =
    visit_bodies-Keeps lo js cases jumps k all
visit_bodies-Keeps lo js (tested test body ∷ cases) [] k all = KeepsWith-error lo js _ _
visit_bodies-Keeps lo js (tested test body ∷ cases) (jnz ∷ jumps) ((_, kb), k) (a, all) =
    Keeps-bind lo js no_new _ _ (patch_reljmp-Keeps lo js jnz a) λ _.
      Keeps-bind lo js no_new _ _ (visit_block_stmt-Keeps body kb lo js)
        λ _. visit_bodies-Keeps lo js cases jumps k all

abbrev DefaultKept : Option (List Action) → Type 0
DefaultKept none = Unit
DefaultKept (some body) = AllKept body

default_of-Kept :
    (default_case : Option (List Action)) (cases : List SwitchCase)
    → DefaultKept default_case
    → CasesKept cases
    → DefaultKept (default_of default_case cases)
default_of-Kept default_case [] d k = d
default_of-Kept default_case (default body ∷ cases) d (kb, k) =
    default_of-Kept (some body) cases kb k
default_of-Kept default_case (tested test body ∷ cases) d (_, k) =
    default_of-Kept default_case cases d k
default_of-Kept default_case (not_a_case ∷ cases) d (_, k) = default_of-Kept default_case cases d k

visit_consequents-Keeps :
    (lo : ℕ) (js : List ℕ) (cases : List SwitchCase) (jumps : List ℕ) (d : Option (List Action))
    → CasesKept cases
    → AllAmong jumps js
    → DefaultKept d
    → Keeps lo js (visit_consequents cases jumps d)
visit_consequents-Keeps lo js cases jumps none k all kd = visit_bodies-Keeps lo js cases jumps k all
visit_consequents-Keeps lo js cases jumps (some body) k all kd =
    Keeps-jump lo js no_new op_jmp _ refl λ jmp.
      Keeps-bind lo (jmp ∷ js) no_new _ _
        (visit_bodies-Keeps lo (jmp ∷ js) cases jumps k (AllAmong-there jmp jumps js all))
        λ _.
          Keeps-bind lo (jmp ∷ js) no_new _ _ (patch_reljmp-Keeps lo (jmp ∷ js) jmp here)
            (λ _. visit_block_stmt-Keeps body kd lo (jmp ∷ js))

pub visit_switch_stmt-Keeps :
    (discriminant : Action) (cases : List SwitchCase)
    → Kept discriminant
    → CasesKept cases
    → Kept (visit_switch_stmt discriminant cases)
unfolding visit_switch_stmt
visit_switch_stmt-Keeps discriminant cases kd k lo js =
    Keeps-bind lo js no_new _ _ (increment_scope-Keeps lo js true false) λ _.
      KeepsWith-bind all_new no_new lo js _ _ (visit_tests-Keeps lo js discriminant 0 cases kd k)
        λ jumps.
          Keeps-bind lo (jumps ++ js) no_new _ _
            (visit_consequents-Keeps lo (jumps ++ js) cases jumps _ k (AllAmong-append jumps js)
              (default_of-Kept none cases tt k))
            λ _. Keeps-ip lo (jumps ++ js) _ λ break_offset from.
              decrement_scope-Keeps break_offset (jumps ++ js) none break_offset
                (λ d e. ground arith) (omega arith)
