-- ===== src/Parser/Grammar/Starts.antt =====
-- The first tokens of the expressions of the grammar.
use mathlib.Core.List.{append_assoc}
use gsc.Base.{
  ℕ, false, List, ◌∷◌, ◌++◌, ◌≡◌, refl, sym, ◌∙◌, ap, ◌==◌, ==_iff, Bool-cases, inl, inr,
}
use gsc.Platform.{Platform}
use gsc.Compiler.Syntax.{Node}
use gsc.Parser.{Lexeme, head}
use gsc.Parser.Operators.{operator, Operator, Nud, no_nud}
use gsc.Parser.Operators
use gsc.Parser.Grammar.{Leaf, Expr, Front}
use gsc.Parser.Grammar

unary-close : (type : ℕ) → (operator type).nud ≡ Operators.unary → (type == b')') ≡ false
unfolding operator
unary-close type e = elim (Bool-cases (type == b')')) [
  | inr other ↦ other
  | inl close ↦ (let at_close = ap (λ (c : ℕ). (operator c).nud) ((==_iff _ _).0 close) in cc)
]

leaf-close :
    {lib : Platform} {size : ℕ} {t : Lexeme} {e : Node}
    → Leaf lib size t e
    → (t.type == b')') ≡ false
leaf-close (Grammar.name s) = refl
leaf-close (Grammar.integer s) = refl
leaf-close (Grammar.number s) = refl
leaf-close (Grammar.text s) = refl
leaf-close (Grammar.true_word s) = refl
leaf-close (Grammar.false_word s) = refl
leaf-close (Grammar.undefined s) = refl
leaf-close (Grammar.null s) = refl
leaf-close (Grammar.self s) = refl

front-close :
    {lib : Platform} {size q : ℕ} {t : Lexeme} {ts : List Lexeme} {e : Node}
    → Front lib size q t ts e
    → (t.type == b')') ≡ false
front-close (Grammar.leaf l) = leaf-close l
front-close (Grammar.unary {t = t} nud other le d) = unary-close t.type nud
front-close (Grammar.group s s' d) = refl
front-close (Grammar.vector s s' s'' s''' x y z) = refl
front-close (Grammar.array s s') = refl
front-close (Grammar.struct s s') = refl
front-close (Grammar.pointer s s' s'' s''' d) = refl
front-close (Grammar.function s s') = refl
front-close (Grammar.localized s s') = refl

pub expr-close :
    {lib : Platform} {size m q : ℕ} {ts : List Lexeme} {e : Node}
    → Expr lib size m q ts e
    → (rest : List Lexeme) → ((head (ts ++ rest)).type == b')') ≡ false
expr-close (Grammar.front f) rest = front-close f
expr-close (Grammar.back {t = t} {ts = ts} {ts' = ts'} d above below b) rest =
    rw (append_assoc ts (t ∷ ts') rest) (expr-close d (t ∷ (ts' ++ rest)))

pub expr-head :
    {lib : Platform} {size m q : ℕ} {ts : List Lexeme} {e : Node}
    → Expr lib size m q ts e
    → (rest : List Lexeme) → head (ts ++ rest) ≡ head ts
expr-head (Grammar.front f) rest = refl
expr-head (Grammar.back {t = t} {ts = ts} {ts' = ts'} d above below b) rest =
    ap head (append_assoc ts (t ∷ ts') rest)
    ∙ expr-head d (t ∷ (ts' ++ rest))
    ∙ sym (expr-head d (t ∷ ts'))
