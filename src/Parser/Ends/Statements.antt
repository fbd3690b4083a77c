-- ===== src/Parser/Ends/Statements.antt =====
-- parse.c: the tokens that `statement` leaves.
use gsc.Base.{ℕ, zero, suc, ◌≤◌, ◌<◌, ◌||◌, false, ◌≡◌, refl, arith, ◌==◌}
use gsc.Platform.{Platform}
use gsc.Token.{tk_for, tk_while, tk_if, tk_return, tk_switch, tk_default, tk_case, tk_wait}
use gsc.Compiler.Syntax.{Node, end}
use gsc.Parser.{Parse, ◌>>◌, advance}
use gsc.Parser.Expression.{expression}
use gsc.Parser.Statement.{
  unless, block_body, block, while_statement, for_statement, wait_statement, return_statement,
  else_branch, if_statement, case_label, consequents, cases, switch_statement, expression_statement,
  dispatch_statement, statement,
}
use gsc.Parser.Ends.{
  Keeps, Takes, keeps, Takes-Keeps, Takes-mono, Takes-first, Takes-then, Takes-if, Takes-shorter,
  Takes-advance, Keeps-bind, Keeps-if, Keeps-pure, Keeps-token_type,
}
use gsc.Parser.Ends.Expressions.{parse_expression-Takes}

pub expression-Takes : (lib : Platform) (fuel n : ℕ) → n < fuel → Takes n (expression lib fuel)
unfolding expression
expression-Takes lib fuel n enough = parse_expression-Takes lib fuel n 0 enough

-- The loops over statements.
block_body-Keeps :
    (expr stmt : Parse Node) (n fuel : ℕ)
    → Takes n stmt
    → n < fuel
    → Keeps n (block_body expr stmt fuel)
unfolding block_body
block_body-Keeps expr stmt n zero ready enough = absurd (omega arith)
block_body-Keeps expr stmt n (suc fuel) ready enough = Keeps-bind Keeps-token_type λ t.
    Keeps-if (t == b'}') (Keeps-pure end) (
      Takes-Keeps (
        Takes-shorter ready λ s k less.
          let rest =
            block_body-Keeps expr stmt k fuel (Takes-mono k (omega arith) ready) (omega arith) in
          search keeps))

consequents-Keeps :
    (expr stmt : Parse Node) (n fuel : ℕ)
    → Takes n stmt
    → n < fuel
    → Keeps n (consequents expr stmt fuel)
unfolding consequents
consequents-Keeps expr stmt n zero ready enough = absurd (omega arith)
consequents-Keeps expr stmt n (suc fuel) ready enough = Keeps-bind Keeps-token_type λ t.
    Keeps-if (t == tk_default || t == tk_case || t == b'}') (Keeps-pure end) (
      Takes-Keeps (
        Takes-shorter ready λ s k less.
          let rest =
            consequents-Keeps expr stmt k fuel (Takes-mono k (omega arith) ready) (omega arith) in
          search keeps))

case_label-Takes : (expr stmt : Parse Node) (n : ℕ) → Takes n expr → Takes n (case_label expr stmt)
unfolding case_label
case_label-Takes expr stmt n ready = search (keeps, Takes-first, Takes-then, Takes-if) depth 8

-- A case takes its label.
cases-Keeps :
    (expr stmt : Parse Node) (n fuel : ℕ)
    → Takes n expr
    → Takes n stmt
    → n < fuel
    → Keeps n (cases expr stmt fuel)
unfolding cases
cases-Keeps expr stmt n zero ready ready' enough = absurd (omega arith)
cases-Keeps expr stmt n (suc fuel) ready ready' enough = Keeps-bind Keeps-token_type λ t.
    Keeps-if (t == b'}') (Keeps-pure end) (
      Takes-Keeps (
        Takes-shorter (case_label-Takes expr stmt n ready) λ label k less.
          let e = Takes-mono k (omega arith) ready in
          let s = Takes-mono k (omega arith) ready' in
          let these = consequents-Keeps expr stmt k fuel s (omega arith) in
          let rest = cases-Keeps expr stmt k fuel e s (omega arith) in search keeps depth 8))

module _ (expr stmt : Parse Node) (n : ℕ) (ready : Takes n expr) (ready' : Takes n stmt) where
  unless-Keeps : (type : ℕ) → Keeps n (unless expr stmt type)
  unfolding unless
  unless-Keeps type = search keeps depth 8

  else_branch-Keeps : Keeps n (else_branch expr stmt)
  unfolding else_branch
  else_branch-Keeps = search keeps depth 8

  pub block-Keeps : (fuel : ℕ) → n < fuel → Keeps n (block expr stmt fuel)
  unfolding block
  block-Keeps fuel enough =
      let body = block_body-Keeps expr stmt n fuel ready' enough in search keeps depth 8

-- A statement is parsed with the fuel of its parts, which have less input.
module _ (expr stmt : Parse Node) (n fuel : ℕ) (ready : Takes n expr)
    (ready' : (k : ℕ) → k < n → Takes k stmt) (enough : n ≤ fuel) where
  -- What stands behind the first token.
  behind :
      {m : Parse Node} (type : ℕ)
      → (0 == type) ≡ false
      → ((k : ℕ) → k < fuel → Takes k expr → Takes k stmt → Keeps k m)
      → Takes n (advance type >> m)
  behind type nonzero rest =
      Takes-shorter (Takes-advance type nonzero)
        λ _ k less. rest k (omega arith) (Takes-mono k (omega arith) ready) (ready' k less)

  if_statement-Takes : Takes n (if_statement expr stmt)
  unfolding if_statement
  if_statement-Takes =
      behind tk_if refl
        λ k lt e s. let rest = else_branch-Keeps expr stmt k e s in search keeps depth 16

  while_statement-Takes : Takes n (while_statement expr stmt)
  unfolding while_statement
  while_statement-Takes = behind tk_while refl λ k lt e s. search keeps depth 12

  for_statement-Takes : Takes n (for_statement expr stmt)
  unfolding for_statement
  for_statement-Takes =
      behind tk_for refl λ k lt e s. search (keeps, unless-Keeps expr stmt k e s) depth 20

  wait_statement-Takes : Takes n (wait_statement expr stmt)
  unfolding wait_statement
  wait_statement-Takes = behind tk_wait refl λ k lt e s. search keeps depth 12

  return_statement-Takes : Takes n (return_statement expr stmt)
  unfolding return_statement
  return_statement-Takes =
      behind tk_return refl λ k lt e s. search (keeps, unless-Keeps expr stmt k e s) depth 12

  expression_statement-Takes : Takes n (expression_statement expr stmt)
  unfolding expression_statement
  expression_statement-Takes = Takes-first ready λ e. search keeps depth 8

  switch_statement-Takes : Takes n (switch_statement expr stmt fuel)
  unfolding switch_statement
  switch_statement-Takes =
      behind tk_switch refl
        λ k lt e s. let body = cases-Keeps expr stmt k fuel e s lt in search keeps depth 16

  block_statement-Takes : Takes n (advance b'{' >> block expr stmt fuel)
  block_statement-Takes = behind b'{' refl λ k lt e s. block-Keeps expr stmt k e s fuel lt

  dispatch_statement-Takes : (t : ℕ) → Takes n (dispatch_statement expr stmt fuel t)
  unfolding dispatch_statement
  dispatch_statement-Takes t =
      search
        (
          Takes-if, block_statement-Takes, Takes-first, keeps, while_statement-Takes,
          for_statement-Takes, wait_statement-Takes, return_statement-Takes, if_statement-Takes,
          switch_statement-Takes, expression_statement-Takes,
        )
        depth 20

-- `statement` returns or ends in an error where the fuel is more than the tokens that are left, and it
-- takes one of them at least.
pub statement-Takes : (lib : Platform) (fuel n : ℕ) → n < fuel → Takes n (statement lib fuel)
unfolding statement
statement-Takes lib zero n enough = absurd (omega arith)
statement-Takes lib (suc fuel) n enough = Takes-then Keeps-token_type λ t.
    dispatch_statement-Takes (expression lib (suc fuel)) (statement lib fuel) n fuel
      (expression-Takes lib (suc fuel) n enough)
      (λ k less. statement-Takes lib fuel k (omega arith)) (omega arith) t
