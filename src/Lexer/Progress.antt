-- ===== src/Lexer/Progress.antt =====
-- lexer.h: the offset behind each case of the `switch` of `lexer_step`.
use mathlib.Core.Path.{subst}
use gsc.Base.{
  ℕ, ◌+◌, ◌<◌, Bool, true, false, List, [], ◌∷◌, ◌≡◌, ◌≢◌, refl, arith, ◌==◌, ◌||◌, if◌then◌else◌,
  sym, Bool-cases, inl, inr,
}
use gsc.Lexer.{Token, Lexer, tell, lexer_advance, lexer_match_char, lexer_unget, lexer_unget_token}
use gsc.Lexer.Char.{
  is_digit, is_letter, cond_numeric, cond_ident, cond_file_ref, cond_whitespace,
  cond_single_line_comment,
}
use gsc.Lexer.Scan.{lexer_parse_string, lexer_parse_characters, lexer_parse_multiline_comment}
use gsc.Lexer.Keywords.{idents, match_hash}
use gsc.Token.{tk_identifier, tk_file_reference, tk_number, tk_integer, tk_whitespace, tk_comment}
use gsc.Lexer.Step.{
  Outcome, found, repeat, match_first, match_shift, step_dot, step_slash, step_space, step_word,
  step_digit, step_char, kept_if, ends, has_flag, flag_whitespace, flag_comments, flag_newlines,
}
use gsc.Lexer.Forward.{
  IsInside, Forward, Forward-trans, Forward-IsInside, Forward-refl, Past, Past-Forward,
  unget-Forward, advance-more, match_char-Forward,
}
use gsc.Lexer.Loops.{
  lexer_parse_characters-Forward, lexer_parse_string-Forward, lexer_parse_multiline_comment-Forward,
}
use gsc.Lexer.Again.{again-Past, again-start}

match_first-Forward :
    (needles : List (ℕ × ℕ)) (l : Lexer) (t : Token)
    → IsInside l
    → Forward l (match_first needles l t).1
unfolding match_first
match_first-Forward [] l t v = Forward-refl l v
match_first-Forward ((needle, type) ∷ rest) l t v =
    let f = match_char-Forward l needle v in
    let others = match_first-Forward rest (lexer_match_char l needle).1 t (Forward-IsInside v f) in
    elim (Bool-cases (lexer_match_char l needle).0) [
      | inl matches ↦ rw matches f
      | inr other ↦ rw other (Forward-trans f others)
    ]

match_shift-Forward :
    (ch shift shift_assign or_equal : ℕ) (l : Lexer) (t : Token)
    → IsInside l
    → Forward l (match_shift ch shift shift_assign or_equal l t).1
unfolding match_shift
match_shift-Forward ch shift shift_assign or_equal l t v =
    let f = match_char-Forward l ch v in
    let l' = (lexer_match_char l ch).1 in
    let v' = Forward-IsInside v f in
    elim (Bool-cases (lexer_match_char l ch).0) [
      | inl doubled ↦ rw doubled (
          Forward-trans f
            (match_first-Forward ((b'=', shift_assign) ∷ []) l' (record t { type = shift }) v'))
      | inr single ↦
          rw single (Forward-trans f (match_first-Forward ((b'=', or_equal) ∷ []) l' t v'))
    ]

-- The lexer behind a token, or behind what is left out.
abbrev pub behind : Outcome → Lexer
behind (found t l) = l
behind (repeat l) = l

pub record Moved (l : Lexer) (o : Outcome) : Type 0 where
  pub moved : Past l (behind o)

-- A case of the `switch`.
either :
    {l : Lexer} {c : Bool} {a b : Outcome}
    → (c ≡ true → Moved l a)
    → (c ≡ false → Moved l b)
    → Moved l (if c then a else b)
either {l} {c} {a} {b} f g = elim (Bool-cases c) [
  | inl holds ↦ rw holds (f holds)
  | inr fails ↦ rw fails (g fails)
]

ends-Moved : {l : Lexer} (x : Token × Lexer) → Past l x.1 → Moved l (ends x)
ends-Moved (t, l') p = record { moved = p }

behind-kept : (l : Lexer) (flag : ℕ) (t' : Token) (l' : Lexer) → behind (kept_if l flag t' l') ≡ l'
behind-kept l flag t' l' = elim (Bool-cases (has_flag l flag)) [
  | inl kept ↦ rw kept refl
  | inr dropped ↦ rw dropped refl
]

same_char : (a b : ℕ) → (a == b) ≡ true → a ≡ b
same_char a b e = ground arith

blank-goes :
    (type ch : ℕ) → (ch == 9 || ch == 32 || ch == 13) ≡ true → (cond_whitespace type ch).0 ≡ false
unfolding cond_whitespace
blank-goes type ch e = ground arith

ident-goes :
    (type ch : ℕ)
    → (is_letter ch || (ch == b'_')) ≡ true
    → ((cond_ident type ch).0 ≡ false) × ((cond_file_ref type ch).0 ≡ false)
unfolding cond_ident cond_file_ref
ident-goes type ch e = (ground arith, ground arith)

-- `l0` stands at the character `ch`, and `l` behind it; one more byte is left.
module _ (l0 l : Lexer) (t : Token) (v : IsInside l0) (past : Past l0 l)
    (more : tell l < l.stream.length) (at : t.offset ≡ tell l0)
    (nonzero : (lexer_advance l0).0 ≢ 0) where
  inside : IsInside l
  inside = Forward-IsInside v past.forward

  step_dot-Past : (lexer_advance l0).0 ≡ b'.' → Past l0 (step_dot l t).1
  unfolding step_dot cond_numeric is_digit
  step_dot-Past e =
      let back = unget-Forward l (lexer_advance l).1 (advance-more l inside more) in
      let plain = Past-Forward past back in
      let number =
        again-Past l0 (lexer_unget (lexer_advance l).1) t t tk_number cond_numeric v plain at
          nonzero (rw e refl) in
      elim (Bool-cases (is_digit (lexer_advance l).0)) [
        | inl digit ↦ rw digit number
        | inr other ↦ rw other plain
      ]

  step_digit-Past : is_digit (lexer_advance l0).0 ≡ true → Past l0 (step_digit l t).1
  unfolding step_digit cond_numeric
  step_digit-Past e = again-Past l0 l t t tk_integer cond_numeric v past at nonzero (rw e refl)

  step_space-Past :
      (cond_whitespace tk_whitespace (lexer_advance l0).0).0 ≡ false
      → Past l0 (behind (step_space l t))
  unfolding step_space
  step_space-Past e =
      let p = again-Past l0 l t t tk_whitespace cond_whitespace v past at nonzero e in
      subst (λ (l' : Lexer). Past l0 l') (sym (behind-kept l flag_whitespace _ _)) p

  step_word-Past :
      (is_letter (lexer_advance l0).0 || ((lexer_advance l0).0 == b'_')) ≡ true
      → Past l0 (step_word l t).1
  unfolding step_word lexer_parse_characters
  step_word-Past e =
      let (ident, file_ref) = ident-goes tk_identifier (lexer_advance l0).0 e in
      let word = lexer_parse_characters (lexer_unget_token l t) t tk_identifier cond_ident in
      let p1 = again-Past l0 l t t tk_identifier cond_ident v past at nonzero ident in
      let v1 = Forward-IsInside v p1.forward in
      let t2 : Token = record word.1 { type = match_hash idents word.0 word.1.type } in
      let p2 = Past-Forward p1 (match_char-Forward word.2 92 v1) in
      let l2 = (lexer_match_char word.2 92).1 in
      let p3 =
        again-Past l0 l2 t2 t2 tk_file_reference cond_file_ref v p2 (again-start l0 l t past at)
          nonzero (ident-goes tk_file_reference (lexer_advance l0).0 e).1 in
      elim (Bool-cases (t2.type == tk_identifier)) [
        | inr keyword ↦ rw keyword p1
        | inl ident' ↦ elim (Bool-cases (lexer_match_char word.2 92).0) [
          | inl slash ↦ rw ident' (rw slash p3)
          | inr plain ↦ rw ident' (rw plain p2)
        ]
      ]

  step_slash-Past : Past l0 (behind (step_slash l t))
  unfolding step_slash
  step_slash-Past =
      let l1 = (lexer_advance l).1 in
      let ch = (lexer_advance l).0 in
      let one = advance-more l inside more in
      let two = Past-Forward past one.forward in
      let v1 = Forward-IsInside inside one.forward in
      let line = lexer_parse_characters l1 t tk_comment cond_single_line_comment in
      let block = lexer_parse_multiline_comment l1 tk_comment t ch in
      let p_line =
        Past-Forward two
          (lexer_parse_characters-Forward l1 t tk_comment cond_single_line_comment v1) in
      let p_block =
        Past-Forward two (lexer_parse_multiline_comment-Forward l1 tk_comment t ch v1) in
      elim (Bool-cases (ch == b'/')) [
        | inl slash ↦
            rw slash (subst (Past l0) (sym (behind-kept l flag_comments line.1 line.2)) p_line)
        | inr other ↦ elim (Bool-cases ((ch == b'*') || (ch == b'#'))) [
          | inl star ↦ rw other (
              rw star (subst (Past l0) (sym (behind-kept l flag_comments block.0 block.1)) p_block))
          | inr third ↦ elim (Bool-cases (ch == b'=')) [
            | inl eq ↦ rw other (rw third (rw eq two))
            | inr fourth ↦
                rw other (rw third (rw fourth (Past-Forward past (unget-Forward l l1 one))))
          ]
        ]
      ]

  firsts-Moved : (needles : List (ℕ × ℕ)) → Moved l0 (ends (match_first needles l t))
  firsts-Moved needles =
      ends-Moved (match_first needles l t)
        (Past-Forward past (match_first-Forward needles l t inside))

  shift-Moved :
      (ch shift shift_assign or_equal : ℕ)
      → Moved l0 (ends (match_shift ch shift shift_assign or_equal l t))
  shift-Moved ch shift shift_assign or_equal =
      ends-Moved (match_shift ch shift shift_assign or_equal l t)
        (Past-Forward past (match_shift-Forward ch shift shift_assign or_equal l t inside))

  newline-Moved : Moved l0 (kept_if l flag_newlines t (record l { line = l.line + 1 }))
  newline-Moved = record {
    moved =
        subst (Past l0) (sym (behind-kept l flag_newlines t (record l { line = l.line + 1 })))
          (record {
            forward = record {
              same_length = past.forward.same_length;
              same_buffer = past.forward.same_buffer;
              ahead = past.forward.ahead;
              within = past.forward.within;
            };
            further = past.further;
          });
  }

  string-Moved : Moved l0 (ends (lexer_parse_string l (record t { offset = tell l })))
  string-Moved =
      let t' : Token = record t { offset = tell l } in
      ends-Moved (lexer_parse_string l t')
        (Past-Forward past (lexer_parse_string-Forward l t' inside))

  word-Moved : Moved l0 (
      if is_letter (lexer_advance l0).0 || ((lexer_advance l0).0 == b'_')
      then ends (step_word l t)
      else found t l)
  word-Moved =
      either (λ e. ends-Moved (step_word l t) (step_word-Past e)) λ e. record { moved = past }

  dot-Moved : ((lexer_advance l0).0 == b'.') ≡ true → Moved l0 (ends (step_dot l t))
  dot-Moved e = ends-Moved (step_dot l t) (step_dot-Past (same_char (lexer_advance l0).0 b'.' e))

  space-Moved :
      ((lexer_advance l0).0 == 9 || (lexer_advance l0).0 == 32 || (lexer_advance l0).0 == 13) ≡ true
      → Moved l0 (step_space l t)
  space-Moved e = record {
    moved = step_space-Past (blank-goes tk_whitespace (lexer_advance l0).0 e);
  }

  slash-Moved : Moved l0 (step_slash l t)
  slash-Moved = record { moved = step_slash-Past }

  digit-Moved : is_digit (lexer_advance l0).0 ≡ true → Moved l0 (ends (step_digit l t))
  digit-Moved e = ends-Moved (step_digit l t) (step_digit-Past e)

  pub step_char-Moved : Moved l0 (step_char (lexer_advance l0).0 l t)
  unfolding step_char
  step_char-Moved =
      search
        (
          either, string-Moved, dot-Moved, firsts-Moved, shift-Moved, space-Moved, newline-Moved,
          slash-Moved, digit-Moved, word-Moved,
        )
        depth 40
