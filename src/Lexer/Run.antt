-- ===== src/Lexer/Run.antt =====
-- The run of characters that `lexer_parse_characters` takes.
use gsc.Base.{
  ℕ, zero, suc, ◌+◌, ◌<◌, true, false, List, [], ◌∷◌, ◌++◌, ◌≡◌, ◌≢◌, refl, ap, ◌∙◌, arith, ◌==◌,
  if◌then◌else◌, length, drop, length-append, length-drop,
}
use gsc.Stream.{StreamBuffer, Read, beg}
use gsc.Stream
use gsc.Lexer.{Token, Lexer, tell, lexer_advance, lexer_unget}
use gsc.Lexer.Char.{Condition}
use gsc.Lexer.Scan.{enough, fnv_step, fnv_offset, Run, run_characters, lexer_parse_characters}

-- The bytes that are left to read, of a stream that holds its whole buffer.
pub record IsAt (l : Lexer) (rest : List ℕ) : Type 0 where
  pub left : drop l.stream.offset l.stream.buffer ≡ rest
  pub whole : l.stream.length ≡ length l.stream.buffer

-- The lexer `n` bytes further on.
abbrev pub move : Lexer → ℕ → Lexer
move l n = record l { stream = record l.stream { offset = tell l + n } }

drop-suc : (o : ℕ) (xs rest : List ℕ) (c : ℕ) → drop o xs ≡ c ∷ rest → drop (o + 1) xs ≡ rest
drop-suc zero [] rest c e = cc
drop-suc zero (x ∷ xs) rest c e = cc
drop-suc (suc o) [] rest c e = cc
drop-suc (suc o) (x ∷ xs) rest c e =
    let same : suc o + 1 ≡ suc (o + 1) = omega arith in rw same (drop-suc o xs rest c e)

drop-lt : (o : ℕ) (xs rest : List ℕ) (c : ℕ) → drop o xs ≡ c ∷ rest → o < length xs
drop-lt o xs rest c e = ground (arith, length-drop o xs, ap length e)

module _ (l : Lexer) (c : ℕ) (rest : List ℕ) (here : IsAt l (c ∷ rest)) where
  pub IsAt-lt : tell l < l.stream.length
  IsAt-lt = omega (arith, here.whole, drop-lt (tell l) l.stream.buffer rest c here.left)

  IsAt-move : IsAt (move l 1) rest
  IsAt-move = record {
    left = drop-suc (tell l) l.stream.buffer rest c here.left;
    whole = here.whole;
  }

  pub advance_lem : lexer_advance l ≡ (c, move l 1)
  unfolding lexer_advance Stream.advance Stream.read
  advance_lem = rw (here.left) (ground (arith, IsAt-lt))

  unget-move : lexer_unget (move l 1) ≡ l
  unfolding lexer_unget Stream.seek
  unget-move = ground (arith, IsAt-lt)

pub IsAt-moves :
    (run : List ℕ) (l : Lexer) (rest : List ℕ)
    → IsAt l (run ++ rest)
    → IsAt (move l (length run)) rest
IsAt-moves [] l rest here = let same : tell l + 0 ≡ tell l = omega arith in rw same here
IsAt-moves (c ∷ run) l rest here =
    let same : tell l + 1 + length run ≡ tell l + suc (length run) = omega arith in
    rw same at (IsAt-moves run (move l 1) rest (IsAt-move l c (run ++ rest) here))

-- The type after a run, and whether each of its characters continues it.
abbrev pub settle : Condition → ℕ → List ℕ → ℕ
settle cond type [] = type
settle cond type (c ∷ cs) = settle cond (cond type c).1 cs

abbrev pub IsRun : Condition → ℕ → List ℕ → Type 0
IsRun cond type [] = Unit
IsRun cond type (c ∷ cs) = (c ≢ 0) × ((cond type c).0 ≡ false) × IsRun cond (cond type c).1 cs

-- The FNV-1a hash of bytes, from a hash on.
abbrev pub fnv : ℕ → List ℕ → ℕ
fnv hash [] = hash
fnv hash (c ∷ cs) = fnv (fnv_step hash c) cs

-- What the loop has after a run.
abbrev pub after : Condition → Run → List ℕ → ℕ → Run
after cond r run stop = record {
  lexer = move r.lexer (length run);
  type = (cond (settle cond r.type run) stop).1;
  hash = fnv r.hash run;
  n = r.n + length run;
}

-- One round of the loop, with what it reads.
abbrev pub round : Condition → ℕ → Run → ℕ × Lexer → Run
round cond fuel r (ch, l) =
    if ch == 0
    then record r { lexer = l }
    else if (cond r.type ch).0
    then record r { lexer = lexer_unget l; type = (cond r.type ch).1 }
    else run_characters cond fuel
        (record { lexer = l; type = (cond r.type ch).1; hash = fnv_step r.hash ch; n = r.n + 1 })

pub run_characters-round :
    (cond : Condition) (fuel : ℕ) (r : Run)
    → run_characters cond (suc fuel) r ≡ round cond fuel r (lexer_advance r.lexer)
unfolding run_characters
run_characters-round cond fuel r = refl

run_characters-stop :
    (cond : Condition) (fuel : ℕ) (r : Run) (stop : ℕ) (rest : List ℕ)
    → IsAt r.lexer (stop ∷ rest)
    → stop ≢ 0
    → (cond r.type stop).0 ≡ true
    → run_characters cond (suc fuel) r ≡ after cond r [] stop
run_characters-stop cond fuel r stop rest here nonzero stops =
    run_characters-round cond fuel r
    ∙ ap (round cond fuel r) (advance_lem r.lexer stop rest here)
    ∙ rw (unget-move r.lexer stop rest here) (ground arith)

run_characters-step :
    (cond : Condition) (fuel : ℕ) (r : Run) (c : ℕ) (rest : List ℕ)
    → IsAt r.lexer (c ∷ rest)
    → c ≢ 0
    → (cond r.type c).0 ≡ false
    → run_characters cond (suc fuel) r
      ≡ run_characters cond fuel (record {
        lexer = move r.lexer 1;
        type = (cond r.type c).1;
        hash = fnv_step r.hash c;
        n = r.n + 1;
      })
run_characters-step cond fuel r c rest here nonzero goes =
    run_characters-round cond fuel r
    ∙ ap (round cond fuel r) (advance_lem r.lexer c rest here)
    ∙ ground arith

run_characters_lem :
    (cond : Condition) (run : List ℕ) (fuel : ℕ) (r : Run) (stop : ℕ) (rest : List ℕ)
    → IsAt r.lexer (run ++ (stop ∷ rest))
    → length run < fuel
    → IsRun cond r.type run
    → stop ≢ 0
    → (cond (settle cond r.type run) stop).0 ≡ true
    → run_characters cond fuel r ≡ after cond r run stop
run_characters_lem cond run zero r stop rest here few goes nonzero stops = absurd (omega arith)
run_characters_lem cond [] (suc fuel) r stop rest here few goes nonzero stops =
    run_characters-stop cond fuel r stop rest here nonzero stops
run_characters_lem cond (c ∷ run) (suc fuel) r stop rest here few (c_nonzero, continues, goes)
      nonzero stops =
    let next : Run = record {
      lexer = move r.lexer 1;
      type = (cond r.type c).1;
      hash = fnv_step r.hash c;
      n = r.n + 1;
    } in
    let there = IsAt-move r.lexer c (run ++ (stop ∷ rest)) here in
    run_characters-step cond fuel r c (run ++ (stop ∷ rest)) here c_nonzero continues
    ∙ run_characters_lem cond run fuel next stop rest there (omega arith) goes nonzero stops
    ∙ regroup
  where
    regroup :
        after cond
          (record {
            lexer = move r.lexer 1;
            type = (cond r.type c).1;
            hash = fnv_step r.hash c;
            n = r.n + 1;
          })
          run
          stop
        ≡ after cond r (c ∷ run) stop
    regroup = ground arith

-- `lexer_parse_characters` takes the longest run of characters that its condition continues, and
-- leaves the character that stops it: the token starts at the offset of the first, is as long as the
-- run, and has the type that the condition settles on; the hash is the FNV-1a hash of the run. The
-- stream holds its whole buffer, and what is left of it is the run and a character that is not 0.
pub lexer_parse_characters_lem :
    (cond : Condition) (run : List ℕ) (l : Lexer) (t : Token) (type stop : ℕ) (rest : List ℕ)
    → IsAt l (run ++ (stop ∷ rest))
    → IsRun cond type run
    → stop ≢ 0
    → (cond (settle cond type run) stop).0 ≡ true
    → lexer_parse_characters l t type cond ≡ (
      fnv fnv_offset run,
      record t {
        type = (cond (settle cond type run) stop).1;
        offset = tell l;
        length = length run;
      },
      move l (length run),
    )
unfolding lexer_parse_characters
lexer_parse_characters_lem cond run l t type stop rest here goes nonzero stops =
    let r : Run = record { lexer = l; type = type; hash = fnv_offset; n = 0 } in
    let few : length run < enough l = omega (
      arith,
      here.whole,
      length-drop (tell l) l.stream.buffer,
      ap length here.left,
      length-append run (stop ∷ rest),
    ) in
    let e = run_characters_lem cond run (enough l) r stop rest here few goes nonzero stops in
    let from_zero : 0 + length run ≡ length run = omega arith in
    ap (λ (q : Run). (q.hash, record t { type = q.type; offset = tell l; length = q.n }, q.lexer)) e
    ∙ rw from_zero refl
