-- ===== src/ReadMsgs/Lines.antt =====
-- The specification of the reader: a stream of characters is its complete lines and the rest.
use ya_ircd.Prelude.{ℕ, ◌≡◌, ◌≢◌, refl, ap, ◌∙◌, List, [], ◌∷◌, ◌++◌, ◌==◌, if◌then◌else◌, arith}

-- One more character in front of the complete lines and the rest.
unfoldable pub line_cons : ℕ → List (List ℕ) × List ℕ → List (List ℕ) × List ℕ
line_cons c (ls, rest) =
    if c == b'\n'
    then ([] ∷ ls, rest)
    else elim ls [ [] ↦ ([], c ∷ rest) | l ∷ ls' ↦ ((c ∷ l) ∷ ls', rest) ]

-- The lines that a newline ends, without it, and the characters behind the last newline.
unfoldable pub lines : List ℕ → List (List ℕ) × List ℕ
unfolding line_cons
lines [] = ([], [])
lines (c ∷ cs) = line_cons c (lines cs)

abbrev pub NoNewline : List ℕ → Type 0
NoNewline [] = Unit
NoNewline (c ∷ cs) = (c ≢ b'\n') × NoNewline cs

pub lines-rest : (p : List ℕ) → NoNewline p → lines p ≡ ([], p)
unfolding lines
lines-rest [] v = refl
lines-rest (c ∷ cs) v = ground (arith, lines-rest cs v.1)

pub lines-line :
    (l r : List ℕ) → NoNewline l → lines (l ++ (b'\n' ∷ r)) ≡ (l ∷ (lines r).0, (lines r).1)
unfolding lines
lines-line [] r v = refl
lines-line (c ∷ cs) r v = ground (arith, lines-line cs r v.1)

line_cons-append :
    (c : ℕ) (ls : List (List ℕ)) (rest q : List ℕ)
    → let new = lines (rest ++ q) in
      let old = line_cons c (ls, rest) in
      line_cons c (ls ++ new.0, new.1) ≡ (old.0 ++ (lines (old.1 ++ q)).0, (lines (old.1 ++ q)).1)
unfolding lines
line_cons-append c [] rest q = ground arith
line_cons-append c (l ∷ ls) rest q = ground arith

-- Reading on: the lines of `p` stay, and what was behind them is continued by `q`.
pub lines-append :
    (p q : List ℕ)
    → lines (p ++ q) ≡ ((lines p).0 ++ (lines ((lines p).1 ++ q)).0, (lines ((lines p).1 ++ q)).1)
unfolding lines
lines-append [] q = refl
lines-append (c ∷ cs) q =
    ap (line_cons c) (lines-append cs q) ∙ line_cons-append c (lines cs).0 (lines cs).1 q

rest-line_cons :
    (c : ℕ) (ls : List (List ℕ)) (rest : List ℕ)
    → NoNewline rest
    → NoNewline (line_cons c (ls, rest)).1
unfolding line_cons
rest-line_cons c [] rest v = ground arith
rest-line_cons c (l ∷ ls) rest v = ground arith

pub rest-NoNewline : (p : List ℕ) → NoNewline (lines p).1
unfolding lines
rest-NoNewline [] = tt
rest-NoNewline (c ∷ cs) = rest-line_cons c (lines cs).0 (lines cs).1 (rest-NoNewline cs)
