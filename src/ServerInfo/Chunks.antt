-- ===== src/ServerInfo/Chunks.antt =====
-- What `fgets` makes of a file whose lines are short.
use ya_ircd.Prelude.{
  ℕ, zero, suc, ◌≤◌, ◌<◌, ◌≡◌, ◌≢◌, refl, sym, ap, ap₂, ◌∙◌, inl, inr, arith, false, List, [], ◌∷◌,
  ◌++◌, map, ◌==◌, length, length-append, Bool-cases,
}
use ya_ircd.ReadMsgs.Lines.{lines, NoNewline, lines-line, lines-rest}
use ya_ircd.ServerInfo.{fgets, string_in, drop_end, trimmed, max_motd_line_length}

-- The entries, with so many rounds.
abbrev pub chunks : ℕ → List ℕ → List (List ℕ)
chunks zero file = []
chunks (suc n) [] = []
chunks (suc n) (c ∷ file) =
    trimmed (fgets max_motd_line_length (c ∷ file)).0
    ∷ chunks n (fgets max_motd_line_length (c ∷ file)).1

pub length-fgets : (n c : ℕ) (file : List ℕ) → length (fgets (suc n) (c ∷ file)).1 ≤ length file
unfolding fgets
length-fgets n c file = elim (Bool-cases (c == b'\n')) [
  | inl end ↦ rw (fgets, end) (omega arith)
  | inr more ↦ rw (fgets, more) (rest_in n file)
]
  where
    rest_in : (n : ℕ) (file : List ℕ) → length (fgets n file).1 ≤ length file
    rest_in zero file = omega arith
    rest_in (suc n) [] = omega arith
    rest_in (suc n) (c ∷ file) = elim (Bool-cases (c == b'\n')) [
      | inl end ↦ rw (fgets, end) (omega arith)
      | inr more ↦ rw (fgets, more) (omega (arith, rest_in n file))
    ]

-- A character of a line of the file: neither the end of the line nor `'\0'`.
abbrev pub IsLine : List ℕ → Type 0
IsLine [] = Unit
IsLine (c ∷ cs) = (c ≢ b'\n') × (c ≢ 0) × IsLine cs

-- The first line of a file, or all of it.
pub data Split (file : List ℕ) : Type 0 where
  last : NoNewline file → Split file
  first : (l rest : List ℕ) → file ≡ l ++ (b'\n' ∷ rest) → NoNewline l → Split file

pub split : (file : List ℕ) → Split file
split [] = Split.last tt
split (c ∷ file) = elim (Bool-cases (c == b'\n')) [
  | inl end ↦
      let newline : c ≡ b'\n' = ground arith in Split.first [] file (ap (λ d. d ∷ file) newline) tt
  | inr more ↦
      let other : c ≢ b'\n' = λ e. ground arith in
      elim (split file) [
        | last v ↦ Split.last (other, v)
        | first l rest e v ↦ Split.first (c ∷ l) rest (ap (λ t. c ∷ t) e) (other, v)
      ]
]

fgets-line :
    (n : ℕ) (l rest : List ℕ)
    → NoNewline l
    → length l < n
    → fgets n (l ++ (b'\n' ∷ rest)) ≡ (l ++ (b'\n' ∷ []), rest)
unfolding fgets
fgets-line zero l rest v h = absurd (omega arith)
fgets-line (suc n) [] rest v h = refl
fgets-line (suc n) (c ∷ l) rest v h =
    let other : (c == b'\n') ≡ false = ground (arith, v.0) in
    rw (fgets, other, fgets-line n l rest v.1 (omega (arith, h))) refl

fgets-all : (n : ℕ) (l : List ℕ) → NoNewline l → length l ≤ n → fgets n l ≡ (l, [])
unfolding fgets
fgets-all zero [] v h = refl
fgets-all zero (c ∷ l) v h = absurd (omega arith)
fgets-all (suc n) [] v h = refl
fgets-all (suc n) (c ∷ l) v h =
    let other : (c == b'\n') ≡ false = ground (arith, v.0) in
    rw (fgets, other, fgets-all n l v.1 (omega (arith, h))) refl

string_in-IsLine : (l : List ℕ) → IsLine l → string_in l ≡ l
unfolding string_in
string_in-IsLine [] v = refl
string_in-IsLine (c ∷ l) v =
    let other : (c == 0) ≡ false = ground (arith, v.1) in
    rw (string_in, other) (ap (λ t. c ∷ t) (string_in-IsLine l v.2))

string_in-ended : (l : List ℕ) → IsLine l → string_in (l ++ (b'\n' ∷ [])) ≡ l ++ (b'\n' ∷ [])
unfolding string_in
string_in-ended [] v = refl
string_in-ended (c ∷ l) v =
    let other : (c == 0) ≡ false = ground (arith, v.1) in
    rw (string_in, other) (ap (λ t. c ∷ t) (string_in-ended l v.2))

drop_end-other : (l : List ℕ) → IsLine l → drop_end b'\n' l ≡ l
unfolding drop_end
drop_end-other [] v = refl
drop_end-other (c ∷ []) v =
    let other : (c == b'\n') ≡ false = ground (arith, v.0) in rw (drop_end, other) refl
drop_end-other (c ∷ d ∷ l) v = ap (λ t. c ∷ t) (drop_end-other (d ∷ l) v.2)

drop_end-ended : (l : List ℕ) → drop_end b'\n' (l ++ (b'\n' ∷ [])) ≡ l
unfolding drop_end
drop_end-ended [] = refl
drop_end-ended (c ∷ []) = refl
drop_end-ended (c ∷ d ∷ l) = ap (λ t. c ∷ t) (drop_end-ended (d ∷ l))

-- The lines of a file, complete and last: the entries of the message, without `'\r'` at their ends.
abbrev with_last : List (List ℕ) × List ℕ → List (List ℕ)
with_last (ls, []) = ls
with_last (ls, c ∷ cs) = ls ++ ((c ∷ cs) ∷ [])

abbrev pub file_lines : List ℕ → List (List ℕ)
file_lines file = with_last (lines file)

-- Every line fits in the buffer with its end.
abbrev pub AreShort : List (List ℕ) → Type 0
AreShort [] = Unit
AreShort (l ∷ ls) = IsLine l × (length l < max_motd_line_length) × AreShort ls

with_last_cons :
    (l : List ℕ) (ls : List (List ℕ)) (rest : List ℕ)
    → with_last (l ∷ ls, rest) ≡ l ∷ with_last (ls, rest)
with_last_cons l ls [] = refl
with_last_cons l ls (c ∷ cs) = refl

file_lines-first :
    (l rest : List ℕ) → NoNewline l → file_lines (l ++ (b'\n' ∷ rest)) ≡ l ∷ file_lines rest
file_lines-first l rest v =
    ap with_last (lines-line l rest v) ∙ with_last_cons l (lines rest).0 (lines rest).1

chunks-nil : (n : ℕ) → chunks n [] ≡ []
chunks-nil zero = refl
chunks-nil (suc n) = refl

-- The rounds of `fgets` give the lines of a file.
pub chunks-file_lines :
    (n : ℕ) (file : List ℕ)
    → length file ≤ n
    → AreShort (file_lines file)
    → chunks n file ≡ map (drop_end b'\r') (file_lines file)
unfolding lines
chunks-file_lines n [] h v = chunks-nil n
chunks-file_lines zero (c ∷ file) h v = absurd (omega arith)
chunks-file_lines (suc n) (c ∷ file) h v = elim (split (c ∷ file)) [
  | last alone ↦
      let whole : file_lines (c ∷ file) ≡ (c ∷ file) ∷ [] =
        ap with_last (lines-rest (c ∷ file) alone) in
      let v1 : AreShort ((c ∷ file) ∷ []) = rw whole at v in
      let read = fgets-all max_motd_line_length (c ∷ file) alone (omega (arith, v1.1)) in
      let text : trimmed (c ∷ file) ≡ drop_end b'\r' (c ∷ file) =
        ap (λ t. drop_end b'\r' (drop_end b'\n' t)) (string_in-IsLine (c ∷ file) v1.0)
        ∙ ap (drop_end b'\r') (drop_end-other (c ∷ file) v1.0) in
      ap (λ p. trimmed p.0 ∷ chunks n p.1) read
      ∙ ap₂ ◌∷◌ text (chunks-nil n)
      ∙ sym (ap (map (drop_end b'\r')) whole)
  | first l rest e alone ↦
      let whole : file_lines (c ∷ file) ≡ l ∷ file_lines rest =
        ap file_lines e ∙ file_lines-first l rest alone in
      let v1 : AreShort (l ∷ file_lines rest) = rw whole at v in
      let read : fgets max_motd_line_length (c ∷ file) ≡ (l ++ (b'\n' ∷ []), rest) =
        ap (fgets max_motd_line_length) e ∙ fgets-line max_motd_line_length l rest alone v1.1 in
      let text : trimmed (l ++ (b'\n' ∷ [])) ≡ drop_end b'\r' l =
        ap (λ t. drop_end b'\r' (drop_end b'\n' t)) (string_in-ended l v1.0)
        ∙ ap (drop_end b'\r') (drop_end-ended l) in
      let shorter : length rest ≤ n =
        omega (arith, h, ap length e, length-append l (b'\n' ∷ rest)) in
      ap (λ p. trimmed p.0 ∷ chunks n p.1) read
      ∙ ap₂ ◌∷◌ text (chunks-file_lines n rest shorter v1.2)
      ∙ sym (ap (map (drop_end b'\r')) whole)
]
