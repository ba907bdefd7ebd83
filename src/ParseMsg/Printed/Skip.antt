-- ===== src/ParseMsg/Printed/Skip.antt =====
-- Where the loops of the parser stop in a text that is known.
use ya_ircd.Prelude.{
  ℕ, zero, suc, ◌+◌, ◌-◌, ◌≤◌, ◌≡◌, refl, sym, ap, ◌∙◌, arith, Bool, true, false, not, ◌&&◌, List,
  [], ◌∷◌, ◌++◌, ◌==◌, length, length-append, append_assoc, get_or, get_or-append_right, set,
  set-append_right,
}
use ya_ircd.ParseMsg.{char_at, skip_while, skip}
use ya_ircd.ParseMsg.Printed.{until_nul, string_at, NoNul}

-- Behind a text.
pub char_at-behind :
    (pre : List ℕ) (c : ℕ) (post : List ℕ) → char_at (pre ++ (c ∷ post)) (length pre) ≡ c
char_at-behind pre c post =
    let place : length pre ≡ length pre + 0 = omega arith in
    ap (λ i. get_or (pre ++ (c ∷ post)) i 0) place ∙ get_or-append_right pre (c ∷ post) 0 0

pub set-behind :
    (pre : List ℕ) (c d : ℕ) (post : List ℕ)
    → set (pre ++ (c ∷ post)) (length pre) d ≡ pre ++ (d ∷ post)
set-behind pre c d post =
    let place : length pre ≡ length pre + 0 = omega arith in
    ap (λ i. set (pre ++ (c ∷ post)) i d) place ∙ set-append_right pre (c ∷ post) 0 d

-- Characters that a loop passes over.
abbrev pub Passed : (ℕ → Bool) → List ℕ → Type 0
Passed p [] = Unit
Passed p (c ∷ cs) = ((not (c == 0) && p c) ≡ true) × Passed p cs

module _ (p : ℕ → Bool) (c : ℕ) (post : List ℕ) (stop : (not (c == 0) && p c) ≡ false) where
  skip_while-run :
      (w pre : List ℕ) (n : ℕ)
      → Passed p w
      → length w + 1 ≤ n
      → skip_while p (pre ++ (w ++ (c ∷ post))) (length pre) n ≡ length pre + length w
  unfolding skip_while
  skip_while-run w pre zero v h = absurd (omega arith)
  skip_while-run [] pre (suc n) v h =
      let here = char_at-behind pre c post in
      let halted : (not (char_at (pre ++ (c ∷ post)) (length pre) == 0)
            && p (char_at (pre ++ (c ∷ post)) (length pre)))
          ≡ false =
        ap (λ d. not (d == 0) && p d) here ∙ stop in
      let zero_more : length pre ≡ length pre + 0 = omega arith in rw (skip_while, halted) zero_more
  skip_while-run (d ∷ w) pre (suc n) v h =
      let buf = pre ++ (d ∷ (w ++ (c ∷ post))) in
      let here = char_at-behind pre d (w ++ (c ∷ post)) in
      let passed : (not (char_at buf (length pre) == 0) && p (char_at buf (length pre))) ≡ true =
        ap (λ e. not (e == 0) && p e) here ∙ v.0 in
      let same : (pre ++ (d ∷ [])) ++ (w ++ (c ∷ post)) ≡ buf =
        append_assoc pre (d ∷ []) (w ++ (c ∷ post)) in
      let longer : length (pre ++ (d ∷ [])) ≡ length pre + 1 = length-append pre (d ∷ []) in
      let ih = skip_while-run w (pre ++ (d ∷ [])) n v.1 (omega (arith, h)) in
      rw (skip_while, passed)
        (ap (λ b. skip_while p b (length pre + 1) n) (sym same)
          ∙ ap (λ i. skip_while p ((pre ++ (d ∷ [])) ++ (w ++ (c ∷ post))) i n) (sym longer)
          ∙ ih
          ∙ omega (arith, longer))

  pub skip-run :
      (w pre : List ℕ)
      → Passed p w
      → skip p (pre ++ (w ++ (c ∷ post))) (length pre) ≡ length pre + length w
  skip-run w pre v =
      skip_while-run w pre (length (pre ++ (w ++ (c ∷ post))) - length pre) v
        (omega (arith, length-append pre (w ++ (c ∷ post)), length-append w (c ∷ post)))

string_at-append :
    (pre : List ℕ) (c : ℕ) (post : List ℕ)
    → string_at (pre ++ (c ∷ post)) (length pre) ≡ until_nul (c ∷ post)
string_at-append [] c post = refl
string_at-append (d ∷ pre) c post = string_at-append pre c post

until_nul-NoNul : (w post : List ℕ) → NoNul w → until_nul (w ++ (0 ∷ post)) ≡ w
until_nul-NoNul [] post v = refl
until_nul-NoNul (c ∷ w) post v =
    let other : (c == 0) ≡ false = ground (arith, v.0) in
    rw other (ap (λ t. c ∷ t) (until_nul-NoNul w post v.1))

-- The string that stands behind a text.
pub string_at-behind :
    (pre w post : List ℕ) → NoNul w → string_at (pre ++ (w ++ (0 ∷ post))) (length pre) ≡ w
string_at-behind pre [] post v = string_at-append pre 0 post
string_at-behind pre (c ∷ w) post v =
    string_at-append pre c (w ++ (0 ∷ post)) ∙ until_nul-NoNul (c ∷ w) post v
