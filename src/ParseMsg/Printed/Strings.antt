-- ===== src/ParseMsg/Printed/Strings.antt =====
-- The strings at the places where the parser finds the parameters.
use ya_ircd.Prelude.{
  ℕ, ◌+◌, ◌≡◌, refl, sym, ap, ap₂, ◌∙◌, arith, List, map, [], ◌∷◌, ◌++◌, Option, none, some, length,
  length-append, append_assoc,
}
use ya_ircd.ParseMsg.Printed.{
  outer, inner, NoSpace, NoNul, AreMiddle, IsTrailing, string_at, all_params, positions,
}
use ya_ircd.ParseMsg.Printed.Skip.{string_at-behind}

pub NoSpace-NoNul : (w : List ℕ) → NoSpace w → NoNul w
NoSpace-NoNul [] v = tt
NoSpace-NoNul (c ∷ w) v = (v.0, NoSpace-NoNul w v.2)

all_params-more :
    (p : List ℕ) (ps : List (List ℕ)) (t : Option (List ℕ))
    → p ∷ all_params ps t ≡ all_params (p ∷ ps) t
all_params-more p ps none = refl
all_params-more p ps (some t) = refl

IsTrailing-NoNul : (t : List ℕ) → IsTrailing (some t) → NoNul t
IsTrailing-NoNul [] v = tt
IsTrailing-NoNul (c ∷ t) v = v.1

pub first_word :
    (pre w : List ℕ) (ps : List (List ℕ)) (t : Option (List ℕ)) (post : List ℕ)
    → NoSpace w
    → string_at (pre ++ ((w ++ outer 0 ps t) ++ (0 ∷ post))) (length pre) ≡ w
first_word pre w [] none post v =
    ap (λ l. string_at (pre ++ l) (length pre)) (append_assoc w [] (0 ∷ post))
    ∙ string_at-behind pre w post (NoSpace-NoNul w v)
first_word pre w [] (some t) post v =
    ap (λ l. string_at (pre ++ l) (length pre)) (append_assoc w (0 ∷ b':' ∷ t) (0 ∷ post))
    ∙ string_at-behind pre w (b':' ∷ (t ++ (0 ∷ post))) (NoSpace-NoNul w v)
first_word pre w (q ∷ ps) t post v =
    ap (λ l. string_at (pre ++ l) (length pre))
      (append_assoc w (0 ∷ (q ++ outer 0 ps t)) (0 ∷ post))
    ∙ string_at-behind pre w ((q ++ outer 0 ps t) ++ (0 ∷ post)) (NoSpace-NoNul w v)

-- Behind a word, when more follows.
pub other_words :
    (pre w : List ℕ) (ps : List (List ℕ)) (t : Option (List ℕ)) (post : List ℕ)
    → outer 0 ps t ≡ 0 ∷ inner 0 ps t
    → ((pre' : List ℕ)
        → map (string_at (pre' ++ (inner 0 ps t ++ (0 ∷ post)))) (positions (length pre') ps t)
          ≡ all_params ps t)
    → map
        (string_at (pre ++ ((w ++ outer 0 ps t) ++ (0 ∷ post))))
        (positions (length pre + length w + 1) ps t)
      ≡ all_params ps t
other_words pre w ps t post e ih =
    let pre' = pre ++ (w ++ (0 ∷ [])) in
    let end = 0 ∷ post in
    let regroup : pre ++ ((w ++ outer 0 ps t) ++ end) ≡ pre' ++ (inner 0 ps t ++ end) =
      ap (λ l. pre ++ ((w ++ l) ++ end)) e
      ∙ ap (λ l. pre ++ l)
          (append_assoc w (0 ∷ inner 0 ps t) end
            ∙ sym (append_assoc w (0 ∷ []) (inner 0 ps t ++ end)))
      ∙ sym (append_assoc pre (w ++ (0 ∷ [])) (inner 0 ps t ++ end)) in
    let place : length pre + length w + 1 ≡ length pre' =
      omega (arith, length-append pre (w ++ (0 ∷ [])), length-append w (0 ∷ [])) in
    ap₂ (λ b i. map (string_at b) (positions i ps t)) regroup place ∙ ih pre'

-- The strings at the positions.
pub positions-all_params :
    (ps : List (List ℕ)) (t : Option (List ℕ)) (pre post : List ℕ)
    → AreMiddle ps
    → IsTrailing t
    → map (string_at (pre ++ (inner 0 ps t ++ (0 ∷ post)))) (positions (length pre) ps t)
      ≡ all_params ps t
positions-all_params [] none pre post v u = refl
positions-all_params [] (some t) pre post v u =
    ap₂ (λ b i. string_at b i ∷ []) (sym (append_assoc pre (b':' ∷ []) (t ++ (0 ∷ post))))
      (sym (length-append pre (b':' ∷ [])))
    ∙ ap (λ s. s ∷ []) (string_at-behind (pre ++ (b':' ∷ [])) t post (IsTrailing-NoNul t u))
positions-all_params ([] ∷ ps) t pre post v u = absurd v.0
positions-all_params ((c ∷ w) ∷ []) none pre post v u =
    ap (λ s. s ∷ []) (first_word pre (c ∷ w) [] none post v.0.1)
positions-all_params ((c ∷ w) ∷ []) (some t) pre post v u =
    ap₂ (λ s l. s ∷ l) (first_word pre (c ∷ w) [] (some t) post v.0.1)
      (other_words pre (c ∷ w) [] (some t) post refl
        (λ pre'. positions-all_params [] (some t) pre' post tt u))
positions-all_params ((c ∷ w) ∷ (q ∷ ps)) t pre post v u =
    ap₂ (λ s l. s ∷ l) (first_word pre (c ∷ w) (q ∷ ps) t post v.0.1)
      (other_words pre (c ∷ w) (q ∷ ps) t post refl
        (λ pre'. positions-all_params (q ∷ ps) t pre' post v.1 u))
    ∙ all_params-more (c ∷ w) (q ∷ ps) t
