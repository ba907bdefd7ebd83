-- ===== src/ParseMsg/Printed/Command.antt =====
-- A command that is printed is found, with the parameters behind it.
use ya_ircd.Prelude.{
  ℕ, ◌+◌, ◌≤◌, ◌≡◌, ◌⊎◌, inl, inr, refl, sym, ap, ap₂, ◌∙◌, arith, true, false, not, ◌&&◌, ◌||◌,
  List, [], ◌∷◌, ◌++◌, Option, none, some, ◌==◌, length, length-append, append_assoc, set,
}
use ya_ircd.ParseMsg.{
  is_alpha, is_digit, char_at, read_params, command_end, parse_params, max_irc_params,
}
use ya_ircd.ParseMsg.Printed.{
  outer, inner, AreMiddle, IsTrailing, trailing_count, positions, AreLetters, AreThreeDigits,
  IsCommand,
}
use ya_ircd.ParseMsg.Printed.Skip.{char_at-behind, set-behind, Passed, skip-run}
use ya_ircd.ParseMsg.Printed.Params.{read_params_from-printed}

pub char_at-run :
    (pre w : List ℕ) (c : ℕ) (post : List ℕ)
    → char_at (pre ++ (w ++ (c ∷ post))) (length pre + length w) ≡ c
char_at-run pre w c post =
    ap₂ char_at (sym (append_assoc pre w (c ∷ post))) (sym (length-append pre w))
    ∙ char_at-behind (pre ++ w) c post

is_alpha-not_digit : (c : ℕ) → is_alpha c ≡ true → is_digit c ≡ false
is_alpha-not_digit c v = ground (arith, v)

is_alpha-passed : (c : ℕ) → is_alpha c ≡ true → (not (c == 0) && is_alpha c) ≡ true
is_alpha-passed c v = ground (arith, v)

AreLetters-Passed : (w : List ℕ) → AreLetters w → Passed is_alpha w
AreLetters-Passed [] v = tt
AreLetters-Passed (c ∷ w) v = (is_alpha-passed c v.0, AreLetters-Passed w v.1)

-- What ends a word.
abbrev pub IsEnd : ℕ → Type 0
IsEnd d = (d ≡ 0) ⊎ (d ≡ b' ')

IsEnd-stops : (d : ℕ) → IsEnd d → (not (d == 0) && is_alpha d) ≡ false
IsEnd-stops d (inl e) = rw e refl
IsEnd-stops d (inr e) = rw e refl

IsEnd-ends : (d : ℕ) → IsEnd d → (not (d == 0) && not (d == b' ')) ≡ false
IsEnd-ends d (inl e) = rw e refl
IsEnd-ends d (inr e) = rw e refl

IsEnd-behind : (d : ℕ) → IsEnd d → ((d == 0) || (d == b' ')) ≡ true
IsEnd-behind d (inl e) = rw e refl
IsEnd-behind d (inr e) = rw e refl

command_end-letters :
    (pre : List ℕ) (c : ℕ) (w : List ℕ) (d : ℕ) (post : List ℕ)
    → AreLetters (c ∷ w)
    → IsEnd d
    → command_end (pre ++ ((c ∷ w) ++ (d ∷ post))) (length pre) ≡ some (length pre + length (c ∷ w))
unfolding command_end
command_end-letters pre c w d post v e =
    let buf = pre ++ ((c ∷ w) ++ (d ∷ post)) in
    let runs =
      skip-run is_alpha d post (IsEnd-stops d e) (c ∷ w) pre (AreLetters-Passed (c ∷ w) v) in
    let letter : is_digit (char_at buf (length pre)) ≡ false =
      ap is_digit (char_at-behind pre c (w ++ (d ∷ post))) ∙ is_alpha-not_digit c v.0 in
    let ended : (not (char_at buf (length pre + length (c ∷ w)) == 0)
          && not (char_at buf (length pre + length (c ∷ w)) == b' '))
        ≡ false =
      ap (λ d. not (d == 0) && not (d == b' ')) (char_at-run pre (c ∷ w) d post) ∙ IsEnd-ends d e in
    rw (letter, runs, ended) refl

command_end-digits :
    (pre : List ℕ) (c : ℕ) (w : List ℕ) (d : ℕ) (post : List ℕ)
    → AreThreeDigits (c ∷ w)
    → IsEnd d
    → command_end (pre ++ ((c ∷ w) ++ (d ∷ post))) (length pre) ≡ some (length pre + length (c ∷ w))
unfolding command_end
command_end-digits pre c [] d post v e = absurd v
command_end-digits pre c (b ∷ []) d post v e = absurd v
command_end-digits pre c (b ∷ a ∷ []) d post v e =
    let buf = pre ++ (c ∷ b ∷ a ∷ d ∷ post) in
    let one : is_digit (char_at buf (length pre)) ≡ true =
      ap is_digit (char_at-behind pre c (b ∷ a ∷ d ∷ post)) ∙ v.0 in
    let two : is_digit (char_at buf (length pre + 1)) ≡ true =
      ap is_digit (char_at-run pre (c ∷ []) b (a ∷ d ∷ post)) ∙ v.1 in
    let three : is_digit (char_at buf (length pre + 2)) ≡ true =
      ap is_digit (char_at-run pre (c ∷ b ∷ []) a (d ∷ post)) ∙ v.2 in
    let ended : ((char_at buf (length pre + 3) == 0) || (char_at buf (length pre + 3) == b' '))
        ≡ true =
      ap (λ d. (d == 0) || (d == b' ')) (char_at-run pre (c ∷ b ∷ a ∷ []) d post)
      ∙ IsEnd-behind d e in
    rw (one, two, three, ended) refl
command_end-digits pre c (b ∷ a ∷ x ∷ w) d post v e = absurd v

pub command_end-printed :
    (pre w : List ℕ) (d : ℕ) (post : List ℕ)
    → IsCommand w
    → IsEnd d
    → command_end (pre ++ (w ++ (d ∷ post))) (length pre) ≡ some (length pre + length w)
command_end-printed pre [] d post v e = absurd v
command_end-printed pre (c ∷ w) d post (inl v) e = command_end-letters pre c w d post v e
command_end-printed pre (c ∷ w) d post (inr v) e = command_end-digits pre c w d post v e

-- Without parameters, and with some.
module _ (prefix : Option ℕ) (cmd : ℕ) (pre w : List ℕ) where
  parse_params-none :
      (post : List ℕ)
      → parse_params (pre ++ (w ++ (0 ∷ post))) prefix cmd (length pre + length w)
        ≡ (some (record { prefix = prefix; cmd = cmd; params = [] }), pre ++ (w ++ (0 ∷ post)))
  unfolding parse_params
  parse_params-none post =
      let at_end : (char_at (pre ++ (w ++ (0 ∷ post))) (length pre + length w) == 0) ≡ true =
        ap (λ c. c == 0) (char_at-run pre w 0 post) in
      let same : set (pre ++ (w ++ (0 ∷ post))) (length pre + length w) 0
          ≡ pre ++ (w ++ (0 ∷ post)) =
        ap₂ (λ b i. set b i 0) (sym (append_assoc pre w (0 ∷ post))) (sym (length-append pre w))
        ∙ set-behind (pre ++ w) 0 0 post
        ∙ append_assoc pre w (0 ∷ post) in
      rw (at_end, same) refl

  -- The text in front of the parameters, and the text behind it.
  regroup : (l : List ℕ) → pre ++ (w ++ (b' ' ∷ l)) ≡ (pre ++ (w ++ (b' ' ∷ []))) ++ l
  regroup l =
      ap (λ k. pre ++ k) (sym (append_assoc w (b' ' ∷ []) l))
      ∙ sym (append_assoc pre (w ++ (b' ' ∷ [])) l)

  behind_command : length pre + length w + 1 ≡ length (pre ++ (w ++ (b' ' ∷ [])))
  behind_command = omega (arith, length-append pre (w ++ (b' ' ∷ [])), length-append w (b' ' ∷ []))

  cut_command :
      (l : List ℕ)
      → set ((pre ++ (w ++ (b' ' ∷ []))) ++ l) (length pre + length w) 0 ≡ pre ++ (w ++ (0 ∷ l))
  cut_command l =
      ap₂ (λ b i. set b i 0) (sym (regroup l) ∙ sym (append_assoc pre w (b' ' ∷ l)))
        (sym (length-append pre w))
      ∙ set-behind (pre ++ w) b' ' 0 l
      ∙ append_assoc pre w (0 ∷ l)

  module _ (post : List ℕ) (ps : List (List ℕ)) (t : Option (List ℕ)) (v : AreMiddle ps)
      (u : IsTrailing t) (few : length ps + trailing_count t ≤ max_irc_params) where
    read_params-printed :
        read_params
          (pre ++ (w ++ (b' ' ∷ (inner b' ' ps t ++ (0 ∷ post)))))
          (length pre + length w + 1)
        ≡ (
          some (positions (length pre + length w + 1) ps t),
          (pre ++ (w ++ (b' ' ∷ []))) ++ (inner 0 ps t ++ (0 ∷ post)),
        )
    unfolding read_params
    read_params-printed =
        ap₂ read_params (regroup (inner b' ' ps t ++ (0 ∷ post))) behind_command
        ∙ read_params_from-printed ps t (pre ++ (w ++ (b' ' ∷ []))) [] post max_irc_params v u few
        ∙ ap
            (λ i. (
              some (positions i ps t),
              (pre ++ (w ++ (b' ' ∷ []))) ++ (inner 0 ps t ++ (0 ∷ post)),
            ))
            (sym behind_command)

    parse_params-some :
        parse_params
          (pre ++ (w ++ (b' ' ∷ (inner b' ' ps t ++ (0 ∷ post)))))
          prefix
          cmd
          (length pre + length w)
        ≡ (
          some (record {
            prefix = prefix;
            cmd = cmd;
            params = positions (length pre + length w + 1) ps t;
          }),
          pre ++ (w ++ (0 ∷ (inner 0 ps t ++ (0 ∷ post)))),
        )
    unfolding parse_params
    parse_params-some =
        let goes_on : (char_at (pre ++ (w ++ (b' ' ∷ (inner b' ' ps t ++ (0 ∷ post)))))
                (length pre + length w)
              == 0)
            ≡ false =
          ap (λ c. c == 0) (char_at-run pre w b' ' (inner b' ' ps t ++ (0 ∷ post))) in
        let set_end = cut_command (inner 0 ps t ++ (0 ∷ post)) in
        let text : (read_params (pre ++ (w ++ (b' ' ∷ (inner b' ' ps t ++ (0 ∷ post)))))
              (length pre + length w + 1)).1
            ≡ (pre ++ (w ++ (b' ' ∷ []))) ++ (inner 0 ps t ++ (0 ∷ post)) =
          ap (λ r. r.1) read_params-printed in
        rw (goes_on, read_params-printed, text, set_end) refl

  pub parse_params-printed :
      (post : List ℕ) (ps : List (List ℕ)) (t : Option (List ℕ))
      → AreMiddle ps
      → IsTrailing t
      → length ps + trailing_count t ≤ max_irc_params
      → parse_params
          (pre ++ (w ++ (outer b' ' ps t ++ (0 ∷ post))))
          prefix
          cmd
          (length pre + length w)
        ≡ (
          some (record {
            prefix = prefix;
            cmd = cmd;
            params = positions (length pre + length w + 1) ps t;
          }),
          pre ++ (w ++ (outer 0 ps t ++ (0 ∷ post))),
        )
  parse_params-printed post [] none v u few = parse_params-none post
  parse_params-printed post [] (some t) v u few = parse_params-some post [] (some t) v u few
  parse_params-printed post (p ∷ ps) t v u few = parse_params-some post (p ∷ ps) t v u few
