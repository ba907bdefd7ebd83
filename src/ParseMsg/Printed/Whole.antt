-- ===== src/ParseMsg/Printed/Whole.antt =====
-- A message that is printed is parsed into its prefix, its command and its parameters.
use ya_ircd.Prelude.{
  ℕ, ◌+◌, ◌≤◌, ◌≡◌, ◌≢◌, inl, inr, refl, sym, ap, ap₂, ◌∙◌, arith, true, false, List, map, [], ◌∷◌,
  ◌++◌, Option, none, some, ◌==◌, length, length-append, append_assoc, set,
}
use ya_ircd.ParseMsg.{
  is_alpha, is_digit, char_at, skipspaces, skipnonspaces, Parsed, command_end, parse_command,
  parse_msg, max_irc_params,
}
use ya_ircd.ParseMsg.Printed.{
  outer, AreMiddle, IsTrailing, trailing_count, positions, IsCommand, Message, IsMessage, IsPrefix,
  AreLetters, NoSpace, print, print_prefix, string_at, all_params, prefix_string, strings,
  strings_of,
}
use ya_ircd.ParseMsg.Printed.Skip.{char_at-behind, set-behind, string_at-behind}
use ya_ircd.ParseMsg.Printed.Params.{skipspaces-stays, skipnonspaces-word}
use ya_ircd.ParseMsg.Printed.Strings.{NoSpace-NoNul, first_word, other_words, positions-all_params}
use ya_ircd.ParseMsg.Printed.Command.{command_end-printed, parse_params-printed}

-- The first character of a command.
is_alpha-first : (c : ℕ) → is_alpha c ≡ true → (c ≢ 0) × (c ≢ b' ') × (c ≢ b':')
is_alpha-first c v = (ground (arith, v), ground (arith, v), ground (arith, v))

is_digit-first : (c : ℕ) → is_digit c ≡ true → (c ≢ 0) × (c ≢ b' ') × (c ≢ b':')
is_digit-first c v = (ground (arith, v), ground (arith, v), ground (arith, v))

IsCommand-first : (c : ℕ) (w : List ℕ) → IsCommand (c ∷ w) → (c ≢ 0) × (c ≢ b' ') × (c ≢ b':')
IsCommand-first c w (inl v) = is_alpha-first c v.0
IsCommand-first c [] (inr v) = absurd v
IsCommand-first c (b ∷ []) (inr v) = absurd v
IsCommand-first c (b ∷ a ∷ []) (inr v) = is_digit-first c v.0
IsCommand-first c (b ∷ a ∷ x ∷ w) (inr v) = absurd v

module _ (ps : List (List ℕ)) (t : Option (List ℕ)) (post : List ℕ) where
  -- A command with its parameters.
  abbrev body : ℕ → List ℕ → List ℕ
  body s w = w ++ (outer s ps t ++ (0 ∷ post))

command_end-body :
    (ps : List (List ℕ)) (t : Option (List ℕ)) (post pre w : List ℕ)
    → IsCommand w
    → command_end (pre ++ body ps t post b' ' w) (length pre) ≡ some (length pre + length w)
command_end-body [] none post pre w v = command_end-printed pre w 0 post v (inl refl)
command_end-body [] (some t) post pre w v =
    command_end-printed pre w b' ' (b':' ∷ (t ++ (0 ∷ post))) v (inr refl)
command_end-body (p ∷ ps) t post pre w v =
    command_end-printed pre w b' ' ((p ++ outer b' ' ps t) ++ (0 ∷ post)) v (inr refl)

module _ (ps : List (List ℕ)) (t : Option (List ℕ)) (post : List ℕ) (v : AreMiddle ps)
    (u : IsTrailing t) (few : length ps + trailing_count t ≤ max_irc_params) where
  abbrev found : Option ℕ → List ℕ → List ℕ → Option Parsed × List ℕ
  found prefix pre w = (
    some (record {
      prefix = prefix;
      cmd = length pre;
      params = positions (length pre + length w + 1) ps t;
    }),
    pre ++ body ps t post 0 w,
  )

  parse_command-printed :
      (prefix : Option ℕ) (pre w : List ℕ)
      → IsCommand w
      → parse_command (pre ++ body ps t post b' ' w) prefix (length pre) ≡ found prefix pre w
  unfolding parse_command
  parse_command-printed prefix pre [] k = absurd k
  parse_command-printed prefix pre (c ∷ w) k =
      let buf = pre ++ body ps t post b' ' (c ∷ w) in
      let rest = w ++ (outer b' ' ps t ++ (0 ∷ post)) in
      let first = IsCommand-first c w k in
      let stays : skipspaces buf (length pre) ≡ length pre = skipspaces-stays pre c rest first.1 in
      let here : (char_at buf (length pre) == 0) ≡ false =
        ap (λ d. d == 0) (char_at-behind pre c rest) ∙ ground (arith, first.0) in
      rw (stays, here, command_end-body ps t post pre (c ∷ w) k, stays)
        (parse_params-printed prefix (length pre) pre (c ∷ w) post ps t v u few)

  -- What the strings of the result are.
  command_string :
      (pre w : List ℕ) → NoSpace w → string_at (pre ++ body ps t post 0 w) (length pre) ≡ w
  command_string pre w k =
      ap (λ l. string_at (pre ++ l) (length pre)) (sym (append_assoc w (outer 0 ps t) (0 ∷ post)))
      ∙ first_word pre w ps t post k

param_strings :
    (ps : List (List ℕ)) (t : Option (List ℕ)) (post : List ℕ)
    → AreMiddle ps
    → IsTrailing t
    → (pre w : List ℕ)
    → map (string_at (pre ++ body ps t post 0 w)) (positions (length pre + length w + 1) ps t)
      ≡ all_params ps t
param_strings [] none post v u pre w = refl
param_strings [] (some t) post v u pre w =
    ap (λ l. map (string_at (pre ++ l)) (positions (length pre + length w + 1) [] (some t)))
      (sym (append_assoc w (outer 0 [] (some t)) (0 ∷ post)))
    ∙ other_words pre w [] (some t) post refl
        (λ pre'. positions-all_params [] (some t) pre' post v u)
param_strings (p ∷ ps) t post v u pre w =
    ap (λ l. map (string_at (pre ++ l)) (positions (length pre + length w + 1) (p ∷ ps) t))
      (sym (append_assoc w (outer 0 (p ∷ ps) t) (0 ∷ post)))
    ∙ other_words pre w (p ∷ ps) t post refl (λ pre'. positions-all_params (p ∷ ps) t pre' post v u)

AreLetters-NoSpace : (w : List ℕ) → AreLetters w → NoSpace w
AreLetters-NoSpace [] v = tt
AreLetters-NoSpace (c ∷ w) v =
    let first = is_alpha-first c v.0 in (first.0, first.1, AreLetters-NoSpace w v.1)

IsCommand-NoSpace : (w : List ℕ) → IsCommand w → NoSpace w
IsCommand-NoSpace [] v = absurd v
IsCommand-NoSpace (c ∷ w) (inl v) = AreLetters-NoSpace (c ∷ w) v
IsCommand-NoSpace (c ∷ []) (inr v) = absurd v
IsCommand-NoSpace (c ∷ b ∷ []) (inr v) = absurd v
IsCommand-NoSpace (c ∷ b ∷ a ∷ []) (inr v) =
    let one = is_digit-first c v.0 in
    let two = is_digit-first b v.1 in
    let three = is_digit-first a v.2 in (one.0, one.1, (two.0, two.1, (three.0, three.1, tt)))
IsCommand-NoSpace (c ∷ b ∷ a ∷ x ∷ w) (inr v) = absurd v

-- Without a prefix, and with one.
parse_msg-command :
    (c : ℕ) (rest : List ℕ)
    → c ≢ b' '
    → c ≢ b':'
    → parse_msg (c ∷ rest) 0 ≡ parse_command (c ∷ rest) none 0
unfolding parse_msg
parse_msg-command c rest space colon =
    let stays : skipspaces (c ∷ rest) 0 ≡ 0 = skipspaces-stays [] c rest space in
    let other : (char_at (c ∷ rest) 0 == b':') ≡ false = ground (arith, colon) in
    rw (stays, other) refl

parse_msg-IsCommand :
    (w rest : List ℕ) → IsCommand w → parse_msg (w ++ rest) 0 ≡ parse_command (w ++ rest) none 0
parse_msg-IsCommand [] rest k = absurd k
parse_msg-IsCommand (c ∷ w) rest k =
    let first = IsCommand-first c w k in parse_msg-command c (w ++ rest) first.1 first.2

parse_msg-prefix :
    (c : ℕ) (p rest : List ℕ)
    → NoSpace (c ∷ p)
    → parse_msg (b':' ∷ ((c ∷ p) ++ (b' ' ∷ rest))) 0
      ≡ parse_command
          ((b':' ∷ ((c ∷ p) ++ (0 ∷ []))) ++ rest)
          (some 1)
          (length (b':' ∷ ((c ∷ p) ++ (0 ∷ []))))
unfolding parse_msg
parse_msg-prefix c p rest v =
    let buf = b':' ∷ ((c ∷ p) ++ (b' ' ∷ rest)) in
    let stays : skipspaces buf 0 ≡ 0 =
      skipspaces-stays [] b':' ((c ∷ p) ++ (b' ' ∷ rest)) (ground arith) in
    let runs : skipnonspaces buf (0 + 1) ≡ length (b':' ∷ (c ∷ p)) =
      skipnonspaces-word (b':' ∷ []) (c ∷ p) b' ' rest v refl ∙ omega arith in
    let space : (char_at buf (length (b':' ∷ (c ∷ p))) == 0) ≡ false =
      ap (λ c. c == 0) (char_at-behind (b':' ∷ (c ∷ p)) b' ' rest) in
    let longer : (length (b':' ∷ (c ∷ p)) == 0 + 1) ≡ false = ground arith in
    let cut : set buf (length (b':' ∷ (c ∷ p))) 0 ≡ (b':' ∷ ((c ∷ p) ++ (0 ∷ []))) ++ rest =
      set-behind (b':' ∷ (c ∷ p)) b' ' 0 rest
      ∙ ap (λ l. b':' ∷ c ∷ l) (sym (append_assoc p (0 ∷ []) rest)) in
    let place : length (b':' ∷ (c ∷ p)) + 1 ≡ length (b':' ∷ ((c ∷ p) ++ (0 ∷ []))) =
      omega (arith, length-append (c ∷ p) (0 ∷ [])) in
    rw (stays, runs, space, longer, cut, place) refl

module _ (w : List ℕ) (ps : List (List ℕ)) (t : Option (List ℕ)) (post : List ℕ) (k : IsCommand w)
    (v : AreMiddle ps) (u : IsTrailing t)
    (few : length ps + trailing_count t ≤ max_irc_params) where
  found-strings :
      (prefix : Option ℕ) (pre : List ℕ) (q : Option (List ℕ))
      → prefix_string (pre ++ body ps t post 0 w) prefix ≡ q
      → strings (found ps t post v u few prefix pre w)
        ≡ some (record { prefix = q; command = w; params = all_params ps t })
  found-strings prefix pre q e =
      let command = command_string ps t post v u few pre w (IsCommand-NoSpace w k) in
      let params = param_strings ps t post v u pre w in
      ap
        (λ q. some (record {
          prefix = q;
          command = string_at (pre ++ body ps t post 0 w) (length pre);
          params =
              map (string_at (pre ++ body ps t post 0 w))
                (positions (length pre + length w + 1) ps t);
        }))
        e
      ∙ ap₂ (λ c l. some (record { prefix = q; command = c; params = l })) command params

  print-strings :
      (prefix : Option (List ℕ))
      → IsPrefix prefix
      → strings (parse_msg ((print_prefix prefix ++ (w ++ outer b' ' ps t)) ++ (0 ∷ post)) 0)
        ≡ some (record { prefix = prefix; command = w; params = all_params ps t })
  print-strings none h =
      ap (λ b. strings (parse_msg b 0)) (append_assoc w (outer b' ' ps t) (0 ∷ post))
      ∙ ap strings (parse_msg-IsCommand w (outer b' ' ps t ++ (0 ∷ post)) k)
      ∙ ap strings (parse_command-printed ps t post v u few none [] w k)
      ∙ found-strings none [] none refl
  print-strings (some []) h = absurd h
  print-strings (some (d ∷ p)) h =
      let pre = b':' ∷ ((d ∷ p) ++ (0 ∷ [])) in
      let regroup : (print_prefix (some (d ∷ p)) ++ (w ++ outer b' ' ps t)) ++ (0 ∷ post)
          ≡ b':' ∷ ((d ∷ p) ++ (b' ' ∷ body ps t post b' ' w)) =
        append_assoc (print_prefix (some (d ∷ p))) (w ++ outer b' ' ps t) (0 ∷ post)
        ∙ ap (λ l. print_prefix (some (d ∷ p)) ++ l) (append_assoc w (outer b' ' ps t) (0 ∷ post))
        ∙ ap (λ l. b':' ∷ d ∷ l) (append_assoc p (b' ' ∷ []) (body ps t post b' ' w)) in
      let prefix_is : string_at (pre ++ body ps t post 0 w) 1 ≡ d ∷ p =
        ap (λ l. string_at (b':' ∷ d ∷ l) 1) (append_assoc p (0 ∷ []) (body ps t post 0 w))
        ∙ string_at-behind (b':' ∷ []) (d ∷ p) (body ps t post 0 w) (NoSpace-NoNul (d ∷ p) h) in
      ap (λ b. strings (parse_msg b 0)) regroup
      ∙ ap strings (parse_msg-prefix d p (body ps t post b' ' w) h)
      ∙ ap strings (parse_command-printed ps t post v u few (some 1) pre w k)
      ∙ found-strings (some 1) pre (some (d ∷ p)) (ap some prefix_is)

-- A message that is printed on a line is parsed into the strings that it was made of, whatever
-- stands behind the end of the line: the prefix or none, the command, and the words and the last
-- parameter in their order. The prefix and the words are not empty and hold neither a space nor
-- `NUL`, no word begins with a colon, the command is of letters or of three digits, the last
-- parameter may hold spaces behind its first character, and there are at most 15 parameters.
pub parse_msg-print :
    (m : Message) (post : List ℕ)
    → IsMessage m
    → strings (parse_msg (print m ++ (0 ∷ post)) 0) ≡ some (strings_of m)
parse_msg-print m post v =
    print-strings m.command m.words m.trailing post v.command_ok v.words_ok v.trailing_ok v.few
      m.prefix v.prefix_ok
