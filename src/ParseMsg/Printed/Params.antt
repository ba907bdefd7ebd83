-- ===== src/ParseMsg/Printed/Params.antt =====
-- Parameters that are printed are read back.
use ya_ircd.Prelude.{
  ℕ, zero, suc, ◌+◌, ◌≤◌, ◌≡◌, ◌≢◌, refl, sym, ap, ap₂, ◌∙◌, arith, true, false, not, ◌&&◌, List,
  [], ◌∷◌, ◌++◌, Option, none, some, ◌==◌, length, length-append, append_assoc, append-nil, set,
}
use ya_ircd.ParseMsg.{char_at, skipspaces, skipnonspaces, read_trailing, read_params_from}
use ya_ircd.ParseMsg.Printed.{
  inner, NoSpace, IsMiddle, AreMiddle, IsTrailing, trailing_count, positions,
}
use ya_ircd.ParseMsg.Printed.Skip.{char_at-behind, set-behind, Passed, skip-run}

NoSpace-Passed : (w : List ℕ) → NoSpace w → Passed (λ c. not (c == b' ')) w
NoSpace-Passed [] v = tt
NoSpace-Passed (c ∷ w) v = (ground (arith, v.0, v.1), NoSpace-Passed w v.2)

-- No space is passed over.
pub skipspaces-stays :
    (pre : List ℕ) (c : ℕ) (post : List ℕ)
    → c ≢ b' '
    → skipspaces (pre ++ (c ∷ post)) (length pre) ≡ length pre
unfolding skipspaces
skipspaces-stays pre c post other =
    let stop : (not (c == 0) && (c == b' ')) ≡ false = ground (arith, other) in
    skip-run (λ c. c == b' ') c post stop [] pre tt ∙ omega arith

-- A word is passed over.
pub skipnonspaces-word :
    (pre w : List ℕ) (c : ℕ) (post : List ℕ)
    → NoSpace w
    → (not (c == 0) && not (c == b' ')) ≡ false
    → skipnonspaces (pre ++ (w ++ (c ∷ post))) (length pre) ≡ length pre + length w
unfolding skipnonspaces
skipnonspaces-word pre w c post v stop =
    skip-run (λ c. not (c == b' ')) c post stop w pre (NoSpace-Passed w v)

-- The tests of one pass.
module _ (buf : List ℕ) (i : ℕ) (params : List ℕ) (c : ℕ) (here : char_at buf i ≡ c)
    (stays : skipspaces buf i ≡ i) where
  read_params_from-stops :
      (left : ℕ)
      → (not (c == 0) && not (c == b':')) ≡ false
      → read_params_from buf i params left ≡ (read_trailing buf i params left, buf)
  unfolding read_params_from skipspaces
  read_params_from-stops zero stop =
      let t : (not (char_at buf i == 0) && not (char_at buf i == b':')) ≡ false =
        ap (λ c. not (c == 0) && not (c == b':')) here ∙ stop in
      rw (read_params_from, stays, t) refl
  read_params_from-stops (suc left) stop =
      let t : (not (char_at buf i == 0) && not (char_at buf i == b':')) ≡ false =
        ap (λ c. not (c == 0) && not (c == b':')) here ∙ stop in
      rw (read_params_from, stays, t) refl

  module _ (next d : ℕ) (runs : skipnonspaces buf i ≡ next) (behind : char_at buf next ≡ d)
      (goes_on : (not (c == 0) && not (c == b':')) ≡ true) where
    read_params_from-last :
        (left : ℕ)
        → d ≡ 0
        → read_params_from buf i params (suc left)
          ≡ read_params_from buf next (params ++ (i ∷ [])) left
    unfolding read_params_from skipspaces skipnonspaces
    read_params_from-last left e =
        let t : (not (char_at buf i == 0) && not (char_at buf i == b':')) ≡ true =
          ap (λ c. not (c == 0) && not (c == b':')) here ∙ goes_on in
        let u : (char_at buf next == 0) ≡ true = ap (λ d. d == 0) (behind ∙ e) in
        rw (read_params_from, stays, runs, t, u) refl

    read_params_from-cuts :
        (left : ℕ)
        → d ≡ b' '
        → read_params_from buf i params (suc left)
          ≡ read_params_from (set buf next 0) (next + 1) (params ++ (i ∷ [])) left
    unfolding read_params_from skipspaces skipnonspaces
    read_params_from-cuts left e =
        let t : (not (char_at buf i == 0) && not (char_at buf i == b':')) ≡ true =
          ap (λ c. not (c == 0) && not (c == b':')) here ∙ goes_on in
        let u : (char_at buf next == 0) ≡ false = ap (λ d. d == 0) (behind ∙ e) in
        rw (read_params_from, stays, runs, t, u) refl

-- Whether a word ends the text or another one follows.
module _ (pre : List ℕ) (c : ℕ) (w : List ℕ) (params : List ℕ) (left : ℕ) (rest : List ℕ)
    (v : IsMiddle (c ∷ w)) where
  first_stays : (post : List ℕ) → skipspaces (pre ++ (c ∷ (w ++ post))) (length pre) ≡ length pre
  first_stays post = skipspaces-stays pre c (w ++ post) v.1.1

  first_goes_on : (not (c == 0) && not (c == b':')) ≡ true
  first_goes_on = ground (arith, v.0, v.1.0)

  word_ends :
      (d : ℕ)
      → (not (d == 0) && not (d == b' ')) ≡ false
      → skipnonspaces (pre ++ (c ∷ (w ++ (d ∷ rest)))) (length pre) ≡ length (pre ++ (c ∷ w))
  word_ends d stop =
      skipnonspaces-word pre (c ∷ w) d rest v.1 stop ∙ sym (length-append pre (c ∷ w))

  behind_word : (d : ℕ) → char_at (pre ++ (c ∷ (w ++ (d ∷ rest)))) (length (pre ++ (c ∷ w))) ≡ d
  behind_word d =
      ap (λ b. char_at b (length (pre ++ (c ∷ w)))) (sym (append_assoc pre (c ∷ w) (d ∷ rest)))
      ∙ char_at-behind (pre ++ (c ∷ w)) d rest

  read_params_from-last_word :
      read_params_from (pre ++ (c ∷ (w ++ (0 ∷ rest)))) (length pre) params (suc left)
      ≡ read_params_from
          ((pre ++ (c ∷ w)) ++ (0 ∷ rest))
          (length (pre ++ (c ∷ w)))
          (params ++ (length pre ∷ []))
          left
  read_params_from-last_word =
      read_params_from-last (pre ++ (c ∷ (w ++ (0 ∷ rest)))) (length pre) params c
        (char_at-behind pre c (w ++ (0 ∷ rest))) (first_stays (0 ∷ rest)) (length (pre ++ (c ∷ w)))
        0 (word_ends 0 refl) (behind_word 0) first_goes_on left refl
      ∙ ap (λ b. read_params_from b (length (pre ++ (c ∷ w))) (params ++ (length pre ∷ [])) left)
          (sym (append_assoc pre (c ∷ w) (0 ∷ rest)))

  cut_word :
      set (pre ++ (c ∷ (w ++ (b' ' ∷ rest)))) (length (pre ++ (c ∷ w))) 0
      ≡ (pre ++ ((c ∷ w) ++ (0 ∷ []))) ++ rest
  cut_word =
      ap (λ b. set b (length (pre ++ (c ∷ w))) 0) (sym (append_assoc pre (c ∷ w) (b' ' ∷ rest)))
      ∙ set-behind (pre ++ (c ∷ w)) b' ' 0 rest
      ∙ append_assoc pre (c ∷ w) (0 ∷ rest)
      ∙ ap (λ l. pre ++ (c ∷ l)) (sym (append_assoc w (0 ∷ []) rest))
      ∙ sym (append_assoc pre ((c ∷ w) ++ (0 ∷ [])) rest)

  behind_cut : length (pre ++ (c ∷ w)) + 1 ≡ length (pre ++ ((c ∷ w) ++ (0 ∷ [])))
  behind_cut = omega (
    arith,
    length-append pre (c ∷ w),
    length-append pre ((c ∷ w) ++ (0 ∷ [])),
    length-append (c ∷ w) (0 ∷ []),
  )

  read_params_from-cut_word :
      read_params_from (pre ++ (c ∷ (w ++ (b' ' ∷ rest)))) (length pre) params (suc left)
      ≡ read_params_from
          ((pre ++ ((c ∷ w) ++ (0 ∷ []))) ++ rest)
          (length (pre ++ ((c ∷ w) ++ (0 ∷ []))))
          (params ++ (length pre ∷ []))
          left
  read_params_from-cut_word =
      read_params_from-cuts (pre ++ (c ∷ (w ++ (b' ' ∷ rest)))) (length pre) params c
        (char_at-behind pre c (w ++ (b' ' ∷ rest))) (first_stays (b' ' ∷ rest))
        (length (pre ++ (c ∷ w))) b' ' (word_ends b' ' refl) (behind_word b' ') first_goes_on left
        refl
      ∙ ap₂ (λ b i. read_params_from b i (params ++ (length pre ∷ [])) left) cut_word behind_cut

-- Without a word in front of it.
read_params_from-none :
    (pre params post : List ℕ) (left : ℕ)
    → read_params_from (pre ++ (0 ∷ post)) (length pre) params left
      ≡ (some params, pre ++ (0 ∷ post))
unfolding read_trailing
read_params_from-none pre params post left =
    let here = char_at-behind pre 0 post in
    let stays = skipspaces-stays pre 0 post (ground arith) in
    let no_colon : (char_at (pre ++ (0 ∷ post)) (length pre) == b':') ≡ false =
      ap (λ c. c == b':') here in
    read_params_from-stops (pre ++ (0 ∷ post)) (length pre) params 0 here stays left refl
    ∙ rw no_colon refl

no_space_first :
    (pre t post : List ℕ)
    → IsTrailing (some t)
    → skipspaces (pre ++ (t ++ (0 ∷ post))) (length pre) ≡ length pre
no_space_first pre [] post v = skipspaces-stays pre 0 post (ground arith)
no_space_first pre (c ∷ t) post v = skipspaces-stays pre c (t ++ (0 ∷ post)) v.0

trailing_stays :
    (pre t post : List ℕ)
    → IsTrailing (some t)
    → skipspaces (pre ++ (b':' ∷ (t ++ (0 ∷ post)))) (length pre + 1) ≡ length pre + 1
trailing_stays pre t post v =
    let longer : length (pre ++ (b':' ∷ [])) ≡ length pre + 1 = length-append pre (b':' ∷ []) in
    let same : (pre ++ (b':' ∷ [])) ++ (t ++ (0 ∷ post)) ≡ pre ++ (b':' ∷ (t ++ (0 ∷ post))) =
      append_assoc pre (b':' ∷ []) (t ++ (0 ∷ post)) in
    let first : skipspaces ((pre ++ (b':' ∷ [])) ++ (t ++ (0 ∷ post))) (length (pre ++ (b':' ∷ [])))
        ≡ length (pre ++ (b':' ∷ [])) =
      no_space_first (pre ++ (b':' ∷ [])) t post v in
    ap₂ skipspaces (sym same) (sym longer) ∙ first ∙ longer

read_params_from-trailing :
    (pre params t post : List ℕ) (left : ℕ)
    → IsTrailing (some t)
    → read_params_from (pre ++ (b':' ∷ (t ++ (0 ∷ post)))) (length pre) params (suc left)
      ≡ (some (params ++ ((length pre + 1) ∷ [])), pre ++ (b':' ∷ (t ++ (0 ∷ post))))
unfolding read_trailing
read_params_from-trailing pre params t post left v =
    let buf = pre ++ (b':' ∷ (t ++ (0 ∷ post))) in
    let here = char_at-behind pre b':' (t ++ (0 ∷ post)) in
    let stays = skipspaces-stays pre b':' (t ++ (0 ∷ post)) (ground arith) in
    let some_left : (suc left == 0) ≡ false = ground arith in
    let colon : (char_at buf (length pre) == b':') ≡ true = ap (λ c. c == b':') here in
    read_params_from-stops buf (length pre) params b':' here stays (suc left) refl
    ∙ rw (colon, trailing_stays pre t post v, some_left) refl

-- One word and the text behind it.
read_params_from-more :
    (pre : List ℕ) (c : ℕ) (w x z params post : List ℕ) (ps : List (List ℕ)) (t : Option (List ℕ))
    (left : ℕ)
    → IsMiddle (c ∷ w)
    → ((pre' params' : List ℕ)
        → read_params_from (pre' ++ (x ++ (0 ∷ post))) (length pre') params' left
          ≡ (some (params' ++ positions (length pre') ps t), pre' ++ (z ++ (0 ∷ post))))
    → read_params_from
        (pre ++ (((c ∷ w) ++ (b' ' ∷ x)) ++ (0 ∷ post)))
        (length pre)
        params
        (suc left)
      ≡ (
        some (params ++ (length pre ∷ positions (length pre + length (c ∷ w) + 1) ps t)),
        pre ++ (((c ∷ w) ++ (0 ∷ z)) ++ (0 ∷ post)),
      )
read_params_from-more pre c w x z params post ps t left v ih =
    let end = 0 ∷ post in
    let pre' = pre ++ ((c ∷ w) ++ (0 ∷ [])) in
    let regroup : pre' ++ (z ++ end) ≡ pre ++ (((c ∷ w) ++ (0 ∷ z)) ++ end) =
      append_assoc pre ((c ∷ w) ++ (0 ∷ [])) (z ++ end)
      ∙ ap (λ l. pre ++ (c ∷ l))
          (append_assoc w (0 ∷ []) (z ++ end) ∙ sym (append_assoc w (0 ∷ z) end)) in
    let place : length pre' ≡ length pre + length (c ∷ w) + 1 =
      omega (arith, length-append pre ((c ∷ w) ++ (0 ∷ [])), length-append (c ∷ w) (0 ∷ [])) in
    let found : (params ++ (length pre ∷ [])) ++ positions (length pre') ps t
        ≡ params ++ (length pre ∷ positions (length pre + length (c ∷ w) + 1) ps t) =
      append_assoc params (length pre ∷ []) (positions (length pre') ps t)
      ∙ ap (λ i. params ++ (length pre ∷ positions i ps t)) place in
    ap (λ l. read_params_from (pre ++ (c ∷ l)) (length pre) params (suc left))
      (append_assoc w (b' ' ∷ x) end)
    ∙ read_params_from-cut_word pre c w params left (x ++ end) v
    ∙ ih pre' (params ++ (length pre ∷ []))
    ∙ ap₂ (λ a b. (some a, b)) found regroup

pub read_params_from-printed :
    (ps : List (List ℕ)) (t : Option (List ℕ)) (pre params post : List ℕ) (left : ℕ)
    → AreMiddle ps
    → IsTrailing t
    → length ps + trailing_count t ≤ left
    → read_params_from (pre ++ (inner b' ' ps t ++ (0 ∷ post))) (length pre) params left
      ≡ (some (params ++ positions (length pre) ps t), pre ++ (inner 0 ps t ++ (0 ∷ post)))
read_params_from-printed [] none pre params post left v u h =
    read_params_from-none pre params post left
    ∙ ap (λ l. (some l, pre ++ (0 ∷ post))) (sym (append-nil params))
read_params_from-printed [] (some t) pre params post zero v u h = absurd (omega arith)
read_params_from-printed [] (some t) pre params post (suc left) v u h =
    read_params_from-trailing pre params t post left u
read_params_from-printed ([] ∷ ps) t pre params post left v u h = absurd v.0
read_params_from-printed ((c ∷ w) ∷ ps) t pre params post zero v u h = absurd (omega arith)
read_params_from-printed ((c ∷ w) ∷ []) none pre params post (suc left) v u h =
    let same : w ++ [] ≡ w = append-nil w in
    rw same (
      read_params_from-last_word pre c w params left post v.0
      ∙ read_params_from-none (pre ++ (c ∷ w)) (params ++ (length pre ∷ [])) post left
      ∙ ap (λ b. (some (params ++ (length pre ∷ [])), b)) (append_assoc pre (c ∷ w) (0 ∷ post)))
read_params_from-printed ((c ∷ w) ∷ []) (some t) pre params post (suc left) v u h =
    read_params_from-more pre c w (inner b' ' [] (some t)) (inner 0 [] (some t)) params post []
      (some t) left v.0
      (λ pre' params'.
        read_params_from-printed [] (some t) pre' params' post left tt u (omega (arith, h)))
read_params_from-printed ((c ∷ w) ∷ (q ∷ ps)) t pre params post (suc left) v u h =
    read_params_from-more pre c w (inner b' ' (q ∷ ps) t) (inner 0 (q ∷ ps) t) params post (q ∷ ps)
      t left v.0
      (λ pre' params'.
        read_params_from-printed (q ∷ ps) t pre' params' post left v.1 u (omega (arith, h)))
