-- ===== src/ParseMsg/Placed/Message.antt =====
-- A message that stands inside a longer array is parsed as it is on its own.
use ya_ircd.Prelude.{
  true, if◌then◌else◌, ℕ, ◌+◌, ◌<◌, ◌≡◌, refl, ap, ◌∙◌, inl, inr, not, ◌&&◌, ◌||◌, List, [], map,
  Option, none, some, ◌==◌, arith, length, set, length-set, Bool-cases, Option-cases,
}
use ya_ircd.ParseMsg.{
  char_at, skip, skipspaces, skipnonspaces, read_params, command_end, parse_params, parse_command,
  parse_msg, is_digit, is_alpha,
}
use ya_ircd.ParseMsg.Bounds.{read_params_from_in, command_end_in}
use ya_ircd.ParseMsg.Scan.{skip-Stopped, next_in}
use ya_ircd.ParseMsg.Placed.{
  IsString, k, placed, shift, char_at-placed, set-placed, skip-placed, skipspaces-placed,
  skipnonspaces-placed, shift_read, shift_result, set-IsString, skipspaces-below,
  skipnonspaces-below,
}
use ya_ircd.ParseMsg.Placed.Params.{read_params_from-placed}

-- The end of a command that starts with two digits.
abbrev third_digit : List ℕ → ℕ → Option ℕ
third_digit buf i =
    if is_digit (char_at buf (i + 2)) && (char_at buf (i + 3) == 0 || char_at buf (i + 3) == b' ')
    then some (i + 3)
    else none

module _ (pre post : List ℕ) where
  -- Behind two digits.
  third_digit-placed :
      (str : List ℕ) (i : ℕ)
      → IsString str
      → i + 1 < length str
      → is_digit (char_at str (i + 1)) ≡ true
      → third_digit (placed pre post str) (k pre post + i) ≡ shift pre post (third_digit str i)
  third_digit-placed str i v one digit1 =
      let two : i + 2 < length str = omega (arith, next_in {i = i + 1} v one (ground arith)) in
      let d2 =
        ap is_digit
          (char_at-placed pre post str (i + 2) {j = k pre post + i + 2} (omega arith) two) in
      let end : k pre post + i + 3 ≡ k pre post + (i + 3) = omega arith in
      elim (Bool-cases (is_digit (char_at str (i + 2)))) [
        | inr other ↦ rw (d2 ∙ other, other) refl
        | inl digit2 ↦
            let three : i + 3 < length str =
              omega (arith, next_in {i = i + 2} v two (ground arith)) in
            let c3 =
              char_at-placed pre post str (i + 3) {j = k pre post + i + 3} (omega arith) three in
            elim (Bool-cases (char_at str (i + 3) == 0 || char_at str (i + 3) == b' ')) [
              | inl good ↦ rw (d2 ∙ digit2, digit2, c3, good) (ap some end)
              | inr bad ↦ rw (d2 ∙ digit2, digit2, c3, bad) refl
            ]
      ]

  command_end-placed :
      (str : List ℕ) (i : ℕ)
      → IsString str
      → i < length str
      → command_end (placed pre post str) (k pre post + i) ≡ shift pre post (command_end str i)
  unfolding command_end
  command_end-placed str i v h =
      let d0 = ap is_digit (char_at-placed pre post str i refl h) in
      let letters = skip-placed pre post is_alpha str i v refl h in
      let inside = (skip-Stopped is_alpha {i = i} v h).high in
      let after = char_at str (skip is_alpha str i) in
      let behind = char_at-placed pre post str (skip is_alpha str i) refl inside in
      elim (Bool-cases (is_digit (char_at str i))) [
        | inr other ↦ elim (Bool-cases (not (after == 0) && not (after == b' '))) [
          | inl bad ↦ rw (d0 ∙ other, other, letters, behind, bad) refl
          | inr good ↦ rw (d0 ∙ other, other, letters, behind, good) refl
        ]
        | inl digit ↦
            let one : i + 1 < length str = next_in v h (ground arith) in
            let d1 =
              ap is_digit
                (char_at-placed pre post str (i + 1) {j = k pre post + i + 1} (omega arith) one) in
            elim (Bool-cases (is_digit (char_at str (i + 1)))) [
              | inr other ↦ rw (d0 ∙ digit, digit, d1 ∙ other, other) refl
              | inl digit1 ↦
                  rw (d0 ∙ digit, digit, d1 ∙ digit1, digit1)
                    (third_digit-placed str i v one digit1)
            ]
      ]

  parse_params-placed :
      (str : List ℕ) (prefix : Option ℕ) (cmd next : ℕ)
      → IsString str
      → next < length str
      → parse_params
          (placed pre post str)
          (shift pre post prefix)
          (k pre post + cmd)
          (k pre post + next)
        ≡ shift_result pre post (parse_params str prefix cmd next)
  unfolding parse_params read_params
  parse_params-placed str prefix cmd next v h =
      let same = char_at-placed pre post str next refl h in
      elim (Bool-cases (char_at str next == 0)) [
        | inl last ↦
            rw (ap (λ c. c == 0) same ∙ last, last)
              (ap
                (λ b. (
                  some (record {
                    prefix = shift pre post prefix;
                    cmd = k pre post + cmd;
                    params = [];
                  }),
                  b,
                ))
                (set-placed pre post str next h))
        | inr space ↦
            let behind = next_in {i = next} v h (ground arith) in
            let read : read_params (placed pre post str) (k pre post + next + 1)
                ≡ shift_read pre post (read_params str (next + 1)) =
              read_params_from-placed pre post str (next + 1) [] 15 v (omega arith) behind in
            let kept = (read_params_from_in str (next + 1) [] 15 v behind tt (omega arith)).1 in
            elim (Option-cases (read_params str (next + 1)).0) [
              | inl e ↦ rw (ap (λ c. c == 0) same ∙ space, space, read, e, read) refl
              | inr (ps, e) ↦
                  rw (ap (λ c. c == 0) same ∙ space, space, read, e, read)
                    (ap
                      (λ b. (
                        some (record {
                          prefix = shift pre post prefix;
                          cmd = k pre post + cmd;
                          params = map (λ n. k pre post + n) ps;
                        }),
                        b,
                      ))
                      (set-placed pre post (read_params str (next + 1)).1 next
                        (omega (arith, kept.same_length))))
            ]
      ]

  parse_command-placed :
      (str : List ℕ) (prefix : Option ℕ) (i : ℕ) {j : ℕ}
      → IsString str
      → j ≡ k pre post + i
      → i < length str
      → parse_command (placed pre post str) (shift pre post prefix) j
        ≡ shift_result pre post (parse_command str prefix i)
  unfolding parse_command
  parse_command-placed str prefix i v e h =
      let start = skipspaces-placed pre post str i v e h in
      let at = skipspaces str i in
      let inside = skipspaces-below pre post str i v h in
      let same = ap (λ c. c == 0) (char_at-placed pre post str at refl inside) in
      let end = command_end-placed str at v inside in
      elim (Bool-cases (char_at str at == 0)) [
        | inl last ↦ rw (start, same ∙ last, last) refl
        | inr more ↦ elim (Option-cases (command_end str at)) [
          | inl bad ↦ rw (start, same ∙ more, more, end ∙ ap (shift pre post) bad, bad) refl
          | inr (next, good) ↦
              rw (start, same ∙ more, more, end ∙ ap (shift pre post) good, good, start)
                (parse_params-placed str prefix at next v (command_end_in str at v inside good))
        ]
      ]

  -- A message that ends with `NUL` is parsed in the middle of an array as it is on its own: the
  -- same result, with its pointers moved, and the same writes.
  pub parse_msg-placed :
      (str : List ℕ) (i : ℕ) {j : ℕ}
      → IsString str
      → j ≡ k pre post + i
      → i < length str
      → parse_msg (placed pre post str) j ≡ shift_result pre post (parse_msg str i)
  unfolding parse_msg
  parse_msg-placed str i v e h =
      let start = skipspaces-placed pre post str i v e h in
      let at = skipspaces str i in
      let inside = skipspaces-below pre post str i v h in
      let same = ap (λ c. c == b':') (char_at-placed pre post str at refl inside) in
      elim (Bool-cases (char_at str at == b':')) [
        | inr other ↦
            rw (start, same ∙ other, other) (parse_command-placed str none at v refl inside)
        | inl colon ↦
            let behind : at + 1 < length str = next_in {i = at} v inside (ground arith) in
            let next = skipnonspaces str (at + 1) in
            let next_same =
              skipnonspaces-placed pre post str (at + 1) {j = k pre post + at + 1} v (omega arith)
                behind in
            let next_in_str = skipnonspaces-below pre post str (at + 1) v behind in
            let c = char_at-placed pre post str next refl next_in_str in
            let empty : (char_at (placed pre post str) (k pre post + next) == 0
                  || k pre post + next == k pre post + at + 1)
                ≡ (char_at str next == 0 || next == at + 1) =
              ground (arith, c) in
            elim (Bool-cases (char_at str next == 0 || next == at + 1)) [
              | inl none_there ↦
                  rw (start, same ∙ colon, colon, next_same, empty ∙ none_there, none_there) refl
              | inr full ↦
                  let first : k pre post + at + 1 ≡ k pre post + (at + 1) = omega arith in
                  let behind' = next_in {i = next} v next_in_str (ground arith) in
                  rw
                    (
                      start,
                      same ∙ colon,
                      colon,
                      next_same,
                      empty ∙ full,
                      full,
                      set-placed pre post str next next_in_str,
                      first,
                    )
                    (parse_command-placed (set str next 0) (some (at + 1)) (next + 1)
                      (set-IsString pre post str next v next_in_str) (omega arith)
                      (omega (arith, length-set str next 0)))
            ]
      ]
