-- ===== src/ParseMsg/Bounds.antt =====
-- Every pointer that `parse_msg` gives out, and every write it makes, is inside the buffer.
use ya_ircd.Prelude.{
  ℕ, zero, suc, ◌+◌, ◌≤◌, ◌<◌, ◌≡◌, inl, inr, not, ◌&&◌, ◌||◌, List, [], ◌∷◌, ◌++◌, Option, none,
  some, ◌==◌, arith, length, length-append, set, Bool-cases, Option-cases,
}
use ya_ircd.ParseMsg.{
  char_at, skipspaces, skipnonspaces, read_trailing, read_params_from, read_params, Parsed,
  command_end, parse_params, parse_command, parse_msg, is_digit, is_alpha, max_irc_params,
}
use ya_ircd.ParseMsg.Scan.{
  IsBuffer, Kept, Kept-refl, Kept-trans, set-Kept, skip-Stopped, next_in, set-IsBuffer,
}

abbrev pub AllBelow : ℕ → List ℕ → Type 0
AllBelow size [] = Unit
AllBelow size (i ∷ is) = (i < size) × AllBelow size is

AllBelow-append :
    (size : ℕ) (is : List ℕ) (j : ℕ) → AllBelow size is → j < size → AllBelow size (is ++ (j ∷ []))
AllBelow-append size [] j v h = (h, tt)
AllBelow-append size (i ∷ is) j v h = (v.0, AllBelow-append size is j v.1 h)

-- What `read_params` returns: at most 15 pointers into the buffer.
abbrev InParams : ℕ → Option (List ℕ) → Type 0
InParams size none = Unit
InParams size (some ps) = AllBelow size ps × (length ps ≤ max_irc_params)

abbrev pub InPrefix : ℕ → Option ℕ → Type 0
InPrefix size none = Unit
InPrefix size (some i) = i < size

-- The pointers of a parsed message.
abbrev pub IsParsed : ℕ → Option Parsed → Type 0
IsParsed size none = Unit
IsParsed size (some r) =
    InPrefix size r.prefix
    × (r.cmd < size)
    × AllBelow size r.params
    × (length r.params ≤ max_irc_params)

module _ {size : ℕ} where
  skipspaces_in : {buf : List ℕ} {i : ℕ} → IsBuffer size buf → i < size → skipspaces buf i < size
  unfolding skipspaces
  skipspaces_in v h = (skip-Stopped (λ c. c == b' ') v h).high

  skipnonspaces_in :
      {buf : List ℕ} {i : ℕ} → IsBuffer size buf → i < size → skipnonspaces buf i < size
  unfolding skipnonspaces
  skipnonspaces_in v h = (skip-Stopped (λ c. not (c == b' ')) v h).high

  read_trailing_in :
      (buf : List ℕ) (i : ℕ) (params : List ℕ) (left : ℕ)
      → IsBuffer size buf
      → i < size
      → AllBelow size params
      → length params + left ≡ 15
      → InParams size (read_trailing buf i params left)
  unfolding read_trailing
  read_trailing_in buf i params left v h ps e = elim (Bool-cases (char_at buf i == b':')) [
    | inr other ↦ rw other (ps, omega arith)
    | inl colon ↦ elim (Bool-cases (left == 0)) [
      | inl full ↦ rw (colon, full) tt
      | inr room ↦
          let inside = skipspaces_in v (next_in {i = i} v h (ground arith)) in
          rw (colon, room)
            (
              AllBelow-append size params _ ps inside,
              ground (arith, length-append params (skipspaces buf (i + 1) ∷ [])),
            )
    ]
  ]

  pub read_params_from_in :
      (buf : List ℕ) (i : ℕ) (params : List ℕ) (left : ℕ)
      → IsBuffer size buf
      → i < size
      → AllBelow size params
      → length params + left ≡ 15
      → let (r, buf') = read_params_from buf i params left in InParams size r × Kept size buf buf'
  unfolding read_params_from
  read_params_from_in buf i params zero v h ps e =
      let start = skipspaces buf i in
      elim (Bool-cases (not (char_at buf start == 0) && not (char_at buf start == b':'))) [
        | inl more ↦ rw more (tt, Kept-refl v)
        | inr stop ↦
            rw stop (read_trailing_in buf start params 0 v (skipspaces_in v h) ps e, Kept-refl v)
      ]
  read_params_from_in buf i params (suc left) v h ps e =
      let start = skipspaces buf i in
      let start_in : start < size = skipspaces_in v h in
      let next = skipnonspaces buf start in
      let next_below : next < size = skipnonspaces_in v start_in in
      let more_ps = AllBelow-append size params start ps start_in in
      let longer : length (params ++ (start ∷ [])) + left ≡ 15 =
        omega (arith, length-append params (start ∷ [])) in
      elim (Bool-cases (not (char_at buf start == 0) && not (char_at buf start == b':'))) [
        | inr stop ↦
            rw stop (read_trailing_in buf start params (suc left) v start_in ps e, Kept-refl v)
        | inl more ↦ elim (Bool-cases (char_at buf next == 0)) [
          | inl last ↦
              rw (more, last)
                (read_params_from_in buf next (params ++ (start ∷ [])) left v next_below more_ps
                  longer)
          | inr space ↦
              let (few, kept) =
                read_params_from_in (set buf next 0) (next + 1) (params ++ (start ∷ [])) left
                  (set-IsBuffer next v next_below) (next_in v next_below (ground arith)) more_ps
                  longer in
              rw (more, space) (few, Kept-trans (set-Kept next v next_below) kept)
        ]
      ]

  pub command_end_in :
      (buf : List ℕ) (i : ℕ) {next : ℕ}
      → IsBuffer size buf
      → i < size
      → command_end buf i ≡ some next
      → next < size
  unfolding command_end
  command_end_in buf i {next} v h e =
      let letters = (skip-Stopped is_alpha {i = i} v h).high in
      elim (Bool-cases (is_digit (char_at buf i))) [
        | inr other ↦ ground arith
        | inl digit ↦
            let one : i + 1 < size = next_in v h (ground arith) in
            elim (Bool-cases (is_digit (char_at buf (i + 1)))) [
              | inr other ↦ absurd (ground arith)
              | inl digit1 ↦
                  let two : i + 2 < size =
                    omega (arith, next_in {i = i + 1} v one (ground arith)) in
                  elim (Bool-cases (is_digit (char_at buf (i + 2)))) [
                    | inr other ↦ absurd (ground arith)
                    | inl digit2 ↦
                        let three : i + 3 < size =
                          omega (arith, next_in {i = i + 2} v two (ground arith)) in
                        ground arith
                  ]
            ]
      ]

  parse_params_in :
      (buf : List ℕ) (prefix : Option ℕ) (cmd next : ℕ)
      → IsBuffer size buf
      → InPrefix size prefix
      → cmd < size
      → next < size
      → let (r, buf') = parse_params buf prefix cmd next in IsParsed size r × Kept size buf buf'
  unfolding parse_params read_params
  parse_params_in buf prefix cmd next v p c h = elim (Bool-cases (char_at buf next == 0)) [
    | inl last ↦ rw last ((p, c, tt, omega arith), set-Kept next v h)
    | inr space ↦
        let (ps, kept) =
          read_params_from_in buf (next + 1) [] 15 v (next_in v h (ground arith)) tt
            (omega arith) in
        elim (Option-cases (read_params_from buf (next + 1) [] 15).0) [
          | inl e ↦ rw (space, e) (tt, kept)
          | inr (found, e) ↦
              let (below, few) = rw e at ps in
              rw (space, e) ((p, c, below, few), Kept-trans kept (set-Kept next kept.still h))
        ]
  ]

  parse_command_in :
      (buf : List ℕ) (prefix : Option ℕ) (i : ℕ)
      → IsBuffer size buf
      → InPrefix size prefix
      → i < size
      → let (r, buf') = parse_command buf prefix i in IsParsed size r × Kept size buf buf'
  unfolding parse_command
  parse_command_in buf prefix i v p h =
      let current = skipspaces buf i in
      let inside : current < size = skipspaces_in v h in
      elim (Bool-cases (char_at buf current == 0)) [
        | inl last ↦ rw last (tt, Kept-refl v)
        | inr more ↦ elim (Option-cases (command_end buf current)) [
          | inl e ↦ rw (more, e) (tt, Kept-refl v)
          | inr (next, e) ↦
              rw (more, e)
                (parse_params_in buf prefix current next v p inside
                  (command_end_in buf current v inside e))
        ]
      ]

-- On any message whose characters end with `NUL` in an array, `parse_msg` returns, whatever the
-- characters are. It keeps that `NUL` and changes nothing behind it, where the next messages
-- stand; on success the prefix, the command and each of the parameters, at most 15, point at or
-- before it.
pub parse_msg-IsParsed :
    {size : ℕ} (buf : List ℕ) (i : ℕ)
    → IsBuffer size buf
    → i < size
    → let (r, buf') = parse_msg buf i in IsParsed size r × Kept size buf buf'
unfolding parse_msg
parse_msg-IsParsed {size = size} buf i v h =
    let current = skipspaces buf i in
    let inside : current < size = skipspaces_in v h in
    let next = skipnonspaces buf (current + 1) in
    elim (Bool-cases (char_at buf current == b':')) [
      | inr other ↦ rw other (parse_command_in buf none current v tt inside)
      | inl colon ↦
          let more : current + 1 < size = next_in v inside (ground arith) in
          let next_below : next < size = skipnonspaces_in v more in
          elim (Bool-cases (char_at buf next == 0 || next == current + 1)) [
            | inl empty ↦ rw (colon, empty) (tt, Kept-refl v)
            | inr full ↦
                let (parsed, kept) =
                  parse_command_in (set buf next 0) (some (current + 1)) (next + 1)
                    (set-IsBuffer next v next_below) more (next_in v next_below (ground arith)) in
                rw (colon, full) (parsed, Kept-trans (set-Kept next v next_below) kept)
          ]
    ]
