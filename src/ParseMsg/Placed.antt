-- ===== src/ParseMsg/Placed.antt =====
-- `parse_msg` on a message that stands inside a longer array, as it does in the reader's buffer.
pub mod Params
pub mod Message
use ya_ircd.Prelude.{
  ℕ, zero, suc, ◌+◌, ◌-◌, ◌≤◌, ◌<◌, ◌≡◌, ◌≢◌, refl, sym, ap, ap₂, ◌∙◌, inl, inr, Bool, not, ◌&&◌,
  ◌||◌, List, [], ◌∷◌, ◌++◌, map, Option, none, some, ◌==◌, ==_iff, arith, length, get_or, set,
  length-set, Bool-cases, Option-cases, length-append, get_or-append_left, get_or-append_right,
  set-append_left, set-append_right,
}
use ya_ircd.ParseMsg.{
  char_at, skip_while, skip, skipspaces, skipnonspaces, read_trailing, read_params_from,
  read_params, Parsed, command_end, parse_params, parse_command, parse_msg, is_digit, is_alpha,
}
use ya_ircd.ParseMsg.Bounds.{read_params_from_in, command_end_in}
use ya_ircd.ParseMsg.Scan.{IsBuffer, skip-Stopped, next_in, set-IsBuffer}

-- A string: its last character is `NUL`.
abbrev pub IsString : List ℕ → Type 0
IsString str = IsBuffer (length str) str

pub map-append : (f : ℕ → ℕ) (xs ys : List ℕ) → map f (xs ++ ys) ≡ map f xs ++ map f ys
map-append f [] ys = refl
map-append f (x ∷ xs) ys = ap (λ l. f x ∷ l) (map-append f xs ys)

module _ (pre post : List ℕ) where
  abbrev pub k : ℕ
  k = length pre

  -- The string between what stands in front of it and behind it.
  abbrev pub placed : List ℕ → List ℕ
  placed str = pre ++ (str ++ post)

  abbrev pub shift : Option ℕ → Option ℕ
  shift none = none
  shift (some i) = some (k + i)

  abbrev pub shift_params : Option (List ℕ) → Option (List ℕ)
  shift_params none = none
  shift_params (some ps) = some (map (λ i. k + i) ps)

  abbrev pub shift_parsed : Option Parsed → Option Parsed
  shift_parsed none = none
  shift_parsed (some r) =
      some (record { prefix = shift r.prefix; cmd = k + r.cmd; params = map (λ i. k + i) r.params })

  pub char_at-placed :
      (str : List ℕ) (i : ℕ) {j : ℕ}
      → j ≡ k + i
      → i < length str
      → char_at (placed str) j ≡ char_at str i
  char_at-placed str i {j} e h =
      rw e (get_or-append_right pre (str ++ post) i 0 ∙ get_or-append_left str post i 0 h)

  pub set-placed :
      (str : List ℕ) (i : ℕ) → i < length str → set (placed str) (k + i) 0 ≡ placed (set str i 0)
  set-placed str i h =
      set-append_right pre (str ++ post) i 0 ∙ ap (λ l. pre ++ l) (set-append_left str post i 0 h)

  skip_while-placed :
      (p : ℕ → Bool) (str : List ℕ) (i j n n' : ℕ)
      → IsString str
      → j ≡ k + i
      → i < length str
      → length str ≤ i + n
      → n ≤ n'
      → skip_while p (placed str) j n' ≡ k + skip_while p str i n
  unfolding skip_while
  skip_while-placed p str i j zero n' v e h enough more = absurd (omega arith)
  skip_while-placed p str i j (suc n) zero v e h enough more = absurd (omega arith)
  skip_while-placed p str i j (suc n) (suc n') v e h enough more =
      let same = char_at-placed str i e h in
      elim (Bool-cases (not (char_at str i == 0) && p (char_at str i))) [
        | inr stop ↦ rw (same, stop) e
        | inl go ↦
            let last : i + 1 < length str = next_in v h (ground arith) in
            rw (same, go)
              (skip_while-placed p str (i + 1) (j + 1) n n' v (omega arith) last (omega arith)
                (omega arith))
      ]

  pub skip-placed :
      (p : ℕ → Bool) (str : List ℕ) (i : ℕ) {j : ℕ}
      → IsString str
      → j ≡ k + i
      → i < length str
      → skip p (placed str) j ≡ k + skip p str i
  skip-placed p str i {j} v e h =
      let all = length-append pre (str ++ post) in
      let rest = length-append str post in
      skip_while-placed p str i j (length str - i) (length (placed str) - j) v e h (omega arith)
        (omega arith)

  pub skipspaces-placed :
      (str : List ℕ) (i : ℕ) {j : ℕ}
      → IsString str
      → j ≡ k + i
      → i < length str
      → skipspaces (placed str) j ≡ k + skipspaces str i
  unfolding skipspaces
  skipspaces-placed str i v e h = skip-placed (λ c. c == b' ') str i v e h

  pub skipnonspaces-placed :
      (str : List ℕ) (i : ℕ) {j : ℕ}
      → IsString str
      → j ≡ k + i
      → i < length str
      → skipnonspaces (placed str) j ≡ k + skipnonspaces str i
  unfolding skipnonspaces
  skipnonspaces-placed str i v e h = skip-placed (λ c. not (c == b' ')) str i v e h

  -- A result on the string alone, as it is on the longer array.
  abbrev pub shift_read : Option (List ℕ) × List ℕ → Option (List ℕ) × List ℕ
  shift_read (ps, str) = (shift_params ps, placed str)

  abbrev pub shift_result : Option Parsed × List ℕ → Option Parsed × List ℕ
  shift_result (r, str) = (shift_parsed r, placed str)

  pub set-IsString : (str : List ℕ) (i : ℕ) → IsString str → i < length str → IsString (set str i 0)
  set-IsString str i v h = rw (length-set str i 0) (set-IsBuffer i v h)

  pub skipspaces-below :
      (str : List ℕ) (i : ℕ) → IsString str → i < length str → skipspaces str i < length str
  unfolding skipspaces
  skipspaces-below str i v h = (skip-Stopped (λ c. c == b' ') v h).high

  pub skipnonspaces-below :
      (str : List ℕ) (i : ℕ) → IsString str → i < length str → skipnonspaces str i < length str
  unfolding skipnonspaces
  skipnonspaces-below str i v h = (skip-Stopped (λ c. not (c == b' ')) v h).high
