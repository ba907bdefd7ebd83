-- ===== src/ParseMsg.antt =====
-- src/msg/parsemsg.c: splitting one message into a prefix, a command and parameters, in place.
-- A pointer into the buffer is its index; `buf` is the whole array.
pub mod Scan
pub mod Bounds
pub mod Placed
pub mod Printed
mod Tests
use ya_ircd.Prelude.{
  ℕ, zero, suc, ◌+◌, ◌-◌, Bool, true, false, not, ◌&&◌, ◌||◌, List, [], ◌∷◌, ◌++◌, Option, none,
  some, ◌==◌, leb, if◌then◌else◌, get_or, set, length,
}

abbrev pub max_irc_params : ℕ
max_irc_params = 15

-- `*buf`.
abbrev pub char_at : List ℕ → ℕ → ℕ
char_at buf i = get_or buf i 0

abbrev pub is_digit : ℕ → Bool
is_digit c = leb b'0' c && leb c b'9'

-- `isalpha` of the C locale.
abbrev pub is_alpha : ℕ → Bool
is_alpha c = leb b'a' c && leb c b'z' || leb b'A' c && leb c b'Z'

-- The loops `for (; *str != '\0' && p(*str); str++)`, with `n` characters of the array left.
unfoldable pub skip_while : (ℕ → Bool) → List ℕ → ℕ → ℕ → ℕ
skip_while p buf i zero = i
skip_while p buf i (suc n) =
    let rest = skip_while p buf (i + 1) n in
    if not (char_at buf i == 0) && p (char_at buf i) then rest else i

abbrev pub skip : (ℕ → Bool) → List ℕ → ℕ → ℕ
skip p buf i = skip_while p buf i (length buf - i)

unfoldable pub skipspaces : List ℕ → ℕ → ℕ
skipspaces buf i = skip (λ c. c == b' ') buf i

unfoldable pub skipnonspaces : List ℕ → ℕ → ℕ
skipnonspaces buf i = skip (λ c. not (c == b' ')) buf i

-- Behind the loop of `read_params`, at the character where it stopped, with so many places left in
-- `params`. The test of `skipspaces(buf + 1)` compares the pointer, and always succeeds.
unfoldable pub read_trailing : List ℕ → ℕ → List ℕ → ℕ → Option (List ℕ)
read_trailing buf i params left =
    if char_at buf i == b':'
    then (if left == 0 then none else some (params ++ (skipspaces buf (i + 1) ∷ [])))
    else some params

-- The loop of `read_params` from index `i`, with the parameters found so far; `none` is -1.
unfoldable pub read_params_from : List ℕ → ℕ → List ℕ → ℕ → Option (List ℕ) × List ℕ
unfolding skipspaces skipnonspaces read_trailing
read_params_from buf i params zero =
    let start = skipspaces buf i in
    if not (char_at buf start == 0) && not (char_at buf start == b':')
    then (none, buf)
    else (read_trailing buf start params 0, buf)
read_params_from buf i params (suc left) =
    let start = skipspaces buf i in
    let next = skipnonspaces buf start in
    let at_end = read_params_from buf next (params ++ (start ∷ [])) left in
    let cut = read_params_from (set buf next 0) (next + 1) (params ++ (start ∷ [])) left in
    if not (char_at buf start == 0) && not (char_at buf start == b':')
    then (if char_at buf next == 0 then at_end else cut)
    else (read_trailing buf start params (suc left), buf)

unfoldable pub read_params : List ℕ → ℕ → Option (List ℕ) × List ℕ
read_params buf i = read_params_from buf i [] max_irc_params

-- What `parse_msg` gives back through its pointers. It returns 1 if there is a prefix, 0 if not.
pub record Parsed : Type 0 where
  pub prefix : Option ℕ
  pub cmd : ℕ
  pub params : List ℕ

-- Where the command at index `i` ends; `none` is an invalid command.
unfoldable pub command_end : List ℕ → ℕ → Option ℕ
command_end buf i =
    let next = skip is_alpha buf i in
    if is_digit (char_at buf i)
    then (if is_digit (char_at buf (i + 1))
          && is_digit (char_at buf (i + 2))
          && (char_at buf (i + 3) == 0 || char_at buf (i + 3) == b' ')
        then some (i + 3)
        else none)
    else if not (char_at buf next == 0) && not (char_at buf next == b' ')
    then none
    else some next

-- The parameters behind a command that ends at `next`, and the end of `parse_msg`.
unfoldable pub parse_params : List ℕ → Option ℕ → ℕ → ℕ → Option Parsed × List ℕ
parse_params buf prefix cmd next =
    let (params, buf') = read_params buf (next + 1) in
    if char_at buf next == 0
    then (some (record { prefix = prefix; cmd = cmd; params = [] }), set buf next 0)
    else elim params [
      | none ↦ (none, buf')
      | some ps ↦ (some (record { prefix = prefix; cmd = cmd; params = ps }), set buf' next 0)
    ]

-- Behind the prefix.
unfoldable pub parse_command : List ℕ → Option ℕ → ℕ → Option Parsed × List ℕ
parse_command buf prefix i =
    let current = skipspaces buf i in
    let command : Option Parsed × List ℕ = elim (command_end buf current) [
      | none ↦ (none, buf)
      | some next ↦ parse_params buf prefix current next
    ] in
    if char_at buf current == 0 then (none, buf) else command

-- The message at index `i`; `none` is -1.
unfoldable pub parse_msg : List ℕ → ℕ → Option Parsed × List ℕ
parse_msg buf i =
    let current = skipspaces buf i in
    let next = skipnonspaces buf (current + 1) in
    if char_at buf current == b':'
    then (if char_at buf next == 0 || next == current + 1
        then (none, buf)
        else parse_command (set buf next 0) (some (current + 1)) (next + 1))
    else parse_command buf none current
