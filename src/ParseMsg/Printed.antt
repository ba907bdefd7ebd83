-- ===== src/ParseMsg/Printed.antt =====
-- Messages as they are printed, to compare with how they are parsed.
pub mod Skip
pub mod Params
pub mod Strings
pub mod Command
pub mod Whole
use ya_ircd.Prelude.{
  ℕ, zero, suc, ◌+◌, ◌-◌, ◌≤◌, ◌≡◌, ◌≢◌, ◌⊎◌, refl, ap, arith, Bool, true, false, not, List, map,
  [], ◌∷◌, ◌++◌, Option, none, some, ◌==◌, length, if◌then◌else◌,
}
use ya_ircd.ParseMsg.{is_alpha, is_digit, max_irc_params, Parsed}

-- The string at an index of a buffer.
abbrev pub until_nul : List ℕ → List ℕ
until_nul [] = []
until_nul (c ∷ cs) = if c == 0 then [] else c ∷ until_nul cs

abbrev pub string_at : List ℕ → ℕ → List ℕ
string_at [] i = []
string_at (c ∷ buf) zero = until_nul (c ∷ buf)
string_at (c ∷ buf) (suc i) = string_at buf i

-- The parameters `ps` and a last one, which may hold spaces; `s` stands between them.
abbrev pub outer : ℕ → List (List ℕ) → Option (List ℕ) → List ℕ
outer s [] none = []
outer s [] (some t) = s ∷ b':' ∷ t
outer s (p ∷ ps) t = s ∷ (p ++ outer s ps t)

-- Behind the first `s`.
abbrev pub inner : ℕ → List (List ℕ) → Option (List ℕ) → List ℕ
inner s [] none = []
inner s [] (some t) = b':' ∷ t
inner s (p ∷ ps) t = p ++ outer s ps t

abbrev pub all_params : List (List ℕ) → Option (List ℕ) → List (List ℕ)
all_params ps none = ps
all_params ps (some t) = ps ++ (t ∷ [])

-- Characters of one word.
abbrev pub NoSpace : List ℕ → Type 0
NoSpace [] = Unit
NoSpace (c ∷ cs) = (c ≢ 0) × (c ≢ b' ') × NoSpace cs

abbrev pub NoNul : List ℕ → Type 0
NoNul [] = Unit
NoNul (c ∷ cs) = (c ≢ 0) × NoNul cs

abbrev pub IsMiddle : List ℕ → Type 0
IsMiddle [] = ⊥
IsMiddle (c ∷ cs) = (c ≢ b':') × NoSpace (c ∷ cs)

abbrev pub AreMiddle : List (List ℕ) → Type 0
AreMiddle [] = Unit
AreMiddle (p ∷ ps) = IsMiddle p × AreMiddle ps

abbrev pub IsTrailing : Option (List ℕ) → Type 0
IsTrailing none = Unit
IsTrailing (some []) = Unit
IsTrailing (some (c ∷ cs)) = (c ≢ b' ') × NoNul (c ∷ cs)

abbrev pub trailing_count : Option (List ℕ) → ℕ
trailing_count none = 0
trailing_count (some t) = 1

-- Where the parameters stand from an index on.
abbrev pub positions : ℕ → List (List ℕ) → Option (List ℕ) → List ℕ
positions i [] none = []
positions i [] (some t) = (i + 1) ∷ []
positions i (p ∷ ps) t = i ∷ positions (i + length p + 1) ps t

-- The text of a command: letters, or three digits.
abbrev pub AreLetters : List ℕ → Type 0
AreLetters [] = Unit
AreLetters (c ∷ cs) = (is_alpha c ≡ true) × AreLetters cs

abbrev pub AreThreeDigits : List ℕ → Type 0
AreThreeDigits (a ∷ b ∷ c ∷ []) = (is_digit a ≡ true) × (is_digit b ≡ true) × (is_digit c ≡ true)
AreThreeDigits cs = ⊥

abbrev pub IsCommand : List ℕ → Type 0
IsCommand [] = ⊥
IsCommand (c ∷ cs) = AreLetters (c ∷ cs) ⊎ AreThreeDigits (c ∷ cs)

-- A message before it is printed.
pub record Message : Type 0 where
  pub prefix : Option (List ℕ)
  pub command : List ℕ
  pub words : List (List ℕ)
  pub trailing : Option (List ℕ)

abbrev pub IsPrefix : Option (List ℕ) → Type 0
IsPrefix none = Unit
IsPrefix (some []) = ⊥
IsPrefix (some (c ∷ cs)) = NoSpace (c ∷ cs)

-- The messages that can be written on one line.
pub record IsMessage (m : Message) : Type 0 where
  pub prefix_ok : IsPrefix m.prefix
  pub command_ok : IsCommand m.command
  pub words_ok : AreMiddle m.words
  pub trailing_ok : IsTrailing m.trailing
  pub few : length m.words + trailing_count m.trailing ≤ max_irc_params

abbrev pub print_prefix : Option (List ℕ) → List ℕ
print_prefix none = []
print_prefix (some p) = b':' ∷ (p ++ (b' ' ∷ []))

abbrev pub print : Message → List ℕ
print m = print_prefix m.prefix ++ (m.command ++ outer b' ' m.words m.trailing)

-- What a parsed message says, as strings.
pub record Texts : Type 0 where
  pub prefix : Option (List ℕ)
  pub command : List ℕ
  pub params : List (List ℕ)

abbrev pub prefix_string : List ℕ → Option ℕ → Option (List ℕ)
prefix_string buf none = none
prefix_string buf (some i) = some (string_at buf i)

abbrev pub strings : Option Parsed × List ℕ → Option Texts
strings (none, buf) = none
strings (some r, buf) = some (record {
  prefix = prefix_string buf r.prefix;
  command = string_at buf r.cmd;
  params = map (string_at buf) r.params;
})

abbrev pub strings_of : Message → Texts
strings_of m = record {
  prefix = m.prefix;
  command = m.command;
  params = all_params m.words m.trailing;
}
