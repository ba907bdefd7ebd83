-- ===== src/ClientList.antt =====
-- src/clients/client_list.c: the characters of a nickname, and their positions in the trie.
pub mod Nicks
pub mod Clients
mod Tests
use ya_ircd.Prelude.{
  ℕ, ◌+◌, ◌-◌, ◌<◌, Bool, true, false, ◌&&◌, ◌||◌, Option, none, some, ◌==◌, leb, ltb,
  if◌then◌else◌,
}
use ya_ircd.Trie.{Alphabet}

-- A `char` is its value as an `unsigned char`. A test against the letters fails for 128 and above,
-- as it does for the negative values that they have as a signed `char`.
abbrev is_lower : ℕ → Bool
is_lower s = leb b'a' s && leb s b'z'

abbrev is_upper : ℕ → Bool
is_upper s = leb b'A' s && leb s b'Z'

-- `tolower` of the C locale.
abbrev pub tolower : ℕ → ℕ
tolower s = if is_upper s then s + 32 else s

abbrev pub nick_alphabet_size : ℕ
nick_alphabet_size = 26

abbrev pub nick_special_chars_size : ℕ
nick_special_chars_size = 9

unfoldable pub nick_is_valid : ℕ → Bool
nick_is_valid s =
    is_lower s
    || is_upper s
    || s == b'-'
    || s == b'['
    || s == b']'
    || s == b'\\'
    || s == b'`'
    || s == b'^'
    || s == b'{'
    || s == b'}'
    || s == b'|'

-- The `char` -1 is 255.
unfoldable pub special_id_to_char : ℕ → ℕ
special_id_to_char i =
    if i == 0
    then b'-'
    else if i == 1
    then b'{'
    else if i == 2
    then b'}'
    else if i == 3
    then b'|'
    else if i == 4
    then b'`'
    else if i == 5
    then b'^'
    else 255

unfoldable pub nick_pos_to_char : ℕ → ℕ
unfolding special_id_to_char
nick_pos_to_char i =
    if ltb i nick_alphabet_size then b'a' + i else special_id_to_char (i - nick_alphabet_size)

-- `none` is -1.
unfoldable pub special_char_id : ℕ → Option ℕ
special_char_id s =
    if s == b'-'
    then some 0
    else if s == b'[' || s == b'{'
    then some 1
    else if s == b']' || s == b'}'
    then some 2
    else if s == b'\\' || s == b'|'
    then some 3
    else if s == b'`'
    then some 4
    else if s == b'^'
    then some 5
    else none

abbrev special_pos : Option ℕ → ℕ
special_pos none = nick_alphabet_size - 1
special_pos (some i) = nick_alphabet_size + i

unfoldable pub nick_char_to_pos : ℕ → ℕ
unfolding special_char_id
nick_char_to_pos s =
    if is_lower s || is_upper s then tolower s - b'a' else special_pos (special_char_id s)

-- What `client_list_init` and `join_newchan` give to `init_trie`.
abbrev pub nick_alphabet : Alphabet
nick_alphabet = record {
  is_valid = nick_is_valid;
  pos_to_char = nick_pos_to_char;
  char_to_pos = nick_char_to_pos;
  edges_no = nick_alphabet_size + nick_special_chars_size;
}
