-- ===== src/Commands.antt =====
-- src/msg/interpretmsg.c: the tables of commands, their tries, and the choice of a handler.
pub mod Dispatch
mod Tests
use ya_ircd.Prelude.{
  ℕ, ◌+◌, ◌-◌, ◌%◌, Bool, true, false, ◌&&◌, List, [], ◌∷◌, Option, none, some, if◌then◌else◌,
}
use ya_ircd.Memory.{Heap, free}
use ya_ircd.ClientList.{tolower}
use ya_ircd.ParseMsg.{is_alpha}
use ya_ircd.Trie.{Trie, Alphabet, Status, ok, init_trie, add_word_trie, find_word_trie}

-- The handlers, which stand for themselves.
pub data Handler : Type 0 where
  cmd_nick_unregistered cmd_user_unregistered cmd_nick_registered cmd_user_registered : Handler
  cmd_quit cmd_privmsg cmd_whois cmd_join cmd_part cmd_list cmd_pong : Handler

-- `struct cmd_func`.
pub record CmdFunc : Type 0 where
  pub command : List ℕ
  pub f : Handler

abbrev pub cmds_unregistered : List CmdFunc
cmds_unregistered =
    record { command = b'n' ∷ b'i' ∷ b'c' ∷ b'k' ∷ []; f = cmd_nick_unregistered }
    ∷ record { command = b'u' ∷ b's' ∷ b'e' ∷ b'r' ∷ []; f = cmd_user_unregistered }
    ∷ record { command = b'p' ∷ b'o' ∷ b'n' ∷ b'g' ∷ []; f = cmd_pong }
    ∷ []

abbrev pub cmds_registered : List CmdFunc
cmds_registered =
    record { command = b'n' ∷ b'i' ∷ b'c' ∷ b'k' ∷ []; f = cmd_nick_registered }
    ∷ record { command = b'u' ∷ b's' ∷ b'e' ∷ b'r' ∷ []; f = cmd_user_registered }
    ∷ record { command = b'q' ∷ b'u' ∷ b'i' ∷ b't' ∷ []; f = cmd_quit }
    ∷ record { command = b'p' ∷ b'r' ∷ b'i' ∷ b'v' ∷ b'm' ∷ b's' ∷ b'g' ∷ []; f = cmd_privmsg }
    ∷ record { command = b'w' ∷ b'h' ∷ b'o' ∷ b'i' ∷ b's' ∷ []; f = cmd_whois }
    ∷ record { command = b'j' ∷ b'o' ∷ b'i' ∷ b'n' ∷ []; f = cmd_join }
    ∷ record { command = b'p' ∷ b'a' ∷ b'r' ∷ b't' ∷ []; f = cmd_part }
    ∷ record { command = b'l' ∷ b'i' ∷ b's' ∷ b't' ∷ []; f = cmd_list }
    ∷ record { command = b'p' ∷ b'o' ∷ b'n' ∷ b'g' ∷ []; f = cmd_pong }
    ∷ []

unfoldable pub is_valid : ℕ → Bool
is_valid c = is_alpha c

-- The `char` of `c - 'a'`.
unfoldable pub pos_to_char : ℕ → ℕ
pos_to_char c = (c + 256 - b'a') % 256

unfoldable pub char_to_pos : ℕ → ℕ
char_to_pos c = tolower c - b'a'

abbrev pub commands_alphabet : Alphabet
commands_alphabet = record {
  is_valid = is_valid;
  pos_to_char = pos_to_char;
  char_to_pos = char_to_pos;
  edges_no = b'z' - b'a' + 1;
}

-- Whether it returns 0; it stops at the first word that cannot be added.
unfoldable pub add_commands : Trie CmdFunc → List CmdFunc → Heap → Bool × Trie CmdFunc × Heap
add_commands t [] h = (true, t, h)
add_commands t (c ∷ array) h =
    let (ret, t', h') = add_word_trie t c.command (some c) h in
    let rest = add_commands t' array h' in elim ret [ ok ↦ rest | _ ↦ (false, t', h') ]

-- The tries of the registered and of the unregistered, and whether 0 is returned; `none` if there
-- are no tries. `free(commands_registered)` frees one block.
unfoldable pub cmds_init : Heap → Option (Bool × Trie CmdFunc × Trie CmdFunc) × Heap
cmds_init h =
    let (registered, h1) = init_trie commands_alphabet h in
    let (unregistered, h2) = init_trie commands_alphabet h1 in
    elim registered [
      | none ↦ (none, h1)
      | some r ↦ elim unregistered [
        | none ↦ (none, free h2)
        | some u ↦
            let (i, u', h3) = add_commands u cmds_unregistered h2 in
            let (j, r', h4) = add_commands r cmds_registered h3 in (some (i && j, r', u'), h4)
      ]
    ]

-- What `interpret_msg` calls for the command `cmd`.
pub data Call : Type 0 where
  send_err_notregistered : Call
  send_err_unknowncommand : List ℕ → Call
  run : Handler → Call

unfoldable pub interpret_msg : Trie CmdFunc → Trie CmdFunc → Bool → List ℕ → Call
interpret_msg registered unregistered is_registered cmd =
    if is_registered
    then elim (find_word_trie registered cmd) [
      | none ↦ send_err_unknowncommand cmd
      | some c ↦ run c.f
    ]
    else elim (find_word_trie unregistered cmd) [ none ↦ send_err_notregistered | some c ↦ run c.f ]
