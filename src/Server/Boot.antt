-- ===== src/Server/Boot.antt =====
-- What a server that has been set up starts from.
use ya_ircd.Prelude.{ℕ, ◌≡◌, true, false, List, none, some, arith}
use ya_ircd.Memory.{Heap, malloc, mutex_init}
use ya_ircd.Trie.{Trie, Alphabet, init_trie, find_word_trie}
use ya_ircd.Trie.Invariant.{IsAlphabet}
use ya_ircd.Trie.Laws.{IsTrie, init_trie-IsTrie, init_trie-alphabet}
use ya_ircd.WordList.{YaircdNode}
use ya_ircd.WordList.Update.{init_word_list}
use ya_ircd.ClientList.{nick_alphabet}
use ya_ircd.ClientList.Nicks.{nick_alphabet-IsAlphabet}
use ya_ircd.ClientList.Clients.{client_list_init}
use ya_ircd.Channels.{channel_alphabet, chan_init}
use ya_ircd.Channels.Names.{channel_alphabet-IsAlphabet}
use ya_ircd.Commands.{
  Call, cmds_init, cmds_registered, cmds_unregistered, commands_alphabet, interpret_msg,
}
use ya_ircd.Commands.Dispatch.{entry, interpret_msg-entry}
use ya_ircd.Server.{Structures, init_data_structures}

-- A list without words.
pub record IsEmpty (a : Alphabet) (t : Trie (YaircdNode ℕ)) : Type 0 where
  pub trie : IsTrie (YaircdNode ℕ) t
  pub over : t.alphabet ≡ a
  pub nothing : (word : List ℕ) → find_word_trie t word ≡ none

-- Nobody is there, there are no channels, and the tables of commands are loaded.
pub record IsBooted (s : Structures) : Type 0 where
  pub clients : IsEmpty nick_alphabet s.clients
  pub channels : IsEmpty channel_alphabet s.channels
  pub registered :
      (cmd : List ℕ)
      → interpret_msg s.commands_registered s.commands_unregistered true cmd
        ≡ elim (entry commands_alphabet cmds_registered cmd none) [
          | none ↦ Call.send_err_unknowncommand cmd
          | some c ↦ Call.run c.f
        ]
  pub unregistered :
      (cmd : List ℕ)
      → interpret_msg s.commands_registered s.commands_unregistered false cmd
        ≡ elim (entry commands_alphabet cmds_unregistered cmd none) [
          | none ↦ Call.send_err_notregistered
          | some c ↦ Call.run c.f
        ]

init_word_list-IsEmpty :
    (a : Alphabet) (h : Heap) {t : Trie (YaircdNode ℕ)}
    → IsAlphabet a
    → (init_word_list a h).0 ≡ some t
    → IsEmpty a t
unfolding init_word_list
init_word_list-IsEmpty a h {t} v e =
    let h2 = (mutex_init (malloc h).1).1 in
    let made : (init_trie a h2).0 ≡ some t = ground arith in
    let (trie, nothing) = init_trie-IsTrie a h2 v made in
    record { trie = trie; over = init_trie-alphabet a h2 made; nothing = nothing }

-- If the data structures are initialised without an error, then the list of clients and the list
-- of channels are well formed, each over its alphabet, and empty, and every command of a client
-- runs the handler that the table for registered, or for unregistered clients has for it.
pub init_data_structures-IsBooted :
    (h : Heap) {s : Structures} → (init_data_structures h).0 ≡ some s → IsBooted s
unfolding init_data_structures client_list_init chan_init
init_data_structures-IsBooted h {s} e =
    let h1 = (client_list_init {Client = ℕ} h).1 in
    let h2 = (chan_init h1).1 in
    let clients : (client_list_init {Client = ℕ} h).0 ≡ some s.clients = ground arith in
    let channels : (chan_init h1).0 ≡ some s.channels = ground arith in
    let commands : (cmds_init h2).0 ≡ some (true, s.commands_registered, s.commands_unregistered) =
      ground arith in
    record {
      clients = init_word_list-IsEmpty nick_alphabet h nick_alphabet-IsAlphabet clients;
      channels = init_word_list-IsEmpty channel_alphabet h1 channel_alphabet-IsAlphabet channels;
      registered = λ cmd. (interpret_msg-entry h2 cmd commands).0;
      unregistered = λ cmd. (interpret_msg-entry h2 cmd commands).1;
    }
