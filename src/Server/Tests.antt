-- ===== src/Server/Tests.antt =====
-- A server that boots and accepts a connection.
use ya_ircd.Prelude.{
  ℕ, zero, suc, ◌≡◌, refl, ap, ◌∙◌, pos, Bool, true, false, List, [], ◌∷◌, none, some,
}
use ya_ircd.Memory.{Heap, malloc, answer, mutex_init, ready}
use ya_ircd.Trie.{
  Trie, Alphabet, init_trie, init_node, null_edges, get_edge, set_edge, added, add_word_trie,
  add_word_trie_aux,
}
use ya_ircd.Trie.Invariant.{fresh_node}
use ya_ircd.WordList.Update.{init_word_list}
use ya_ircd.ClientList.{nick_alphabet}
use ya_ircd.ClientList.Clients.{client_list_init}
use ya_ircd.Channels.{channel_alphabet, chan_init}
use ya_ircd.Commands.{CmdFunc, commands_alphabet, cmds_init, add_commands, is_valid, char_to_pos}
use ya_ircd.Server.{Server, Incoming, Structures, init_data_structures}
use ya_ircd.Server.Boot.{IsBooted, init_data_structures-IsBooted}

abbrev yes : ℕ → List Bool
yes zero = []
yes (suc n) = true ∷ yes n

abbrev server : Server
server = record {
  heap = record { answers = yes 2; allocs = 0; frees = 0 };
  sockets = 2;
  ssls = 0;
  threads = [];
}

abbrev incoming : Incoming
incoming = record { accepted = some 5; inet = true; handshake_failed = false; created = pos 0 }

abbrev memory : Heap
memory = record { answers = yes 300; allocs = 0; frees = 0 }

abbrev no_words : {V : Type 0} → Alphabet → Trie V
no_words {V} a = record { root = fresh_node V a.edges_no; alphabet = a }

-- The heap behind the initialisation of the clients, and of the channels.
abbrev later : Heap
later = record { answers = yes 295; allocs = 4; frees = 0 }

abbrev latest : Heap
latest = record { answers = yes 290; allocs = 8; frees = 0 }

clients_made : client_list_init {Client = ℕ} memory ≡ (some (no_words nick_alphabet), later)
unfolding client_list_init init_word_list mutex_init ready init_trie init_node malloc answer
clients_made = refl

channels_made : chan_init later ≡ (some (no_words channel_alphabet), latest)
unfolding chan_init init_word_list mutex_init ready init_trie init_node malloc answer
channels_made = refl

abbrev no_commands : Trie CmdFunc
no_commands = no_words commands_alphabet

abbrev tries : Bool × Trie CmdFunc × Trie CmdFunc
tries = elim (cmds_init latest).0 [ none ↦ (false, no_commands, no_commands) | some made ↦ made ]

commands_made : (cmds_init latest).0 ≡ some (true, tries.1, tries.2)
unfolding cmds_init init_trie init_node null_edges malloc answer add_commands add_word_trie
    add_word_trie_aux added get_edge set_edge is_valid char_to_pos
commands_made = refl

abbrev structures : Structures
structures = record {
  clients = no_words nick_alphabet;
  channels = no_words channel_alphabet;
  commands_registered = tries.1;
  commands_unregistered = tries.2;
}

booted : (init_data_structures memory).0 ≡ some structures
unfolding init_data_structures
booted =
    let channels = ap (λ p. chan_init p.1) clients_made ∙ channels_made in
    let commands = ap (λ p. (cmds_init p.1).0) channels ∙ commands_made in
    rw (init_data_structures, ap (λ p. p.0) clients_made, ap (λ p. p.0) channels, commands) refl

init_data_structures-IsBooted_example : IsBooted structures
init_data_structures-IsBooted_example = init_data_structures-IsBooted memory booted
