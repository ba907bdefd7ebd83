-- ===== src/Commands/Tests.antt =====
-- Runs of the dispatcher.
use ya_ircd.Prelude.{ℕ, zero, suc, ◌≡◌, refl, Bool, true, false, List, [], ◌∷◌, none, some}
use ya_ircd.Commands.{
  CmdFunc, cmd_privmsg, cmds_registered, commands_alphabet, is_valid, char_to_pos, add_commands,
  cmds_init,
}
use ya_ircd.Commands.Dispatch.{entry}
use ya_ircd.Memory.{Heap, malloc, answer}
use ya_ircd.Trie.{
  Trie, init_trie, init_node, null_edges, get_edge, set_edge, added, add_word_trie,
  add_word_trie_aux,
}
use ya_ircd.Trie.Invariant.{fresh_node}

abbrev yes : ℕ → List Bool
yes zero = []
yes (suc n) = true ∷ yes n

abbrev memory : Heap
memory = record { answers = yes 120; allocs = 0; frees = 0 }

abbrev no_commands : Trie CmdFunc
no_commands = record { root = fresh_node CmdFunc 26; alphabet = commands_alphabet }

abbrev tries : Bool × Trie CmdFunc × Trie CmdFunc
tries = elim (cmds_init memory).0 [ none ↦ (false, no_commands, no_commands) | some made ↦ made ]

made : (cmds_init memory).0 ≡ some (true, tries.1, tries.2)
unfolding cmds_init init_trie init_node null_edges malloc answer add_commands add_word_trie
    add_word_trie_aux added get_edge set_edge is_valid char_to_pos
made = refl

-- `PrivMsg`.
abbrev cmd : List ℕ
cmd = b'P' ∷ b'r' ∷ b'i' ∷ b'v' ∷ b'M' ∷ b's' ∷ b'g' ∷ []

dispatched :
    elim (entry commands_alphabet cmds_registered cmd none) [ none ↦ none | some c ↦ some c.f ]
    ≡ some cmd_privmsg
unfolding is_valid char_to_pos
dispatched = refl
