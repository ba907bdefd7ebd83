-- ===== src/ClientList/Tests.antt =====
-- The alphabet of nicknames at some characters.
use ya_ircd.Prelude.{ℕ, ◌≡◌, ◌≢◌, refl, Bool, true, List, [], ◌∷◌, some, zero, suc}
use ya_ircd.ClientList.{nick_is_valid, nick_char_to_pos, nick_alphabet}
use ya_ircd.ClientList.Clients.{
  client_list_find_and_execute, client_list_add, client_list_add-found,
}
use ya_ircd.Memory.{Heap, malloc, mutex_init, answer, ready, free}
use ya_ircd.Trie.{
  init_trie, init_node, null_edges, get_edge, set_edge, added, add_word_trie, add_word_trie_aux,
  find_word_trie, find_word_trie_aux,
}
use ya_ircd.Trie.Laws.{init_trie-IsTrie}
use ya_ircd.Trie.Invariant.{fresh_node}
use ya_ircd.ClientList.Nicks.{nick_alphabet-IsAlphabet}
use ya_ircd.WordList.{YaircdNode, released, pure}
use ya_ircd.WordList.Update.{
  ok, already_exists, ListState, list_add, list_add_nolock, new_node, insert_node,
}
use ya_ircd.Trie.Keys.{is_word}

valid_bracket : nick_is_valid b'[' ≡ true
unfolding nick_is_valid
valid_bracket = refl

valid_brace : nick_is_valid b'{' ≡ true
unfolding nick_is_valid
valid_brace = refl

abbrev upper : List ℕ
upper = b'A' ∷ b'[' ∷ []

abbrev lower : List ℕ
lower = b'a' ∷ b'{' ∷ []

abbrev yes : ℕ → List Bool
yes zero = []
yes (suc n) = true ∷ yes n

abbrev memory : Heap
memory = record { answers = yes 16; allocs = 0; frees = 0 }

abbrev no_clients : ListState ℕ
no_clients = record {
  trie = record { root = fresh_node (YaircdNode ℕ) 35; alphabet = nick_alphabet };
  heap = memory;
}

made : (init_trie {V = YaircdNode ℕ} nick_alphabet memory).0 ≡ some no_clients.trie
unfolding init_trie init_node malloc answer
made = refl

-- Client 4, as `A[`.
abbrev one_client : ListState ℕ
one_client = (list_add_nolock 4 upper no_clients).1

added_upper : client_list_add 4 upper released no_clients ≡ some (ok, released, one_client)
unfolding client_list_add list_add list_add_nolock new_node insert_node malloc answer mutex_init
    ready add_word_trie add_word_trie_aux added get_edge set_edge null_edges init_node
    find_word_trie find_word_trie_aux nick_is_valid nick_char_to_pos
added_upper = refl

word_upper : is_word nick_alphabet upper ≡ true
unfolding nick_is_valid
word_upper = refl

word_lower : is_word nick_alphabet lower ≡ true
unfolding nick_is_valid
word_lower = refl

-- Client 5 is refused as `a{`; its node is freed.
abbrev behind_refusal : ListState ℕ
behind_refusal = record one_client { heap = free (new_node one_client.heap).1 }

refused :
    client_list_add 5 lower released one_client ≡ some (already_exists, released, behind_refusal)
unfolding client_list_add list_add list_add_nolock new_node insert_node malloc answer mutex_init
    ready add_word_trie add_word_trie_aux added get_edge set_edge null_edges init_node
    find_word_trie find_word_trie_aux nick_is_valid nick_char_to_pos
refused = refl

client_list_add-found_example :
    (client_list_find_and_execute lower (λ d. pure d) released one_client
      ≡ some ((some 4, true), released, one_client))
    × (already_exists ≢ ok)
client_list_add-found_example =
    client_list_add-found 4 5 upper lower no_clients (λ d. pure d)
      (init_trie-IsTrie nick_alphabet memory nick_alphabet-IsAlphabet made).0 refl added_upper
      word_upper word_lower refl (λ d l t. refl) refused
