-- ===== src/Registration/Tests.antt =====
-- Runs of the registration of a client.
use ya_ircd.Prelude.{
  ℕ, zero, suc, ◌≡◌, refl, Bool, true, false, List, [], ◌∷◌, none, some, inl, inr, arith,
}
use ya_ircd.Memory.{Heap, malloc, mutex_init, answer, ready, free}
use ya_ircd.Trie.{
  init_trie, init_node, null_edges, get_edge, set_edge, added, add_word_trie, add_word_trie_aux,
  find_word_trie, find_word_trie_aux,
}
use ya_ircd.Trie.Laws.{init_trie-IsTrie}
use ya_ircd.Trie.Invariant.{fresh_node}
use ya_ircd.ClientList.{nick_is_valid, nick_char_to_pos, nick_alphabet}
use ya_ircd.ClientList.Nicks.{nick_alphabet-IsAlphabet}
use ya_ircd.ClientList.Clients.{client_list_add}
use ya_ircd.WordList.{YaircdNode}
use ya_ircd.WordList.Update.{ListState, node_of, list_add, list_add_nolock, new_node, insert_node}
use ya_ircd.Registration.{
  CString, State, Reply, Exit, strdup, free_string, welcome, set_nick, drop_nick, nick_added,
  list_nick, cmd_nick_unregistered, set_user, cmd_user_unregistered, destroy_client,
}
use ya_ircd.Registration.Owned.{Absent}
use ya_ircd.Registration.Invariant.{IsClient}
use ya_ircd.Registration.Nick.{NickEnds, cmd_nick_unregistered-NickEnds}
use ya_ircd.Registration.User.{UserEnds, cmd_user_unregistered-UserEnds}
use ya_ircd.Registration.Destroy.{Before, NamesFreed, destroy_client_lem, user_twice-destroy_client}

abbrev yes : ℕ → List Bool
yes zero = []
yes (suc n) = true ∷ yes n

abbrev memory : Heap
memory = record { answers = yes 16; allocs = 0; frees = 0 }

abbrev nobody : ListState ℕ
nobody = record {
  trie = record { root = fresh_node (YaircdNode ℕ) 35; alphabet = nick_alphabet };
  heap = memory;
}

nobody_made : (init_trie {V = YaircdNode ℕ} nick_alphabet memory).0 ≡ some nobody.trie
unfolding init_trie init_node malloc answer
nobody_made = refl

-- Client 7 has connected.
abbrev connected : State
connected = record {
  client = record {
    self = 7;
    nick = CString.null;
    username = CString.null;
    realname = CString.null;
    is_registered = false;
  };
  list = nobody;
  sent = [];
}

connected-IsClient : IsClient connected
connected-IsClient =
    let (trie, none_there) =
      init_trie-IsTrie nick_alphabet memory nick_alphabet-IsAlphabet nobody_made in
    record {
      registry = record { trie = trie; nicks = refl };
      owned = λ q found. let gone = none_there q in absurd (ground arith);
      user_there = tt;
      real_there = tt;
      registered = refl;
    }

abbrev al : List ℕ
al = b'A' ∷ b'l' ∷ []

cmd_nick_unregistered-NickEnds_example :
    NickEnds connected al (cmd_nick_unregistered (al ∷ []) connected)
cmd_nick_unregistered-NickEnds_example =
    cmd_nick_unregistered-NickEnds connected al [] connected-IsClient refl

-- It is in the list as `Al`.
abbrev listed : ListState ℕ
listed = (list_add_nolock 7 al nobody).1

abbrev named : State
named = record connected {
  client = record connected.client { nick = CString.string al };
  list = record listed { heap = (malloc listed.heap).1 };
}

named_returned : cmd_nick_unregistered (al ∷ []) connected ≡ Exit.returned named
unfolding cmd_nick_unregistered list_nick nick_added drop_nick set_nick strdup welcome
    client_list_add list_add list_add_nolock new_node insert_node malloc answer mutex_init ready
    add_word_trie add_word_trie_aux added get_edge set_edge null_edges init_node find_word_trie
    find_word_trie_aux nick_is_valid nick_char_to_pos
named_returned = refl

named-IsClient : IsClient named
named-IsClient =
    let ends = cmd_nick_unregistered-NickEnds connected al [] connected-IsClient refl in
    (rw named_returned at ends).0

abbrev cmd : List ℕ
cmd = b'U' ∷ []

abbrev names : List (List ℕ)
names = al ∷ [] ∷ [] ∷ al ∷ []

cmd_user_unregistered-UserEnds_example :
    UserEnds named cmd names (cmd_user_unregistered cmd names named)
cmd_user_unregistered-UserEnds_example =
    cmd_user_unregistered-UserEnds named cmd names named-IsClient refl

abbrev registered : State
registered = record named {
  client = record named.client {
    username = CString.string al;
    realname = CString.string al;
    is_registered = true;
  };
  list = record named.list { heap = (malloc (malloc named.list.heap).1).1 };
  sent = Reply.send_welcome ∷ Reply.send_motd ∷ [];
}

registered_returned : cmd_user_unregistered cmd names named ≡ Exit.returned registered
unfolding cmd_user_unregistered free_string set_user strdup welcome list_add_nolock new_node
    insert_node malloc answer mutex_init ready add_word_trie add_word_trie_aux added get_edge
    set_edge null_edges init_node find_word_trie find_word_trie_aux nick_is_valid nick_char_to_pos
registered_returned = refl

registered-IsClient : IsClient registered
registered-IsClient =
    let ends = cmd_user_unregistered-UserEnds named cmd names named-IsClient refl in
    elim (rw registered_returned at ends) [
      | inl (few, _) ↦ absurd (omega (arith, few))
      | inr (_, _, _, _, _, _, still) ↦ still.0
    ]

destroy_client_lem_example :
    (s1 s' : State) × (destroy_client registered ≡ some s')
    × Before registered s1
    × NamesFreed s1 s'
    × (true ≡ true → Absent 7 s'.list.trie)
    × (true ≡ false
        → (nick : List ℕ) → CString.string al ≡ CString.string nick
        → find_word_trie s'.list.trie nick ≡ some (node_of 7))
destroy_client_lem_example = destroy_client_lem registered registered-IsClient

-- Client 7 has given its names and no nickname, and there is no memory left.
abbrev nameless : State
nameless = record connected {
  client = record connected.client { username = CString.string al; realname = CString.string al };
  list = record nobody { heap = record memory { answers = [] } };
}

no_memory : (malloc (free (free nameless.list.heap))).0 ≡ false
unfolding malloc answer
no_memory = refl

user_twice-destroy_client_example :
    (s' : State) × (cmd_user_unregistered cmd names nameless ≡ Exit.terminated s')
    × (destroy_client s' ≡ none)
user_twice-destroy_client_example =
    user_twice-destroy_client nameless cmd names al al refl refl refl refl (omega arith) no_memory
