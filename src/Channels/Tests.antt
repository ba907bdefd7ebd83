-- ===== src/Channels/Tests.antt =====
-- Runs on a channel with one user.
use ya_ircd.Prelude.{
  ℕ, zero, suc, ◌+◌, ◌≡◌, refl, Bool, true, List, [], ◌∷◌, none, some, arith, if◌then◌else◌,
}
use ya_ircd.Memory.{Heap, malloc, answer}
use ya_ircd.Trie.{
  Trie, Status, init_trie, init_node, null_edges, get_edge, set_edge, added, add_word_trie,
  add_word_trie_aux, find_word_trie, find_word_trie_aux,
}
use ya_ircd.Trie.Laws.{IsTrie, init_trie-IsTrie, word_trie-IsTrie}
use ya_ircd.Trie.Invariant.{fresh_node}
use ya_ircd.Trie.Keys.{same_key}
use ya_ircd.Trie.Filled.{fresh_node-IsFilled, add_word_trie-IsFilled}
use ya_ircd.ClientList.{nick_alphabet, nick_is_valid, nick_char_to_pos}
use ya_ircd.ClientList.Nicks.{nick_alphabet-IsAlphabet}
use ya_ircd.WordList.{YaircdNode}
use ya_ircd.WordList.Update.{node_of}
use ya_ircd.Channels.{channel_alphabet, chan_is_valid, chan_char_to_pos, ChanUser, Net, chan_ok}
use ya_ircd.Channels.Join.{join_existingchan, do_join}
use ya_ircd.Channels.Leave.{leave_channel, do_part}
use ya_ircd.Channels.Names.{channel_alphabet-IsAlphabet}
use ya_ircd.Channels.Joining.{with_me}
use ya_ircd.Channels.Leaving.{IsUsers, LeftAs, leave_channel-LeftAs}
use ya_ircd.Channels.Parting.{PartedAt, do_part-PartedAt}
use ya_ircd.Channels.Visit.{Visited, join_existingchan-leave_channel}
use ya_ircd.Channels.Places.{IsMember, do_join-IsMember}

abbrev yes : ℕ → List Bool
yes zero = []
yes (suc n) = true ∷ yes n

abbrev memory : Heap
memory = record { answers = yes 32; allocs = 0; frees = 0 }

abbrev room : List ℕ
room = b'#' ∷ b'a' ∷ []

abbrev upper_room : List ℕ
upper_room = b'#' ∷ b'A' ∷ []

abbrev bo : List ℕ
bo = b'b' ∷ b'o' ∷ []

abbrev al : List ℕ
al = b'a' ∷ b'l' ∷ []

abbrev no_channels : Trie (YaircdNode ℕ)
no_channels = record { root = fresh_node (YaircdNode ℕ) 256; alphabet = channel_alphabet }

abbrev no_users : Trie ChanUser
no_users = record { root = fresh_node ChanUser 35; alphabet = nick_alphabet }

abbrev as_bo : ChanUser
as_bo = record { modes = 0; user = 8 }

-- Client 8 is on the channel `#a`, at address 0, as `bo`.
abbrev users : Trie ChanUser
users = (add_word_trie no_users bo (some as_bo) memory).1

abbrev channels : Trie (YaircdNode ℕ)
channels = (add_word_trie no_channels room (some (node_of 0)) memory).1

-- Client 7 is `al`, and may join two channels.
abbrev net : Net
net = record {
  list = record { trie = channels; heap = memory };
  chans = λ i. record { name = room; users = users; users_count = 1; modes = 0 };
  next = 1;
  client = record { self = 7; nick = al; channels = none ∷ none ∷ []; channels_count = 0 };
  queued = [];
  acks = [];
}

no_channels_made : (init_trie {V = YaircdNode ℕ} channel_alphabet memory).0 ≡ some no_channels
unfolding init_trie init_node malloc answer
no_channels_made = refl

no_users_made : (init_trie {V = ChanUser} nick_alphabet memory).0 ≡ some no_users
unfolding init_trie init_node malloc answer
no_users_made = refl

channels-IsTrie : IsTrie (YaircdNode ℕ) channels
channels-IsTrie =
    let none_there =
      (init_trie-IsTrie channel_alphabet memory channel_alphabet-IsAlphabet no_channels_made).0 in
    (word_trie-IsTrie no_channels room (some (node_of 0)) memory none_there).0

bo_added : (add_word_trie no_users bo (some as_bo) memory).0 ≡ Status.ok
unfolding add_word_trie add_word_trie_aux added get_edge set_edge null_edges init_node malloc answer
    nick_is_valid nick_char_to_pos
bo_added = refl

users-IsUsers : IsUsers users
users-IsUsers =
    let none_there =
      (init_trie-IsTrie nick_alphabet memory nick_alphabet-IsAlphabet no_users_made).0 in
    record {
      trie = (word_trie-IsTrie no_users bo (some as_bo) memory none_there).0;
      filled =
          add_word_trie-IsFilled no_users bo as_bo memory (fresh_node-IsFilled ChanUser 35)
            bo_added;
    }

room_found : find_word_trie channels room ≡ some (node_of 0)
unfolding add_word_trie add_word_trie_aux added get_edge set_edge null_edges init_node malloc answer
    find_word_trie find_word_trie_aux chan_is_valid chan_char_to_pos
room_found = refl

upper_room_missing : find_word_trie channels upper_room ≡ none
unfolding add_word_trie add_word_trie_aux added get_edge set_edge null_edges init_node malloc answer
    find_word_trie find_word_trie_aux chan_is_valid chan_char_to_pos
upper_room_missing = refl

abbrev echo : List ℕ → List ℕ → List ℕ
echo nick channel = channel

abbrev said : List ℕ → List ℕ → List ℕ → List ℕ
said nick channel msg = msg

net_got : (malloc memory).0 ≡ true
unfolding malloc answer
net_got = refl

al_fits : (with_me echo 0 net users-IsUsers).0 ≡ Status.ok
unfolding add_word_trie add_word_trie_aux added get_edge set_edge null_edges init_node malloc answer
    nick_is_valid nick_char_to_pos
al_fits = refl

name_got : (malloc (with_me echo 0 net users-IsUsers).2).0 ≡ true
unfolding add_word_trie add_word_trie_aux added get_edge set_edge null_edges init_node malloc answer
    nick_is_valid nick_char_to_pos
name_got = refl

leave_channel-LeftAs_example : LeftAs net 0 (find_word_trie users al) (leave_channel bo 0 net)
leave_channel-LeftAs_example = leave_channel-LeftAs bo net 0 channels-IsTrie users-IsUsers

do_part-PartedAt_example : PartedAt net room 0 (find_word_trie users al) (do_part said room bo net)
do_part-PartedAt_example =
    do_part-PartedAt said room bo net 0 channels-IsTrie users-IsUsers room_found

join_existingchan-leave_channel_example :
    (s1 s2 : Net) × (join_existingchan echo 0 net ≡ some (some tt, s1))
    × (leave_channel bo 0 s1 ≡ some (some tt, s2))
    × Visited net 0 s2
join_existingchan-leave_channel_example =
    join_existingchan-leave_channel echo bo net 0 channels-IsTrie users-IsUsers (omega arith)
      net_got al_fits

net-IsMember : IsMember 2 net.client
net-IsMember = record { places = refl; counted = refl }

do_join-IsMember_example :
    (s' : Net) × (do_join echo said 2 room net ≡ some (chan_ok, s'))
    × IsMember 2 s'.client
    × (s'.client.channels_count ≡ 0 + 1)
    × ((q : List ℕ)
        → find_word_trie (s'.chans 0).users q ≡ (
            if same_key users.alphabet al q
            then some (record { modes = 0; user = 7 })
            else find_word_trie users q))
do_join-IsMember_example =
    do_join-IsMember echo said 2 room net 0 net-IsMember (omega arith) room_found users-IsUsers
      net_got al_fits name_got

-- Client 8 is on the channel as `bo`, and quits.
abbrev quitting : Net
quitting = record net {
  client = record { self = 8; nick = bo; channels = some room ∷ none ∷ []; channels_count = 1 };
}
