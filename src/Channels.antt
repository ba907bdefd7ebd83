-- ===== src/Channels.antt =====
-- src/channel/channel.c: the channels and their users.
pub mod Leave
pub mod Join
pub mod Talk
pub mod Names
pub mod Joining
pub mod Leaving
pub mod Elsewhere
pub mod Quit
pub mod Forgetting
pub mod Parting
pub mod Visit
pub mod Places
pub mod Handlers
pub mod Delivery
mod Tests
use ya_ircd.Prelude.{
  ℕ, zero, suc, ◌+◌, ◌-◌, ◌%◌, Bool, true, false, not, ◌&&◌, List, [], ◌∷◌, ◌++◌, Option, none,
  some, ◌==◌, if◌then◌else◌, set, map,
}
use ya_ircd.Memory.{Heap, malloc, free}
use ya_ircd.ClientList.{nick_alphabet, tolower}
use ya_ircd.Trie.{
  Trie, Alphabet, Status, init_trie, add_word_trie, delete_word_trie, trie_for_each, destroy_trie,
}
use ya_ircd.WordList.{
  YaircdNode, M, released, list_find_and_execute, list_find_and_execute_globalock,
}
use ya_ircd.WordList.Update.{
  ListCode, ListState, init_word_list, list_add_nolock, list_delete_nolock,
}

unfoldable pub chan_is_valid : ℕ → Bool
chan_is_valid c =
    not (c == 0)
    && not (c == 7)
    && not (c == b'\r')
    && not (c == b'\n')
    && not (c == b' ')
    && not (c == b',')
    && not (c == b':')

unfoldable pub chan_pos_to_char : ℕ → ℕ
chan_pos_to_char i = i % 256

unfoldable pub chan_char_to_pos : ℕ → ℕ
chan_char_to_pos c = c % 256

abbrev pub channel_alphabet : Alphabet
channel_alphabet = record {
  is_valid = chan_is_valid;
  pos_to_char = chan_pos_to_char;
  char_to_pos = chan_char_to_pos;
  edges_no = 256;
}

-- `user` is the address of a client.
pub record ChanUser : Type 0 where
  pub modes : ℕ
  pub user : ℕ

pub record IrcChannel : Type 0 where
  pub name : List ℕ
  pub users : Trie ChanUser
  pub users_count : ℕ
  pub modes : ℕ

-- The client whose thread runs: its address, its nickname, and the channels it is in, `none` for a
-- free place.
pub record Member : Type 0 where
  pub self : ℕ
  pub nick : List ℕ
  pub channels : List (Option (List ℕ))
  pub channels_count : ℕ

-- What is written to the client: the messages of `join_ack` about the channel with a name for each
-- user, and the lines of `LIST`.
pub data Ack : Type 0 where
  ack_join ack_mode ack_topic ack_end : List ℕ → Ack
  ack_name ack_list : List ℕ → ℕ → Ack
  ack_list_end : Ack

-- The list of channels, which holds addresses, with the heap; the channels by address, and an address
-- that is not in use; the client; the messages put in the queues of clients, and those written to the
-- client, the last at the end.
pub record Net : Type 0 where
  pub list : ListState ℕ
  pub chans : ℕ → IrcChannel
  pub next : ℕ
  pub client : Member
  pub queued : List (ℕ × List ℕ)
  pub acks : List Ack

-- 0 and the codes of channel.h.
pub data ChanCode : Type 0 where
  chan_ok chan_no_mem chan_invalid_name chan_not_on_channel chan_no_such_channel
        chan_limit_exceeded :
      ChanCode

unfoldable pub chan_init : Heap → Option (Trie (YaircdNode ℕ)) × Heap
chan_init h = init_word_list channel_alphabet h

-- An assignment to a channel.
unfoldable pub put_chan : ℕ → IrcChannel → Net → Net
put_chan at c s = record s { chans = λ i. if i == at then c else s.chans i }

abbrev pub put_heap : Heap → Net → Net
put_heap h s = record s { list = record s.list { heap = h } }

abbrev pub ack : Ack → Net → Net
ack a s = record s { acks = s.acks ++ (a ∷ []) }

-- One message for the user's queue; `none` is a read through `NULL`.
unfoldable pub notify_channel_user : List ℕ → Option ChanUser → Option Net → Option Net
notify_channel_user irc_reply none s = none
notify_channel_user irc_reply (some u) none = none
notify_channel_user irc_reply (some u) (some s) =
    some (record s { queued = s.queued ++ ((u.user, irc_reply) ∷ []) })

unfoldable pub join_ack_aux : List ℕ → List ℕ → Option ChanUser → Option Net → Option Net
unfolding notify_channel_user
join_ack_aux channel irc_reply none s = none
join_ack_aux channel irc_reply (some u) none = none
join_ack_aux channel irc_reply (some u) (some s) =
    let s' = ack (ack_name channel u.user) s in
    if u.user == s.client.self then some s' else notify_channel_user irc_reply (some u) (some s')

unfoldable pub send_msg_to_chan_aux : List ℕ → Option ChanUser → Option Net → Option Net
unfolding notify_channel_user
send_msg_to_chan_aux irc_reply none s = none
send_msg_to_chan_aux irc_reply (some u) none = none
send_msg_to_chan_aux irc_reply (some u) (some s) =
    if u.user == s.client.self then some s else notify_channel_user irc_reply (some u) (some s)

-- `destroy_trie(chan->users, TRIE_NO_FREE_DATA, NULL)`.
unfoldable pub destroy_users : Trie ChanUser → Heap → Heap
destroy_users users h = (destroy_trie users false (λ d s. s) (tt, h)).1

-- A callback under the lock of the list: `none` inside is `NULL`.
abbrev pub Callback : Type 0
Callback = Net → Option (Option (Unit {0}) × Net)

-- The callback for a node, whose data is an address; `none` is a read through `NULL`.
abbrev pub on_channel : (ℕ → Callback) → Option ℕ → M Net (Option (Unit {0}))
on_channel f none l s = none
on_channel f (some at) l s = elim (f at s) [ none ↦ none | some (r, s') ↦ some (r, l, s') ]

abbrev pub on_missing : Callback → M Net (Option (Unit {0}))
on_missing f l s = elim (f s) [ none ↦ none | some (r, s') ↦ some (r, l, s') ]
