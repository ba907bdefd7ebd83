-- ===== src/Channels/Leave.antt =====
-- src/channel/channel.c: leaving a channel.
use ya_ircd.Prelude.{
  ℕ, suc, ◌-◌, Bool, true, false, ◌&&◌, List, [], ◌∷◌, Option, none, some, ◌==◌, if◌then◌else◌, set,
}
use ya_ircd.Memory.{free}
use ya_ircd.ClientList.{tolower}
use ya_ircd.Trie.{delete_word_trie, trie_for_each}
use ya_ircd.WordList.{Locks, released, list_find_and_execute_globalock}
use ya_ircd.WordList.Update.{list_delete_nolock}
use ya_ircd.Channels.{
  Net, ChanCode, chan_ok, chan_not_on_channel, put_chan, put_heap, notify_channel_user,
  destroy_users, Callback, on_channel,
}

-- `strcasecmp(a, ==, b)`.
unfoldable pub same_nocase : List ℕ → List ℕ → Bool
same_nocase [] [] = true
same_nocase (c ∷ p) (d ∷ q) = tolower c == tolower d && same_nocase p q
same_nocase _ _ = false

-- The first place with the channel's name.
unfoldable pub find_entry : List (Option (List ℕ)) → List ℕ → Option ℕ
unfolding same_nocase
find_entry [] channel = none
find_entry (entry ∷ rest) channel =
    let later : Option ℕ = elim (find_entry rest channel) [ none ↦ none | some i ↦ some (suc i) ] in
    elim entry [ none ↦ later | some name ↦ if same_nocase name channel then some 0 else later ]

-- `destroy_channel`: the name, the channel and its trie of users are freed.
unfoldable pub destroy_channel : ℕ → Net → Net
unfolding destroy_users
destroy_channel at s =
    let chan = s.chans at in
    let (_, list') = list_delete_nolock chan.name s.list in
    put_heap (free (destroy_users chan.users (free list'.heap))) (record s { list = list' })

-- `leave_channel` with the message that the other users get. The count is at least 1 where a user
-- is found, so that it is 0 behind `--` exactly when it was 1.
unfoldable pub leave_channel : List ℕ → ℕ → Callback
unfolding destroy_channel notify_channel_user put_chan
leave_channel irc_reply at s =
    let chan = s.chans at in
    let (user, users', h) = delete_word_trie chan.users s.client.nick s.list.heap in
    let left = put_chan at (record chan { users = users' }) (put_heap (free h) s) in
    let told = trie_for_each users' (notify_channel_user irc_reply) (some left) in
    elim user [
      | none ↦ some (none, put_chan at (record chan { users = users' }) (put_heap h s))
      | some u ↦ elim told [
        | none ↦ none
        | some s' ↦
            let c = s'.chans at in
            let counted = put_chan at (record c { users_count = c.users_count - 1 }) s' in
            some (some tt, if c.users_count == 1 then destroy_channel at counted else counted)
      ]
    ]

abbrev pub find_and_leave :
    List ℕ → List ℕ → Net → Option ((Option (Unit {0}) × Bool) × Locks × Net)
find_and_leave irc_reply channel s =
    list_find_and_execute_globalock (λ n. n.list.trie) (some (on_channel (leave_channel irc_reply)))
      none channel released s

-- `do_part` behind the search; `none` stands for `i >= get_chanlimit()`.
unfoldable pub forget_channel : Option ℕ → Net → ChanCode × Net
forget_channel none s = (chan_ok, s)
forget_channel (some i) s = (
  chan_ok,
  put_heap (free s.list.heap) (record s {
    client = record s.client {
      channels = set s.client.channels i none;
      channels_count = s.client.channels_count - 1;
    };
  }),
)

-- The loop of `do_quit` over the places of the array.
unfoldable pub quit_channels : List ℕ → List (Option (List ℕ)) → Net → Option Net
unfolding leave_channel
quit_channels irc_reply [] s = some s
quit_channels irc_reply (none ∷ rest) s = quit_channels irc_reply rest s
quit_channels irc_reply (some channel ∷ rest) s = elim (find_and_leave irc_reply channel s) [
  | none ↦ none
  | some (_, _, s') ↦ quit_channels irc_reply rest (put_heap (free s'.list.heap) s')
]

-- What `cmd_print_reply` prints for a nickname, a channel and a text.
module _ (part_text : List ℕ → List ℕ → List ℕ → List ℕ) where
  -- The outcome `none` is a call that is not defined, or waits for a lock of its own.
  unfoldable pub do_part : List ℕ → List ℕ → Net → Option (ChanCode × Net)
  unfolding leave_channel forget_channel find_entry
  do_part channel part_msg s =
      elim (find_and_leave (part_text s.client.nick channel part_msg) channel s) [
        | none ↦ none
        | some ((ret, result), _, s') ↦
            let forgotten = forget_channel (find_entry s'.client.channels channel) s' in
            some (elim ret [
              | none ↦ if result then (chan_not_on_channel, s') else forgotten
              | some _ ↦ forgotten
            ])
      ]

-- What it prints for a nickname and a text.
module _ (quit_text : List ℕ → List ℕ → List ℕ) where
  -- The names are freed and stay in the array.
  unfoldable pub do_quit : List ℕ → Net → Option Net
  unfolding quit_channels
  do_quit quit_msg s = elim (quit_channels (quit_text s.client.nick quit_msg) s.client.channels s) [
    | none ↦ none
    | some s' ↦ some (record s' { client = record s'.client { channels_count = 0 } })
  ]
