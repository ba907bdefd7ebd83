-- ===== src/Channels/Join.antt =====
-- src/channel/channel.c: joining a channel.
use ya_ircd.Prelude.{
  ℕ, suc, ◌+◌, Bool, not, List, [], ◌∷◌, Option, none, some, ◌==◌, if◌then◌else◌, set,
}
use ya_ircd.Memory.{malloc, free}
use ya_ircd.ClientList.{nick_alphabet}
use ya_ircd.Trie.{Trie, Status, init_trie, add_word_trie, trie_for_each}
use ya_ircd.WordList.{Locks, released, list_find_and_execute_globalock}
use ya_ircd.WordList.Update.{ListCode, list_add_nolock, list_delete_nolock}
use ya_ircd.Channels.{
  ChanUser, IrcChannel, ack_join, ack_mode, ack_topic, ack_end, Net, ChanCode, chan_ok, chan_no_mem,
  chan_limit_exceeded, put_chan, put_heap, ack, join_ack_aux, destroy_users, Callback, on_channel,
  on_missing,
}
use ya_ircd.Channels.Leave.{do_part}

-- The first free place of the array.
unfoldable pub first_free : List (Option (List ℕ)) → Option ℕ
first_free [] = none
first_free (none ∷ _) = some 0
first_free (some _ ∷ rest) = elim (first_free rest) [ none ↦ none | some i ↦ some (suc i) ]

-- What `cmd_print_reply` prints for a nickname and a channel.
module _ (join_text : List ℕ → List ℕ → List ℕ) where
  -- The channel at an address.
  unfoldable pub join_ack : ℕ → Net → Option Net
  unfolding join_ack_aux
  join_ack at s =
      let chan = s.chans at in
      let begun =
        ack (ack_topic chan.name) (ack (ack_mode chan.name) (ack (ack_join chan.name) s)) in
      elim (trie_for_each chan.users (join_ack_aux chan.name (join_text s.client.nick chan.name))
        (some begun)) [ none ↦ none | some s' ↦ some (ack (ack_end chan.name) s') ]

  -- The new channel's only user is added, with all that it needs allocated.
  unfoldable pub first_user : ℕ → List ℕ → Trie ChanUser → Callback
  unfolding join_ack destroy_users put_chan
  first_user at channel users s =
      let me : ChanUser = record { modes = 0; user = s.client.self } in
      let (ret, users', h) = add_word_trie users s.client.nick (some me) s.list.heap in
      let given_up =
        let (_, list') = list_delete_nolock channel (record s.list { heap = free h }) in
        put_heap (free (free (destroy_users users' list'.heap))) (record s { list = list' }) in
      let new_chan : IrcChannel = record {
        name = channel;
        users = users';
        users_count = 1;
        modes = 0;
      } in
      let joined : Option (Option (Unit {0}) × Net) =
        elim (join_ack at (put_chan at new_chan (put_heap h s))) [
          | none ↦ none
          | some s' ↦ some (some tt, s')
        ] in
      elim ret [ Status.no_mem ↦ some (none, given_up) | _ ↦ joined ]

  -- The channel enters the list; a name that is not valid is not noticed.
  unfoldable pub list_channel_as : ℕ → List ℕ → Trie ChanUser → Callback
  unfolding first_user
  list_channel_as at channel users s =
      let (ret, list') = list_add_nolock at channel s.list in
      let s' = record s { list = list' } in
      elim ret [
        | ListCode.no_mem ↦
            some (none, put_heap (free (free (free (destroy_users users list'.heap)))) s')
        | _ ↦ first_user at channel users s'
      ]

  unfoldable pub join_newchan : List ℕ → Callback
  unfolding list_channel_as
  join_newchan channel s =
      let (got_chan, h1) = malloc s.list.heap in
      let (got_user, h2) = malloc h1 in
      let (got_name, h3) = malloc h2 in
      let (made, h4) = init_trie nick_alphabet h3 in
      if not got_chan
      then some (none, put_heap h1 s)
      else if not got_user
      then some (none, put_heap h2 s)
      else if not got_name
      then some (none, put_heap (free (free h3)) s)
      else elim made [
        | none ↦ some (none, put_heap (free (free (free h4))) s)
        | some users ↦
            list_channel_as s.next channel users (put_heap h4 (record s { next = s.next + 1 }))
      ]

  -- A channel that is there already has the user, or none; both count.
  unfoldable pub join_existingchan : ℕ → Callback
  unfolding join_ack put_chan
  join_existingchan at s =
      let chan = s.chans at in
      let (got, h) = malloc s.list.heap in
      let me : ChanUser = record { modes = 0; user = s.client.self } in
      let (ret, users', h') = add_word_trie chan.users s.client.nick (some me) h in
      let joined : Option (Option (Unit {0}) × Net) =
        elim (join_ack at (put_chan at (record chan { users = users' }) (put_heap h' s))) [
          | none ↦ none
          | some s' ↦
              let c = s'.chans at in
              some (some tt, put_chan at (record c { users_count = c.users_count + 1 }) s')
        ] in
      if not got then some (none, put_heap h s) else elim ret [
        | Status.no_mem ↦
            some (none, put_heap (free h') (put_chan at (record chan { users = users' }) s))
        | _ ↦ joined
      ]

  -- `list_find_and_execute_globalock` on the channels.
  abbrev pub find_or_join : List ℕ → Net → Option ((Option (Unit {0}) × Bool) × Locks × Net)
  find_or_join channel s =
      list_find_and_execute_globalock (λ n. n.list.trie) (some (on_channel join_existingchan))
        (some (on_missing (join_newchan channel))) channel released s

-- What it prints for a nickname, a channel and a text.
module _ (part_text : List ℕ → List ℕ → List ℕ → List ℕ) where
  -- The place for the channel's name; `none` is a loop that leaves the array.
  unfoldable pub remember_channel : List ℕ → Option ℕ → Net → Option (ChanCode × Net)
  unfolding do_part
  remember_channel channel none s = none
  remember_channel channel (some i) s =
      let (got, h) = malloc s.list.heap in
      let parted : Option (ChanCode × Net) =
        elim (do_part part_text channel s.client.nick (put_heap h s)) [
          | none ↦ none
          | some (_, s') ↦ some (chan_no_mem, s')
        ] in
      if got
      then some (
        chan_ok,
        put_heap h (record s {
          client = record s.client {
            channels = set s.client.channels i (some channel);
            channels_count = s.client.channels_count + 1;
          };
        }),
      )
      else parted

-- With the limit of the configuration.
module _ (join_text : List ℕ → List ℕ → List ℕ) (part_text : List ℕ → List ℕ → List ℕ → List ℕ)
    (chanlimit : ℕ) where
  unfoldable pub do_join : List ℕ → Net → Option (ChanCode × Net)
  unfolding join_existingchan join_newchan remember_channel first_free
  do_join channel s =
      let joined : Option (ChanCode × Net) = elim (find_or_join join_text channel s) [
        | none ↦ none
        | some ((none, _), _, s') ↦ some (chan_no_mem, s')
        | some ((some _, _), _, s') ↦
            remember_channel part_text channel (first_free s'.client.channels) s'
      ] in
      if s.client.channels_count == chanlimit then some (chan_limit_exceeded, s) else joined
