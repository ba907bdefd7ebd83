-- ===== src/Channels/Talk.antt =====
-- src/channel/channel.c: messages to a channel.
use ya_ircd.Prelude.{ℕ, Bool, List, Option, none, some, if◌then◌else◌}
use ya_ircd.Trie.{trie_for_each}
use ya_ircd.WordList.{M, released, list_find_and_execute}
use ya_ircd.Channels.{
  Net, ChanCode, chan_ok, chan_no_such_channel, send_msg_to_chan_aux, Callback, on_channel,
}

-- What `cmd_print_reply` prints for a nickname, a channel and a text.
module _ (msg_text : List ℕ → List ℕ → List ℕ → List ℕ) where
  unfoldable pub send_msg_to_chan : List ℕ → ℕ → Callback
  unfolding send_msg_to_chan_aux
  send_msg_to_chan irc_reply at s =
      elim (trie_for_each (s.chans at).users (send_msg_to_chan_aux irc_reply) (some s)) [
        | none ↦ none
        | some s' ↦ some (none, s')
      ]

  unfoldable pub channel_msg : List ℕ → List ℕ → Net → Option (ChanCode × Net)
  unfolding send_msg_to_chan
  channel_msg channel msg s =
      let search : M Net (Option (Unit {0}) × Bool) =
        list_find_and_execute (λ n. n.list.trie)
          (some (on_channel (send_msg_to_chan (msg_text s.client.nick channel msg)))) none
          channel in
      elim (search released s) [
        | none ↦ none
        | some ((_, result), _, s') ↦ some (if result then chan_ok else chan_no_such_channel, s')
      ]
