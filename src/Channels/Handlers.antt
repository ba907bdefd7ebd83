-- ===== src/Channels/Handlers.antt =====
-- src/msg/interpretmsg.c: the handlers of commands on channels, and of `PRIVMSG` and `QUIT`.
use ya_ircd.Prelude.{ℕ, Bool, false, List, [], ◌∷◌, ◌++◌, Option, none, some, ◌==◌, if◌then◌else◌}
use ya_ircd.Trie.{Trie}
use ya_ircd.WordList.{YaircdNode, M, released, list_find_and_execute, list_for_each}
use ya_ircd.Channels.{
  ack_list, ack_list_end, Net, ChanCode, chan_invalid_name, chan_not_on_channel,
  chan_no_such_channel, chan_limit_exceeded, ack, on_channel, Callback,
}
use ya_ircd.Channels.Join.{do_join}
use ya_ircd.Channels.Leave.{do_part}
use ya_ircd.Channels.Talk.{channel_msg}

-- The calls that tell the client of an error, with their arguments.
pub data Refusal : Type 0 where
  send_err_needmoreparams send_err_nosuchchannel send_err_toomanychannels send_err_notonchannel :
      List ℕ → Refusal
  send_err_norecipient send_err_nosuchnick : List ℕ → Refusal
  send_err_notexttosend : Refusal

-- A handler's outcome: the error it tells of, if any, and the state; `none` is a call that is not
-- defined.
abbrev pub Handled : Type 0
Handled = Option (Option Refusal × Net)

-- The `switch` of `cmd_join`; a lack of memory goes to the log.
abbrev pub join_refusal : List ℕ → ChanCode → Option Refusal
join_refusal channel chan_invalid_name = some (Refusal.send_err_nosuchchannel channel)
join_refusal channel chan_limit_exceeded = some (Refusal.send_err_toomanychannels channel)
join_refusal channel _ = none

abbrev pub part_refusal : List ℕ → ChanCode → Option Refusal
part_refusal channel chan_invalid_name = some (Refusal.send_err_nosuchchannel channel)
part_refusal channel chan_not_on_channel = some (Refusal.send_err_notonchannel channel)
part_refusal channel _ = none

abbrev pub switched : (ChanCode → Option Refusal) → Option (ChanCode × Net) → Handled
switched f none = none
switched f (some (code, s)) = some (f code, s)

module _ (join_text : List ℕ → List ℕ → List ℕ) (part_text : List ℕ → List ℕ → List ℕ → List ℕ)
    (chanlimit : ℕ) where
  unfoldable pub cmd_join : List ℕ → List (List ℕ) → Net → Handled
  unfolding do_join
  cmd_join cmd [] s = some (some (Refusal.send_err_needmoreparams cmd), s)
  cmd_join cmd (channel ∷ _) s =
      switched (join_refusal channel) (do_join join_text part_text chanlimit channel s)

module _ (part_text : List ℕ → List ℕ → List ℕ → List ℕ) where
  unfoldable pub cmd_part : List ℕ → List (List ℕ) → Net → Handled
  unfolding do_part
  cmd_part cmd [] s = some (some (Refusal.send_err_needmoreparams cmd), s)
  cmd_part cmd (channel ∷ []) s =
      switched (part_refusal channel) (do_part part_text channel s.client.nick s)
  cmd_part cmd (channel ∷ part_msg ∷ _) s =
      switched (part_refusal channel) (do_part part_text channel part_msg s)

-- One line of the list, for the address of a channel; a node without one is not reached.
unfoldable pub list_channel : Option ℕ → Net → Net
list_channel none s = s
list_channel (some at) s = ack (ack_list (s.chans at).name (s.chans at).users_count) s

unfoldable pub list_each_channel : Net → Option Net
unfolding list_channel
list_each_channel s = elim (list_for_each (λ n. n.list.trie) list_channel released s) [
  | none ↦ none
  | some (_, _, s') ↦ some (ack ack_list_end s')
]

unfoldable pub cmd_list : Net → Handled
unfolding list_each_channel
cmd_list s = elim (list_each_channel s) [ none ↦ none | some s' ↦ some (none, s') ]

-- `*params[0] == '#'`.
abbrev pub is_channel_name : List ℕ → Bool
is_channel_name [] = false
is_channel_name (c ∷ _) = c == b'#'

-- What `notify_privmsg` prints for the sender's nickname, the target and the text, and the
-- nickname of the client at an address.
module _ (msg_text : List ℕ → List ℕ → List ℕ → List ℕ) (nick_of : ℕ → List ℕ) where
  -- A message in the queue of the client `to`.
  unfoldable pub notify_privmsg : ℕ → List ℕ → List ℕ → Net → Net
  notify_privmsg to dest msg s = record s {
    queued = s.queued ++ ((to, msg_text s.client.nick dest msg) ∷ []);
  }

  -- The callback for a client of the list, on the address of the client.
  unfoldable pub cmd_privmsg_aux : List ℕ → ℕ → Callback
  unfolding notify_privmsg
  cmd_privmsg_aux msg target s = some (none, notify_privmsg target (nick_of target) msg s)

  -- `clients` is the list of clients, which the call leaves as it is.
  unfoldable pub cmd_privmsg : Trie (YaircdNode ℕ) → List (List ℕ) → Net → Handled
  unfolding channel_msg cmd_privmsg_aux
  cmd_privmsg clients [] s =
      some (
        some (Refusal.send_err_norecipient (b'P' ∷ b'R' ∷ b'I' ∷ b'V' ∷ b'M' ∷ b'S' ∷ b'G' ∷ [])),
        s,
      )
  cmd_privmsg clients (_ ∷ []) s = some (some Refusal.send_err_notexttosend, s)
  cmd_privmsg clients (target ∷ msg ∷ _) s =
      let nosuchnick : Option Refusal = some (Refusal.send_err_nosuchnick target) in
      let search : M Net (Option (Unit {0}) × Bool) =
        list_find_and_execute (λ _. clients) (some (on_channel (cmd_privmsg_aux msg))) none
          target in
      let to_client : Handled = elim (search released s) [
        | none ↦ none
        | some ((_, status), _, s') ↦ some (if status then none else nosuchnick, s')
      ] in
      let to_channel : Handled =
        switched (λ code. elim code [ chan_no_such_channel ↦ nosuchnick | _ ↦ none ])
          (channel_msg msg_text target msg s) in
      if is_channel_name target then to_channel else to_client
