-- ===== src/Channels/Parting.antt =====
-- `PART`: the search for the channel, and what the client remembers of it.
use ya_ircd.Prelude.{ℕ, ◌≡◌, refl, inl, inr, true, false, List, Option, none, some, Option-cases}
use ya_ircd.Trie.{find_word_trie}
use ya_ircd.Trie.Laws.{IsTrie}
use ya_ircd.WordList.{YaircdNode, released, list_held}
use ya_ircd.WordList.Locking.{KeepsLocks, finished, list_find_and_execute_lem}
use ya_ircd.WordList.Update.{node_of}
use ya_ircd.Channels.{ChanUser, Net, ChanCode, chan_ok, chan_not_on_channel, Callback, on_channel}
use ya_ircd.Channels.Leave.{find_entry, leave_channel, find_and_leave, forget_channel, do_part}
use ya_ircd.Channels.Forgetting.{Forgot, forget_channel-Forgot}
use ya_ircd.Channels.Leaving.{IsUsers, Left, LeftAs, leave_channel-LeftAs}

pub on_channel-KeepsLocks : (f : ℕ → Callback) (d : Option ℕ) → KeepsLocks (on_channel f d)
on_channel-KeepsLocks f none l s = tt
on_channel-KeepsLocks f (some at) l s = elim (Option-cases (f at s)) [
  | inl e ↦ rw (on_channel, e) tt
  | inr (r, e) ↦ rw (on_channel, e) refl
]

-- The search with `leave_channel`, in a list where the channel is not, or is at an address.
pub find_and_leave_lem :
    (irc_reply channel : List ℕ) (s : Net)
    → find_and_leave irc_reply channel s ≡ elim (find_word_trie s.list.trie channel) [
      | none ↦ some ((none, false), released, s)
      | some n ↦ finished true (on_channel (leave_channel irc_reply) n.value list_held s)
    ]
find_and_leave_lem irc_reply channel s =
    (list_find_and_execute_lem (λ n. n.list.trie) channel
      (some (on_channel (leave_channel irc_reply))) none s
      (λ d. on_channel-KeepsLocks (leave_channel irc_reply) d) (λ l t. refl)).1

-- How `PART` of a channel at an address ends, by whether the client is one of its users.
abbrev pub PartedAt : Net → List ℕ → ℕ → Option ChanUser → Option (ChanCode × Net) → Type 0
PartedAt s channel at none out =
    (s' : Net) × (out ≡ some (chan_not_on_channel, s'))
    × (s'.list.trie ≡ s.list.trie)
    × (s'.client ≡ s.client)
    × (s'.queued ≡ s.queued)
PartedAt s channel at (some u) out =
    (s1 s' : Net) × (out ≡ some (chan_ok, s')) × Left s at s1 × Forgot channel s1 s'

module _ (part_text : List ℕ → List ℕ → List ℕ → List ℕ) (channel part_msg : List ℕ) (s : Net) where
  parted :
      (at : ℕ) (found : Option ChanUser)
      → find_word_trie s.list.trie channel ≡ some (node_of at)
      → let irc_reply = part_text s.client.nick channel part_msg in
        LeftAs s at found (leave_channel irc_reply at s)
        → PartedAt s channel at found (do_part part_text channel part_msg s)
  unfolding do_part
  parted at none there (s', e, same, me, silent, _) =
      let search = find_and_leave_lem (part_text s.client.nick channel part_msg) channel s in
      (s', rw (do_part, search, there, e) refl, same, me, silent)
  parted at (some u) there (s', e, left) =
      let search = find_and_leave_lem (part_text s.client.nick channel part_msg) channel s in
      let (s2, forgets, forgot) = forget_channel-Forgot channel s' in
      (s', s2, rw (do_part, search, there, e, forgets) refl, left, forgot)

  -- `PART` of a channel in the list whose users are well formed: if the client is one of them, it
  -- leaves, as `leave_channel` does it, and 0 is returned; the first of its places with a name that
  -- is the same but for case is emptied and the name freed, with one channel less counted, and if
  -- there is no such place all its places stay. If it is not a user, `CHAN_NOT_ON_CHANNEL` is
  -- returned, and neither the list nor the client changes, and no message is sent.
  pub do_part-PartedAt :
      (at : ℕ)
      → IsTrie (YaircdNode ℕ) s.list.trie
      → IsUsers (s.chans at).users
      → find_word_trie s.list.trie channel ≡ some (node_of at)
      → PartedAt s channel at
          (find_word_trie (s.chans at).users s.client.nick)
          (do_part part_text channel part_msg s)
  do_part-PartedAt at lv uv there =
      parted at _ there (leave_channel-LeftAs (part_text s.client.nick channel part_msg) s at lv uv)

  -- `PART` of a channel that is not in the list returns 0, and frees the client's first place with
  -- a name that is the same but for case, whichever channel that is.
  do_part-missing :
      find_word_trie s.list.trie channel ≡ none
      → do_part part_text channel part_msg s
        ≡ some (forget_channel (find_entry s.client.channels channel) s)
  unfolding do_part
  do_part-missing missing =
      let search = find_and_leave_lem (part_text s.client.nick channel part_msg) channel s in
      rw (do_part, search, missing) refl
