-- ===== src/Channels/Joining.antt =====
-- What joining a channel that exists does to its users.
use ya_ircd.Prelude.{
  ℕ, ◌+◌, ◌≡◌, refl, ap, ◌∙◌, inl, inr, true, List, [], ◌∷◌, ◌++◌, some, ◌==◌, Bool-cases,
  if◌then◌else◌,
}
use ya_ircd.Memory.{Heap, malloc}
use ya_ircd.Trie.{Trie, Status, find_word_trie, add_word_trie}
use ya_ircd.Trie.Keys.{same_key}
use ya_ircd.Trie.Laws.{find_word_trie-add_word_trie, word_trie-IsTrie}
use ya_ircd.Trie.Filled.{add_word_trie-IsFilled, trie_for_each-keeps}
use ya_ircd.Channels.{
  ChanUser, IrcChannel, ack_name, ack_end, ack_topic, ack_mode, ack_join, Net, put_chan, put_heap,
  ack, notify_channel_user, join_ack_aux,
}
use ya_ircd.Channels.Join.{join_ack, join_existingchan}
use ya_ircd.Channels.Leaving.{IsUsers, Told, put_chan-same}

join_ack_keeps :
    (channel irc_reply : List ℕ) (s0 : Net) (u : ChanUser) (s : Net)
    → Told s0 s
    → (s' : Net) × (join_ack_aux channel irc_reply (some u) (some s) ≡ some s') × Told s0 s'
unfolding join_ack_aux notify_channel_user
join_ack_keeps channel irc_reply s0 u s told = elim (Bool-cases (u.user == s.client.self)) [
  | inl me ↦ (
    ack (ack_name channel u.user) s,
    rw (join_ack_aux, me) refl,
    record {
      same_list = told.same_list;
      same_chans = told.same_chans;
      same_client = told.same_client;
    },
  )
  | inr other ↦
      let s1 = ack (ack_name channel u.user) s in
      (
        record s1 { queued = s1.queued ++ ((u.user, irc_reply) ∷ []) },
        rw (join_ack_aux, other) refl,
        record {
          same_list = told.same_list;
          same_chans = told.same_chans;
          same_client = told.same_client;
        },
      )
]

-- What a user's arrival leaves.
pub record Joined (s : Net) (at : ℕ) (h : Heap) (s' : Net) : Type 0 where
  pub heap : s'.list.heap ≡ h
  pub users_there : IsUsers (s'.chans at).users
  pub alphabet : (s'.chans at).users.alphabet ≡ (s.chans at).users.alphabet
  pub name : (s'.chans at).name ≡ (s.chans at).name
  pub others :
      (q : List ℕ)
      → find_word_trie (s'.chans at).users q ≡ (
          if same_key (s.chans at).users.alphabet s.client.nick q
          then some (record { modes = 0; user = s.client.self })
          else find_word_trie (s.chans at).users q)
  pub counted : (s'.chans at).users_count ≡ (s.chans at).users_count + 1
  pub same_list : s'.list.trie ≡ s.list.trie
  pub same_client : s'.client ≡ s.client

module _ (join_text : List ℕ → List ℕ → List ℕ) where
  -- The acknowledgement finds every user, and changes neither the list, the channels nor the client.
  pub join_ack-Told :
      (at : ℕ) (s : Net)
      → IsUsers (s.chans at).users
      → (s' : Net) × (join_ack join_text at s ≡ some s') × Told s s'
  unfolding join_ack
  join_ack-Told at s v =
      let name = (s.chans at).name in
      let begun = ack (ack_topic name) (ack (ack_mode name) (ack (ack_join name) s)) in
      let (s1, walked, told) =
        trie_for_each-keeps (join_ack_aux name (join_text s.client.nick name)) (Told s)
          (join_ack_keeps name (join_text s.client.nick name) s) (s.chans at).users begun v.filled
          (record { same_list = refl; same_chans = refl; same_client = refl }) in
      (
        ack (ack_end name) s1,
        rw (join_ack, walked) refl,
        record {
          same_list = told.same_list;
          same_chans = told.same_chans;
          same_client = told.same_client;
        },
      )

  module _ (at : ℕ) (s : Net) (v : IsUsers (s.chans at).users) where
    abbrev me : ChanUser
    me = record { modes = 0; user = s.client.self }

    -- The users with the client, on the heap behind the client's own block.
    abbrev pub with_me : Status × Trie ChanUser × Heap
    with_me = add_word_trie (s.chans at).users s.client.nick (some me) (malloc s.list.heap).1

    with_me-alphabet : with_me.1.alphabet ≡ (s.chans at).users.alphabet
    unfolding add_word_trie
    with_me-alphabet = refl

    with_me-IsUsers : with_me.0 ≡ Status.ok → IsUsers with_me.1
    with_me-IsUsers e = record {
      trie =
          (word_trie-IsTrie (s.chans at).users s.client.nick (some me) (malloc s.list.heap).1
            v.trie).0;
      filled =
          add_word_trie-IsFilled (s.chans at).users s.client.nick me (malloc s.list.heap).1 v.filled
            e;
    }

    abbrev one_more : IrcChannel → IrcChannel
    one_more c = record c { users_count = c.users_count + 1 }

    -- Joining a channel whose users are well formed, with memory for the user and the nodes of its
    -- nickname: the client is among the users, no other user changes, the list stays, and the
    -- count goes up by one, also if the client was there before.
    pub join_existingchan-Joined :
        (malloc s.list.heap).0 ≡ true
        → with_me.0 ≡ Status.ok
        → (s' : Net) × (join_existingchan join_text at s ≡ some (some tt, s'))
          × Joined s at with_me.2 s'
    unfolding join_existingchan put_chan
    join_existingchan-Joined got fits =
        let c = record (s.chans at) { users = with_me.1 } in
        let s0 = put_chan at c (put_heap with_me.2 s) in
        let put = put_chan-same at c (put_heap with_me.2 s) in
        let uv = with_me-IsUsers fits in
        let (s1, acked, told) = join_ack-Told at s0 (rw put uv) in
        let c1 : s1.chans at ≡ c = ap (λ f. f at) told.same_chans ∙ put in
        let now : (put_chan at (one_more (s1.chans at)) s1).chans at ≡ one_more c =
          put_chan-same at (one_more (s1.chans at)) s1 ∙ ap one_more c1 in
        (
          put_chan at (one_more (s1.chans at)) s1,
          rw (join_existingchan, got, fits, acked) refl,
          record {
            users_there = rw (ap (λ c. c.users) now) uv;
            alphabet = ap (λ c. c.users.alphabet) now ∙ with_me-alphabet;
            name = ap (λ c. c.name) now;
            others = λ q.
                ap (λ c. find_word_trie c.users q) now
                ∙ find_word_trie-add_word_trie (s.chans at).users s.client.nick (some me)
                    (malloc s.list.heap).1 q v.trie fits;
            counted = ap (λ c. c.users_count) now;
            heap = ap (λ l. l.heap) told.same_list;
            same_list = ap (λ l. l.trie) told.same_list;
            same_client = told.same_client;
          },
        )
