-- ===== src/Channels/Leaving.antt =====
-- What leaving a channel does to its users, and to the list of channels.
use ya_ircd.Prelude.{
  ℕ, ◌-◌, ◌≡◌, refl, sym, ap, ◌∙◌, inl, inr, true, false, ◌&&◌, List, [], ◌∷◌, ◌++◌, Option, none,
  some, ◌==◌, ==_iff, Bool-cases, Option-cases, if◌then◌else◌,
}
use ya_ircd.Memory.{free}
use ya_ircd.Trie.{Trie, find_word_trie, delete_word_trie}
use ya_ircd.Trie.Keys.{same_key}
use ya_ircd.Trie.Laws.{IsTrie, find_word_trie-delete_word_trie, word_trie-IsTrie}
use ya_ircd.Trie.Alike.{find_word_trie-same_key}
use ya_ircd.Trie.Filled.{IsFilled, delete_word_trie-IsFilled, trie_for_each-keeps}
use ya_ircd.WordList.{YaircdNode}
use ya_ircd.WordList.Deletion.{list_delete-Deleted}
use ya_ircd.Channels.{ChanUser, IrcChannel, Net, put_chan, put_heap, notify_channel_user}
use ya_ircd.Channels.Leave.{destroy_channel, leave_channel}

-- The users of a channel: a well-formed trie with data at each word.
pub record IsUsers (users : Trie ChanUser) : Type 0 where
  pub trie : IsTrie ChanUser users
  pub filled : IsFilled users.root

-- Messages to other clients change neither the list, the channels nor the client.
pub record Told (s s' : Net) : Type 0 where
  pub same_list : s'.list ≡ s.list
  pub same_chans : s'.chans ≡ s.chans
  pub same_client : s'.client ≡ s.client

pub notify_keeps :
    (irc_reply : List ℕ) (s0 : Net) (u : ChanUser) (s : Net)
    → Told s0 s
    → (s' : Net) × (notify_channel_user irc_reply (some u) (some s) ≡ some s') × Told s0 s'
unfolding notify_channel_user
notify_keeps irc_reply s0 u s told = (
  record s { queued = s.queued ++ ((u.user, irc_reply) ∷ []) },
  refl,
  record {
    same_list = told.same_list;
    same_chans = told.same_chans;
    same_client = told.same_client;
  },
)

pub put_chan-same : (at : ℕ) (c : IrcChannel) (s : Net) → (put_chan at c s).chans at ≡ c
unfolding put_chan
put_chan-same at c s = let same : (at == at) ≡ true = (==_iff at at).1 refl in rw same refl

-- What the departure of a user leaves.
pub record Left (s : Net) (at : ℕ) (s' : Net) : Type 0 where
  pub users_there : IsUsers (s'.chans at).users
  pub others :
      (q : List ℕ)
      → find_word_trie (s'.chans at).users q ≡ (
          if same_key (s.chans at).users.alphabet s.client.nick q
          then none
          else find_word_trie (s.chans at).users q)
  pub counted : (s'.chans at).users_count ≡ (s.chans at).users_count - 1
  pub list_there : IsTrie (YaircdNode ℕ) s'.list.trie
  pub listed :
      (q : List ℕ)
      → find_word_trie s'.list.trie q ≡ (
          if (s.chans at).users_count == 1 && same_key s.list.trie.alphabet (s.chans at).name q
          then none
          else find_word_trie s.list.trie q)
  pub same_client : s'.client ≡ s.client

-- Where the channel's record and the list are known.
departed :
    (s s' : Net) (at : ℕ) (users' : Trie ChanUser)
    → IsUsers users'
    → s'.chans at
      ≡ record (s.chans at) { users = users'; users_count = (s.chans at).users_count - 1 }
    → ((q : List ℕ)
        → find_word_trie users' q ≡ (
            if same_key (s.chans at).users.alphabet s.client.nick q
            then none
            else find_word_trie (s.chans at).users q))
    → IsTrie (YaircdNode ℕ) s'.list.trie
    → ((q : List ℕ)
        → find_word_trie s'.list.trie q ≡ (
            if (s.chans at).users_count == 1 && same_key s.list.trie.alphabet (s.chans at).name q
            then none
            else find_word_trie s.list.trie q))
    → s'.client ≡ s.client
    → Left s at s'
departed s s' at users' uv here others lv listed me = record {
  users_there = rw (ap (λ c. c.users) here) uv;
  others = rw (ap (λ c. c.users) here) others;
  counted = ap (λ c. c.users_count) here;
  list_there = lv;
  listed = listed;
  same_client = me;
}

abbrev one_less : IrcChannel → IrcChannel
one_less c = record c { users_count = c.users_count - 1 }

-- The count is written, and the channel goes with its last user.
leave_last :
    (s s1 : Net) (at : ℕ) (users' : Trie ChanUser)
    → IsTrie (YaircdNode ℕ) s.list.trie
    → IsUsers users'
    → s1.list.trie ≡ s.list.trie
    → s1.chans at ≡ record (s.chans at) { users = users' }
    → s1.client ≡ s.client
    → ((q : List ℕ)
        → find_word_trie users' q ≡ (
            if same_key (s.chans at).users.alphabet s.client.nick q
            then none
            else find_word_trie (s.chans at).users q))
    → let c = s1.chans at in
      let counted = put_chan at (record c { users_count = c.users_count - 1 }) s1 in
      Left s at (if c.users_count == 1 then destroy_channel at counted else counted)
unfolding destroy_channel put_chan
leave_last s s1 at users' lv uv same here me others =
    let c = s1.chans at in
    let counted = put_chan at (record c { users_count = c.users_count - 1 }) s1 in
    let now : counted.chans at
        ≡ record (s.chans at) { users = users'; users_count = (s.chans at).users_count - 1 } =
      put_chan-same at (record c { users_count = c.users_count - 1 }) s1 ∙ ap one_less here in
    let count = ap (λ c. c.users_count) here in
    elim (Bool-cases (c.users_count == 1)) [
      | inr more ↦
          let more' : ((s.chans at).users_count == 1) ≡ false =
            sym (ap (λ n. n == 1) count) ∙ more in
          rw more (
            departed s counted at users' uv now others (rw same lv)
              (λ q. rw more' (ap (λ t. find_word_trie t q) same)) me)
      | inl last ↦
          let last' : ((s.chans at).users_count == 1) ≡ true =
            sym (ap (λ n. n == 1) count) ∙ last in
          let (_, _, still, gone, _) =
            list_delete-Deleted (counted.chans at).name counted.list (rw same lv) in
          let name : (counted.chans at).name ≡ (s.chans at).name = ap (λ c. c.name) now in
          rw last (
            departed s (destroy_channel at counted) at users' uv now others still
              (λ q.
                gone q
                ∙ ap
                    (λ n.
                      if same_key s1.list.trie.alphabet n q
                      then none
                      else find_word_trie s1.list.trie q)
                    name
                ∙ ap
                    (λ t.
                      if same_key t.alphabet (s.chans at).name q then none else find_word_trie t q)
                    same
                ∙ rw last' refl)
              me)
    ]

-- What a call of `leave_channel` does: nothing to a client that is not on the channel.
abbrev pub LeftAs : Net → ℕ → Option ChanUser → Option (Option (Unit {0}) × Net) → Type 0
LeftAs s at none out =
    (s' : Net) × (out ≡ some (none, s'))
    × (s'.list.trie ≡ s.list.trie)
    × (s'.client ≡ s.client)
    × (s'.queued ≡ s.queued)
    × ((q : List ℕ) → find_word_trie (s'.chans at).users q ≡ find_word_trie (s.chans at).users q)
LeftAs s at (some u) out = (s' : Net) × (out ≡ some (some tt, s')) × Left s at s'

module _ (irc_reply : List ℕ) (s : Net) (at : ℕ) (lv : IsTrie (YaircdNode ℕ) s.list.trie)
    (uv : IsUsers (s.chans at).users) where
  abbrev pub users_left : Trie ChanUser
  users_left = (delete_word_trie (s.chans at).users s.client.nick s.list.heap).1

  pub users_left-IsUsers : IsUsers users_left
  users_left-IsUsers = record {
    trie = (word_trie-IsTrie (s.chans at).users s.client.nick none s.list.heap uv.trie).1;
    filled = delete_word_trie-IsFilled (s.chans at).users s.client.nick s.list.heap uv.filled;
  }

  pub others_left :
      (q : List ℕ)
      → find_word_trie users_left q ≡ (
          if same_key (s.chans at).users.alphabet s.client.nick q
          then none
          else find_word_trie (s.chans at).users q)
  others_left q =
      (find_word_trie-delete_word_trie (s.chans at).users s.client.nick s.list.heap q uv.trie).1

  absent_left :
      (q : List ℕ)
      → find_word_trie (s.chans at).users s.client.nick ≡ none
      → (if same_key (s.chans at).users.alphabet s.client.nick q
          then none
          else find_word_trie (s.chans at).users q)
        ≡ find_word_trie (s.chans at).users q
  absent_left q e = elim (Bool-cases (same_key (s.chans at).users.alphabet s.client.nick q)) [
    | inr other ↦ rw other refl
    | inl one ↦ rw one (sym e ∙ find_word_trie-same_key (s.chans at).users s.client.nick q one)
  ]

  -- On a channel whose users are well formed: if the client is one of them, it is removed, no other
  -- user is, the count goes down by one, and the channel leaves the list exactly if the count was
  -- one; the messages to the other users all find their user. If it is not, the function reports
  -- that, no message is sent, and the list and the users are as they were.
  pub leave_channel-LeftAs :
      LeftAs s at (find_word_trie (s.chans at).users s.client.nick) (leave_channel irc_reply at s)
  unfolding leave_channel put_chan
  leave_channel-LeftAs =
      let h = (delete_word_trie (s.chans at).users s.client.nick s.list.heap).2 in
      let left = put_chan at (record (s.chans at) { users = users_left }) (put_heap (free h) s) in
      let (deleted, _) =
        find_word_trie-delete_word_trie (s.chans at).users s.client.nick s.list.heap [] uv.trie in
      let (s1, walked, told) =
        trie_for_each-keeps (notify_channel_user irc_reply) (Told left)
          (notify_keeps irc_reply left) users_left left users_left-IsUsers.filled
          (record { same_list = refl; same_chans = refl; same_client = refl }) in
      elim (Option-cases (find_word_trie (s.chans at).users s.client.nick)) [
        | inl e ↦
            let kept : IrcChannel = record (s.chans at) { users = users_left } in
            rw (leave_channel, deleted, e)
              (
                put_chan at kept (put_heap h s),
                refl,
                refl,
                refl,
                refl,
                λ q.
                    ap (λ c. find_word_trie c.users q) (put_chan-same at kept (put_heap h s))
                    ∙ others_left q
                    ∙ absent_left q e,
              )
        | inr (u, e) ↦
            let gone : IrcChannel = record (s.chans at) { users = users_left } in
            rw (leave_channel, deleted, e, walked)
              (
                _,
                refl,
                leave_last s s1 at users_left lv users_left-IsUsers
                    (ap (λ l. l.trie) told.same_list)
                    (ap (λ f. f at) told.same_chans ∙ put_chan-same at gone (put_heap (free h) s))
                    told.same_client others_left,
              )
      ]
