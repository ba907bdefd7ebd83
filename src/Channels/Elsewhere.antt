-- ===== src/Channels/Elsewhere.antt =====
-- What leaving a channel does not touch.
use ya_ircd.Prelude.{
  ℕ, ◌-◌, ◌≡◌, refl, ap, ◌∙◌, inl, inr, false, List, [], Option, none, some, ◌==◌, Bool-cases,
  Option-cases,
}
use ya_ircd.Memory.{Heap, free}
use ya_ircd.Trie.{Trie, find_word_trie, delete_word_trie}
use ya_ircd.Trie.Laws.{IsTrie, find_word_trie-delete_word_trie}
use ya_ircd.Trie.Filled.{trie_for_each-keeps}
use ya_ircd.WordList.{YaircdNode}
use ya_ircd.WordList.Update.{ListState, list_delete_nolock}
use ya_ircd.Channels.{ChanUser, IrcChannel, Net, put_chan, put_heap, notify_channel_user}
use ya_ircd.Channels.Leave.{destroy_channel, leave_channel}
use ya_ircd.Channels.Leaving.{
  IsUsers, Told, notify_keeps, put_chan-same, users_left, users_left-IsUsers,
}

-- The other channels, the channel's name and the spelling of the list are as they were, and the
-- channel still has a trie of users.
pub record Elsewhere (s : Net) (at : ℕ) (s' : Net) : Type 0 where
  pub elsewhere : (i : ℕ) → (i == at) ≡ false → s'.chans i ≡ s.chans i
  pub same_name : (s'.chans at).name ≡ (s.chans at).name
  pub users_at : IsUsers (s'.chans at).users
  pub same_spelling : (s'.chans at).users.alphabet ≡ (s.chans at).users.alphabet
  pub same_alphabet : s'.list.trie.alphabet ≡ s.list.trie.alphabet

put_chan-other :
    (at : ℕ) (c : IrcChannel) (s : Net) (i : ℕ)
    → (i == at) ≡ false
    → (put_chan at c s).chans i ≡ s.chans i
unfolding put_chan
put_chan-other at c s i other = rw other refl

-- A change of the channel alone.
Elsewhere-put_chan :
    (at : ℕ) (c : IrcChannel) (s s1 : Net)
    → Elsewhere s at s1
    → c.name ≡ (s1.chans at).name
    → c.users.alphabet ≡ (s1.chans at).users.alphabet
    → IsUsers c.users
    → Elsewhere s at (put_chan at c s1)
unfolding put_chan
Elsewhere-put_chan at c s s1 v name spelling users =
    let here = put_chan-same at c s1 in
    record {
      elsewhere = λ i other. put_chan-other at c s1 i other ∙ v.elsewhere i other;
      same_name = ap (λ c. c.name) here ∙ name ∙ v.same_name;
      users_at = rw (ap (λ c. c.users) here) users;
      same_spelling = ap (λ c. c.users.alphabet) here ∙ spelling ∙ v.same_spelling;
      same_alphabet = v.same_alphabet;
    }

delete_word_trie-alphabet :
    (t : Trie ChanUser) (word : List ℕ) (h : Heap)
    → (delete_word_trie t word h).1.alphabet ≡ t.alphabet
unfolding delete_word_trie
delete_word_trie-alphabet t word h = refl

list_delete_nolock-alphabet :
    (word : List ℕ) (l : ListState ℕ)
    → (list_delete_nolock word l).1.trie.alphabet ≡ l.trie.alphabet
unfolding list_delete_nolock delete_word_trie
list_delete_nolock-alphabet word l = elim (Option-cases (delete_word_trie l.trie word l.heap).0) [
  | inl e ↦ rw (list_delete_nolock, e) refl
  | inr (n, e) ↦ rw (list_delete_nolock, e) refl
]

Elsewhere-destroy_channel :
    (at : ℕ) (s s1 : Net) → Elsewhere s at s1 → Elsewhere s at (destroy_channel at s1)
unfolding destroy_channel
Elsewhere-destroy_channel at s s1 v = record {
  elsewhere = v.elsewhere;
  same_name = v.same_name;
  users_at = v.users_at;
  same_spelling = v.same_spelling;
  same_alphabet = list_delete_nolock-alphabet (s1.chans at).name s1.list ∙ v.same_alphabet;
}

-- The end of a call.
abbrev pub Ends : Net → ℕ → Option (Option (Unit {0}) × Net) → Type 0
Ends s at none = ⊥
Ends s at (some (r, s')) = Elsewhere s at s'

module _ (irc_reply : List ℕ) (s : Net) (at : ℕ) (lv : IsTrie (YaircdNode ℕ) s.list.trie)
    (uv : IsUsers (s.chans at).users) where
  still : (h : Heap) → Elsewhere s at (put_heap h s)
  still h = record {
    elsewhere = λ i other. refl;
    same_name = refl;
    users_at = uv;
    same_spelling = refl;
    same_alphabet = refl;
  }

  -- The message to the users.
  Elsewhere-Told : (s1 s2 : Net) → Elsewhere s at s1 → Told s1 s2 → Elsewhere s at s2
  Elsewhere-Told s1 s2 v told = record {
    elsewhere = λ i other. ap (λ f. f i) told.same_chans ∙ v.elsewhere i other;
    same_name = ap (λ f. (f at).name) told.same_chans ∙ v.same_name;
    same_spelling = ap (λ f. (f at).users.alphabet) told.same_chans ∙ v.same_spelling;
    users_at = rw (ap (λ f. (f at).users) told.same_chans) (v.users_at);
    same_alphabet = ap (λ l. l.trie.alphabet) told.same_list ∙ v.same_alphabet;
  }

  pub leave_channel-Ends : Ends s at (leave_channel irc_reply at s)
  unfolding leave_channel
  leave_channel-Ends =
      let users' = users_left irc_reply s at lv uv in
      let users_ok = users_left-IsUsers irc_reply s at lv uv in
      let spelling = delete_word_trie-alphabet (s.chans at).users s.client.nick s.list.heap in
      let h = (delete_word_trie (s.chans at).users s.client.nick s.list.heap).2 in
      let kept : IrcChannel = record (s.chans at) { users = users' } in
      let left = put_chan at kept (put_heap (free h) s) in
      let (deleted, _) =
        find_word_trie-delete_word_trie (s.chans at).users s.client.nick s.list.heap [] uv.trie in
      let (s1, walked, told) =
        trie_for_each-keeps (notify_channel_user irc_reply) (Told left)
          (notify_keeps irc_reply left) users' left users_ok.filled
          (record { same_list = refl; same_chans = refl; same_client = refl }) in
      elim (Option-cases (find_word_trie (s.chans at).users s.client.nick)) [
        | inl e ↦
            rw (leave_channel, deleted, e)
              (Elsewhere-put_chan at kept s (put_heap h s) (still h) refl spelling users_ok)
        | inr (u, e) ↦
            let c = s1.chans at in
            let less : IrcChannel = record c { users_count = c.users_count - 1 } in
            let begun =
              Elsewhere-put_chan at kept s (put_heap (free h) s) (still (free h)) refl spelling
                users_ok in
            let sent = Elsewhere-Told left s1 begun told in
            let counted = Elsewhere-put_chan at less s s1 sent refl refl sent.users_at in
            rw (leave_channel, deleted, e, walked)
              (elim (Bool-cases (c.users_count == 1)) [
                | inr more ↦ rw more counted
                | inl last ↦ rw last (Elsewhere-destroy_channel at s (put_chan at less s1) counted)
              ])
      ]
