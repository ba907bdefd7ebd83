-- ===== src/Channels/Visit.antt =====
-- Joining a channel that exists, and leaving it.
use ya_ircd.Prelude.{
  ℕ, ◌≤◌, ◌≡◌, refl, ap, ◌∙◌, inl, inr, true, false, List, none, some, ◌==◌, arith, Bool-cases,
  if◌then◌else◌,
}
use ya_ircd.Memory.{Heap, malloc}
use ya_ircd.Trie.{Status, find_word_trie}
use ya_ircd.Trie.Keys.{same_key}
use ya_ircd.Trie.Laws.{IsTrie}
use ya_ircd.WordList.{YaircdNode}
use ya_ircd.Trie.Alike.{add_word_trie-same_key}
use ya_ircd.Channels.{ChanUser, Net}
use ya_ircd.Channels.Join.{join_existingchan}
use ya_ircd.Channels.Leave.{leave_channel}
use ya_ircd.Channels.Leaving.{IsUsers, Left, leave_channel-LeftAs}
use ya_ircd.Channels.Joining.{Joined, with_me, join_existingchan-Joined}

-- Behind a visit: the client is no user, the other users are there as before, and the count and the
-- list are as before.
pub record Visited (s : Net) (at : ℕ) (s' : Net) : Type 0 where
  pub others :
      (q : List ℕ)
      → find_word_trie (s'.chans at).users q ≡ (
          if same_key (s.chans at).users.alphabet s.client.nick q
          then none
          else find_word_trie (s.chans at).users q)
  pub counted : (s'.chans at).users_count ≡ (s.chans at).users_count
  pub listed : (q : List ℕ) → find_word_trie s'.list.trie q ≡ find_word_trie s.list.trie q

visit_others :
    (s s1 s2 : Net) (at : ℕ) {h : Heap}
    → Joined s at h s1
    → Left s1 at s2
    → (q : List ℕ)
    → find_word_trie (s2.chans at).users q ≡ (
        if same_key (s.chans at).users.alphabet s.client.nick q
        then none
        else find_word_trie (s.chans at).users q)
visit_others s s1 s2 at joined left q =
    left.others q
    ∙ ap (λ a. if same_key a s1.client.nick q then none else find_word_trie (s1.chans at).users q)
        joined.alphabet
    ∙ ap
        (λ c.
          if same_key (s.chans at).users.alphabet c.nick q
          then none
          else find_word_trie (s1.chans at).users q)
        joined.same_client
    ∙ elim (Bool-cases (same_key (s.chans at).users.alphabet s.client.nick q)) [
      | inl me ↦ rw me refl
      | inr other ↦ rw other (joined.others q ∙ rw other refl)
    ]

visit_listed :
    (s s1 s2 : Net) (at : ℕ) {h : Heap}
    → 1 ≤ (s.chans at).users_count
    → Joined s at h s1
    → Left s1 at s2
    → (q : List ℕ) → find_word_trie s2.list.trie q ≡ find_word_trie s.list.trie q
visit_listed s s1 s2 at some_user joined left q =
    let more : ((s1.chans at).users_count == 1) ≡ false = ground (arith, joined.counted) in
    left.listed q ∙ rw more (ap (λ t. find_word_trie t q) joined.same_list)

-- A client joins a channel that exists and has a count of at least one, with memory for it, and
-- leaves it: both calls succeed; then it is not among the users, no other user has changed, and
-- the count and the list of channels are those of before. If the client was already on the channel,
-- the count is therefore one too high, and even if it was the only user, the channel stays.
pub join_existingchan-leave_channel :
    (join_text : List ℕ → List ℕ → List ℕ) (irc_reply : List ℕ) (s : Net) (at : ℕ)
    → IsTrie (YaircdNode ℕ) s.list.trie
    → (v : IsUsers (s.chans at).users) → 1 ≤ (s.chans at).users_count
    → (malloc s.list.heap).0 ≡ true
    → (with_me join_text at s v).0 ≡ Status.ok
    → (s1 s2 : Net) × (join_existingchan join_text at s ≡ some (some tt, s1))
      × (leave_channel irc_reply at s1 ≡ some (some tt, s2))
      × Visited s at s2
join_existingchan-leave_channel join_text irc_reply s at lv v some_user got fits =
    let (s1, e1, joined) = join_existingchan-Joined join_text at s v got fits in
    let me : ChanUser = record { modes = 0; user = s.client.self } in
    let there : find_word_trie (s1.chans at).users s1.client.nick ≡ some me =
      ap (λ c. find_word_trie (s1.chans at).users c.nick) joined.same_client
      ∙ joined.others s.client.nick
      ∙ rw
          (add_word_trie-same_key (s.chans at).users s.client.nick (some me) (malloc s.list.heap).1
            fits)
          refl in
    let (s2, e2, left) =
      rw there at
        (leave_channel-LeftAs irc_reply s1 at (rw joined.same_list lv) joined.users_there) in
    (
      s1,
      s2,
      e1,
      e2,
      record {
        others = visit_others s s1 s2 at joined left;
        counted = omega (arith, left.counted, joined.counted);
        listed = visit_listed s s1 s2 at some_user joined left;
      },
    )
