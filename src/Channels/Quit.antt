-- ===== src/Channels/Quit.antt =====
-- `QUIT`: the client leaves every channel that it remembers.
pub mod Onward
pub mod All
use ya_ircd.Prelude.{
  ℕ, ◌≡◌, ◌⊎◌, inl, inr, refl, sym, subst, ap, ◌∙◌, arith, Bool, true, false, ◌&&◌, List, [], ◌∷◌,
  Option, none, some, ◌==◌, ==_iff, Bool-cases, Option-cases, if◌then◌else◌,
}
use ya_ircd.Memory.{Heap, free}
use ya_ircd.Trie.{Trie, find_word_trie}
use ya_ircd.Trie.Keys.{same_key}
use ya_ircd.Trie.Laws.{IsTrie}
use ya_ircd.Trie.Alike.{find_word_trie-same_key, found-is_word}
use ya_ircd.WordList.{YaircdNode, Locks, released}
use ya_ircd.WordList.Update.{node_of}
use ya_ircd.Channels.{ChanUser, Net, put_heap, on_channel}
use ya_ircd.Channels.Leave.{leave_channel, find_and_leave, quit_channels, do_quit}
use ya_ircd.Channels.Leaving.{IsUsers, Left, LeftAs, leave_channel-LeftAs}
use ya_ircd.Channels.Elsewhere.{Elsewhere, Ends, leave_channel-Ends}
use ya_ircd.Channels.Parting.{find_and_leave_lem}

-- The list of channels: each entry is the address of a channel with well-formed users, under a
-- spelling of the channel's name.
pub record IsWorld (s : Net) : Type 0 where
  pub list_there : IsTrie (YaircdNode ℕ) s.list.trie
  pub filled :
      (q : List ℕ) (n : YaircdNode ℕ)
      → find_word_trie s.list.trie q ≡ some n
      → (at : ℕ) × (n ≡ node_of at)
  pub users_there :
      (q : List ℕ) (at : ℕ)
      → find_word_trie s.list.trie q ≡ some (node_of at)
      → IsUsers (s.chans at).users
  pub named :
      (q : List ℕ) (at : ℕ)
      → find_word_trie s.list.trie q ≡ some (node_of at)
      → same_key s.list.trie.alphabet (s.chans at).name q ≡ true

-- A client that has left one channel, or was not on it.
pub record Away (s : Net) (at : ℕ) (s' : Net) : Type 0 where
  pub gone : find_word_trie (s'.chans at).users s.client.nick ≡ none
  pub others :
      (q : List ℕ)
      → same_key (s.chans at).users.alphabet s.client.nick q ≡ false
      → find_word_trie (s'.chans at).users q ≡ find_word_trie (s.chans at).users q
  pub list_there : IsTrie (YaircdNode ℕ) s'.list.trie
  pub listed :
      (q : List ℕ)
      → (find_word_trie s'.list.trie q ≡ find_word_trie s.list.trie q)
        ⊎ ((find_word_trie s'.list.trie q ≡ none)
            × (same_key s.list.trie.alphabet (s.chans at).name q ≡ true))
  pub same_client : s'.client ≡ s.client
  pub around : Elsewhere s at s'

if_none :
    {A : Type 0} (b k : Bool) (x : Option A) {y : Option A}
    → y ≡ (if b && k then none else x)
    → (y ≡ x) ⊎ ((y ≡ none) × (k ≡ true))
if_none false k x e = inl e
if_none true false x e = inl e
if_none true true x e = inr (e, refl)

Left-Away :
    (s : Net) (at : ℕ) (u : ChanUser) (s' : Net)
    → find_word_trie (s.chans at).users s.client.nick ≡ some u
    → Left s at s'
    → Elsewhere s at s'
    → Away s at s'
Left-Away s at u s' there left around =
    let own = found-is_word (s.chans at).users s.client.nick there in
    record {
      gone = left.others s.client.nick ∙ rw own refl;
      others = λ q other. left.others q ∙ rw other refl;
      list_there = left.list_there;
      listed = λ q.
          if_none ((s.chans at).users_count == 1)
            (same_key s.list.trie.alphabet (s.chans at).name q) (find_word_trie s.list.trie q)
            (left.listed q);
      same_client = left.same_client;
      around = around;
    }

-- A call of `leave_channel`.
pub leave_channel-Away :
    (irc_reply : List ℕ) (s : Net) (at : ℕ)
    → IsTrie (YaircdNode ℕ) s.list.trie
    → IsUsers (s.chans at).users
    → (r : Option (Unit {0})) × (s' : Net) × (leave_channel irc_reply at s ≡ some (r, s'))
      × Away s at s'
leave_channel-Away irc_reply s at lv uv =
    let ends = leave_channel-Ends irc_reply s at lv uv in
    let done = leave_channel-LeftAs irc_reply s at lv uv in
    elim (Option-cases (find_word_trie (s.chans at).users s.client.nick)) [
      | inl e ↦
          let found : LeftAs s at none (leave_channel irc_reply at s) = rw e at done in
          let (s', out, same, me, _, users) = found in
          let around : Elsewhere s at s' = rw out at ends in
          (
            none,
            s',
            out,
            record {
              gone = users s.client.nick ∙ e;
              others = λ q other. users q;
              list_there = rw same lv;
              listed = λ q. inl (ap (λ t. find_word_trie t q) same);
              same_client = me;
              around = around;
            },
          )
      | inr (u, e) ↦
          let found : LeftAs s at (some u) (leave_channel irc_reply at s) = rw e at done in
          let (s', out, left) = found in
          let around : Elsewhere s at s' = rw out at ends in
          (some tt, s', out, Left-Away s at u s' e left around)
    ]
