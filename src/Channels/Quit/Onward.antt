-- ===== src/Channels/Quit/Onward.antt =====
-- Departures from channels, one behind the other.
use ya_ircd.Prelude.{
  ℕ, ◌≡◌, ◌⊎◌, inl, inr, refl, sym, ap, ◌∙◌, arith, Bool, true, false, List, Option, none, some,
  ◌==◌, ==_iff, Bool-cases, Option-cases,
}
use ya_ircd.Memory.{Heap}
use ya_ircd.Trie.{find_word_trie}
use ya_ircd.Trie.Keys.{same_key}
use ya_ircd.Trie.Alike.{find_word_trie-same_key}
use ya_ircd.WordList.{YaircdNode, released}
use ya_ircd.WordList.Update.{node_of}
use ya_ircd.Channels.{Net, put_heap, on_channel}
use ya_ircd.Channels.Leave.{leave_channel, find_and_leave}
use ya_ircd.Channels.Parting.{find_and_leave_lem}
use ya_ircd.Channels.Quit.{IsWorld, Away, leave_channel-Away}

-- What holds of the world behind some departures of a client.
pub record Onward (nick : List ℕ) (s s' : Net) : Type 0 where
  pub world : IsWorld s'
  pub same_client : s'.client ≡ s.client
  pub kept :
      (i : ℕ)
      → find_word_trie (s.chans i).users nick ≡ none
      → find_word_trie (s'.chans i).users nick ≡ none
  pub spelling : (i : ℕ) → (s'.chans i).users.alphabet ≡ (s.chans i).users.alphabet
  pub others :
      (i : ℕ) (q : List ℕ)
      → same_key (s.chans i).users.alphabet nick q ≡ false
      → find_word_trie (s'.chans i).users q ≡ find_word_trie (s.chans i).users q
  pub listed :
      (q : List ℕ) (at : ℕ)
      → find_word_trie s.list.trie q ≡ some (node_of at)
      → (find_word_trie s'.list.trie q ≡ some (node_of at))
        ⊎ (find_word_trie (s'.chans at).users nick ≡ none)

pub Onward-refl : (nick : List ℕ) (s : Net) → IsWorld s → Onward nick s s
Onward-refl nick s v = record {
  world = v;
  same_client = refl;
  kept = λ i e. e;
  spelling = λ i. refl;
  others = λ i q other. refl;
  listed = λ q at e. inl e;
}

pub Onward-trans :
    (nick : List ℕ) (s s1 s2 : Net) → Onward nick s s1 → Onward nick s1 s2 → Onward nick s s2
Onward-trans nick s s1 s2 v w = record {
  world = w.world;
  same_client = w.same_client ∙ v.same_client;
  kept = λ i e. w.kept i (v.kept i e);
  spelling = λ i. w.spelling i ∙ v.spelling i;
  others = λ i q other.
      w.others i q (ap (λ a. same_key a nick q) (v.spelling i) ∙ other) ∙ v.others i q other;
  listed = λ q at e. elim (v.listed q at e) [
    | inl still ↦ w.listed q at still
    | inr gone ↦ inr (w.kept at gone)
  ];
}

-- Behind a block that is freed.
pub Onward-put_heap :
    (nick : List ℕ) (s s1 : Net) (h : Heap) → Onward nick s s1 → Onward nick s (put_heap h s1)
Onward-put_heap nick s s1 h v = record {
  world = record {
    list_there = v.world.list_there;
    filled = v.world.filled;
    users_there = v.world.users_there;
    named = v.world.named;
  };
  same_client = v.same_client;
  kept = v.kept;
  spelling = v.spelling;
  others = v.others;
  listed = v.listed;
}

-- An entry that is found behind a departure was there before.
was_listed :
    (s : Net) (at : ℕ) (s' : Net) (q : List ℕ) (n : YaircdNode ℕ)
    → Away s at s'
    → find_word_trie s'.list.trie q ≡ some n
    → find_word_trie s.list.trie q ≡ some n
was_listed s at s' q n v e = elim (v.listed q) [
  | inl same ↦ sym same ∙ e
  | inr (gone, _) ↦ let bad : none ≡ some n = sym gone ∙ e in absurd (ground (arith, bad))
]

abbrev address : Option (YaircdNode ℕ) → ℕ
address none = 0
address (some n) = elim n.value [ none ↦ 0 | some i ↦ i ]

-- The channels behind one departure, the one that was left and the others.
module _ (s : Net) (at : ℕ) (s' : Net) (w : IsWorld s) (v : Away s at s') where
  same_names : (i : ℕ) → (s'.chans i).name ≡ (s.chans i).name
  same_names i = elim (Bool-cases (i == at)) [
    | inl here ↦ let one : i ≡ at = (==_iff i at).0 here in rw one (v.around.same_name)
    | inr other ↦ ap (λ c. c.name) (v.around.elsewhere i other)
  ]

  Away-IsWorld : IsWorld s'
  Away-IsWorld = record {
    list_there = v.list_there;
    filled = λ q n e. w.filled q n (was_listed s at s' q n v e);
    users_there = λ q i e. elim (Bool-cases (i == at)) [
      | inl here ↦ let one : i ≡ at = (==_iff i at).0 here in rw one (v.around.users_at)
      | inr other ↦
          rw (v.around.elsewhere i other) (w.users_there q i (was_listed s at s' q (node_of i) v e))
    ];
    named = λ q i e.
        ap (λ a. same_key a (s'.chans i).name q) v.around.same_alphabet
        ∙ ap (λ l. same_key s.list.trie.alphabet l q) (same_names i)
        ∙ w.named q i (was_listed s at s' q (node_of i) v e);
  }

  -- What is true of the channel and of all others is true of each.
  each_channel : (P : ℕ → Type 0) → P at → ((i : ℕ) → (i == at) ≡ false → P i) → (i : ℕ) → P i
  each_channel P here elsewhere i = elim (Bool-cases (i == at)) [
    | inl one ↦ let same : i ≡ at = (==_iff i at).0 one in rw same here
    | inr other ↦ elsewhere i other
  ]

  -- The channel has one address.
  at_one_address :
      (name q : List ℕ) (i : ℕ)
      → find_word_trie s.list.trie name ≡ some (node_of at)
      → find_word_trie s.list.trie q ≡ some (node_of i)
      → same_key s.list.trie.alphabet (s.chans at).name q ≡ true
      → i ≡ at
  at_one_address name q i found there key =
      let t = s.list.trie in
      let alike = find_word_trie-same_key t (s.chans at).name q key in
      let own = find_word_trie-same_key t (s.chans at).name name (w.named name at found) in
      let same : some (node_of i) ≡ some (node_of at) = sym there ∙ sym alike ∙ own ∙ found in
      ap address same

  Away-Onward :
      (name : List ℕ)
      → find_word_trie s.list.trie name ≡ some (node_of at)
      → Onward s.client.nick s s'
  Away-Onward name found = record {
    world = Away-IsWorld;
    same_client = v.same_client;
    kept =
        each_channel
          (λ i.
            find_word_trie (s.chans i).users s.client.nick ≡ none
            → find_word_trie (s'.chans i).users s.client.nick ≡ none)
          (λ e. v.gone)
          (λ i other e.
            ap (λ c. find_word_trie c.users s.client.nick) (v.around.elsewhere i other) ∙ e);
    spelling =
        each_channel (λ i. (s'.chans i).users.alphabet ≡ (s.chans i).users.alphabet)
          v.around.same_spelling
          (λ i other. ap (λ c. c.users.alphabet) (v.around.elsewhere i other));
    others = λ i q.
        each_channel
          (λ i.
            same_key (s.chans i).users.alphabet s.client.nick q ≡ false
            → find_word_trie (s'.chans i).users q ≡ find_word_trie (s.chans i).users q)
          (v.others q)
          (λ i other e. ap (λ c. find_word_trie c.users q) (v.around.elsewhere i other)) i;
    listed = λ q i e. elim (v.listed q) [
      | inl same ↦ inl (same ∙ e)
      | inr (_, key) ↦
          let one = at_one_address name q i found e key in
          inr (ap (λ k. find_word_trie (s'.chans k).users s.client.nick) one ∙ v.gone)
    ];
  }

-- The search for a channel and the departure from it.
abbrev pub GoneFrom : List ℕ → List ℕ → Net → Net → Type 0
GoneFrom nick name s s' =
    (at : ℕ)
    → find_word_trie s.list.trie name ≡ some (node_of at)
    → find_word_trie (s'.chans at).users nick ≡ none

found_and_left :
    (irc_reply name : List ℕ) (s : Net) (at : ℕ) (r : Option (Unit {0})) (s' : Net)
    → find_word_trie s.list.trie name ≡ some (node_of at)
    → leave_channel irc_reply at s ≡ some (r, s')
    → find_and_leave irc_reply name s ≡ some ((r, true), released, s')
found_and_left irc_reply name s at r s' found out =
    find_and_leave_lem irc_reply name s ∙ rw (found, on_channel, out) refl

pub find_and_leave-Onward :
    (irc_reply name : List ℕ) (s : Net)
    → IsWorld s
    → (r : Option (Unit {0}) × Bool) × (s' : Net) × (find_and_leave irc_reply name s
        ≡ some (r, released, s'))
      × Onward s.client.nick s s'
      × GoneFrom s.client.nick name s s'
find_and_leave-Onward irc_reply name s w = elim (Option-cases (find_word_trie s.list.trie name)) [
  | inl missing ↦ (
    (none, false),
    s,
    find_and_leave_lem irc_reply name s ∙ rw missing refl,
    Onward-refl s.client.nick s w,
    λ at e. let bad : none ≡ some (node_of at) = sym missing ∙ e in absurd (ground (arith, bad)),
  )
  | inr (n, there) ↦
      let (at, one) = w.filled name n there in
      let found : find_word_trie s.list.trie name ≡ some (node_of at) = there ∙ ap some one in
      let (r, s', out, away) =
        leave_channel-Away irc_reply s at w.list_there (w.users_there name at found) in
      (
        (r, true),
        s',
        found_and_left irc_reply name s at r s' found out,
        Away-Onward s at s' w away name found,
        λ i e.
            let same : some (node_of i) ≡ some (node_of at) = sym e ∙ found in
            ap (λ k. find_word_trie (s'.chans k).users s.client.nick) (ap address same) ∙ away.gone,
      )
]
