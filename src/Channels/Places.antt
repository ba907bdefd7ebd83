-- ===== src/Channels/Places.antt =====
-- The places of a client for the names of its channels.
use ya_ircd.Prelude.{
  ℕ, suc, ◌+◌, ◌<◌, ◌≤◌, ◌≡◌, ◌≢◌, refl, ap, ◌∙◌, inl, inr, true, false, List, [], ◌∷◌, Option,
  none, some, ◌==◌, arith, Bool-cases, Option-cases, if◌then◌else◌, length, length-set, set,
}
use ya_ircd.Memory.{malloc}
use ya_ircd.Trie.{Status, find_word_trie}
use ya_ircd.Trie.Keys.{same_key}
use ya_ircd.WordList.{released}
use ya_ircd.WordList.Update.{node_of}
use ya_ircd.WordList.Locking.{KeepsLocks, list_find_and_execute_lem}
use ya_ircd.Channels.{Member, Net, chan_ok, Callback, on_channel, on_missing, put_heap}
use ya_ircd.Channels.Join.{
  first_free, remember_channel, find_or_join, do_join, join_existingchan, join_newchan,
}
use ya_ircd.Channels.Leave.{find_entry, same_nocase, forget_channel}
use ya_ircd.Channels.Leaving.{IsUsers}
use ya_ircd.Channels.Parting.{on_channel-KeepsLocks}
use ya_ircd.Channels.Joining.{with_me, join_existingchan-Joined}

-- The places that hold a name.
abbrev pub taken : List (Option (List ℕ)) → ℕ
taken [] = 0
taken (none ∷ cs) = taken cs
taken (some _ ∷ cs) = suc (taken cs)

-- A client has as many places as the configuration allows channels, and counts those it uses.
pub record IsMember (chanlimit : ℕ) (m : Member) : Type 0 where
  pub places : length m.channels ≡ chanlimit
  pub counted : m.channels_count ≡ taken m.channels

taken_most : (cs : List (Option (List ℕ))) → taken cs ≤ length cs
taken_most [] = omega arith
taken_most (none ∷ cs) = omega (arith, taken_most cs)
taken_most (some _ ∷ cs) = omega (arith, taken_most cs)

first_free_lem :
    (cs : List (Option (List ℕ))) (name : List ℕ)
    → taken cs < length cs
    → (i : ℕ) × (first_free cs ≡ some i) × (taken (set cs i (some name)) ≡ taken cs + 1)
unfolding first_free
first_free_lem [] name h = absurd (omega arith)
first_free_lem (none ∷ cs) name h = (0, refl, omega arith)
first_free_lem (some c ∷ cs) name h =
    let (i, e, more) = first_free_lem cs name (omega arith) in
    (suc i, rw (first_free, e) refl, omega arith)

find_entry_lem :
    (cs : List (Option (List ℕ))) (channel : List ℕ) {i : ℕ}
    → find_entry cs channel ≡ some i
    → taken cs ≡ taken (set cs i none) + 1
unfolding find_entry
find_entry_lem [] channel e = absurd (ground arith)
find_entry_lem (none ∷ cs) channel {i} e = elim (Option-cases (find_entry cs channel)) [
  | inl gone ↦ let e' = rw (find_entry, gone) at e in absurd (ground arith)
  | inr (j, there) ↦
      let e' = rw (find_entry, there) at e in
      let next : suc j ≡ i = ap (λ o. elim o [ none ↦ 0 | some n ↦ n ]) e' in
      rw (← next) (find_entry_lem cs channel there)
]
find_entry_lem (some name ∷ cs) channel {i} e = elim (Bool-cases (same_nocase name channel)) [
  | inl same ↦
      let e' = rw (find_entry, same) at e in
      let here : 0 ≡ i = ap (λ o. elim o [ none ↦ 1 | some n ↦ n ]) e' in rw (← here) (omega arith)
  | inr other ↦ elim (Option-cases (find_entry cs channel)) [
    | inl gone ↦ let e' = rw (find_entry, other, gone) at e in absurd (ground arith)
    | inr (j, there) ↦
        let e' = rw (find_entry, other, there) at e in
        let next : suc j ≡ i = ap (λ o. elim o [ none ↦ 0 | some n ↦ n ]) e' in
        rw (← next) (omega (arith, find_entry_lem cs channel there))
  ]
]

-- Forgetting a channel, whether a place was found or not, keeps the count right.
pub forget_channel-IsMember :
    (chanlimit : ℕ) (s : Net) (channel : List ℕ)
    → IsMember chanlimit s.client
    → IsMember chanlimit (forget_channel (find_entry s.client.channels channel) s).1.client
unfolding forget_channel
forget_channel-IsMember chanlimit s channel v =
    elim (Option-cases (find_entry s.client.channels channel)) [
      | inl e ↦ rw e v
      | inr (i, e) ↦ rw e (record {
        places = length-set s.client.channels i none ∙ v.places;
        counted = omega (arith, v.counted, find_entry_lem s.client.channels channel e);
      })
    ]

on_missing-KeepsLocks : (f : Callback) → KeepsLocks (on_missing f)
on_missing-KeepsLocks f l s = elim (Option-cases (f s)) [
  | inl e ↦ rw (on_missing, e) tt
  | inr (r, e) ↦ rw (on_missing, e) refl
]

module _ (join_text : List ℕ → List ℕ → List ℕ) (part_text : List ℕ → List ℕ → List ℕ → List ℕ)
    (chanlimit : ℕ) where
  -- In a list that holds the channel at an address.
  find_or_join_lem :
      (channel : List ℕ) (s s1 : Net) (at : ℕ)
      → find_word_trie s.list.trie channel ≡ some (node_of at)
      → join_existingchan join_text at s ≡ some (some tt, s1)
      → find_or_join join_text channel s ≡ some ((some tt, true), released, s1)
  find_or_join_lem channel s s1 at there e =
      (list_find_and_execute_lem (λ n. n.list.trie) channel
        (some (on_channel (join_existingchan join_text)))
        (some (on_missing (join_newchan join_text channel))) s
        (λ d. on_channel-KeepsLocks (join_existingchan join_text) d)
        (on_missing-KeepsLocks (join_newchan join_text channel))).1
      ∙ rw (there, on_channel, e) refl

  -- `JOIN` of a channel in the list whose users are well formed, with memory for what it allocates,
  -- by a client that has a place for each channel it may join, counts those it uses, and is below
  -- the limit: the search for a free place stays inside the array and finds one, 0 is returned, the
  -- client is one of the channel's users and no other user changes, and one more of its places is
  -- used and counted.
  pub do_join-IsMember :
      (channel : List ℕ) (s : Net) (at : ℕ)
      → IsMember chanlimit s.client
      → s.client.channels_count ≢ chanlimit
      → find_word_trie s.list.trie channel ≡ some (node_of at)
      → (v : IsUsers (s.chans at).users) → (malloc s.list.heap).0 ≡ true
      → (with_me join_text at s v).0 ≡ Status.ok
      → (malloc (with_me join_text at s v).2).0 ≡ true
      → (s' : Net) × (do_join join_text part_text chanlimit channel s ≡ some (chan_ok, s'))
        × IsMember chanlimit s'.client
        × (s'.client.channels_count ≡ s.client.channels_count + 1)
        × ((q : List ℕ)
            → find_word_trie (s'.chans at).users q ≡ (
                if same_key (s.chans at).users.alphabet s.client.nick q
                then some (record { modes = 0; user = s.client.self })
                else find_word_trie (s.chans at).users q))
  unfolding do_join remember_channel
  do_join-IsMember channel s at member below there v got fits got_name =
      let (s1, e, joined) = join_existingchan-Joined join_text at s v got fits in
      let found = find_or_join_lem channel s s1 at there e in
      let member1 : IsMember chanlimit s1.client = rw joined.same_client member in
      let room : taken s1.client.channels < length s1.client.channels = omega (
        arith,
        taken_most s1.client.channels,
        member1.places,
        member1.counted,
        ap (λ c. c.channels_count) joined.same_client,
        below,
      ) in
      let (i, free_at, more) = first_free_lem s1.client.channels channel room in
      let below' : (s.client.channels_count == chanlimit) ≡ false = ground arith in
      let name_got : (malloc s1.list.heap).0 ≡ true = rw joined.heap got_name in
      (
        put_heap (malloc s1.list.heap).1 (record s1 {
          client = record s1.client {
            channels = set s1.client.channels i (some channel);
            channels_count = s1.client.channels_count + 1;
          };
        }),
        rw (do_join, below', found, remember_channel, free_at, name_got) refl,
        record {
          places = length-set s1.client.channels i (some channel) ∙ member1.places;
          counted = omega (arith, more, member1.counted);
        },
        ap (λ c. c.channels_count + 1) joined.same_client,
        joined.others,
      )
