-- ===== src/Channels/Forgetting.antt =====
-- What a client that parts forgets.
use ya_ircd.Prelude.{
  ℕ, suc, ◌+◌, ◌-◌, ◌≡◌, ◌⊎◌, refl, ap, ap₂, ◌∙◌, inl, inr, true, false, List, [], ◌∷◌, ◌++◌, map,
  length, Option, none, some, arith, Bool-cases, set, set-append_right,
}
use ya_ircd.ClientList.{tolower}
use ya_ircd.Channels.{Net, chan_ok}
use ya_ircd.Channels.Leave.{same_nocase, find_entry, forget_channel}

-- A place that holds the name, letter case apart.
abbrev pub Matches : List ℕ → Option (List ℕ) → Type 0
Matches channel none = ⊥
Matches channel (some name) = map tolower name ≡ map tolower channel

abbrev pub NoneMatch : List ℕ → List (Option (List ℕ)) → Type 0
NoneMatch channel [] = Unit
NoneMatch channel (p ∷ ps) = ¬ Matches channel p × NoneMatch channel ps

-- The first place with the name is emptied, the name is freed, and one channel less is counted.
abbrev pub Emptied : List ℕ → Net → Net → Type 0
Emptied channel s s' =
    (before : List (Option (List ℕ))) × (name : List ℕ) × (after : List (Option (List ℕ)))
    × (s.client.channels ≡ before ++ (some name ∷ after))
    × NoneMatch channel before
    × Matches channel (some name)
    × (s'.client.channels ≡ before ++ (none ∷ after))
    × (s'.client.channels_count ≡ s.client.channels_count - 1)
    × (s'.list.heap.frees ≡ s.list.heap.frees + 1)
    × (s'.list.trie ≡ s.list.trie)
    × (s'.chans ≡ s.chans)
    × (s'.queued ≡ s.queued)

-- What remains when no place has the name: the state as it was.
abbrev pub Forgot : List ℕ → Net → Net → Type 0
Forgot channel s s' = (NoneMatch channel s.client.channels × (s' ≡ s)) ⊎ Emptied channel s s'

abbrev head_or : List ℕ → ℕ
head_or [] = 0
head_or (c ∷ cs) = c

abbrev tail_of : List ℕ → List ℕ
tail_of [] = []
tail_of (c ∷ cs) = cs

same_nocase-same : (p q : List ℕ) → same_nocase p q ≡ true → map tolower p ≡ map tolower q
unfolding same_nocase
same_nocase-same [] [] e = refl
same_nocase-same [] (d ∷ q) e = absurd (ground (arith, e))
same_nocase-same (c ∷ p) [] e = absurd (ground (arith, e))
same_nocase-same (c ∷ p) (d ∷ q) e =
    let here : tolower c ≡ tolower d = ground (arith, e) in
    let rest : same_nocase p q ≡ true = ground (arith, e) in
    ap₂ ◌∷◌ here (same_nocase-same p q rest)

same_nocase-other : (p q : List ℕ) → same_nocase p q ≡ false → ¬ (map tolower p ≡ map tolower q)
unfolding same_nocase
same_nocase-other [] [] e same = ground (arith, e)
same_nocase-other [] (d ∷ q) e same = absurd (ground (arith, same))
same_nocase-other (c ∷ p) [] e same = absurd (ground (arith, same))
same_nocase-other (c ∷ p) (d ∷ q) e same =
    let here : tolower c ≡ tolower d = ap head_or same in
    let rest : ¬ (same_nocase p q ≡ false) = λ f. same_nocase-other p q f (ap tail_of same) in
    elim (Bool-cases (same_nocase p q)) [ inr f ↦ rest f | inl t ↦ ground (arith, e, here, t) ]

-- What the search for the name finds.
abbrev Entry : List ℕ → List (Option (List ℕ)) → Option ℕ → Type 0
Entry channel places none = NoneMatch channel places
Entry channel places (some i) =
    (before : List (Option (List ℕ))) × (name : List ℕ) × (after : List (Option (List ℕ))) × (places
      ≡ before ++ (some name ∷ after))
    × NoneMatch channel before
    × Matches channel (some name)
    × (length before ≡ i)

Entry-later :
    (channel : List ℕ) (p : Option (List ℕ)) (rest : List (Option (List ℕ))) (o : Option ℕ)
    → ¬ Matches channel p
    → Entry channel rest o
    → Entry channel (p ∷ rest) (elim o [ none ↦ none | some i ↦ some (suc i) ])
Entry-later channel p rest none other v = (other, v)
Entry-later channel p rest (some i) other (before, name, after, e, none_before, match, size) =
    (p ∷ before, name, after, ap (λ l. p ∷ l) e, (other, none_before), match, ap suc size)

find_entry-Entry :
    (channel : List ℕ) (places : List (Option (List ℕ)))
    → Entry channel places (find_entry places channel)
unfolding find_entry
find_entry-Entry channel [] = tt
find_entry-Entry channel (none ∷ rest) =
    Entry-later channel none rest (find_entry rest channel) (λ m. m) (find_entry-Entry channel rest)
find_entry-Entry channel (some name ∷ rest) = elim (Bool-cases (same_nocase name channel)) [
  | inl same ↦
      rw (find_entry, same) ([], name, rest, refl, tt, same_nocase-same name channel same, refl)
  | inr other ↦
      rw (find_entry, other)
        (Entry-later channel (some name) rest (find_entry rest channel)
          (same_nocase-other name channel other) (find_entry-Entry channel rest))
]

set-place :
    (before after : List (Option (List ℕ))) (p q : Option (List ℕ)) (i : ℕ)
    → length before ≡ i
    → set (before ++ (p ∷ after)) i q ≡ before ++ (q ∷ after)
set-place before after p q i e =
    let place : i ≡ length before + 0 = omega (arith, e) in
    ap (λ i. set (before ++ (p ∷ after)) i q) place ∙ set-append_right before (p ∷ after) 0 q

forgotten :
    (channel : List ℕ) (s : Net) (o : Option ℕ)
    → Entry channel s.client.channels o
    → (s' : Net) × (forget_channel o s ≡ (chan_ok, s')) × Forgot channel s s'
unfolding forget_channel
forgotten channel s none v = (s, refl, inl (v, refl))
forgotten channel s (some i) (before, name, after, e, none_before, match, size) = (
  (forget_channel (some i) s).1,
  refl,
  inr (
    before,
    name,
    after,
    e,
    none_before,
    match,
    ap (λ l. set l i none) e ∙ set-place before after (some name) none i size,
    refl,
    refl,
    refl,
    refl,
    refl,
  ),
)

pub forget_channel-Forgot :
    (channel : List ℕ) (s : Net)
    → (s' : Net) × (forget_channel (find_entry s.client.channels channel) s ≡ (chan_ok, s'))
      × Forgot channel s s'
forget_channel-Forgot channel s =
    forgotten channel s (find_entry s.client.channels channel)
      (find_entry-Entry channel s.client.channels)
