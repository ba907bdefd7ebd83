-- ===== src/Trie/Alike.antt =====
-- Spellings of one key are found alike, and a word that is added is one of the alphabet.
use ya_ircd.Prelude.{
  ℕ, ◌≡◌, refl, inl, inr, true, List, [], ◌∷◌, Option, none, some, arith, Bool-cases, Option-cases,
}
use ya_ircd.Memory.{Heap}
use ya_ircd.Trie.{
  Trie, Alphabet, Node, node, Status, get_edge, pos_of, init_node, added, add_word_trie,
  add_word_trie_aux, find_word_trie, find_word_trie_aux,
}
use ya_ircd.Trie.Keys.{same_key, is_word}

module _ {V : Type 0} (a : Alphabet) where
  find_aux-same_key :
      (p q : List ℕ) (n : Node V)
      → same_key a p q ≡ true
      → find_word_trie_aux a p n ≡ find_word_trie_aux a q n
  unfolding find_word_trie_aux
  find_aux-same_key [] [] (node w d k es) h = refl
  find_aux-same_key [] (d ∷ ds) (node w x k es) h = absurd (ground arith)
  find_aux-same_key (c ∷ cs) [] (node w x k es) h = absurd (ground arith)
  find_aux-same_key (c ∷ cs) (d ∷ ds) (node w x k es) h = elim (Bool-cases (a.is_valid c)) [
    | inr bad ↦ absurd (ground arith)
    | inl good ↦ elim (Bool-cases (a.is_valid d)) [
      | inr bad ↦ absurd (ground arith)
      | inl good2 ↦
          let same : a.char_to_pos c ≡ a.char_to_pos d = ground arith in
          let rest : same_key a cs ds ≡ true = ground arith in
          elim (Option-cases (get_edge es (a.char_to_pos d))) [
            | inl gone ↦ rw (find_word_trie_aux, good, good2, same, gone) refl
            | inr (child, there) ↦
                rw (find_word_trie_aux, good, good2, same, there)
                  (find_aux-same_key cs ds child rest)
          ]
    ]
  ]

-- Two spellings of one key find the same.
pub find_word_trie-same_key :
    {V : Type 0} (t : Trie V) (p q : List ℕ)
    → same_key t.alphabet p q ≡ true
    → find_word_trie t p ≡ find_word_trie t q
unfolding find_word_trie
find_word_trie-same_key t p q h = find_aux-same_key t.alphabet p q t.root h

module _ {V : Type 0} (a : Alphabet) where
  found_aux-is_word :
      (p : List ℕ) (n : Node V) (x : V) → find_word_trie_aux a p n ≡ some x → same_key a p p ≡ true
  unfolding find_word_trie_aux
  found_aux-is_word [] (node w d k es) x e = refl
  found_aux-is_word (c ∷ cs) (node w d k es) x e = elim (Bool-cases (a.is_valid c)) [
    | inr bad ↦
        let bad_found : none ≡ some x = rw (find_word_trie_aux, bad) at e in
        absurd (ground (arith, bad_found))
    | inl good ↦ elim (Option-cases (get_edge es (a.char_to_pos c))) [
      | inl gone ↦
          let bad_found : none ≡ some x = rw (find_word_trie_aux, good, gone) at e in
          absurd (ground (arith, bad_found))
      | inr (child, there) ↦
          let rest = found_aux-is_word cs child x (rw (find_word_trie_aux, good, there) at e) in
          ground (arith, good, rest)
    ]
  ]

-- What is found is a word of the alphabet.
pub found-is_word :
    {V : Type 0} (t : Trie V) (p : List ℕ) {x : V}
    → find_word_trie t p ≡ some x
    → same_key t.alphabet p p ≡ true
unfolding find_word_trie
found-is_word t p {x} e = found_aux-is_word t.alphabet p t.root x e

module _ {V : Type 0} (a : Alphabet) where
  added-ok :
      (n : Node V) (pos : ℕ) (r : Status × Node V × Heap)
      → (added a n pos r).0 ≡ Status.ok
      → r.0 ≡ Status.ok
  unfolding added
  added-ok (node w d k es) pos (Status.ok, child, h) e = refl
  added-ok (node w d k es) pos (Status.invalid_word, child, h) e = e
  added-ok (node w d k es) pos (Status.no_mem, child, h) e = e

  pub add_aux-is_word :
      (word : List ℕ) (n : Node V) (x : Option V) (h : Heap)
      → (add_word_trie_aux a word n x h).0 ≡ Status.ok
      → is_word a word ≡ true
  unfolding add_word_trie_aux
  add_aux-is_word [] n x h e = refl
  add_aux-is_word (c ∷ cs) (node w d k es) x h e = elim (Bool-cases (a.is_valid c)) [
    | inr bad ↦ let e' = rw (add_word_trie_aux, bad) at e in absurd (ground arith)
    | inl good ↦ elim (Option-cases (get_edge es (pos_of a c))) [
      | inr (child, there) ↦
          let e' = rw (add_word_trie_aux, good, there) at e in
          rw good (add_aux-is_word cs child x h e')
      | inl gone ↦ elim (Option-cases (init_node {V = V} a.edges_no h).0) [
        | inl no_node ↦
            let e' = rw (add_word_trie_aux, good, gone, no_node) at e in absurd (ground arith)
        | inr (fresh, made) ↦
            let e' = rw (add_word_trie_aux, good, gone, made) at e in
            rw good (
              add_aux-is_word cs fresh x (init_node {V = V} a.edges_no h).1
                (added-ok (node w d k es) (pos_of a c) _ e'))
      ]
    ]
  ]

pub is_word-same_key :
    (a : Alphabet) (word : List ℕ) → is_word a word ≡ true → same_key a word word ≡ true
is_word-same_key a [] e = refl
is_word-same_key a (c ∷ cs) e =
    let rest : is_word a cs ≡ true = ground arith in
    let ih = is_word-same_key a cs rest in ground arith

-- A word that was added is one key with itself.
pub add_word_trie-same_key :
    {V : Type 0} (t : Trie V) (word : List ℕ) (x : Option V) (h : Heap)
    → (add_word_trie t word x h).0 ≡ Status.ok
    → same_key t.alphabet word word ≡ true
unfolding add_word_trie
add_word_trie-same_key t word x h e =
    is_word-same_key t.alphabet word (add_aux-is_word t.alphabet word t.root x h e)

-- A word that is added is one of the alphabet.
pub add_word_trie-is_word :
    {V : Type 0} (t : Trie V) (word : List ℕ) (x : Option V) (h : Heap)
    → (add_word_trie t word x h).0 ≡ Status.ok
    → is_word t.alphabet word ≡ true
unfolding add_word_trie
add_word_trie-is_word t word x h e = add_aux-is_word t.alphabet word t.root x h e
