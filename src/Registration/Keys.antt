-- ===== src/Registration/Keys.antt =====
-- The list of clients keeps its alphabet.
use ya_ircd.Prelude.{
  ℕ, ◌≡◌, refl, sym, ap, ◌∙◌, inl, inr, List, Option, none, some, Bool-cases, Option-cases,
}
use ya_ircd.Trie.{Alphabet, find_word_trie, add_word_trie, delete_word_trie}
use ya_ircd.WordList.{Locks, released}
use ya_ircd.WordList.Deletion.{delete_eq}
use ya_ircd.WordList.Update.{
  ListCode, ListState, new_node, insert_node, settled, list_add, list_delete, ok, invalid_word,
  no_mem, already_exists,
}

module _ {D : Type 0} where
  settled-alphabet :
      (ret : ListCode) (s : ListState D) → (settled ret s).trie.alphabet ≡ s.trie.alphabet
  settled-alphabet ok s = refl
  settled-alphabet invalid_word s = refl
  settled-alphabet no_mem s = refl
  settled-alphabet already_exists s = refl

  insert_node-alphabet :
      (d : D) (word : List ℕ) (s : ListState D)
      → (insert_node d word s).1.trie.alphabet ≡ s.trie.alphabet
  unfolding insert_node add_word_trie
  insert_node-alphabet d word s = elim (Option-cases (find_word_trie s.trie word)) [
    | inl e ↦ rw (insert_node, e) refl
    | inr (n, e) ↦ rw (insert_node, e) refl
  ]

  -- The alphabet behind a call, or `a`.
  abbrev alphabet_of : {R : Type 0} → Alphabet → Option (R × Locks × ListState D) → Alphabet
  alphabet_of a none = a
  alphabet_of a (some (_, _, s)) = s.trie.alphabet

  pub list_add-alphabet :
      (d : D) (word : List ℕ) (s : ListState D) {ret : ListCode} {s' : ListState D}
      → list_add d word released s ≡ some (ret, released, s')
      → s'.trie.alphabet ≡ s.trie.alphabet
  unfolding list_add
  list_add-alphabet d word s e =
      sym (ap (alphabet_of s.trie.alphabet) e) ∙ elim (Bool-cases (new_node s.heap).0) [
        | inr bad ↦ rw (list_add, bad) refl
        | inl good ↦
            let s1 : ListState D = record s { heap = (new_node s.heap).1 } in
            rw (list_add, good)
              (settled-alphabet (insert_node d word s1).0 (insert_node d word s1).1
                ∙ insert_node-alphabet d word s1)
      ]

  pub list_delete-alphabet :
      (word : List ℕ) (s : ListState D) {old : Option D} {s' : ListState D}
      → list_delete word released s ≡ some (old, released, s')
      → s'.trie.alphabet ≡ s.trie.alphabet
  unfolding delete_word_trie
  list_delete-alphabet word s e =
      sym (ap (alphabet_of s.trie.alphabet) e) ∙ elim (Option-cases (find_word_trie s.trie word)) [
        | inl gone ↦ rw (delete_eq word s, gone) refl
        | inr (n, there) ↦ rw (delete_eq word s, there) refl
      ]
