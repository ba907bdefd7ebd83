-- ===== src/WordList/Deletion.antt =====
-- src/lists/list.c: deletions change the mapping and the heap as they report.
use ya_ircd.Prelude.{
  ℕ, ◌+◌, ◌≡◌, refl, List, Option, none, some, Option-cases, arith, inl, inr, if◌then◌else◌,
}
use ya_ircd.Memory.{free}
use ya_ircd.Trie.{find_word_trie, delete_word_trie}
use ya_ircd.Trie.Keys.{same_key}
use ya_ircd.Trie.Laws.{
  IsTrie, blocks, find_word_trie-delete_word_trie, word_trie-IsTrie, word_trie_balance,
}
use ya_ircd.WordList.{
  YaircdNode, Locks, M, released, list_held, lock_node, unlock_node, unlock_list, pure, ◌>>◌,
}
use ya_ircd.WordList.Update.{ListState, freed, list_delete_nolock, list_delete}

module _ {D : Type 0} where
  nolock_eq :
      (word : List ℕ) (s : ListState D)
      → IsTrie (YaircdNode D) s.trie
      → let (_, t, h) = delete_word_trie s.trie word s.heap in
        list_delete_nolock word s
        ≡ elim (find_word_trie s.trie word) as (λ _. Option D × ListState D) [
          | none ↦ (none, record { trie = t; heap = h })
          | some n ↦ freed n t h
        ]
  unfolding list_delete_nolock
  nolock_eq word s v = rw (← (find_word_trie-delete_word_trie s.trie word s.heap word v).0) refl

  pub delete_eq :
      (word : List ℕ) (s : ListState D)
      → let (_, t, h) = delete_word_trie s.trie word s.heap in
        list_delete word released s
        ≡ elim (find_word_trie s.trie word) as (λ _. Option (Option D × Locks × ListState D)) [
          | none ↦ some (none, released, s)
          | some n ↦ some (n.value, released, (freed n t h).1)
        ]
  unfolding list_delete
  delete_eq word s = steps (find_word_trie s.trie word)
    where
      steps :
          (found : Option (YaircdNode D))
          → (elim found as (λ _. M (ListState D) (Option D)) [
            | none ↦ do unlock_list; pure none
            | some n ↦ do
              lock_node
              λ l s.
                  let (_, t, h) = delete_word_trie s.trie word s.heap in
                  some (tt, l, record { trie = t; heap = h })
              unlock_node
              unlock_list
              λ l s. some (n.value, l, record s { heap = free s.heap })
          ])
              list_held s
            ≡ elim found as (λ _. Option (Option D × Locks × ListState D)) [
              | none ↦ some (none, released, s)
              | some n ↦
                  let (_, t, h) = delete_word_trie s.trie word s.heap in
                  some (n.value, released, (freed n t h).1)
            ]
      steps none = refl
      steps (some n) = refl

  -- On a well-formed trie `list_delete_nolock` returns the data of the node of `word`, `NULL` if
  -- there is none; it unmaps the key of `word`, changes no other key, keeps the trie well formed,
  -- and frees the node with the blocks of the trie that go. `list_delete` from a thread that holds
  -- no lock does the same where there is a node, and leaves the list alone where there is none; it
  -- never waits and holds no lock at its end.
  pub list_delete-Deleted :
      (word : List ℕ) (s : ListState D)
      → IsTrie (YaircdNode D) s.trie
      → let (old, s') = list_delete_nolock word s in
        let found = find_word_trie s.trie word in
        (list_delete word released s ≡ some (old, released, elim found [ none ↦ s | some n ↦ s' ]))
        × (old ≡ elim found [ none ↦ none | some n ↦ n.value ])
        × IsTrie (YaircdNode D) s'.trie
        × ((q : List ℕ)
            → find_word_trie s'.trie q
              ≡ (if same_key s.trie.alphabet word q then none else find_word_trie s.trie q))
        × (s'.heap.allocs + s.heap.frees + blocks s.trie + elim found [ none ↦ 0 | some n ↦ 1 ]
            ≡ s.heap.allocs + s'.heap.frees + blocks s'.trie)
  list_delete-Deleted word s v =
      let others : (q : List ℕ) → _ =
        λ q. (find_word_trie-delete_word_trie s.trie word s.heap q v).1 in
      let still = (word_trie-IsTrie s.trie word none s.heap v).1 in
      let even = (word_trie_balance s.trie word none s.heap v).1 in
      elim (Option-cases (find_word_trie s.trie word)) [
        | inl e ↦
            rw (delete_eq word s, e, nolock_eq word s v, e) (refl, refl, still, others, omega arith)
        | inr (n, e) ↦
            rw (delete_eq word s, e, nolock_eq word s v, e) (refl, refl, still, others, omega arith)
      ]
