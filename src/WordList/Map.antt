-- ===== src/WordList/Map.antt =====
-- src/lists/list.c: additions change the mapping and the heap as they report.
use ya_ircd.Prelude.{
  ℕ, ◌+◌, ◌≡◌, refl, true, List, Option, none, some, Bool-cases, arith, inl, inr, if◌then◌else◌,
}
use ya_ircd.Memory.{Heap, malloc, malloc_lem, mutex_init_lem}
use ya_ircd.Trie.{Trie, Status, find_word_trie, add_word_trie}
use ya_ircd.Trie.Keys.{same_key}
use ya_ircd.Trie.Laws.{
  IsTrie, blocks, find_word_trie-add_word_trie, word_trie-IsTrie, word_trie_balance,
}
use ya_ircd.Trie.Unchanged.{add_word_trie-unchanged}
use ya_ircd.WordList.{YaircdNode, released}
use ya_ircd.WordList.Update.{
  ListCode, ok, invalid_word, no_mem, already_exists, code_of, is_ok, ListState, node_of, new_node,
  insert_node, list_add_nolock, settled, list_add,
}

-- A new node is one block, and a failure leaves none.
new_node_lem :
    (h : Heap)
    → let (made, h') = new_node h in
      h'.allocs + h.frees ≡ h.allocs + h'.frees + (if made then 1 else 0)
unfolding new_node
new_node_lem h = ground (arith, malloc_lem h, mutex_init_lem (malloc h).1)

module _ {D : Type 0} where
  -- The blocks in use that are not those of the trie: `n` more than before.
  abbrev pub Gains : ListState D → ℕ → ListState D → Type 0
  Gains s n s' =
      s'.heap.allocs + s.heap.frees + blocks s.trie
      ≡ s.heap.allocs + s'.heap.frees + blocks s'.trie + n

  -- What an addition that returns the code has done to the trie.
  abbrev pub Added : D → List ℕ → Trie (YaircdNode D) → ListCode → Trie (YaircdNode D) → Type 0
  Added d word t ok t' =
      (find_word_trie t word ≡ none)
      × ((q : List ℕ)
          → find_word_trie t' q
            ≡ (if same_key t.alphabet word q then some (node_of d) else find_word_trie t q))
  Added d word t already_exists t' =
      (t' ≡ t) × (n : YaircdNode D) × (find_word_trie t word ≡ some n)
  Added d word t _ t' = t' ≡ t

  abbrev Result : D → List ℕ → ListState D → ℕ → ListCode × ListState D → Type 0
  Result d word s n (ret, s') =
      Added d word s.trie ret s'.trie × IsTrie (YaircdNode D) s'.trie × Gains s n s'

  insert_node-Added :
      (d : D) (word : List ℕ) (s : ListState D) (ret : Status)
      → IsTrie (YaircdNode D) s.trie
      → find_word_trie s.trie word ≡ none
      → (add_word_trie s.trie word (some (node_of d)) s.heap).0 ≡ ret
      → let (_, t, h) = add_word_trie s.trie word (some (node_of d)) s.heap in
        Added d word s.trie (code_of ret) t
  insert_node-Added d word s Status.ok v absent e =
      (absent, λ q. find_word_trie-add_word_trie s.trie word _ s.heap q v e)
  insert_node-Added d word s Status.invalid_word v absent e =
      add_word_trie-unchanged s.trie word _ s.heap (λ e'. ground arith)
  insert_node-Added d word s Status.no_mem v absent e =
      add_word_trie-unchanged s.trie word _ s.heap (λ e'. ground arith)

  insert_node_lem :
      (d : D) (word : List ℕ) (s : ListState D)
      → IsTrie (YaircdNode D) s.trie
      → Result d word s 0 (insert_node d word s)
  unfolding insert_node
  insert_node_lem d word s v = cases (find_word_trie s.trie word) refl
    where
      cases :
          (found : Option (YaircdNode D))
          → find_word_trie s.trie word ≡ found
          → Result d word s 0 (
              let (ret, t, h) = add_word_trie s.trie word (some (node_of d)) s.heap in
              elim found as (λ _. ListCode × ListState D) [
                | some n ↦ (already_exists, s)
                | none ↦ (code_of ret, record { trie = t; heap = h })
              ])
      cases none e = (
        insert_node-Added d word s (add_word_trie s.trie word (some (node_of d)) s.heap).0 v e refl,
        (word_trie-IsTrie s.trie word (some (node_of d)) s.heap v).0,
        omega (arith, (word_trie_balance s.trie word (some (node_of d)) s.heap v).0),
      )
      cases (some n) e = ((refl, n, e), v, omega arith)

  settled-trie : (ret : ListCode) (s : ListState D) → (settled ret s).trie ≡ s.trie
  settled-trie ok s = refl
  settled-trie invalid_word s = refl
  settled-trie no_mem s = refl
  settled-trie already_exists s = refl

  settled-Gains :
      (ret : ListCode) (s : ListState D) (h : Heap) (s' : ListState D)
      → h.allocs + s.heap.frees ≡ s.heap.allocs + h.frees + 1
      → Gains (record s { heap = h }) 0 s'
      → Gains s (if is_ok ret then 1 else 0) (settled ret s')
  settled-Gains ok s h s' e g = omega arith
  settled-Gains invalid_word s h s' e g = omega arith
  settled-Gains no_mem s h s' e g = omega arith
  settled-Gains already_exists s h s' e g = omega arith

  -- An addition to a well-formed trie, from a thread that holds no lock, never waits, holds no
  -- lock at its end and keeps the trie well formed. If it returns 0, the word was not there, its
  -- key is now mapped to a new node with `d`, and no other key changed; on any other code the trie
  -- is as it was, and `LST_ALREADY_EXISTS` is returned only for a word that is there. One block
  -- more than those of the trie is in use if it returns 0, and none on an error.
  pub list_add-Added :
      (d : D) (word : List ℕ) (s : ListState D)
      → IsTrie (YaircdNode D) s.trie
      → (ret : ListCode) × (s' : ListState D) × (list_add d word released s
          ≡ some (ret, released, s'))
        × Added d word s.trie ret s'.trie
        × IsTrie (YaircdNode D) s'.trie
        × Gains s (if is_ok ret then 1 else 0) s'
  unfolding list_add
  list_add-Added d word s v = elim (Bool-cases (new_node s.heap).0) [
    | inr e ↦ (no_mem, s1, rw e refl, refl, v, ground (arith, new_node_lem s.heap))
    | inl e ↦
        let fits = insert_node_lem d word s1 v in
        (
          (insert_node d word s1).0,
          settled (insert_node d word s1).0 (insert_node d word s1).1,
          rw e refl,
          rw (settled-trie (insert_node d word s1).0 (insert_node d word s1).1) fits.0,
          rw (settled-trie (insert_node d word s1).0 (insert_node d word s1).1) fits.1,
          settled-Gains (insert_node d word s1).0 s s1.heap _ (ground (arith, new_node_lem s.heap))
              fits.2,
        )
  ]
    where
      s1 : ListState D
      s1 = record s { heap = (new_node s.heap).1 }

  -- When its new node could be made, `list_add_nolock` on a well-formed trie keeps it well formed.
  -- If it returns 0, the word was not there and its key alone is mapped to the new node; on any
  -- other code the trie is as it was. But one block more than those of the trie is in use whatever
  -- it returns: on `LST_ALREADY_EXISTS` and on the errors of the trie the node leaks.
  pub list_add_nolock-leak :
      (d : D) (word : List ℕ) (s : ListState D)
      → IsTrie (YaircdNode D) s.trie
      → (new_node s.heap).0 ≡ true
      → let (ret, s') = list_add_nolock d word s in
        Added d word s.trie ret s'.trie × IsTrie (YaircdNode D) s'.trie × Gains s 1 s'
  unfolding list_add_nolock
  list_add_nolock-leak d word s v made =
      let s1 : ListState D = record s { heap = (new_node s.heap).1 } in
      let fits = insert_node_lem d word s1 v in
      let grown = new_node_lem s.heap in rw made (fits.0, fits.1, ground arith)
