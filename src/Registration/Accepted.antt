-- ===== src/Registration/Accepted.antt =====
-- A name that the list of clients accepts consists of characters of the alphabet.
use ya_ircd.Prelude.{
  ℕ, ◌≡◌, refl, ap, inl, inr, true, List, Option, none, some, arith, Bool-cases, Option-cases,
}
use ya_ircd.Trie.{Status, add_word_trie, find_word_trie}
use ya_ircd.Trie.Alike.{add_aux-is_word}
use ya_ircd.Trie.Keys.{is_word}
use ya_ircd.WordList.{Locks, released}
use ya_ircd.WordList.Update.{
  ListCode, ListState, node_of, new_node, insert_node, list_add, ok, code_of,
}

code_of-ok : (s : Status) → code_of s ≡ ok → s ≡ Status.ok
code_of-ok Status.ok e = refl
code_of-ok Status.invalid_word e = absurd (ground arith)
code_of-ok Status.no_mem e = absurd (ground arith)

module _ {D : Type 0} where
  insert_node-is_word :
      (d : D) (word : List ℕ) (s : ListState D)
      → (insert_node d word s).0 ≡ ok
      → is_word s.trie.alphabet word ≡ true
  unfolding insert_node add_word_trie
  insert_node-is_word d word s e = elim (Option-cases (find_word_trie s.trie word)) [
    | inr (n, there) ↦ let e' = rw (insert_node, there) at e in absurd (ground arith)
    | inl gone ↦
        let e' = rw (insert_node, gone) at e in
        add_aux-is_word s.trie.alphabet word s.trie.root (some (node_of d)) s.heap (code_of-ok _ e')
  ]

  abbrev code_behind : {R : Type 0} → R → Option (R × Locks × ListState D) → R
  code_behind r none = r
  code_behind r (some (ret, _, _)) = ret

  -- A word under which something was added has only characters of the alphabet.
  pub list_add-is_word :
      (d : D) (word : List ℕ) (s : ListState D) {s' : ListState D}
      → list_add d word released s ≡ some (ok, released, s')
      → is_word s.trie.alphabet word ≡ true
  unfolding list_add
  list_add-is_word d word s e =
      let ret = ap (code_behind ListCode.no_mem) e in
      elim (Bool-cases (new_node s.heap).0) [
        | inr bad ↦ let ret' = rw (list_add, bad) at ret in absurd (ground arith)
        | inl good ↦
            let s1 : ListState D = record s { heap = (new_node s.heap).1 } in
            let ret' = rw (list_add, good) at ret in insert_node-is_word d word s1 ret'
      ]
