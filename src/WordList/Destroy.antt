-- ===== src/WordList/Destroy.antt =====
-- src/lists/list.c: what destroying a list does with the data of its trie.
use ya_ircd.Prelude.{◌≡◌, refl, Bool, Option, none, some, Option-cases, arith, inl, inr}
use ya_ircd.Memory.{Heap, malloc, mutex_init}
use ya_ircd.Trie.{Trie, Alphabet, init_trie, init_node, destroy_trie, destroy_aux}
use ya_ircd.Trie.Invariant.{init_node-fresh, fresh_node}
use ya_ircd.WordList.{YaircdNode}
use ya_ircd.WordList.Update.{init_word_list, destroy_word_list, free_yaircd_node}

module _ {D : Type 0} where
  -- A node without data at the root is read through `NULL`.
  null_root :
      (free_data : Bool) (free_func : Option D → Heap → Heap) (t : Trie (YaircdNode D)) (h : Heap)
      (a : Alphabet)
      → t.root ≡ fresh_node (YaircdNode D) a.edges_no
      → (destroy_word_list free_data free_func t h).0 ≡ none
  unfolding destroy_word_list destroy_trie free_yaircd_node destroy_aux
  null_root free_data free_func t h a e = rw (destroy_trie, e) refl

  -- `destroy_word_list` of a list that `init_word_list` has just made has no result, with
  -- `LIST_FREE_NODE_DATA` and without it: it hands the data of every trie node to
  -- `free_yaircd_node`, also the `NULL` of the root, and that reads the mutex of it.
  pub init_word_list-destroy_word_list :
      (a : Alphabet) (h h' : Heap) (free_data : Bool) (free_func : Option D → Heap → Heap)
      {t : Trie (YaircdNode D)}
      → (init_word_list a h).0 ≡ some t
      → (destroy_word_list free_data free_func t h').0 ≡ none
  unfolding init_word_list init_trie
  init_word_list-destroy_word_list a h h' free_data free_func {t} e =
      let h2 : Heap = (mutex_init (malloc h).1).1 in
      elim (Option-cases (init_node {V = YaircdNode D} a.edges_no (malloc h2).1).0) [
        | inl full ↦ absurd (ground arith)
        | inr (n, got) ↦
            let fresh = init_node-fresh a.edges_no (malloc h2).1 got in
            null_root free_data free_func t h' a (ground arith)
      ]
