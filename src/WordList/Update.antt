-- ===== src/WordList/Update.antt =====
-- src/lists/list.c: making, changing and destroying a list.
use ya_ircd.Prelude.{ℕ, Bool, true, false, not, List, Option, none, some, if◌then◌else◌}
use ya_ircd.Memory.{Heap, malloc, mutex_init, free}
use ya_ircd.Trie.{
  Trie, Alphabet, Status, init_trie, find_word_trie, add_word_trie, delete_word_trie, destroy_trie,
}
use ya_ircd.WordList.{
  YaircdNode, M, ◌>>=◌, ◌>>◌, pure, lock_list, unlock_list, lock_node, unlock_node,
}

-- 0, `LST_INVALID_WORD`, `LST_NO_MEM` and `LST_ALREADY_EXISTS`.
pub data ListCode : Type 0 where
  ok invalid_word no_mem already_exists : ListCode

-- The codes of the trie are the first two of the list's, with the same numbers.
abbrev pub code_of : Status → ListCode
code_of Status.ok = ok
code_of Status.invalid_word = invalid_word
code_of Status.no_mem = no_mem

abbrev pub is_ok : ListCode → Bool
is_ok ok = true
is_ok _ = false

-- The list, which is the trie behind its mutex, and the heap.
pub record ListState (D : Type 0) : Type 0 where
  pub trie : Trie (YaircdNode D)
  pub heap : Heap

-- A new node, or `NULL` and no block.
unfoldable pub new_node : Heap → Bool × Heap
new_node h =
    let (got, h1) = malloc h in
    let (init, h2) = mutex_init h1 in
    if not got then (false, h1) else if not init then (false, free h2) else (true, h2)

module _ {D : Type 0} where
  abbrev pub node_of : D → YaircdNode D
  node_of d = record { value = some d }

  -- The list itself is one block, beside those of its trie.
  unfoldable pub init_word_list : Alphabet → Heap → Option (Trie (YaircdNode D)) × Heap
  init_word_list a h =
      let (got, h1) = malloc h in
      let (init, h2) = mutex_init h1 in
      let (made, h3) = init_trie a h2 in
      if not got
      then (none, h1)
      else if not init
      then (none, free h2)
      else elim made [ none ↦ (none, free h3) | some t ↦ (some t, h3) ]

  -- The search and the insertion, which `list_add` makes with the list locked.
  unfoldable pub insert_node : D → List ℕ → ListState D → ListCode × ListState D
  insert_node d word s =
      let (ret, t, h) = add_word_trie s.trie word (some (node_of d)) s.heap in
      elim (find_word_trie s.trie word) [
        | some n ↦ (already_exists, s)
        | none ↦ (code_of ret, record { trie = t; heap = h })
      ]

  -- `list_add_nolock` returns out of both branches of its search, before the code that frees the node.
  unfoldable pub list_add_nolock : D → List ℕ → ListState D → ListCode × ListState D
  list_add_nolock d word s =
      let (made, h) = new_node s.heap in
      if made then insert_node d word (record s { heap = h }) else (no_mem, record s { heap = h })

  -- What `list_add` does behind `pthread_mutex_unlock`.
  abbrev pub settled : ListCode → ListState D → ListState D
  settled ret s = if is_ok ret then s else record s { heap = free s.heap }

  unfoldable pub list_add : D → List ℕ → M (ListState D) ListCode
  list_add d word l s =
      let (made, h) = new_node s.heap in
      if made
      then (do
        lock_list
        ret ← λ l' s'. let (ret, s'') = insert_node d word s' in some (ret, l', s'')
        unlock_list
        λ l' s'. some (ret, l', settled ret s'))
          l (record s { heap = h })
      else some (no_mem, l, record s { heap = h })

  abbrev pub freed : YaircdNode D → Trie (YaircdNode D) → Heap → Option D × ListState D
  freed n t h = (n.value, record { trie = t; heap = free h })

  -- `free_yaircd_node` frees the node and not its data.
  unfoldable pub list_delete_nolock : List ℕ → ListState D → Option D × ListState D
  list_delete_nolock word s =
      let (ret, t, h) = delete_word_trie s.trie word s.heap in
      elim ret [ none ↦ (none, record { trie = t; heap = h }) | some n ↦ freed n t h ]

  unfoldable pub list_delete : List ℕ → M (ListState D) (Option D)
  list_delete word = do
    lock_list
    found ← λ l s. some (find_word_trie s.trie word, l, s)
    elim found [
      | none ↦ do unlock_list; pure none
      | some n ↦ do
        lock_node
        λ l s.
            let (_, t, h) = delete_word_trie s.trie word s.heap in
            some (tt, l, record { trie = t; heap = h })
        unlock_node
        unlock_list
        λ l s. some (n.value, l, record s { heap = free s.heap })
    ]

  -- The callback that `init_word_list` gives to the trie: `free_yaircd_node`, with `free_data` and
  -- `free_func` of the wrapper. The outcome is `none` once a node was read through `NULL`.
  unfoldable pub free_yaircd_node :
      Bool
      → (Option D → Heap → Heap)
      → Option (YaircdNode D)
      → Option (Unit {0}) × Heap
      → Option (Unit {0}) × Heap
  free_yaircd_node free_data free_func none (alive, h) = (none, h)
  free_yaircd_node free_data free_func (some n) (alive, h) =
      (alive, free (if free_data then free_func n.value h else h))

  -- `destroy_word_list` always asks the trie to free its data.
  unfoldable pub destroy_word_list :
      Bool → (Option D → Heap → Heap) → Trie (YaircdNode D) → Heap → Option (Unit {0}) × Heap
  destroy_word_list free_data free_func t h =
      destroy_trie t true (free_yaircd_node free_data free_func) (some tt, h)
