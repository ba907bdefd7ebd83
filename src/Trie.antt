-- ===== src/Trie.antt =====
-- src/trie/trie.c and src/include/trie.h: the nodes, and the operations on one word.
pub mod Array
pub mod Invariant
pub mod Unchanged
pub mod Keys
pub mod Step
pub mod Find
pub mod Preserve
pub mod Balance
pub mod Laws
pub mod Filled
pub mod Reached
pub mod Alike
pub mod Prefix
mod Tests
use ya_ircd.Prelude.{
  ℕ, zero, suc, ◌+◌, ◌-◌, ◌%◌, Bool, true, false, not, ◌&&◌, List, [], ◌∷◌, Option, none, some,
  ◌==◌, if◌then◌else◌,
}
use ya_ircd.Memory.{Heap, malloc, free}

-- `struct trie_node`. `data` is a `void *`, which may be `NULL`; `edges` is the array, slot by slot.
mutual
  pub data Node (V : Type 0) : Type 0 where
    node : Bool → Option V → ℕ → Edges V → Node V

  pub data Edges (V : Type 0) : Type 0 where
    end : Edges V
    null : Edges V → Edges V
    link : Node V → Edges V → Edges V

-- The functions that `init_trie` is given, and the size of the alphabet.
pub record Alphabet : Type 0 where
  pub is_valid : ℕ → Bool
  pub pos_to_char : ℕ → ℕ
  pub char_to_pos : ℕ → ℕ
  pub edges_no : ℕ

-- `TRIE_INVALID_WORD` and `TRIE_NO_MEM`; `ok` is 0.
pub data Status : Type 0 where
  ok invalid_word no_mem : Status

module _ {V : Type 0} where
  -- `edges[i]`; `none` is `NULL`.
  unfoldable pub get_edge : Edges V → ℕ → Option (Node V)
  get_edge end i = none
  get_edge (null es) zero = none
  get_edge (link n es) zero = some n
  get_edge (null es) (suc i) = get_edge es i
  get_edge (link n es) (suc i) = get_edge es i

  abbrev pub slot : Option (Node V) → Edges V → Edges V
  slot none es = null es
  slot (some n) es = link n es

  -- `edges[i] = p`.
  unfoldable pub set_edge : Edges V → ℕ → Option (Node V) → Edges V
  set_edge end i p = end
  set_edge (null es) zero p = slot p es
  set_edge (link n es) zero p = slot p es
  set_edge (null es) (suc i) p = null (set_edge es i p)
  set_edge (link n es) (suc i) p = link n (set_edge es i p)

  -- The loop of `init_node` that sets every edge to `NULL`.
  unfoldable pub null_edges : ℕ → Edges V
  null_edges zero = end
  null_edges (suc n) = null (null_edges n)

  -- Two allocations; the node is freed again if its edges cannot be allocated.
  unfoldable pub init_node : ℕ → Heap → Option (Node V) × Heap
  init_node edges h =
      let (got_node, h1) = malloc h in
      let (got_edges, h2) = malloc h1 in
      if not got_node
      then (none, h1)
      else if not got_edges
      then (none, free h2)
      else (some (node false none 0 (null_edges edges)), h2)

  -- `free(node->edges[pos]->edges); free(node->edges[pos]); node->edges[pos] = NULL;
  -- node->children--;`
  unfoldable pub free_child : Node V → ℕ → Heap → Node V × Heap
  free_child (node w d k es) pos h = (node w d (k - 1) (set_edge es pos none), free (free h))

-- The index that insertion and deletion keep in an `unsigned char`.
abbrev pub pos_of : Alphabet → ℕ → ℕ
pos_of a c = a.char_to_pos c % 256

module _ {V : Type 0} (a : Alphabet) where
  open a use {is_valid, char_to_pos, edges_no}

  -- What `add_word_trie_aux` does behind the recursive call on a node it has just linked.
  unfoldable pub added : Node V → ℕ → Status × Node V × Heap → Status × Node V × Heap
  added (node w d k es) pos (ok, child, h) =
      (ok, node w d (k + 1) (set_edge es pos (some child)), h)
  added (node w d k es) pos (ret, child, h) =
      let (n, h') = free_child (node w d (k + 1) (set_edge es pos (some child))) pos h in
      (ret, n, h')

  -- The return value, the node as it is left, and the heap.
  unfoldable pub add_word_trie_aux : List ℕ → Node V → Option V → Heap → Status × Node V × Heap
  add_word_trie_aux [] (node w d k es) x h = (ok, node true x k es, h)
  add_word_trie_aux (c ∷ cs) (node w d k es) x h = elim (is_valid c) [
    | false ↦ (invalid_word, node w d k es, h)
    | true ↦ elim (get_edge es (pos_of a c)) [
      | some child ↦
          let (ret, child', h') = add_word_trie_aux cs child x h in
          (ret, node w d k (set_edge es (pos_of a c) (some child')), h')
      | none ↦
          let (fresh, h') = init_node edges_no h in
          elim fresh [
            | none ↦ (no_mem, node w d k (set_edge es (pos_of a c) none), h')
            | some n ↦ added (node w d k es) (pos_of a c) (add_word_trie_aux cs n x h')
          ]
    ]
  ]

  -- `*root` behind a deletion below it: an empty child that ends no word is freed.
  unfoldable pub pruned : Node V → ℕ → Option V × Node V × Heap → Option V × Node V × Heap
  pruned (node w d k es) pos (ret, node w' d' k' es', h) =
      let here = node w d k (set_edge es pos (some (node w' d' k' es'))) in
      let (n, h') = free_child here pos h in
      if k' == 0 && not w' then (ret, n, h') else (ret, here, h)

  unfoldable pub delete_word_trie_aux : List ℕ → Node V → Heap → Option V × Node V × Heap
  delete_word_trie_aux [] (node w d k es) h =
      if w then (d, node false d k es, h) else (none, node w d k es, h)
  delete_word_trie_aux (c ∷ cs) (node w d k es) h = elim (is_valid c) [
    | false ↦ (none, node w d k es, h)
    | true ↦ elim (get_edge es (pos_of a c)) [
      | none ↦ (none, node w d k es, h)
      | some child ↦ pruned (node w d k es) (pos_of a c) (delete_word_trie_aux cs child h)
    ]
  ]

  unfoldable pub find_word_trie_aux : List ℕ → Node V → Option V
  find_word_trie_aux [] (node w d k es) = if w then d else none
  find_word_trie_aux (c ∷ cs) (node w d k es) = elim (is_valid c) [
    | false ↦ none
    | true ↦ elim (get_edge es (char_to_pos c)) [
      | none ↦ none
      | some child ↦ find_word_trie_aux cs child
    ]
  ]

-- The callback runs over the state that it changes, at this node before the nodes below it.
module _ {V S : Type 0} (f : Option V → S → S) where
  unfoldable mutual
    pub trie_for_each_aux : Node V → S → S
    trie_for_each_aux (node w d k es) s = for_each_edge es (if w then f d s else s)

    pub for_each_edge : Edges V → S → S
    for_each_edge end s = s
    for_each_edge (null es) s = for_each_edge es s
    for_each_edge (link n es) s = for_each_edge es (trie_for_each_aux n s)

-- `free_f` is called at every node, behind the nodes below it, if `free_data` is `TRIE_FREE_DATA`.
module _ {V S : Type 0} (free_data : Bool) (free_f : Option V → S × Heap → S × Heap) where
  unfoldable mutual
    pub destroy_aux : Node V → S × Heap → S × Heap
    destroy_aux (node w d k es) s =
        let (s', h) = if free_data then free_f d (destroy_edges es s) else destroy_edges es s in
        (s', free (free h))

    pub destroy_edges : Edges V → S × Heap → S × Heap
    destroy_edges end s = s
    destroy_edges (null es) s = destroy_edges es s
    destroy_edges (link n es) s = destroy_edges es (destroy_aux n s)

-- `struct trie_t`, without `free_f`, which `destroy_trie` takes here.
pub record Trie (V : Type 0) : Type 0 where
  pub root : Node V
  pub alphabet : Alphabet

module _ {V : Type 0} where
  unfoldable pub init_trie : Alphabet → Heap → Option (Trie V) × Heap
  init_trie a h =
      let (got, h1) = malloc h in
      let (root, h2) = init_node a.edges_no h1 in
      if not got then (none, h1) else elim root [
        | none ↦ (none, free h2)
        | some n ↦ (some (record { root = n; alphabet = a }), h2)
      ]

  unfoldable pub add_word_trie : Trie V → List ℕ → Option V → Heap → Status × Trie V × Heap
  add_word_trie t word x h =
      let (ret, n, h') = add_word_trie_aux t.alphabet word t.root x h in
      (ret, record t { root = n }, h')

  unfoldable pub delete_word_trie : Trie V → List ℕ → Heap → Option V × Trie V × Heap
  delete_word_trie t word h =
      let (ret, n, h') = delete_word_trie_aux t.alphabet word t.root h in
      (ret, record t { root = n }, h')

  unfoldable pub find_word_trie : Trie V → List ℕ → Option V
  find_word_trie t word = find_word_trie_aux t.alphabet word t.root

  unfoldable pub trie_for_each : {S : Type 0} → Trie V → (Option V → S → S) → S → S
  trie_for_each t f = trie_for_each_aux f t.root

  unfoldable pub destroy_trie :
      {S : Type 0} → Trie V → Bool → (Option V → S × Heap → S × Heap) → S × Heap → S × Heap
  destroy_trie t free_data free_f s =
      let (s', h) = destroy_aux free_data free_f t.root s in (s', free h)
