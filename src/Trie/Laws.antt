-- ===== src/Trie/Laws.antt =====
-- The operations of trie.c on a whole trie: a finite map from keys to data.
use ya_ircd.Prelude.{
  ℕ, ◌+◌, ◌*◌, ◌≡◌, refl, false, Option, none, some, List, arith, inl, inr, Option-cases,
  if◌then◌else◌,
}
use ya_ircd.Memory.{Heap, malloc, malloc_lem}
use ya_ircd.Trie.{
  Alphabet, ok, Trie, init_trie, init_node, add_word_trie, delete_word_trie, find_word_trie,
  destroy_trie,
}
use ya_ircd.Trie.Balance.{
  size, size-fresh_node, add_word_trie_aux-Balanced, delete_word_trie_aux-Balanced,
  destroy_aux_frees,
}
use ya_ircd.Trie.Find.{find_add, find_delete, find_deleted, find_fresh}
use ya_ircd.Trie.Invariant.{
  IsAlphabet, IsNode, fresh_node-IsNode, init_node-fresh, init_node-balance, fresh_node,
}
use ya_ircd.Trie.Keys.{same_key}
use ya_ircd.Trie.Preserve.{add_word_trie_aux-IsNode, delete_word_trie_aux-IsNode}
use ya_ircd.Trie.Unchanged.{add_word_trie-unchanged, Status-cases}

pub record IsTrie (V : Type 0) (t : Trie V) : Type 0 where
  pub alphabet : IsAlphabet t.alphabet
  pub root : IsNode t.alphabet.edges_no t.root

-- The heap blocks of a trie: its own, and two for each node.
abbrev pub blocks : {V : Type 0} → Trie V → ℕ
blocks t = 2 * size t.root + 1

module _ {V : Type 0} where
  -- A trie that `init_trie` makes over a good alphabet is well formed, and no lookup in it
  -- succeeds.
  pub init_trie-IsTrie :
      (a : Alphabet) (h : Heap) {t : Trie V}
      → IsAlphabet a
      → (init_trie a h).0 ≡ some t
      → IsTrie V t × ((word : List ℕ) → find_word_trie t word ≡ none)
  unfolding init_trie find_word_trie
  init_trie-IsTrie a h {t} al e =
      elim (Option-cases (init_node {V = V} a.edges_no (malloc h).1).0) [
        | inl full ↦ absurd (ground arith)
        | inr (n, got) ↦
            let fresh = init_node-fresh a.edges_no (malloc h).1 got in
            let made : t ≡ record { root = fresh_node V a.edges_no; alphabet = a } = ground arith in
            rw made (
              record { alphabet = al; root = fresh_node-IsNode V a.edges_no },
              λ word. find_fresh a word a.edges_no,
            )
      ]

  pub init_trie-alphabet :
      (a : Alphabet) (h : Heap) {t : Trie V} → (init_trie a h).0 ≡ some t → t.alphabet ≡ a
  unfolding init_trie
  init_trie-alphabet a h {t} e = elim (Option-cases (init_node {V = V} a.edges_no (malloc h).1).0) [
    | inl full ↦ absurd (ground arith)
    | inr (n, got) ↦ ground arith
  ]

  -- In a well-formed trie, a successful insertion maps the key of `word` to `x`, and changes no
  -- other key.
  pub find_word_trie-add_word_trie :
      (t : Trie V) (word : List ℕ) (x : Option V) (h : Heap) (q : List ℕ)
      → IsTrie V t
      → (add_word_trie t word x h).0 ≡ ok
      → find_word_trie (add_word_trie t word x h).1 q
        ≡ (if same_key t.alphabet word q then x else find_word_trie t q)
  unfolding add_word_trie find_word_trie
  find_word_trie-add_word_trie t word x h q v e =
      find_add t.alphabet word t.root x h q v.alphabet v.root e

  -- In a well-formed trie, a deletion returns the data of `word`, `NULL` if it is not there; it
  -- unmaps its key, and changes no other key.
  pub find_word_trie-delete_word_trie :
      (t : Trie V) (word : List ℕ) (h : Heap) (q : List ℕ)
      → IsTrie V t
      → ((delete_word_trie t word h).0 ≡ find_word_trie t word)
        × (find_word_trie (delete_word_trie t word h).1 q
            ≡ (if same_key t.alphabet word q then none else find_word_trie t q))
  unfolding delete_word_trie find_word_trie
  find_word_trie-delete_word_trie t word h q v = (
    find_deleted t.alphabet word t.root h v.alphabet,
    find_delete t.alphabet word t.root h q v.alphabet v.root,
  )

  -- Insertion, whether it succeeds or not, and deletion keep a trie well formed: each node has its
  -- number of edges, `children` counts the links among them, and no node but the root is left with
  -- neither a word nor a child.
  pub word_trie-IsTrie :
      (t : Trie V) (word : List ℕ) (x : Option V) (h : Heap)
      → IsTrie V t
      → IsTrie V (add_word_trie t word x h).1 × IsTrie V (delete_word_trie t word h).1
  word_trie-IsTrie t word x h v = (
    elim (Status-cases (add_word_trie t word x h).0) [
      | inl done ↦ record {
        alphabet = unfold add_word_trie in v.alphabet;
        root =
            unfold add_word_trie in
            (add_word_trie_aux-IsNode t.alphabet v.alphabet word t.root x h v.root done).0;
      }
      | inr failed ↦ rw (add_word_trie-unchanged t word x h failed) v
    ],
    record {
      alphabet = unfold delete_word_trie in v.alphabet;
      root =
          unfold delete_word_trie in
          delete_word_trie_aux-IsNode t.alphabet v.alphabet word t.root h v.root;
    },
  )

  -- On a well-formed trie no call leaks or frees too much: what was allocated less what was freed
  -- is the change in the blocks of the trie, on every path of insertion and deletion, also where
  -- an allocation fails.
  pub word_trie_balance :
      (t : Trie V) (word : List ℕ) (x : Option V) (h : Heap)
      → IsTrie V t
      → (let (_, t', h') = add_word_trie t word x h in
          h'.allocs + h.frees + blocks t ≡ h.allocs + h'.frees + blocks t')
        × (let (_, t', h') = delete_word_trie t word h in
            h'.allocs + h.frees + blocks t ≡ h.allocs + h'.frees + blocks t')
  unfolding add_word_trie delete_word_trie
  word_trie_balance t word x h v = (
    omega (arith, add_word_trie_aux-Balanced t.alphabet v.alphabet word t.root x h v.root),
    omega (arith, delete_word_trie_aux-Balanced t.alphabet v.alphabet word t.root h v.root),
  )

  -- `init_trie` allocates the blocks of the trie that it returns, or leaves none behind if it
  -- fails, and `destroy_trie` without `TRIE_FREE_DATA` frees the blocks of its trie.
  pub init_trie-destroy_trie :
      {S : Type 0} (a : Alphabet) (h : Heap) (t : Trie V) (f : Option V → S × Heap → S × Heap)
      (s : S)
      → (let (r, h') = init_trie {V = V} a h in
          h'.allocs + h.frees ≡ h.allocs + h'.frees + elim r [ none ↦ 0 | some made ↦ blocks made ])
        × (let (s', h') = destroy_trie t false f (s, h) in
            (s' ≡ s) × (h'.allocs ≡ h.allocs) × (h'.frees ≡ h.frees + blocks t))
  unfolding init_trie destroy_trie
  init_trie-destroy_trie a h t f s = (
    elim (Option-cases (init_node {V = V} a.edges_no (malloc h).1).0) [
      | inl full ↦ ground (arith, malloc_lem h, init_node-balance V a.edges_no (malloc h).1)
      | inr (n, got) ↦
          let fresh = init_node-fresh a.edges_no (malloc h).1 got in
          let one : size n ≡ 1 = rw fresh (size-fresh_node V a.edges_no) in
          ground (arith, malloc_lem h, init_node-balance V a.edges_no (malloc h).1)
    ],
    rw (destroy_aux_frees f t.root s h) (refl, refl, omega arith),
  )
