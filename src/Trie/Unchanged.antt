-- ===== src/Trie/Unchanged.antt =====
-- A failed insertion undoes what it did (`add_word_trie_aux`, `free_child`).
use ya_ircd.Prelude.{
  ℕ, ◌≡◌, ◌≢◌, ◌⊎◌, refl, ◌∙◌, ap, ap₂, Bool, Option, none, some, List, [], ◌∷◌, inl, inr,
  Bool-cases, Option-cases, arith,
}
use ya_ircd.Memory.{Heap}
use ya_ircd.Trie.{
  Alphabet, Node, node, Edges, Status, ok, invalid_word, no_mem, get_edge, set_edge, pos_of,
  init_node, added, free_child, add_word_trie_aux, add_word_trie, Trie,
}
use ya_ircd.Trie.Array.{set_edge-get_edge, set_edge-set_edge}

pub Status-cases : (s : Status) → (s ≡ ok) ⊎ (s ≢ ok)
Status-cases ok = inl refl
Status-cases invalid_word = inr (λ e. cc)
Status-cases no_mem = inr (λ e. cc)

module _ {V : Type 0} where
  pub restore :
      (es : Edges V) (i : ℕ) {p : Option (Node V)} (q : Option (Node V))
      → get_edge es i ≡ p
      → set_edge (set_edge es i q) i p ≡ es
  restore es i q e = set_edge-set_edge es i q _ ∙ rw (← e) (set_edge-get_edge es i)

  added_error :
      (a : Alphabet) (w : Bool) (d : Option V) (k : ℕ) (es : Edges V) (pos : ℕ)
      (r : Status × Node V × Heap)
      → get_edge es pos ≡ none
      → (added a (node w d k es) pos r).0 ≢ ok
      → (added a (node w d k es) pos r).1 ≡ node w d k es
  unfolding added free_child
  added_error a w d k es pos (ok, n, h) e ne = absurd (ne refl)
  added_error a w d k es pos (invalid_word, n, h) e ne =
      ap₂ (node w d) (omega arith) (restore es pos (some n) e)
  added_error a w d k es pos (no_mem, n, h) e ne =
      ap₂ (node w d) (omega arith) (restore es pos (some n) e)

  pub add_word_trie_aux_error :
      (a : Alphabet) (word : List ℕ) (n : Node V) (x : Option V) (h : Heap)
      → (add_word_trie_aux a word n x h).0 ≢ ok
      → (add_word_trie_aux a word n x h).1 ≡ n
  unfolding add_word_trie_aux
  add_word_trie_aux_error a [] (node w d k es) x h ne = absurd (ne refl)
  add_word_trie_aux_error a (c ∷ cs) (node w d k es) x h ne = elim (Bool-cases (a.is_valid c)) [
    | inr bad ↦ ground arith
    | inl good ↦ elim (Option-cases (get_edge es (pos_of a c))) [
      | inr (child, e) ↦
          ground (arith, add_word_trie_aux_error a cs child x h, set_edge-get_edge es (pos_of a c))
      | inl e ↦ elim (Option-cases (init_node {V = V} a.edges_no h).0) [
        | inl full ↦ ground (arith, set_edge-get_edge es (pos_of a c))
        | inr (n, got) ↦
            let r = add_word_trie_aux a cs n x (init_node {V = V} a.edges_no h).1 in
            ground (arith, added_error a w d k es (pos_of a c) r e)
      ]
    ]
  ]

-- When `add_word_trie` reports an error, `TRIE_INVALID_WORD` or `TRIE_NO_MEM`, the trie is what it
-- was before the call, links, counters and data included, whichever allocation failed.
pub add_word_trie-unchanged :
    {V : Type 0} (t : Trie V) (word : List ℕ) (x : Option V) (h : Heap)
    → (add_word_trie t word x h).0 ≢ ok
    → (add_word_trie t word x h).1 ≡ t
unfolding add_word_trie
add_word_trie-unchanged t word x h ne =
    ap (λ n. record t { root = n }) (add_word_trie_aux_error t.alphabet word t.root x h ne)
