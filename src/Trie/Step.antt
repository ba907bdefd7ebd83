-- ===== src/Trie/Step.antt =====
-- One level of an insertion that succeeds.
use ya_ircd.Prelude.{
  ℕ, zero, suc, ◌+◌, ◌-◌, ◌<◌, ◌≡◌, ◌⊎◌, refl, Bool, true, false, Option, none, some, List, ◌∷◌,
  inl, inr, Bool-cases, Option-cases, arith,
}
use ya_ircd.Memory.{Heap}
use ya_ircd.Trie.{
  Alphabet, Node, node, Edges, Status, ok, get_edge, set_edge, pos_of, init_node, added, free_child,
  pruned, delete_word_trie_aux, add_word_trie_aux,
}
use ya_ircd.Trie.Invariant.{
  fresh_node, init_node-fresh, IsNode, IsArray, get_edge-IsSlot, fresh_node-IsNode, held,
  links-set_edge, IsUsed, IsSlot,
}
use ya_ircd.Trie.Array.{length_edges, links, set_edge-set_edge}

module _ {V : Type 0} (a : Alphabet) where
  -- What an insertion finds at an edge: a child, or `NULL`, in which case it goes on at a fresh
  -- node and counts one more child.
  abbrev pub At : Edges V → ℕ → Node V → ℕ → ℕ → Type 0
  At es i below k' k =
      ((get_edge es i ≡ some below) × (k' ≡ k))
      ⊎ ((get_edge es i ≡ none) × (below ≡ fresh_node V a.edges_no) × (k' ≡ k + 1))

  pub At-IsNode :
      (es : Edges V) (i : ℕ) {below : Node V} {k' k : ℕ}
      → IsArray a.edges_no es
      → At es i below k' k
      → IsNode a.edges_no below
  At-IsNode es i v (inl (old, _)) = (rw old at (get_edge-IsSlot a.edges_no es i v)).0
  At-IsNode es i v (inr (_, fresh, _)) = rw fresh (fresh_node-IsNode V a.edges_no)

  pub At-held :
      (es : Edges V) (i : ℕ) {below : Node V} {k' k : ℕ}
      → i < length_edges es
      → k ≡ links es
      → At es i below k' k
      → (k' + held (get_edge es i) ≡ k + 1) × (0 < k')
  At-held es i h e (inl (old, same)) =
      rw old (omega (arith, rw old at (links-set_edge es i none h)))
  At-held es i h e (inr (new, _, more)) = rw new (omega arith)

  added_ok :
      (w : Bool) (d : Option V) (k : ℕ) (es : Edges V) (pos : ℕ) (r : Status × Node V × Heap)
      → (added a (node w d k es) pos r).0 ≡ ok
      → (r.0 ≡ ok)
        × ((added a (node w d k es) pos r).1 ≡ node w d (k + 1) (set_edge es pos (some r.1)))
  unfolding added free_child
  added_ok w d k es pos (ok, n, h) e = (refl, refl)
  added_ok w d k es pos (_, n, h) e = absurd (ground arith)

  -- What a successful step of an insertion leaves: the word flag, the data, and one edge.
  pub add_step :
      (c : ℕ) (cs : List ℕ) (w : Bool) (d : Option V) (k : ℕ) (es : Edges V) (x : Option V)
      (h : Heap)
      → (add_word_trie_aux a (c ∷ cs) (node w d k es) x h).0 ≡ ok
      → (a.is_valid c ≡ true)
        × (below : Node V) × (h' : Heap) × (k' : ℕ) × ((add_word_trie_aux a cs below x h').0 ≡ ok)
        × ((add_word_trie_aux a (c ∷ cs) (node w d k es) x h).1
            ≡ node w d k' (set_edge es (pos_of a c) (some (add_word_trie_aux a cs below x h').1)))
        × At es (pos_of a c) below k' k
  unfolding add_word_trie_aux
  add_step c cs w d k es x h e = elim (Bool-cases (a.is_valid c)) [
    | inr bad ↦ absurd (ground arith)
    | inl good ↦ elim (Option-cases (get_edge es (pos_of a c))) [
      | inr (child, old) ↦ (good, child, h, k, ground arith, ground arith, inl (old, refl))
      | inl new ↦ elim (Option-cases (init_node {V = V} a.edges_no h).0) [
        | inl full ↦ absurd (ground arith)
        | inr (n, got) ↦
            let h' = (init_node {V = V} a.edges_no h).1 in
            (
              good,
              n,
              h',
              k + 1,
              ground (arith, added_ok w d k es (pos_of a c) (add_word_trie_aux a cs n x h')),
              ground (arith, added_ok w d k es (pos_of a c) (add_word_trie_aux a cs n x h')),
              inr (new, init_node-fresh a.edges_no h got, refl),
            )
      ]
    ]
  ]

-- One level of a deletion.
module _ {V : Type 0} (a : Alphabet) where
  -- The child that a deletion leaves is freed if it is of no more use, or kept.
  abbrev pub Pruned : Option (Node V) → Node V → ℕ → ℕ → Type 0
  Pruned p (node w d k es) after before =
      ((p ≡ none) × (w ≡ false) × (k ≡ 0) × (after ≡ before - 1))
      ⊎ ((p ≡ some (node w d k es)) × IsUsed (node w d k es) × (after ≡ before))

  pub Pruned-IsSlot :
      (edges_no : ℕ) (n : Node V) (p : Option (Node V)) (after before : ℕ)
      → IsNode edges_no n
      → Pruned p n after before
      → IsSlot edges_no p
  Pruned-IsSlot edges_no (node w d k es) p k' k2 v (inl (freed, _, _, _)) = rw freed tt
  Pruned-IsSlot edges_no (node w d k es) p k' k2 v (inr (kept, used, _)) = rw kept (v, used)

  pub Pruned-held :
      (es : Edges V) (i : ℕ) (n child : Node V) (p : Option (Node V)) (after before : ℕ)
      → i < length_edges es
      → before ≡ links es
      → get_edge es i ≡ some child
      → Pruned p n after before
      → after + held (get_edge es i) ≡ before + held p
  Pruned-held es i (node w d k es') child p after before h e there (inl (freed, _, _, less)) =
      rw (there, freed) (omega (arith, rw there at (links-set_edge es i none h)))
  Pruned-held es i (node w d k es') child p after before h e there (inr (kept, _, same)) =
      rw (there, kept) (omega arith)

  pub pruned_lem :
      (w : Bool) (d : Option V) (k : ℕ) (es : Edges V) (pos : ℕ) (r : Option V × Node V × Heap)
      → ((pruned a (node w d k es) pos r).0 ≡ r.0)
        × (p : Option (Node V)) × (k' : ℕ) × ((pruned a (node w d k es) pos r).1
            ≡ node w d k' (set_edge es pos p))
        × Pruned p r.1 k' k
  unfolding pruned free_child
  pruned_lem w d k es pos (ret, node w' d' zero es', h) = elim (Bool-cases w') [
    | inl word ↦
        (ground arith, some (node w' d' 0 es'), k, ground arith, inr (refl, inl word, refl))
    | inr no_word ↦ (
      ground arith,
      none,
      k - 1,
      ground (arith, set_edge-set_edge es pos (some (node w' d' 0 es')) none),
      inl (refl, no_word, refl, refl),
    )
  ]
  pruned_lem w d k es pos (ret, node w' d' (suc k') es', h) = (
    ground arith,
    some (node w' d' (suc k') es'),
    k,
    ground arith,
    inr (refl, inr (omega arith), refl),
  )

  -- The character is not in the alphabet or leads nowhere, and nothing changes; or the deletion
  -- goes on below.
  pub delete_step :
      (c : ℕ) (cs : List ℕ) (w : Bool) (d : Option V) (k : ℕ) (es : Edges V) (h : Heap)
      → ((delete_word_trie_aux a (c ∷ cs) (node w d k es) h ≡ (none, node w d k es, h))
          × ((a.is_valid c ≡ false) ⊎ (get_edge es (pos_of a c) ≡ none)))
        ⊎ ((a.is_valid c ≡ true)
            × (child : Node V) × (get_edge es (pos_of a c) ≡ some child)
            × (delete_word_trie_aux a (c ∷ cs) (node w d k es) h
                ≡ pruned a (node w d k es) (pos_of a c) (delete_word_trie_aux a cs child h)))
  unfolding delete_word_trie_aux
  delete_step c cs w d k es h = elim (Bool-cases (a.is_valid c)) [
    | inr bad ↦ inl (ground arith, inl bad)
    | inl good ↦ elim (Option-cases (get_edge es (pos_of a c))) [
      | inl empty ↦ inl (ground arith, inr empty)
      | inr (child, e) ↦ inr (good, child, e, ground arith)
    ]
  ]
