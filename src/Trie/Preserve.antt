-- ===== src/Trie/Preserve.antt =====
-- Insertion and deletion keep a trie well formed.
use ya_ircd.Prelude.{ℕ, ◌+◌, ◌<◌, ◌≡◌, refl, ◌∙◌, Bool, Option, List, [], ◌∷◌, inl, inr, arith}
use ya_ircd.Memory.{Heap}
use ya_ircd.Trie.{
  Alphabet, Node, node, Edges, ok, get_edge, set_edge, pos_of, add_word_trie_aux,
  delete_word_trie_aux,
}
use ya_ircd.Trie.Array.{length-set_edge}
use ya_ircd.Trie.Invariant.{
  IsAlphabet, pos_of_valid, IsNode, IsUsed, IsSlot, get_edge-IsSlot, set_edge-IsArray, held,
  links-set_edge,
}
use ya_ircd.Trie.Step.{
  add_step, At-IsNode, At-held, delete_step, pruned_lem, Pruned-IsSlot, Pruned-held,
}

module _ {V : Type 0} (a : Alphabet) (al : IsAlphabet a) where
  -- An edge of a node is written, and `children` is corrected by the difference.
  set_edge-IsNode :
      (w : Bool) (d : Option V) (k k' : ℕ) (es : Edges V) (i : ℕ) (p : Option (Node V))
      → IsNode a.edges_no (node w d k es)
      → i < a.edges_no
      → IsSlot a.edges_no p
      → k' + held (get_edge es i) ≡ k + held p
      → IsNode a.edges_no (node w d k' (set_edge es i p))
  set_edge-IsNode w d k k' es i p (len, count, arr) here s e = (
    length-set_edge es i p ∙ len,
    omega (arith, links-set_edge es i p (omega arith)),
    set_edge-IsArray a.edges_no es i p arr s,
  )

  pub add_word_trie_aux-IsNode :
      (word : List ℕ) (n : Node V) (x : Option V) (h : Heap)
      → IsNode a.edges_no n
      → (add_word_trie_aux a word n x h).0 ≡ ok
      → IsNode a.edges_no (add_word_trie_aux a word n x h).1
        × IsUsed (add_word_trie_aux a word n x h).1
  add_word_trie_aux-IsNode [] (node w d k es) x h v e = unfold add_word_trie_aux in (v, inl refl)
  add_word_trie_aux-IsNode (c ∷ cs) (node w d k es) x h v e =
      let (good, below, h', k', sub, eq, at) = add_step a c cs w d k es x h e in
      let (pos, here) = pos_of_valid c al good in
      let (counted, some_child) = At-held a es (pos_of a c) (omega arith) v.1 at in
      let ih = add_word_trie_aux-IsNode cs below x h' (At-IsNode a es (pos_of a c) v.2 at) sub in
      rw eq (set_edge-IsNode w d k k' es (pos_of a c) _ v (omega arith) ih counted, inr some_child)

  pub delete_word_trie_aux-IsNode :
      (word : List ℕ) (n : Node V) (h : Heap)
      → IsNode a.edges_no n
      → IsNode a.edges_no (delete_word_trie_aux a word n h).1
  delete_word_trie_aux-IsNode [] (node w d k es) h v = unfold delete_word_trie_aux in ground arith
  delete_word_trie_aux-IsNode (c ∷ cs) (node w d k es) h v = elim (delete_step a c cs w d k es h) [
    | inl (same, _) ↦ rw same v
    | inr (good, child, e, step) ↦
        let (pos, here) = pos_of_valid c al good in
        let (_, p, k', eq, kept) =
          pruned_lem a w d k es (pos_of a c) (delete_word_trie_aux a cs child h) in
        let slot = rw e at (get_edge-IsSlot a.edges_no es (pos_of a c) v.2) in
        let ih = delete_word_trie_aux-IsNode cs child h slot.0 in
        rw (step, eq)
          (set_edge-IsNode w d k k' es (pos_of a c) p v (omega arith)
            (Pruned-IsSlot a a.edges_no _ p k' k ih kept)
            (Pruned-held a es (pos_of a c) _ child p k' k (omega arith) v.1 e kept))
  ]
