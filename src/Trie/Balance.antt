-- ===== src/Trie/Balance.antt =====
-- Memory: the blocks that a trie holds are those allocated and not freed.
use ya_ircd.Prelude.{
  ℕ, zero, suc, ◌+◌, ◌*◌, ◌<◌, ◌≡◌, ◌≢◌, refl, sym, ◌∙◌, ap, Bool, false, Option, none, some, List,
  [], ◌∷◌, inl, inr, Bool-cases, Option-cases, arith,
}
use ya_ircd.Memory.{Heap, free}
use ya_ircd.Trie.{
  Alphabet, Node, node, Edges, end, null, link, Status, ok, invalid_word, no_mem, get_edge,
  set_edge, null_edges, pos_of, init_node, added, free_child, add_word_trie_aux,
  delete_word_trie_aux, pruned, destroy_aux, destroy_edges,
}
use ya_ircd.Trie.Array.{length_edges, links, set_edge-get_edge, set_edge-set_edge}
use ya_ircd.Trie.Invariant.{
  IsAlphabet, pos_of_valid, IsNode, get_edge-IsSlot, fresh_node, fresh_node-IsNode, init_node-fresh,
  init_node-balance,
}
use ya_ircd.Trie.Step.{delete_step}
use ya_ircd.Trie.Preserve.{delete_word_trie_aux-IsNode}
use ya_ircd.Trie.Unchanged.{add_word_trie_aux_error, restore}

module _ {V : Type 0} where
  -- How many nodes hang from a node, itself included.
  abbrev mutual
    pub size : Node V → ℕ
    size (node w d k es) = suc (size_edges es)

    pub size_edges : Edges V → ℕ
    size_edges end = 0
    size_edges (null es) = size_edges es
    size_edges (link n es) = size n + size_edges es

  abbrev pub size_slot : Option (Node V) → ℕ
  size_slot none = 0
  size_slot (some n) = size n

  pub size-set_edge :
      (es : Edges V) (i : ℕ) (p : Option (Node V))
      → i < length_edges es
      → size_edges (set_edge es i p) + size_slot (get_edge es i) ≡ size_edges es + size_slot p
  unfolding get_edge set_edge
  size-set_edge end i p h = absurd (omega arith)
  size-set_edge (null es) zero none h = refl
  size-set_edge (null es) zero (some n) h = omega arith
  size-set_edge (link m es) zero none h = omega arith
  size-set_edge (link m es) zero (some n) h = omega arith
  size-set_edge (null es) (suc i) p h = size-set_edge es i p (omega arith)
  size-set_edge (link m es) (suc i) p h = omega (arith, size-set_edge es i p (omega arith))

  pub size_edges-links : (es : Edges V) → links es ≡ 0 → size_edges es ≡ 0
  size_edges-links end e = refl
  size_edges-links (null es) e = size_edges-links es e
  size_edges-links (link n es) e = absurd (omega arith)

pub size-fresh_node : (V : Type 0) (n : ℕ) → size (fresh_node V n) ≡ 1
unfolding null_edges
size-fresh_node V zero = refl
size-fresh_node V (suc n) = size-fresh_node V n

-- From `before` with node `n` to `after` with node `n'`, every block is accounted for.
abbrev pub Balanced : {V : Type 0} → Heap → Node V → Heap → Node V → Type 0
Balanced before n after n' =
    after.allocs + before.frees + 2 * size n ≡ before.allocs + after.frees + 2 * size n'

module _ {V : Type 0} (a : Alphabet) (al : IsAlphabet a) where
  added-Balanced :
      (w : Bool) (d : Option V) (k : ℕ) (es : Edges V) (pos : ℕ) (before : Heap)
      (r : Status × Node V × Heap)
      → pos < length_edges es
      → get_edge es pos ≡ none
      → (r.0 ≢ ok → size r.1 ≡ 1)
      → r.2.allocs + before.frees ≡ before.allocs + r.2.frees + 2 * size r.1
      → Balanced before
          (node w d k es)
          (added a (node w d k es) pos r).2
          (added a (node w d k es) pos r).1
  unfolding added free_child
  added-Balanced w d k es pos before (ok, n, h) here e one b =
      omega (arith, rw e at (size-set_edge es pos (some n) here))
  added-Balanced w d k es pos before (invalid_word, n, h) here e one b =
      rw (restore es pos (some n) e) (omega (arith, one (ground arith)))
  added-Balanced w d k es pos before (no_mem, n, h) here e one b =
      rw (restore es pos (some n) e) (omega (arith, one (ground arith)))

  pub add_word_trie_aux-Balanced :
      (word : List ℕ) (n : Node V) (x : Option V) (h : Heap)
      → IsNode a.edges_no n
      → Balanced h n (add_word_trie_aux a word n x h).2 (add_word_trie_aux a word n x h).1
  unfolding add_word_trie_aux
  add_word_trie_aux-Balanced [] (node w d k es) x h v = omega arith
  add_word_trie_aux-Balanced (c ∷ cs) (node w d k es) x h v = elim (Bool-cases (a.is_valid c)) [
    | inr bad ↦ ground arith
    | inl good ↦
        let i = pos_of a c in
        let (at, here) = pos_of_valid c al good in
        elim (Option-cases (get_edge es i)) [
          | inr (child, e) ↦
              let child_v = (rw e at (get_edge-IsSlot a.edges_no es i v.2)).0 in
              let ih = add_word_trie_aux-Balanced cs child x h child_v in
              let grown =
                size-set_edge es i (some (add_word_trie_aux a cs child x h).1) (omega arith) in
              ground arith
          | inl e ↦
              let first = init_node-balance V a.edges_no h in
              elim (Option-cases (init_node {V = V} a.edges_no h).0) [
                | inl full ↦ ground (arith, set_edge-get_edge es i)
                | inr (n, got) ↦
                    let h' = (init_node {V = V} a.edges_no h).1 in
                    let fresh = init_node-fresh a.edges_no h got in
                    let r = add_word_trie_aux a cs n x h' in
                    let n_v : IsNode a.edges_no n = rw fresh (fresh_node-IsNode V a.edges_no) in
                    let ih = add_word_trie_aux-Balanced cs n x h' n_v in
                    let one : size n ≡ 1 = rw fresh (size-fresh_node V a.edges_no) in
                    let done =
                      added-Balanced w d k es i h r (omega arith) e
                        (λ bad. ap size (add_word_trie_aux_error a cs n x h' bad) ∙ one)
                        (ground arith) in
                    ground arith
              ]
        ]
  ]

  pruned-Balanced :
      (w : Bool) (d : Option V) (k : ℕ) (es : Edges V) (pos : ℕ) (before : Heap) (child : Node V)
      (r : Option V × Node V × Heap)
      → pos < length_edges es
      → get_edge es pos ≡ some child
      → IsNode a.edges_no r.1
      → Balanced before child r.2 r.1
      → Balanced before
          (node w d k es)
          (pruned a (node w d k es) pos r).2
          (pruned a (node w d k es) pos r).1
  unfolding pruned free_child
  pruned-Balanced w d k es pos before child (ret, node w' d' zero es', h) here e v b =
      let gone = rw e at (size-set_edge es pos none here) in
      let kept = rw e at (size-set_edge es pos (some (node w' d' 0 es')) here) in
      let again = set_edge-set_edge es pos (some (node w' d' 0 es')) none in
      let empty = size_edges-links es' (sym v.1) in ground arith
  pruned-Balanced w d k es pos before child (ret, node w' d' (suc k') es', h) here e v b =
      ground (arith, rw e at (size-set_edge es pos (some (node w' d' (suc k') es')) here))

  pub delete_word_trie_aux-Balanced :
      (word : List ℕ) (n : Node V) (h : Heap)
      → IsNode a.edges_no n
      → Balanced h n (delete_word_trie_aux a word n h).2 (delete_word_trie_aux a word n h).1
  delete_word_trie_aux-Balanced [] (node w d k es) h v = unfold delete_word_trie_aux in ground arith
  delete_word_trie_aux-Balanced (c ∷ cs) (node w d k es) h v =
      elim (delete_step a c cs w d k es h) [
        | inl (same, _) ↦ rw same (omega arith)
        | inr (good, child, e, step) ↦
            let (at, here) = pos_of_valid c al good in
            let child_v = (rw e at (get_edge-IsSlot a.edges_no es (pos_of a c) v.2)).0 in
            rw step (
              pruned-Balanced w d k es (pos_of a c) h child (delete_word_trie_aux a cs child h)
                (omega arith) e (delete_word_trie_aux-IsNode a al cs child h child_v)
                (delete_word_trie_aux-Balanced cs child h child_v))
      ]

-- Destroying a node frees two blocks for each node that hangs from it.
module _ {V S : Type 0} (f : Option V → S × Heap → S × Heap) where
  mutual
    unfolding destroy_aux

    pub destroy_aux_frees :
        (n : Node V) (s : S) (h : Heap)
        → destroy_aux false f n (s, h) ≡ (s, record h { frees = h.frees + 2 * size n })
    destroy_aux_frees (node w d k es) s h =
        ap (λ (r : S × Heap). (r.0, free (free r.1))) (destroy_edges_frees es s h)
        ∙ ap (λ (m : ℕ). (s, record h { frees = m })) (omega arith)

    pub destroy_edges_frees :
        (es : Edges V) (s : S) (h : Heap)
        → destroy_edges false f es (s, h) ≡ (s, record h { frees = h.frees + 2 * size_edges es })
    destroy_edges_frees end s h = ap (λ (m : ℕ). (s, record h { frees = m })) (omega arith)
    destroy_edges_frees (null es) s h = destroy_edges_frees es s h
    destroy_edges_frees (link n es) s h =
        ap (destroy_edges false f es) (destroy_aux_frees n s h)
        ∙ destroy_edges_frees es s (record h { frees = h.frees + 2 * size n })
        ∙ ap (λ (m : ℕ). (s, record h { frees = m })) (omega arith)
