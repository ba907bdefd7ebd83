-- ===== src/Trie/Find.antt =====
-- Lookups behind an insertion or a deletion: the trie is a finite map from keys to data.
use ya_ircd.Prelude.{
  ℕ, zero, suc, ◌≡◌, refl, sym, ◌∙◌, ap, Bool, false, Option, none, some, List, [], ◌∷◌, inl, inr,
  arith, if◌then◌else◌,
}
use ya_ircd.Memory.{Heap}
use ya_ircd.Trie.{
  Alphabet, Node, node, Edges, end, null, link, ok, get_edge, pos_of, add_word_trie_aux,
  find_word_trie_aux, delete_word_trie_aux,
}
use ya_ircd.Trie.Array.{get_edge-set_edge, get_edge-null_edges, links}
use ya_ircd.Trie.Invariant.{IsAlphabet, pos_of_valid, IsNode, get_edge-IsSlot, fresh_node}
use ya_ircd.Trie.Step.{add_step, At, At-IsNode, delete_step, Pruned, pruned_lem}
use ya_ircd.Trie.Preserve.{delete_word_trie_aux-IsNode}
use ya_ircd.Trie.Keys.{same_key}

module _ {V : Type 0} (a : Alphabet) where
  -- The continuation of a lookup at an edge.
  abbrev find_at : Option (Node V) → List ℕ → Option V
  find_at none cs = none
  find_at (some n) cs = find_word_trie_aux a cs n

  find_cons :
      (c : ℕ) (cs : List ℕ) (w : Bool) (d : Option V) (k : ℕ) (es : Edges V)
      → find_word_trie_aux a (c ∷ cs) (node w d k es)
        ≡ (if a.is_valid c then find_at (get_edge es (a.char_to_pos c)) cs else none)
  unfolding find_word_trie_aux
  find_cons c cs w d k es = ground arith

  pub find_fresh : (word : List ℕ) (n : ℕ) → find_word_trie_aux a word (fresh_node V n) ≡ none
  unfolding find_word_trie_aux
  find_fresh [] n = refl
  find_fresh (c ∷ cs) n = ground (arith, get_edge-null_edges {V = V} n (a.char_to_pos c))

  -- Lookups through the edge of an insertion are lookups in the node below.
  find_At :
      (es : Edges V) (i : ℕ) {below : Node V} (q : List ℕ) {k' k : ℕ}
      → At a es i below k' k
      → find_at (get_edge es i) q ≡ find_word_trie_aux a q below
  find_At es i q (inl (old, _)) = ap (λ o. find_at o q) old
  find_At es i q (inr (new, fresh, _)) = rw (fresh, new, find_fresh q a.edges_no)

  pub find_add :
      (word : List ℕ) (n : Node V) (x : Option V) (h : Heap) (q : List ℕ)
      → IsAlphabet a
      → IsNode a.edges_no n
      → (add_word_trie_aux a word n x h).0 ≡ ok
      → find_word_trie_aux a q (add_word_trie_aux a word n x h).1
        ≡ (if same_key a word q then x else find_word_trie_aux a q n)
  find_add [] (node w d k es) x h [] al v e = unfold add_word_trie_aux find_word_trie_aux in refl
  find_add [] (node w d k es) x h (p ∷ q) al v e =
      unfold add_word_trie_aux find_word_trie_aux in ground arith
  find_add (c ∷ cs) (node w d k es) x h [] al v e =
      let (good, below, h', k', sub, eq, at) = add_step a c cs w d k es x h e in
      rw eq (unfold find_word_trie_aux in refl)
  find_add (c ∷ cs) (node w d k es) x h (p ∷ q) al v e =
      let (good, below, h', k', sub, eq, at) = add_step a c cs w d k es x h e in
      let (pos, here) = pos_of_valid c al good in
      let old = find_At es (pos_of a c) q at in
      let set_lem =
        get_edge-set_edge es (pos_of a c) (a.char_to_pos p)
          (some (add_word_trie_aux a cs below x h').1) (omega arith) in
      let ih = find_add cs below x h' q al (At-IsNode a es (pos_of a c) v.2 at) sub in
      rw (eq, find_cons, find_cons) (ground arith)

  -- A deletion returns what a lookup finds.
  pub find_deleted :
      (word : List ℕ) (n : Node V) (h : Heap)
      → IsAlphabet a
      → (delete_word_trie_aux a word n h).0 ≡ find_word_trie_aux a word n
  find_deleted [] (node w d k es) h al =
      unfold delete_word_trie_aux find_word_trie_aux in ground arith
  find_deleted (c ∷ cs) (node w d k es) h al = elim (delete_step a c cs w d k es h) [
    | inl (same, inl bad) ↦ rw (same, find_cons, bad)
    | inl (same, inr empty) ↦ rw (same, find_cons) (ground (arith, pos_of_valid c al))
    | inr (good, child, e, step) ↦
        let r = delete_word_trie_aux a cs child h in
        let look = ap (λ o. find_at o cs) e in
        rw (step, find_cons, good)
          ((pruned_lem a w d k es (pos_of a c) r).0
            ∙ find_deleted cs child h al
            ∙ sym (rw (pos_of_valid c al good).0 at look))
  ]

  get_edge-none : (es : Edges V) (i : ℕ) → links es ≡ 0 → get_edge es i ≡ none
  unfolding get_edge
  get_edge-none end i e = refl
  get_edge-none (null es) zero e = refl
  get_edge-none (null es) (suc i) e = get_edge-none es i e
  get_edge-none (link n es) i e = absurd (omega arith)

  -- Nothing is lost with a child that `delete_word_trie_aux` frees.
  find_unused :
      (q : List ℕ) (d : Option V) (es : Edges V)
      → links es ≡ 0
      → find_word_trie_aux a q (node false d 0 es) ≡ none
  unfolding find_word_trie_aux
  find_unused [] d es e = refl
  find_unused (c ∷ cs) d es e = ground (arith, get_edge-none es (a.char_to_pos c) e)

  find_Pruned :
      (q : List ℕ) (n : Node V) (p : Option (Node V)) (after before : ℕ)
      → IsNode a.edges_no n
      → Pruned a p n after before
      → find_at p q ≡ find_word_trie_aux a q n
  find_Pruned q (node w d k es) p after before v (inl (freed, no_word, none_left, _)) =
      rw (freed, no_word, none_left) (sym (find_unused q d es (sym v.1 ∙ none_left)))
  find_Pruned q (node w d k es) p after before v (inr (kept, _, _)) = rw kept

  pub find_delete :
      (word : List ℕ) (n : Node V) (h : Heap) (q : List ℕ)
      → IsAlphabet a
      → IsNode a.edges_no n
      → find_word_trie_aux a q (delete_word_trie_aux a word n h).1
        ≡ (if same_key a word q then none else find_word_trie_aux a q n)
  find_delete [] (node w d k es) h [] al v =
      unfold delete_word_trie_aux find_word_trie_aux in ground arith
  find_delete [] (node w d k es) h (p ∷ q) al v =
      unfold delete_word_trie_aux find_word_trie_aux in ground arith
  find_delete (c ∷ cs) (node w d k es) h [] al v = elim (delete_step a c cs w d k es h) [
    | inl (same, _) ↦ rw same
    | inr (good, child, e, step) ↦
        let (_, p, k', eq, kept) =
          pruned_lem a w d k es (pos_of a c) (delete_word_trie_aux a cs child h) in
        rw (step, eq) (unfold find_word_trie_aux in refl)
  ]
  find_delete (c ∷ cs) (node w d k es) h (p ∷ q) al v = elim (delete_step a c cs w d k es h) [
    | inl (same, absent) ↦ rw (same, find_cons) (ground (arith, pos_of_valid c al))
    | inr (good, child, e, step) ↦
        let r = delete_word_trie_aux a cs child h in
        let (_, kept, k', eq, how) = pruned_lem a w d k es (pos_of a c) r in
        let (pos, here) = pos_of_valid c al good in
        let child_v = (rw e at (get_edge-IsSlot a.edges_no es (pos_of a c) v.2)).0 in
        let old = ap (λ o. find_at o q) e in
        let new =
          find_Pruned q r.1 kept k' k (delete_word_trie_aux-IsNode a al cs child h child_v) how in
        let set_lem = get_edge-set_edge es (pos_of a c) (a.char_to_pos p) kept (omega arith) in
        let ih = find_delete cs child h q al child_v in
        rw (step, eq, find_cons, find_cons) (ground arith)
  ]
