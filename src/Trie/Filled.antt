-- ===== src/Trie/Filled.antt =====
-- Tries in which every word has data, and walks over them.
use ya_ircd.Prelude.{
  ℕ, zero, suc, ◌≡◌, ◌≢◌, refl, ap, ◌∙◌, inl, inr, Bool, true, false, List, [], ◌∷◌, Option, none,
  some, arith, if◌then◌else◌,
}
use ya_ircd.Memory.{Heap}
use ya_ircd.Trie.{
  Trie, Alphabet, Node, node, Edges, end, null, link, ok, get_edge, set_edge, pos_of, null_edges,
  add_word_trie_aux, delete_word_trie_aux, add_word_trie, delete_word_trie, trie_for_each_aux,
  for_each_edge, trie_for_each,
}
use ya_ircd.Trie.Invariant.{fresh_node}
use ya_ircd.Trie.Step.{add_step, At, delete_step, pruned_lem, Pruned}

module _ {V : Type 0} where
  abbrev mutual
    -- The data of each word is not `NULL`.
    pub IsFilled : Node V → Type 0
    IsFilled (node w d k es) = (w ≡ true → d ≢ none) × AllFilled es

    pub AllFilled : Edges V → Type 0
    AllFilled end = Unit
    AllFilled (null es) = AllFilled es
    AllFilled (link n es) = IsFilled n × AllFilled es

  abbrev SlotFilled : Option (Node V) → Type 0
  SlotFilled none = Unit
  SlotFilled (some n) = IsFilled n

  get_edge-SlotFilled : (es : Edges V) (i : ℕ) → AllFilled es → SlotFilled (get_edge es i)
  unfolding get_edge
  get_edge-SlotFilled end i v = tt
  get_edge-SlotFilled (null es) zero v = tt
  get_edge-SlotFilled (null es) (suc i) v = get_edge-SlotFilled es i v
  get_edge-SlotFilled (link n es) zero v = v.0
  get_edge-SlotFilled (link n es) (suc i) v = get_edge-SlotFilled es i v.1

  set_edge-AllFilled :
      (es : Edges V) (i : ℕ) (p : Option (Node V))
      → AllFilled es
      → SlotFilled p
      → AllFilled (set_edge es i p)
  unfolding set_edge
  set_edge-AllFilled end i p v s = tt
  set_edge-AllFilled (null es) zero none v s = v
  set_edge-AllFilled (null es) zero (some n) v s = (s, v)
  set_edge-AllFilled (link n es) zero none v s = v.1
  set_edge-AllFilled (link n es) zero (some m) v s = (s, v.1)
  set_edge-AllFilled (null es) (suc i) p v s = set_edge-AllFilled es i p v s
  set_edge-AllFilled (link n es) (suc i) p v s = (v.0, set_edge-AllFilled es i p v.1 s)

null_edges-AllFilled : (V : Type 0) (n : ℕ) → AllFilled (null_edges {V = V} n)
unfolding null_edges
null_edges-AllFilled V zero = tt
null_edges-AllFilled V (suc n) = null_edges-AllFilled V n

pub fresh_node-IsFilled : (V : Type 0) (n : ℕ) → IsFilled (fresh_node V n)
fresh_node-IsFilled V n = ((λ e. absurd (ground arith)), null_edges-AllFilled V n)

module _ {V : Type 0} where
  module _ (a : Alphabet) where
    At-IsFilled :
        (es : Edges V) (i : ℕ) {below : Node V} {k' k : ℕ}
        → AllFilled es
        → At a es i below k' k
        → IsFilled below
    At-IsFilled es i v (inl (old, _)) = rw old at (get_edge-SlotFilled es i v)
    At-IsFilled es i v (inr (_, fresh, _)) = rw fresh (fresh_node-IsFilled V a.edges_no)

    add_word_trie_aux-IsFilled :
        (word : List ℕ) (n : Node V) (x : V) (h : Heap)
        → IsFilled n
        → (add_word_trie_aux a word n (some x) h).0 ≡ ok
        → IsFilled (add_word_trie_aux a word n (some x) h).1
    add_word_trie_aux-IsFilled [] (node w d k es) x h v e =
        unfold add_word_trie_aux in ((λ _ e'. absurd (ground arith)), v.1)
    add_word_trie_aux-IsFilled (c ∷ cs) (node w d k es) x h v e =
        let (good, below, h', k', sub, eq, at) = add_step a c cs w d k es (some x) h e in
        let ih =
          add_word_trie_aux-IsFilled cs below x h' (At-IsFilled es (pos_of a c) v.1 at) sub in
        rw eq (v.0, set_edge-AllFilled es (pos_of a c) _ v.1 ih)

    Pruned-SlotFilled :
        (n : Node V) (p : Option (Node V)) (after before : ℕ)
        → IsFilled n
        → Pruned a p n after before
        → SlotFilled p
    Pruned-SlotFilled (node w d k es) p k' k2 v (inl (freed, _, _, _)) = rw freed tt
    Pruned-SlotFilled (node w d k es) p k' k2 v (inr (kept, used, _)) = rw kept v

    delete_word_trie_aux-IsFilled :
        (word : List ℕ) (n : Node V) (h : Heap)
        → IsFilled n
        → IsFilled (delete_word_trie_aux a word n h).1
    delete_word_trie_aux-IsFilled [] (node true d k es) h v =
        unfold delete_word_trie_aux in ((λ e. absurd (ground arith)), v.1)
    delete_word_trie_aux-IsFilled [] (node false d k es) h v = unfold delete_word_trie_aux in v
    delete_word_trie_aux-IsFilled (c ∷ cs) (node w d k es) h v =
        elim (delete_step a c cs w d k es h) [
          | inl (same, _) ↦ rw same v
          | inr (good, child, e, step) ↦
              let (_, p, k', eq, kept) =
                pruned_lem a w d k es (pos_of a c) (delete_word_trie_aux a cs child h) in
              let below = rw e at (get_edge-SlotFilled es (pos_of a c) v.1) in
              let ih = delete_word_trie_aux-IsFilled cs child h below in
              rw (step, eq)
                (v.0, set_edge-AllFilled es (pos_of a c) p v.1 (Pruned-SlotFilled _ p k' k ih kept))
        ]

  pub add_word_trie-IsFilled :
      (t : Trie V) (word : List ℕ) (x : V) (h : Heap)
      → IsFilled t.root
      → (add_word_trie t word (some x) h).0 ≡ ok
      → IsFilled (add_word_trie t word (some x) h).1.root
  unfolding add_word_trie
  add_word_trie-IsFilled t word x h v e = add_word_trie_aux-IsFilled t.alphabet word t.root x h v e

  pub delete_word_trie-IsFilled :
      (t : Trie V) (word : List ℕ) (h : Heap)
      → IsFilled t.root
      → IsFilled (delete_word_trie t word h).1.root
  unfolding delete_word_trie
  delete_word_trie-IsFilled t word h v = delete_word_trie_aux-IsFilled t.alphabet word t.root h v

-- A walk whose function fails only on `NULL`, and keeps `P`.
module _ {V S : Type 0} (f : Option V → Option S → Option S) (P : S → Type 0)
    (keeps : (v : V) (s : S) → P s → (s' : S) × (f (some v) (some s) ≡ some s') × P s') where
  pub visit :
      (w : Bool) (d : Option V) (s : S)
      → (w ≡ true → d ≢ none)
      → P s
      → (s' : S) × ((if w then f d (some s) else some s) ≡ some s') × P s'
  visit false d s v p = (s, refl, p)
  visit true none s v p = absurd (v refl refl)
  visit true (some x) s v p = keeps x s p

  mutual
    unfolding trie_for_each_aux for_each_edge

    pub walk_node :
        (n : Node V) (s : S)
        → IsFilled n
        → P s
        → (s' : S) × (trie_for_each_aux f n (some s) ≡ some s') × P s'
    walk_node (node w d k es) s v p =
        let (s1, e1, p1) = visit w d s v.0 p in
        let (s2, e2, p2) = walk_edges es s1 v.1 p1 in (s2, ap (for_each_edge f es) e1 ∙ e2, p2)

    pub walk_edges :
        (es : Edges V) (s : S)
        → AllFilled es
        → P s
        → (s' : S) × (for_each_edge f es (some s) ≡ some s') × P s'
    walk_edges end s v p = (s, refl, p)
    walk_edges (null es) s v p = walk_edges es s v p
    walk_edges (link n es) s v p =
        let (s1, e1, p1) = walk_node n s v.0 p in
        let (s2, e2, p2) = walk_edges es s1 v.1 p1 in (s2, ap (for_each_edge f es) e1 ∙ e2, p2)

  -- It visits the whole trie, and keeps `P`.
  pub trie_for_each-keeps :
      (t : Trie V) (s : S)
      → IsFilled t.root
      → P s
      → (s' : S) × (trie_for_each t f (some s) ≡ some s') × P s'
  unfolding trie_for_each
  trie_for_each-keeps t s v p = walk_node t.root s v p
