-- ===== src/Trie/Prefix/Descent.antt =====
-- The node that a prefix leads to is no larger than the root.
use ya_ircd.Prelude.{ℕ, zero, suc, ◌≤◌, List, [], ◌∷◌, arith, inl, inr, Bool-cases, Option-cases}
use ya_ircd.Trie.{Node, Edges, end, null, link, get_edge, Alphabet}
use ya_ircd.Trie.Balance.{size, size_edges, size_slot}
use ya_ircd.Trie.Prefix.Loops.{size_edges_of}
use ya_ircd.Trie.Prefix.{edges_of, descend}

module _ {V : Type 0} where
  get_edge_size : (es : Edges V) (i : ℕ) → size_slot (get_edge es i) ≤ size_edges es
  unfolding get_edge
  get_edge_size end i = omega arith
  get_edge_size (null es) zero = omega arith
  get_edge_size (link n es) zero = omega arith
  get_edge_size (null es) (suc i) = get_edge_size es i
  get_edge_size (link n es) (suc i) = omega (arith, get_edge_size es i)

  pub descend_size :
      (a : Alphabet) (word : List ℕ) (n : Node V) → size_slot (descend a word n) ≤ size n
  unfolding descend
  descend_size a [] n = omega arith
  descend_size a (c ∷ cs) n =
      let sized = size_edges_of n in
      let slot_size = get_edge_size (edges_of n) (a.char_to_pos c) in
      elim (Bool-cases (a.is_valid c)) [
        | inr bad ↦ rw bad (omega arith)
        | inl good ↦ elim (Option-cases (get_edge (edges_of n) (a.char_to_pos c))) [
          | inl e ↦ rw (good, e) (omega arith)
          | inr (m, e) ↦
              let ih = descend_size a cs m in
              let smaller = rw e at slot_size in rw (good, e) (omega arith)
        ]
      ]
