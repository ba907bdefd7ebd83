-- ===== src/Trie/Invariant.antt =====
-- The well-formedness of a trie, and how it passes through a read or a write of an edge.
use ya_ircd.Prelude.{
  ℕ, zero, suc, ◌+◌, ◌*◌, ◌<◌, ◌≤◌, ◌≡◌, refl, ◌⊎◌, true, false, Option, none, some, arith,
}
use ya_ircd.Memory.{Heap, malloc, malloc_lem}
use ya_ircd.Trie.{
  Alphabet, Node, node, Edges, end, null, link, get_edge, set_edge, null_edges, init_node, pos_of,
}
use ya_ircd.Trie.Array.{length_edges, links, length-null_edges}

-- What `init_trie` asks of its functions: the positions of valid characters index `edges`, and
-- fit in the `unsigned char` that holds them.
pub record IsAlphabet (a : Alphabet) : Type 0 where
  pub in_range : (c : ℕ) → a.is_valid c ≡ true → a.char_to_pos c < a.edges_no
  pub small : a.edges_no ≤ 256

pub pos_of_valid :
    {a : Alphabet} (c : ℕ)
    → IsAlphabet a
    → a.is_valid c ≡ true
    → (pos_of a c ≡ a.char_to_pos c) × (a.char_to_pos c < a.edges_no)
pos_of_valid c v good = omega (arith, v.in_range c good)

abbrev pub IsUsed : {V : Type 0} → Node V → Type 0
IsUsed (node w d k es) = (w ≡ true) ⊎ (0 < k)

-- Every node has `edges_no` edges and counts its links in `children`; every node but the root
-- ends a word or has a child.
module _ {V : Type 0} (edges_no : ℕ) where
  abbrev mutual
    pub IsNode : Node V → Type 0
    IsNode (node w d k es) = (length_edges es ≡ edges_no) × (k ≡ links es) × IsArray es

    pub IsArray : Edges V → Type 0
    IsArray end = Unit
    IsArray (null es) = IsArray es
    IsArray (link n es) = IsNode n × IsUsed n × IsArray es

  abbrev pub IsSlot : Option (Node V) → Type 0
  IsSlot none = Unit
  IsSlot (some n) = IsNode n × IsUsed n

  pub get_edge-IsSlot : (es : Edges V) (i : ℕ) → IsArray es → IsSlot (get_edge es i)
  unfolding get_edge
  get_edge-IsSlot end i v = tt
  get_edge-IsSlot (null es) zero v = tt
  get_edge-IsSlot (null es) (suc i) v = get_edge-IsSlot es i v
  get_edge-IsSlot (link n es) zero v = (v.0, v.1)
  get_edge-IsSlot (link n es) (suc i) v = get_edge-IsSlot es i v.2

  pub set_edge-IsArray :
      (es : Edges V) (i : ℕ) (p : Option (Node V))
      → IsArray es
      → IsSlot p
      → IsArray (set_edge es i p)
  unfolding set_edge
  set_edge-IsArray end i p v s = tt
  set_edge-IsArray (null es) zero none v s = v
  set_edge-IsArray (null es) zero (some n) v s = (s.0, s.1, v)
  set_edge-IsArray (link n es) zero none v s = v.2
  set_edge-IsArray (link n es) zero (some m) v s = (s.0, s.1, v.2)
  set_edge-IsArray (null es) (suc i) p v s = set_edge-IsArray es i p v s
  set_edge-IsArray (link n es) (suc i) p v s = (v.0, v.1, set_edge-IsArray es i p v.2 s)

-- The counter of a node whose edge is written.
module _ {V : Type 0} where
  abbrev pub held : Option (Node V) → ℕ
  held none = 0
  held (some n) = 1

  pub links-set_edge :
      (es : Edges V) (i : ℕ) (p : Option (Node V))
      → i < length_edges es
      → links (set_edge es i p) + held (get_edge es i) ≡ links es + held p
  unfolding get_edge set_edge
  links-set_edge end i p h = absurd (omega arith)
  links-set_edge (null es) zero none h = refl
  links-set_edge (null es) zero (some n) h = omega arith
  links-set_edge (link m es) zero none h = omega arith
  links-set_edge (link m es) zero (some n) h = omega arith
  links-set_edge (null es) (suc i) p h = links-set_edge es i p (omega arith)
  links-set_edge (link m es) (suc i) p h = omega (arith, links-set_edge es i p (omega arith))

abbrev pub fresh_node : (V : Type 0) → ℕ → Node V
fresh_node V n = node false none 0 (null_edges n)

pub null_edges-IsArray :
    (V : Type 0) (m n : ℕ) → IsArray m (null_edges {V = V} n) × (links (null_edges {V = V} n) ≡ 0)
unfolding null_edges
null_edges-IsArray V m zero = (tt, refl)
null_edges-IsArray V m (suc n) = null_edges-IsArray V m n

pub fresh_node-IsNode : (V : Type 0) (n : ℕ) → IsNode n (fresh_node V n)
fresh_node-IsNode V n = (
  length-null_edges V n,
  omega (arith, (null_edges-IsArray V n n).1),
  (null_edges-IsArray V n n).0,
)

-- A node that `init_node` returns is fresh.
pub init_node-fresh :
    {V : Type 0} (edges : ℕ) (h : Heap) {n : Node V}
    → (init_node edges h).0 ≡ some n
    → n ≡ fresh_node V edges
unfolding init_node
init_node-fresh edges h e = ground arith

-- It holds two blocks; if no node is returned, no block stays behind.
pub init_node-balance :
    (V : Type 0) (edges : ℕ) (h : Heap)
    → let (r, h') = init_node {V = V} edges h in
      h'.allocs + h.frees ≡ h.allocs + h'.frees + 2 * held r
unfolding init_node
init_node-balance V edges h = ground (arith, malloc_lem h, malloc_lem (malloc h).1)
