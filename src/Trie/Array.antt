-- ===== src/Trie/Array.antt =====
-- The array of edges: what a read finds behind a write, and its size.
use ya_ircd.Prelude.{
  ℕ, zero, suc, ◌<◌, ◌≡◌, refl, ap, Option, none, some, arith, ◌==◌, if◌then◌else◌,
}
use ya_ircd.Trie.{Node, Edges, end, null, link, get_edge, set_edge, null_edges}

module _ {V : Type 0} where
  abbrev pub length_edges : Edges V → ℕ
  length_edges end = 0
  length_edges (null es) = suc (length_edges es)
  length_edges (link n es) = suc (length_edges es)

  -- How many edges are not `NULL`.
  abbrev pub links : Edges V → ℕ
  links end = 0
  links (null es) = links es
  links (link n es) = suc (links es)

  pub get_edge-set_edge :
      (es : Edges V) (i j : ℕ) (p : Option (Node V))
      → i < length_edges es
      → get_edge (set_edge es i p) j ≡ (if i == j then p else get_edge es j)
  unfolding get_edge set_edge
  get_edge-set_edge end i j p h = absurd (omega arith)
  get_edge-set_edge (null es) zero zero none h = refl
  get_edge-set_edge (null es) zero zero (some n) h = refl
  get_edge-set_edge (null es) zero (suc j) none h = ground arith
  get_edge-set_edge (null es) zero (suc j) (some n) h = ground arith
  get_edge-set_edge (null es) (suc i) zero p h = ground arith
  get_edge-set_edge (null es) (suc i) (suc j) p h =
      ground (arith, get_edge-set_edge es i j p (omega arith))
  get_edge-set_edge (link m es) zero zero none h = refl
  get_edge-set_edge (link m es) zero zero (some n) h = refl
  get_edge-set_edge (link m es) zero (suc j) none h = ground arith
  get_edge-set_edge (link m es) zero (suc j) (some n) h = ground arith
  get_edge-set_edge (link m es) (suc i) zero p h = ground arith
  get_edge-set_edge (link m es) (suc i) (suc j) p h =
      ground (arith, get_edge-set_edge es i j p (omega arith))

  -- Writing what is there, or `NULL` over a fresh link, restores the array.
  pub set_edge-get_edge : (es : Edges V) (i : ℕ) → set_edge es i (get_edge es i) ≡ es
  unfolding get_edge set_edge
  set_edge-get_edge end i = refl
  set_edge-get_edge (null es) zero = refl
  set_edge-get_edge (null es) (suc i) = ap null (set_edge-get_edge es i)
  set_edge-get_edge (link n es) zero = refl
  set_edge-get_edge (link n es) (suc i) = ap (link n) (set_edge-get_edge es i)

  pub set_edge-set_edge :
      (es : Edges V) (i : ℕ) (p q : Option (Node V))
      → set_edge (set_edge es i p) i q ≡ set_edge es i q
  unfolding set_edge
  set_edge-set_edge end i p q = refl
  set_edge-set_edge (null es) zero none q = refl
  set_edge-set_edge (null es) zero (some n) q = refl
  set_edge-set_edge (null es) (suc i) p q = ap null (set_edge-set_edge es i p q)
  set_edge-set_edge (link m es) zero none q = refl
  set_edge-set_edge (link m es) zero (some n) q = refl
  set_edge-set_edge (link m es) (suc i) p q = ap (link m) (set_edge-set_edge es i p q)

  pub length-set_edge :
      (es : Edges V) (i : ℕ) (p : Option (Node V))
      → length_edges (set_edge es i p) ≡ length_edges es
  unfolding set_edge
  length-set_edge end i p = refl
  length-set_edge (null es) zero none = refl
  length-set_edge (null es) zero (some n) = refl
  length-set_edge (null es) (suc i) p = ap suc (length-set_edge es i p)
  length-set_edge (link m es) zero none = refl
  length-set_edge (link m es) zero (some n) = refl
  length-set_edge (link m es) (suc i) p = ap suc (length-set_edge es i p)

  pub get_edge-null_edges : (n i : ℕ) → get_edge (null_edges {V = V} n) i ≡ none
  unfolding get_edge null_edges
  get_edge-null_edges zero i = refl
  get_edge-null_edges (suc n) zero = refl
  get_edge-null_edges (suc n) (suc i) = get_edge-null_edges n i

pub length-null_edges : (V : Type 0) (n : ℕ) → length_edges (null_edges {V = V} n) ≡ n
unfolding null_edges
length-null_edges V zero = refl
length-null_edges V (suc n) = ap suc (length-null_edges V n)
