-- ===== src/Trie/Prefix/Loops.antt =====
-- The loops of the search end, and account for their blocks.
use ya_ircd.Prelude.{
  ℕ, zero, suc, ◌+◌, ◌-◌, ◌≤◌, ◌<◌, ◌≡◌, ◌⊎◌, refl, ap, false, List, [], ◌∷◌, Option, none, some,
  arith, inl, inr, Bool-cases, Option-cases, length, set,
}
use ya_ircd.Memory.{Heap, malloc, malloc_lem, free}
use ya_ircd.Trie.{
  Node, node, Edges, end, null, link, get_edge, Alphabet, Status, ok, invalid_word, no_mem,
}
use ya_ircd.Trie.Balance.{size, size_edges, size_slot}
use ya_ircd.Trie.Prefix.{
  c_string, TrieNodeStackElm, TrieNodeStack, Match, edges_of, ends_word, word_data_of, trie_push,
  push_edges, expand, next_n, free_stack_elements,
}

List-cases : {A : Type 0} (l : List A) → (l ≡ []) ⊎ ((x : A) × (xs : List A) × (l ≡ x ∷ xs))
List-cases [] = inl refl
List-cases (x ∷ xs) = inr (x, xs, refl)

module _ {V : Type 0} where
  -- The nodes that a stack still has to visit.
  abbrev pub to_visit : List (TrieNodeStackElm V) → ℕ
  to_visit [] = 0
  to_visit (e ∷ es) = size e.el + to_visit es

  pub size_below : Edges V → ℕ → ℕ
  size_below es zero = 0
  size_below es (suc i) = size_below es i + size_slot (get_edge es i)

module _ (V : Type 0) where
  size_below-end : (i : ℕ) → let es : Edges V = end in size_below es i ≡ 0
  unfolding size_below get_edge
  size_below-end zero = refl
  size_below-end (suc i) = omega (arith, size_below-end i)

module _ {V : Type 0} where
  size_below-null : (es : Edges V) (i : ℕ) → size_below (null es) (suc i) ≡ size_below es i
  unfolding size_below get_edge
  size_below-null es zero = refl
  size_below-null es (suc i) = omega (arith, size_below-null es i)

  size_below-link :
      (n : Node V) (es : Edges V) (i : ℕ)
      → size_below (link n es) (suc i) ≡ size n + size_below es i
  unfolding size_below get_edge
  size_below-link n es zero = omega arith
  size_below-link n es (suc i) = omega (arith, size_below-link n es i)

  pub size_below_le : (es : Edges V) (i : ℕ) → size_below es i ≤ size_edges es
  size_below_le es zero = unfold size_below in omega arith
  size_below_le end (suc i) = omega (arith, size_below-end V (suc i))
  size_below_le (null es) (suc i) = omega (arith, size_below-null es i, size_below_le es i)
  size_below_le (link n es) (suc i) = omega (arith, size_below-link n es i, size_below_le es i)

  -- A stack that grew by pushes: one block for each, and no more nodes than `more`.
  abbrev pub Grown : ℕ → TrieNodeStack V → Heap → Status × TrieNodeStack V × Heap → Type 0
  Grown more st h (err, st', h') =
      (to_visit st'.top ≤ to_visit st.top + more)
      × (h'.allocs + h.frees + length st.top ≡ h.allocs + h'.frees + length st'.top)

  pub push_edges-Grown :
      (a : Alphabet) (i : ℕ) (es : Edges V) (depth : ℕ) (st : TrieNodeStack V) (h : Heap)
      → Grown (size_below es i) st h (push_edges a i es depth st h)
  unfolding push_edges size_below trie_push
  push_edges-Grown a zero es depth st h = (omega arith, omega arith)
  push_edges-Grown a (suc i) es depth st h =
      let skipped = push_edges-Grown a i es depth st h in
      elim (Option-cases (get_edge es i)) [
        | inl e ↦ ground arith
        | inr (n, e) ↦
            let pushed = trie_push st n depth (a.pos_to_char i) h in
            let ih = push_edges-Grown a i es depth pushed.1 pushed.2 in
            elim (Bool-cases (malloc h).0) [
              | inr full ↦ ground (arith, malloc_lem h)
              | inl got ↦ ground (arith, malloc_lem h)
            ]
      ]

  pub size_edges_of : (n : Node V) → size n ≡ suc (size_edges (edges_of n))
  size_edges_of (node w d k es) = refl

  expand-Grown :
      (a : Alphabet) (err : Status) (curr : TrieNodeStackElm V) (st : TrieNodeStack V) (h : Heap)
      → Grown (size_edges (edges_of curr.el)) st h (expand a err curr st h)
  unfolding expand
  expand-Grown a ok curr st h =
      let es = edges_of curr.el in
      let pushed = push_edges-Grown a a.edges_no es (curr.depth + 1) st h in
      let few = size_below_le es a.edges_no in ground arith
  expand-Grown a invalid_word curr st h = (omega arith, omega arith)
  expand-Grown a no_mem curr st h = (omega arith, omega arith)

  -- A call that ends, within `nodes` nodes to visit behind it; without a match the stack is empty.
  pub record Ended (nodes : ℕ) (st : TrieNodeStack V) (h : Heap)
      (out : Option (Option (Match V) × Status × TrieNodeStack V × Heap)) : Type 0 where
    pub found : Option (Match V)
    pub err : Status
    pub last : TrieNodeStack V
    pub heap : Heap
    pub done : out ≡ some (found, err, last, heap)
    pub fewer : to_visit last.top ≤ nodes
    pub balance : heap.allocs + h.frees + length st.top ≡ h.allocs + heap.frees + length last.top
    pub emptied : elim found [ none ↦ length last.top | some m ↦ 0 ] ≡ 0

  next_n-more :
      (a : Alphabet) (fuel : ℕ) (err : Status) (st : TrieNodeStack V) (h : Heap)
      (curr : TrieNodeStackElm V) (rest : List (TrieNodeStackElm V))
      → st.top ≡ curr ∷ rest
      → ends_word curr.el ≡ false
      → (let (err', st', h') = expand a err curr (record st { top = rest }) h in
          let st2 : TrieNodeStack V = record st' {
            path = set st'.path (curr.depth - 1) curr.letter;
          } in
          Ended (to_visit st2.top) st2 (free h') (next_n a fuel err' st2 (free h')))
      → Ended (to_visit st.top) st h (next_n a (suc fuel) err st h)
  unfolding next_n
  next_n-more a fuel err st h curr rest e inner ih =
      let grown = expand-Grown a err curr (record st { top = rest }) h in
      let sized = size_edges_of curr.el in
      record {
        found = ih.found;
        err = ih.err;
        last = ih.last;
        heap = ih.heap;
        done = rw (e, inner) ih.done;
        fewer = rw e (omega (arith, grown.0, ih.fewer));
        balance = rw e (omega (arith, grown.1, ih.balance));
        emptied = ih.emptied;
      }

  pub next_n-Ended :
      (a : Alphabet) (fuel : ℕ) (err : Status) (st : TrieNodeStack V) (h : Heap)
      → to_visit st.top < fuel
      → Ended (to_visit st.top) st h (next_n a fuel err st h)
  unfolding next_n
  next_n-Ended a zero err st h enough = absurd (omega arith)
  next_n-Ended a (suc fuel) err st h enough = elim (List-cases st.top) [
    | inl e ↦ record {
      found = none;
      err = err;
      last = st;
      heap = h;
      done = rw e refl;
      fewer = omega arith;
      balance = omega arith;
      emptied = rw e refl;
    }
    | inr (curr, rest, e) ↦
        let (err', st', h') = expand a err curr (record st { top = rest }) h in
        let grown = expand-Grown a err curr (record st { top = rest }) h in
        let sized = size_edges_of curr.el in
        let path = set st'.path (curr.depth - 1) curr.letter in
        elim (Bool-cases (ends_word curr.el)) [
          | inl word ↦ record {
            found = some (record {
              result = c_string (set path curr.depth 0);
              value = word_data_of curr.el;
            });
            err = err';
            last = record st' { path = set path curr.depth 0 };
            heap = free h';
            done = rw (e, word) refl;
            fewer = rw e (omega (arith, grown.0));
            balance = rw e (omega (arith, grown.1));
            emptied = refl;
          }
          | inr inner ↦
              let more = ap to_visit e in
              next_n-more a fuel err st h curr rest e inner (
                next_n-Ended a fuel err' (record st' { path = path }) (free h')
                  (omega (arith, grown.0)))
        ]
  ]

  pub length-free_stack_elements :
      (es : List (TrieNodeStackElm V)) (h : Heap)
      → ((free_stack_elements es h).allocs ≡ h.allocs)
        × ((free_stack_elements es h).frees ≡ h.frees + length es)
  unfolding free_stack_elements
  length-free_stack_elements [] h = (refl, omega arith)
  length-free_stack_elements (e ∷ es) h =
      let ih = length-free_stack_elements es h in (ih.0, omega (arith, ih.1))
