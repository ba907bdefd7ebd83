-- ===== src/Trie/Prefix/Calls.antt =====
-- Each call of the search ends, and accounts for its memory.
use ya_ircd.Prelude.{
  ℕ, ◌+◌, ◌-◌, ◌≤◌, ◌<◌, ◌≡◌, refl, List, [], ◌++◌, Option, none, some, arith, inl, inr, Bool-cases,
  Option-cases, length,
}
use ya_ircd.Memory.{Heap, malloc, malloc_lem, free}
use ya_ircd.Trie.{Node, Alphabet, Trie, Status, ok}
use ya_ircd.Trie.Balance.{size}
use ya_ircd.Trie.Prefix.Descent.{descend_size}
use ya_ircd.Trie.Prefix.Loops.{
  to_visit, size_below_le, size_edges_of, push_edges-Grown, Ended, next_n-Ended,
  length-free_stack_elements,
}
use ya_ircd.Trie.Prefix.{
  TrieNodeStack, Match, edges_of, ends_word, word_data_of, next_n, find_by_prefix_next_trie_n,
  descend, free_trie_stack, next_match, init_stack, first_match, find_by_prefix_next_trie,
}

module _ {V : Type 0} where
  -- The blocks of a search: the stack, its prefix and its path, and one for each element.
  abbrev pub held : Option (TrieNodeStack V) → ℕ
  held none = 0
  held (some st) = length st.top + 3

  -- The state that a call gives back for the next one.
  abbrev pub state_of : Option (Match V × TrieNodeStack V) → Option (TrieNodeStack V)
  state_of none = none
  state_of (some (m, st)) = some st

  abbrev pub nodes_left : Option (TrieNodeStack V) → ℕ
  nodes_left none = 0
  nodes_left (some st) = to_visit st.top

  -- A call that ended, with its blocks accounted for and so many nodes to visit behind it.
  pub record Answered (nodes blocks : ℕ) (h : Heap)
      (out : Option (Option (Match V × TrieNodeStack V) × Status × Heap)) : Type 0 where
    pub found : Option (Match V × TrieNodeStack V)
    pub err : Status
    pub heap : Heap
    pub done : out ≡ some (found, err, heap)
    pub fewer : nodes_left (state_of found) ≤ nodes
    pub balance : heap.allocs + h.frees + blocks ≡ h.allocs + heap.frees + held (state_of found)

  next_match-Answered :
      (a : Alphabet) (fuel : ℕ) (st : TrieNodeStack V) (h : Heap)
      → to_visit st.top < fuel
      → Answered (to_visit st.top) (held (some st)) h (next_match a fuel st h)
  unfolding next_match find_by_prefix_next_trie_n free_trie_stack
  next_match-Answered a fuel st h enough = answer (next_n-Ended a fuel ok st h enough)
    where
      answer :
          Ended (to_visit st.top) st h (next_n a fuel ok st h)
          → Answered (to_visit st.top) (held (some st)) h (next_match a fuel st h)
      answer r = elim (Option-cases r.found) [
        | inl e ↦
            let freed = length-free_stack_elements r.last.top r.heap in
            let empty = rw e at r.emptied in
            record {
              found = none;
              err = r.err;
              heap = free_trie_stack (some r.last) r.heap;
              done = rw (next_match, find_by_prefix_next_trie_n, r.done, e) refl;
              fewer = omega arith;
              balance = omega (arith, freed.0, freed.1, r.balance);
            }
        | inr (m, e) ↦ record {
          found = some (record { result = r.last.prefix ++ m.result; value = m.value }, r.last);
          err = r.err;
          heap = r.heap;
          done = rw (next_match, find_by_prefix_next_trie_n, r.done, e) refl;
          fewer = r.fewer;
          balance = omega (arith, r.balance);
        }
      ]

  init_stack-Grown :
      (a : Alphabet) (path prefix : List ℕ) (depth : ℕ) (n : Node V) (h : Heap)
      → let (err, st, h') = init_stack a path prefix depth n h in
        (to_visit st.top < size n) × (h'.allocs + h.frees ≡ h.allocs + h'.frees + length st.top)
  unfolding init_stack
  init_stack-Grown a path prefix depth n h =
      let sized = size_edges_of n in
      let few = size_below_le (edges_of n) a.edges_no in
      let st : TrieNodeStack V = record { path = path; prefix = prefix; depth = depth; top = [] } in
      let pushed = push_edges-Grown a a.edges_no (edges_of n) 1 st h in ground arith

  first_match-Answered :
      (a : Alphabet) (fuel : ℕ) (path prefix : List ℕ) (depth : ℕ) (n : Node V) (h : Heap)
      → size n ≤ fuel
      → Answered (size n) 0 h (first_match a fuel path prefix depth n h)
  unfolding first_match
  first_match-Answered a fuel path prefix depth n h enough =
      from_next (next_match-Answered a fuel st h4 (omega (arith, grown.0)))
    where
      h1 : Heap
      h1 = (malloc h).1

      h2 : Heap
      h2 = (malloc h1).1

      h3 : Heap
      h3 = (malloc h2).1

      st : TrieNodeStack V
      st = (init_stack a path prefix (depth - length prefix) n h3).1

      h4 : Heap
      h4 = (init_stack a path prefix (depth - length prefix) n h3).2

      grown :
          (to_visit st.top < size n) × (h4.allocs + h3.frees ≡ h3.allocs + h4.frees + length st.top)
      grown = init_stack-Grown a path prefix (depth - length prefix) n h3

      from_next :
          Answered (to_visit st.top) (held (some st)) h4 (next_match a fuel st h4)
          → Answered (size n) 0 h (first_match a fuel path prefix depth n h)
      from_next r =
          let m1 = malloc_lem h in
          let m2 = malloc_lem h1 in
          let m3 = malloc_lem h2 in
          elim (Bool-cases (malloc h).0) [
            | inr no1 ↦ record {
              found = none;
              err = ok;
              heap = h1;
              done = rw no1 refl;
              fewer = omega arith;
              balance = ground arith;
            }
            | inl yes1 ↦ elim (Bool-cases (malloc h1).0) [
              | inr no2 ↦ record {
                found = none;
                err = ok;
                heap = free h2;
                done = rw (yes1, no2) refl;
                fewer = omega arith;
                balance = ground arith;
              }
              | inl yes2 ↦ elim (Bool-cases (malloc h2).0) [
                | inr no3 ↦ record {
                  found = none;
                  err = ok;
                  heap = free (free h3);
                  done = rw (yes1, yes2, no3) refl;
                  fewer = omega arith;
                  balance = ground arith;
                }
                | inl yes3 ↦ elim (Bool-cases (ends_word n)) [
                  | inl word ↦ record {
                    found = some (record { result = prefix; value = word_data_of n }, st);
                    err = (init_stack a path prefix (depth - length prefix) n h3).0;
                    heap = h4;
                    done = rw (yes1, yes2, yes3, word) refl;
                    fewer = omega (arith, grown.0);
                    balance = let grown_by = grown.1 in ground arith;
                  }
                  | inr inner ↦ record {
                    found = r.found;
                    err = r.err;
                    heap = r.heap;
                    done = rw (yes1, yes2, yes3, inner) r.done;
                    fewer = omega (arith, grown.0, r.fewer);
                    balance = let grown_by = grown.1 in let later = r.balance in ground arith;
                  }
                ]
              ]
            ]
          ]

-- The nodes that are left for the calls to come: of the whole trie before the first one.
abbrev pub bound : {V : Type 0} → Trie V → Option (TrieNodeStack V) → ℕ
bound t none = size t.root
bound t (some st) = to_visit st.top

within :
    {V : Type 0} (fuel : ℕ) (t : Trie V) {n : Node V} (path prefix : List ℕ) (depth : ℕ) (h : Heap)
    → descend t.alphabet prefix t.root ≡ some n
    → size n ≤ size t.root
    → Answered (size n) 0 h (first_match t.alphabet fuel path prefix depth n h)
    → Answered (size t.root) 0 h (find_by_prefix_next_trie fuel t none path prefix depth h)
unfolding find_by_prefix_next_trie
within fuel t path prefix depth h e below r = record {
  found = r.found;
  err = r.err;
  heap = r.heap;
  done = rw (find_by_prefix_next_trie, e) r.done;
  fewer = omega (arith, r.fewer);
  balance = r.balance;
}

-- Every call of `find_by_prefix_next_trie` ends, within as many rounds as there are nodes left to
-- visit, and leaves no more of them for the next call. Its blocks are accounted for: the search
-- holds its state, with one block for each element of the stack, exactly as long as it has one,
-- and nothing once `NULL` was returned, for want of a match or of memory.
pub find_by_prefix_next_trie-Answered :
    {V : Type 0} (fuel : ℕ) (t : Trie V) (st : Option (TrieNodeStack V)) (path prefix : List ℕ)
    (depth : ℕ) (h : Heap)
    → bound t st < fuel
    → Answered (bound t st) (held st) h (find_by_prefix_next_trie fuel t st path prefix depth h)
unfolding find_by_prefix_next_trie
find_by_prefix_next_trie-Answered fuel t (some st) path prefix depth h enough =
    next_match-Answered t.alphabet fuel st h enough
find_by_prefix_next_trie-Answered fuel t none path prefix depth h enough =
    let smaller = descend_size t.alphabet prefix t.root in
    elim (Option-cases (descend t.alphabet prefix t.root)) [
      | inl e ↦ record {
        found = none;
        err = ok;
        heap = h;
        done = rw (find_by_prefix_next_trie, e) refl;
        fewer = omega arith;
        balance = omega arith;
      }
      | inr (n, e) ↦
          let below = rw e at smaller in
          within fuel t path prefix depth h e below
            (first_match-Answered t.alphabet fuel path prefix depth n h (omega arith))
    ]
