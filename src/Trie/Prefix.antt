-- ===== src/Trie/Prefix.antt =====
-- src/trie/trie.c: the search of the words with a prefix, one match for each call.
pub mod Loops
pub mod Descent
pub mod Calls
mod Tests
use ya_ircd.Prelude.{
  ℕ, zero, suc, ◌+◌, ◌-◌, Bool, true, false, not, ◌&&◌, List, [], ◌∷◌, ◌++◌, Option, none, some,
  ◌==◌, ltb, if◌then◌else◌, set, length,
}
use ya_ircd.Memory.{Heap, malloc, free}
use ya_ircd.Trie.{Node, node, Edges, get_edge, Alphabet, Trie, Status, ok, no_mem}

-- `struct trie_node_stack_elm`, without `next`: a stack is a list.
pub record TrieNodeStackElm (V : Type 0) : Type 0 where
  pub el : Node V
  pub letter : ℕ
  pub depth : ℕ

-- `struct trie_node_stack`; `prefix` is its characters.
pub record TrieNodeStack (V : Type 0) : Type 0 where
  pub path : List ℕ
  pub prefix : List ℕ
  pub depth : ℕ
  pub top : List (TrieNodeStackElm V)

-- The match that a call reports: the string in `result`, and `*data`.
pub record Match (V : Type 0) : Type 0 where
  pub result : List ℕ
  pub value : Option V

-- The characters up to the first `NUL`.
abbrev pub c_string : List ℕ → List ℕ
c_string [] = []
c_string (c ∷ cs) = if c == 0 then [] else c ∷ c_string cs

abbrev pub edges_of : {V : Type 0} → Node V → Edges V
edges_of (node w d k es) = es

abbrev pub ends_word : {V : Type 0} → Node V → Bool
ends_word (node w d k es) = w

abbrev pub word_data_of : {V : Type 0} → Node V → Option V
word_data_of (node w d k es) = d

module _ {V : Type 0} where
  abbrev pub trie_stack_empty : TrieNodeStack V → Bool
  trie_stack_empty st = elim st.top [ [] ↦ true | e ∷ es ↦ false ]

  -- Whether the element was pushed.
  unfoldable pub trie_push : TrieNodeStack V → Node V → ℕ → ℕ → Heap → Bool × TrieNodeStack V × Heap
  trie_push st el depth letter h =
      let (got, h') = malloc h in
      if got
      then (
        true,
        record st { top = record { el = el; letter = letter; depth = depth } ∷ st.top },
        h',
      )
      else (false, st, h')

  unfoldable pub free_stack_elements : List (TrieNodeStackElm V) → Heap → Heap
  free_stack_elements [] h = h
  free_stack_elements (e ∷ es) h = free (free_stack_elements es h)

  -- A pointer to a stack may be `NULL`.
  unfoldable pub free_trie_stack : Option (TrieNodeStack V) → Heap → Heap
  free_trie_stack none h = h
  free_trie_stack (some st) h = free (free (free (free_stack_elements st.top h)))

  module _ (a : Alphabet) where
    -- The loops `for (i = edges_no - 1; i >= 0 && *err_code == 0; i--)`, with `i` edges to come.
    unfoldable pub push_edges :
        ℕ → Edges V → ℕ → TrieNodeStack V → Heap → Status × TrieNodeStack V × Heap
    push_edges zero es depth st h = (ok, st, h)
    push_edges (suc i) es depth st h = elim (get_edge es i) [
      | none ↦ push_edges i es depth st h
      | some n ↦
          let (got, st', h') = trie_push st n depth (a.pos_to_char i) h in
          let rest = push_edges i es depth st' h' in if got then rest else (no_mem, st', h')
    ]

    -- One element off the stack: its children are pushed, unless an earlier push has failed.
    unfoldable pub expand :
        Status → TrieNodeStackElm V → TrieNodeStack V → Heap → Status × TrieNodeStack V × Heap
    expand ok curr st h =
        if ltb (curr.depth + 1) st.depth
        then push_edges a.edges_no (edges_of curr.el) (curr.depth + 1) st h
        else (ok, st, h)
    expand err curr st h = (err, st, h)

    -- The loop of `find_by_prefix_next_trie_n` with the error so far, on fuel; `none` means that the
    -- fuel ran out, and no match is `NULL`. `path` is written at `depth - 1`, and `free(curr)` is last.
    unfoldable pub next_n :
        ℕ
        → Status
        → TrieNodeStack V
        → Heap
        → Option (Option (Match V) × Status × TrieNodeStack V × Heap)
    next_n zero err st h = none
    next_n (suc fuel) err st h = elim st.top [
      | [] ↦ some (none, err, st, h)
      | curr ∷ rest ↦
          let (err', st', h') = expand err curr (record st { top = rest }) h in
          let path = set st'.path (curr.depth - 1) curr.letter in
          let path' = set path curr.depth 0 in
          let later = next_n fuel err' (record st' { path = path }) (free h') in
          let found : Match V = record { result = c_string path'; value = word_data_of curr.el } in
          if ends_word curr.el
          then some (some found, err', record st' { path = path' }, free h')
          else later
    ]

    unfoldable pub find_by_prefix_next_trie_n :
        ℕ → TrieNodeStack V → Heap → Option (Option (Match V) × Status × TrieNodeStack V × Heap)
    find_by_prefix_next_trie_n fuel st h = next_n fuel ok st h

    -- The node that the prefix leads to.
    unfoldable pub descend : List ℕ → Node V → Option (Node V)
    descend [] n = some n
    descend (c ∷ cs) n =
        let below : Option (Node V) = elim (get_edge (edges_of n) (a.char_to_pos c)) [
          | none ↦ none
          | some m ↦ descend cs m
        ] in
        if a.is_valid c then below else none

    -- The end of `find_by_prefix_next_trie`: the match behind the prefix, or no state.
    unfoldable pub next_match :
        ℕ → TrieNodeStack V → Heap → Option (Option (Match V × TrieNodeStack V) × Status × Heap)
    next_match fuel st h = elim (find_by_prefix_next_trie_n fuel st h) [
      | none ↦ none
      | some (none, err, st', h') ↦ some (none, err, free_trie_stack (some st') h')
      | some (some m, err, st', h') ↦
          some (some (record { result = st'.prefix ++ m.result; value = m.value }, st'), err, h')
    ]

    -- The new stack, with the children of the node that the prefix leads to; `path` is what `malloc`
    -- returned.
    unfoldable pub init_stack :
        List ℕ → List ℕ → ℕ → Node V → Heap → Status × TrieNodeStack V × Heap
    init_stack path prefix depth n h =
        let st : TrieNodeStack V = record {
          path = path;
          prefix = prefix;
          depth = depth;
          top = [];
        } in
        if ltb 1 depth then push_edges a.edges_no (edges_of n) 1 st h else (ok, st, h)

    -- The first call, with `st == NULL`, behind the search of the prefix.
    unfoldable pub first_match :
        ℕ
        → List ℕ
        → List ℕ
        → ℕ
        → Node V
        → Heap
        → Option (Option (Match V × TrieNodeStack V) × Status × Heap)
    first_match fuel path prefix depth n h =
        let (got_st, h1) = malloc h in
        let (got_prefix, h2) = malloc h1 in
        let (got_path, h3) = malloc h2 in
        let (err, st, h4) = init_stack path prefix (depth - length prefix) n h3 in
        let next = next_match fuel st h4 in
        if not got_st
        then some (none, ok, h1)
        else if not got_prefix
        then some (none, ok, free h2)
        else if not got_path
        then some (none, ok, free (free h3))
        else if ends_word n
        then some (some (record { result = prefix; value = word_data_of n }, st), err, h4)
        else next

  -- `path` is what `malloc` returns for the path. A result without state is `NULL`.
  unfoldable pub find_by_prefix_next_trie :
      ℕ
      → Trie V
      → Option (TrieNodeStack V)
      → List ℕ
      → List ℕ
      → ℕ
      → Heap
      → Option (Option (Match V × TrieNodeStack V) × Status × Heap)
  find_by_prefix_next_trie fuel t (some st) path prefix depth h = next_match t.alphabet fuel st h
  find_by_prefix_next_trie fuel t none path prefix depth h =
      elim (descend t.alphabet prefix t.root) [
        | none ↦ some (none, ok, h)
        | some n ↦ first_match t.alphabet fuel path prefix depth n h
      ]
