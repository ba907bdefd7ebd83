-- ===== src/Trie/Tests.antt =====
-- Runs of the trie's operations, on the alphabet of nicknames.
use ya_ircd.Prelude.{
  ℕ, zero, suc, ◌+◌, ◌≡◌, ◌≢◌, refl, Bool, true, none, some, List, [], ◌∷◌, if◌then◌else◌,
}
use ya_ircd.Memory.{Heap, malloc, answer}
use ya_ircd.Trie.{
  Trie, Status, ok, no_mem, init_trie, init_node, null_edges, get_edge, set_edge, added, free_child,
  add_word_trie, add_word_trie_aux, delete_word_trie, find_word_trie, find_word_trie_aux,
  trie_for_each, trie_for_each_aux, for_each_edge,
}
use ya_ircd.Trie.Invariant.{fresh_node}
use ya_ircd.Trie.Keys.{same_key}
use ya_ircd.Trie.Laws.{
  IsTrie, blocks, init_trie-IsTrie, find_word_trie-add_word_trie, find_word_trie-delete_word_trie,
  word_trie-IsTrie, word_trie_balance,
}
use ya_ircd.ClientList.{nick_alphabet, nick_is_valid, nick_char_to_pos}
use ya_ircd.ClientList.Nicks.{nick_alphabet-IsAlphabet}

abbrev granted : ℕ → List Bool
granted zero = []
granted (suc n) = true ∷ granted n

-- A heap on which `n` allocations succeed.
abbrev pub memory : ℕ → Heap
memory n = record { answers = granted n; allocs = 0; frees = 0 }

abbrev empty : Trie ℕ
empty = record { root = fresh_node ℕ 35; alphabet = nick_alphabet }

abbrev foo : List ℕ
foo = b'f' ∷ b'o' ∷ b'o' ∷ []

abbrev upper_foo : List ℕ
upper_foo = b'F' ∷ b'O' ∷ b'O' ∷ []

abbrev bad : List ℕ
bad = b'f' ∷ b'!' ∷ []

init_empty : (init_trie nick_alphabet (memory 3)).0 ≡ some empty
unfolding init_trie init_node malloc answer
init_empty = refl

empty-IsTrie : IsTrie ℕ empty
empty-IsTrie = (init_trie-IsTrie nick_alphabet (memory 3) nick_alphabet-IsAlphabet init_empty).0

added_foo : (add_word_trie empty foo (some 7) (memory 6)).0 ≡ ok
unfolding add_word_trie add_word_trie_aux added get_edge set_edge null_edges init_node malloc answer
    nick_is_valid nick_char_to_pos
added_foo = refl

find_word_trie-add_word_trie_example :
    find_word_trie (add_word_trie empty foo (some 7) (memory 6)).1 upper_foo
    ≡ (if same_key nick_alphabet foo upper_foo then some 7 else find_word_trie empty upper_foo)
find_word_trie-add_word_trie_example =
    find_word_trie-add_word_trie empty foo (some 7) (memory 6) upper_foo empty-IsTrie added_foo

-- A trie with one word.
abbrev with_foo : Trie ℕ
with_foo = (add_word_trie empty foo (some 7) (memory 6)).1

with_foo-IsTrie : IsTrie ℕ with_foo
with_foo-IsTrie = (word_trie-IsTrie empty foo (some 7) (memory 6) empty-IsTrie).0

found_upper : find_word_trie with_foo upper_foo ≡ some 7
unfolding add_word_trie add_word_trie_aux added get_edge set_edge null_edges init_node malloc answer
    nick_is_valid nick_char_to_pos find_word_trie find_word_trie_aux
found_upper = refl

find_word_trie-delete_word_trie_example :
    ((delete_word_trie with_foo upper_foo (memory 0)).0 ≡ find_word_trie with_foo upper_foo)
    × (find_word_trie (delete_word_trie with_foo upper_foo (memory 0)).1 foo
        ≡ (if same_key with_foo.alphabet upper_foo foo then none else find_word_trie with_foo foo))
find_word_trie-delete_word_trie_example =
    find_word_trie-delete_word_trie with_foo upper_foo (memory 0) foo with_foo-IsTrie

word_trie_balance_example :
    (let (_, t', h') = add_word_trie with_foo foo (some 8) (memory 0) in
      h'.allocs + 0 + blocks with_foo ≡ 0 + h'.frees + blocks t')
    × (let (_, t', h') = delete_word_trie with_foo foo (memory 0) in
        h'.allocs + 0 + blocks with_foo ≡ 0 + h'.frees + blocks t')
word_trie_balance_example = word_trie_balance with_foo foo (some 8) (memory 0) with_foo-IsTrie

-- The third node cannot be allocated.
starved : (add_word_trie empty foo (some 7) (memory 5)).0 ≡ no_mem
unfolding add_word_trie add_word_trie_aux added free_child get_edge set_edge null_edges init_node
    malloc answer nick_is_valid nick_char_to_pos
starved = refl

no_mem_ne_ok : {s : Status} → s ≡ no_mem → s ≢ ok
no_mem_ne_ok e f = cc

-- The data of the words, in the order of the walk.
walked : trie_for_each with_foo (λ d l. elim d [ none ↦ l | some x ↦ x ∷ l ]) [] ≡ 7 ∷ []
unfolding add_word_trie add_word_trie_aux added get_edge set_edge null_edges init_node malloc answer
    nick_is_valid nick_char_to_pos trie_for_each trie_for_each_aux for_each_edge
walked = refl
