-- ===== src/WordList/Tests.antt =====
-- Runs of the list, over the alphabet of nicknames.
use ya_ircd.Prelude.{
  ℕ, zero, suc, ◌+◌, ◌≡◌, refl, Bool, true, false, List, [], ◌∷◌, Option, none, some, if◌then◌else◌,
}
use ya_ircd.Memory.{Heap, malloc, mutex_init, answer, ready}
use ya_ircd.Trie.{Trie, init_trie, init_node, find_word_trie}
use ya_ircd.Trie.Invariant.{fresh_node}
use ya_ircd.Trie.Keys.{same_key}
use ya_ircd.Trie.Laws.{IsTrie, blocks, init_trie-IsTrie}
use ya_ircd.ClientList.{nick_alphabet}
use ya_ircd.ClientList.Nicks.{nick_alphabet-IsAlphabet}
use ya_ircd.WordList.{
  YaircdNode, Locks, M, released, list_held, node_held, list_find_and_execute,
  list_find_and_execute_globalock, pure,
}
use ya_ircd.WordList.Locking.{finished, list_find_and_execute_lem}
use ya_ircd.WordList.Update.{
  ListCode, is_ok, ListState, init_word_list, new_node, list_add, list_add_nolock, list_delete,
  list_delete_nolock, destroy_word_list,
}
use ya_ircd.WordList.Map.{Added, Gains, list_add-Added, list_add_nolock-leak}
use ya_ircd.WordList.Deletion.{list_delete-Deleted}
use ya_ircd.WordList.Destroy.{init_word_list-destroy_word_list}

abbrev yes : ℕ → List Bool
yes zero = []
yes (suc n) = true ∷ yes n

abbrev memory : Heap
memory = record { answers = yes 12; allocs = 0; frees = 0 }

abbrev empty : Trie (YaircdNode ℕ)
empty = record { root = fresh_node (YaircdNode ℕ) 35; alphabet = nick_alphabet }

made_empty : (init_trie nick_alphabet memory).0 ≡ some empty
unfolding init_trie init_node malloc answer
made_empty = refl

empty-IsTrie : IsTrie (YaircdNode ℕ) empty
empty-IsTrie = (init_trie-IsTrie nick_alphabet memory nick_alphabet-IsAlphabet made_empty).0

abbrev start : ListState ℕ
start = record { trie = empty; heap = memory }

abbrev joe : List ℕ
joe = b'j' ∷ b'o' ∷ b'e' ∷ []

list_add-Added_example :
    (ret : ListCode) × (s' : ListState ℕ) × (list_add 4 joe released start
      ≡ some (ret, released, s'))
    × Added 4 joe empty ret s'.trie
    × IsTrie (YaircdNode ℕ) s'.trie
    × Gains start (if is_ok ret then 1 else 0) s'
list_add-Added_example = list_add-Added 4 joe start empty-IsTrie

node_made : (new_node memory).0 ≡ true
unfolding new_node malloc answer mutex_init ready
node_made = refl

list_add_nolock-leak_example :
    let (ret, s') = list_add_nolock 4 joe start in
    Added 4 joe empty ret s'.trie × IsTrie (YaircdNode ℕ) s'.trie × Gains start 1 s'
list_add_nolock-leak_example = list_add_nolock-leak 4 joe start empty-IsTrie node_made

-- The list behind the addition.
abbrev with_joe : ListState ℕ
with_joe = (list_add_nolock 4 joe start).1

with_joe-IsTrie : IsTrie (YaircdNode ℕ) with_joe.trie
with_joe-IsTrie = (list_add_nolock-leak 4 joe start empty-IsTrie node_made).1

list_delete-Deleted_example :
    let (old, s') = list_delete_nolock joe with_joe in
    let found = find_word_trie with_joe.trie joe in
    (list_delete joe released with_joe
      ≡ some (old, released, elim found [ none ↦ with_joe | some n ↦ s' ]))
    × (old ≡ elim found [ none ↦ none | some n ↦ n.value ])
    × IsTrie (YaircdNode ℕ) s'.trie
    × ((q : List ℕ)
        → find_word_trie s'.trie q ≡ (
            if same_key with_joe.trie.alphabet joe q then none else find_word_trie with_joe.trie q))
    × (s'.heap.allocs
          + with_joe.heap.frees
          + blocks with_joe.trie
          + elim found [ none ↦ 0 | some n ↦ 1 ]
        ≡ with_joe.heap.allocs + s'.heap.frees + blocks s'.trie)
list_delete-Deleted_example = list_delete-Deleted joe with_joe with_joe-IsTrie

-- A callback that counts, and one that is `NULL`.
abbrev counts : Option ℕ → M (ListState ℕ) (Option ℕ)
counts d = pure d

list_find_and_execute_lem_example :
    let run_match : Locks → YaircdNode ℕ → Option ((Option ℕ × Bool) × Locks × ListState ℕ) =
      λ l n. finished true (counts n.value l with_joe) in
    let run_nomatch : Option ((Option ℕ × Bool) × Locks × ListState ℕ) =
      some ((none, false), released, with_joe) in
    (list_find_and_execute (λ s. s.trie) (some counts) none joe released with_joe
      ≡ elim (find_word_trie with_joe.trie joe) [
        | none ↦ run_nomatch
        | some n ↦ run_match node_held n
      ])
    × (list_find_and_execute_globalock (λ s. s.trie) (some counts) none joe released with_joe
        ≡ elim (find_word_trie with_joe.trie joe) [
          | none ↦ run_nomatch
          | some n ↦ run_match list_held n
        ])
list_find_and_execute_lem_example =
    list_find_and_execute_lem (λ s. s.trie) joe (some counts) none with_joe (λ d l s. refl)
      (λ l s. refl)

init_made : (init_word_list nick_alphabet memory).0 ≡ some empty
unfolding init_word_list init_trie init_node malloc answer mutex_init ready
init_made = refl

init_word_list-destroy_word_list_example :
    (destroy_word_list false (λ (d : Option ℕ) h. h) empty memory).0 ≡ none
init_word_list-destroy_word_list_example =
    init_word_list-destroy_word_list nick_alphabet memory memory false (λ d h. h) init_made
