-- ===== src/Trie/Prefix/Tests.antt =====
-- Runs of the search by prefix.
use ya_ircd.Prelude.{ℕ, zero, suc, ◌-◌, ◌≡◌, refl, true, false, [], ◌∷◌, Option, none, some, arith}
use ya_ircd.Memory.{Heap, malloc, answer}
use ya_ircd.Trie.{node, end, null, link, get_edge, Alphabet, Trie, Status}
use ya_ircd.Trie.Prefix.{
  TrieNodeStack, Match, trie_push, push_edges, expand, next_n, find_by_prefix_next_trie_n, descend,
  next_match, init_stack, first_match, find_by_prefix_next_trie,
}
use ya_ircd.Trie.Prefix.Calls.{Answered, find_by_prefix_next_trie-Answered}

-- The letters `a` and `b`.
abbrev two_letters : Alphabet
two_letters = record {
  is_valid = λ c. true;
  pos_to_char = λ i. elim i [ zero ↦ b'a' | suc j ↦ b'b' ];
  char_to_pos = λ c. c - b'a';
  edges_no = 2;
}

-- The words `b` and `bab`.
abbrev words : Trie ℕ
words = record {
  root = node false none 1 (
      null (
        link
          (node true (some 1) 1 (
            link (node false none 1 (null (link (node true (some 2) 0 (null (null end))) end)))
              (null end)))
          end));
  alphabet = two_letters;
}

abbrev memory : Heap
memory = record { answers = true ∷ true ∷ true ∷ true ∷ true ∷ true ∷ []; allocs = 0; frees = 0 }

find_by_prefix_next_trie-Answered_example :
    Answered 4 0 memory (find_by_prefix_next_trie 5 words none (0 ∷ 0 ∷ 0 ∷ 0 ∷ []) [] 4 memory)
find_by_prefix_next_trie-Answered_example =
    find_by_prefix_next_trie-Answered 5 words none (0 ∷ 0 ∷ 0 ∷ 0 ∷ []) [] 4 memory (omega arith)

-- What a call reports.
abbrev reported : Option (Option (Match ℕ × TrieNodeStack ℕ) × Status × Heap) → Option (Match ℕ)
reported (some (some (m, st), _, _)) = some m
reported _ = none

-- A second call, with the state of the first.
abbrev again :
    Option (Option (Match ℕ × TrieNodeStack ℕ) × Status × Heap)
    → Option (Option (Match ℕ × TrieNodeStack ℕ) × Status × Heap)
again (some (some (m, st), _, h)) = find_by_prefix_next_trie 5 words (some st) [] [] 4 h
again _ = none

abbrev first_call : Option (Option (Match ℕ × TrieNodeStack ℕ) × Status × Heap)
first_call = find_by_prefix_next_trie 5 words none (0 ∷ 0 ∷ 0 ∷ 0 ∷ []) [] 4 memory

first_word : reported first_call ≡ some (record { result = b'b' ∷ []; value = some 1 })
unfolding find_by_prefix_next_trie descend first_match init_stack push_edges get_edge trie_push
    malloc answer next_match find_by_prefix_next_trie_n next_n expand
first_word = refl

second_word :
    reported (again first_call) ≡ some (record { result = b'b' ∷ b'a' ∷ b'b' ∷ []; value = some 2 })
unfolding find_by_prefix_next_trie descend first_match init_stack push_edges get_edge trie_push
    malloc answer next_match find_by_prefix_next_trie_n next_n expand
second_word = refl
