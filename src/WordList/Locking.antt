-- ===== src/WordList/Locking.antt =====
-- src/lists/list.c: which locks the callbacks of a search run under.
use ya_ircd.Prelude.{ℕ, ◌≡◌, refl, Bool, true, false, List, Option, none, some}
use ya_ircd.Trie.{Trie, find_word_trie}
use ya_ircd.WordList.{
  YaircdNode, Locks, M, released, list_held, node_held, list_find_word, list_find_word_nolock,
  look_up, list_find_and_execute, list_find_and_execute_globalock, list_for_each, call_match,
  call_nomatch, data_of, no_match, lock_list, unlock_list, lock_node, unlock_node, pure, ◌>>=◌,
  ◌>>◌,
}

-- Whatever the call does to the state, it holds the locks behind it that it held before it.
abbrev pub EndsWith : {S A : Type 0} → Locks → Option (A × Locks × S) → Type 0
EndsWith l none = Unit
EndsWith l (some (r, l', s')) = l' ≡ l

abbrev pub KeepsLocks : {S A : Type 0} → M S A → Type 0
KeepsLocks {S} {A} m = (l : Locks) (s : S) → EndsWith l (m l s)

-- What a run of a callback leaves for the caller of the search, with the flag `*success`.
abbrev pub finished :
    {S A : Type 0} → Bool → Option (A × Locks × S) → Option ((A × Bool) × Locks × S)
finished success none = none
finished success (some (r, l, s)) = some ((r, success), released, s)

blocked :
    {S A : Type 0} (k : Unit {0} → M S A) (l : Locks) (s : S)
    → l.list ≡ true
    → (lock_list >>= k) l s ≡ none
blocked k l s held = rw held refl

-- Unlocking behind a callback that keeps its locks.
then_unlock :
    {S R : Type 0} (success : Bool) (ends : R → M S (R × Bool)) (l : Locks)
    (r : Option (R × Locks × S))
    → ((a : R) (s : S) → ends a l s ≡ some ((a, success), released, s))
    → EndsWith l r
    → elim r as (λ _. Option ((R × Bool) × Locks × S)) [
      | none ↦ none
      | some (a, l', s') ↦ ends a l' s'
    ]
      ≡ finished success r
then_unlock success ends l none unlocks kept = refl
then_unlock success ends l (some (a, l', s')) unlocks kept = rw kept (unlocks a s')

module _ {S D : Type 0} (list : S → Trie (YaircdNode D)) (word : List ℕ) where
  -- `list_find_word` of a word with a node returns its data and holds no lock at the end; for any
  -- other word, of which the function's comment says that `NULL` is returned, it has no result: it
  -- reads the data of a node through `NULL`.
  pub list_find_word_lem :
      (s : S)
      → list_find_word list word released s
        ≡ elim (find_word_trie (list s) word) [ none ↦ none | some n ↦ some (n.value, released, s) ]
  unfolding list_find_word list_find_word_nolock look_up
  list_find_word_lem s = steps (find_word_trie (list s) word)
    where
      steps :
          (found : Option (YaircdNode D))
          → (do ret ← data_of list found; unlock_list; pure ret) list_held s
            ≡ elim found [ none ↦ none | some n ↦ some (n.value, released, s) ]
      steps none = refl
      steps (some n) = refl

module _ {S D R : Type 0} (list : S → Trie (YaircdNode D)) (word : List ℕ) where
  module _ (match_fun : Option (Option D → M S (Option R)))
      (nomatch_fun : Option (M S (Option R))) where
    -- From a thread that holds no lock, with callbacks that give back the locks they take: at a
    -- word with a node, `match_fun` runs on its data unless it is `NULL`, with the lock of the node
    -- alone in `list_find_and_execute` and with that of the list alone in
    -- `list_find_and_execute_globalock`, and the flag is set, also if `match_fun` is `NULL` and
    -- nothing is called; at any other word `nomatch_fun` runs with the lock of the list alone, in
    -- both, unless it is `NULL`, and the flag is not set. The search itself never waits, and no
    -- lock is held once the callback has ended.
    pub list_find_and_execute_lem :
        (s : S)
        → ((d : Option D) → KeepsLocks (call_match list match_fun nomatch_fun d))
        → KeepsLocks (call_nomatch list match_fun nomatch_fun)
        → let run_match : Locks → YaircdNode D → Option ((Option R × Bool) × Locks × S) =
            λ l n. finished true (call_match list match_fun nomatch_fun n.value l s) in
          let run_nomatch = finished false (call_nomatch list match_fun nomatch_fun list_held s) in
          (list_find_and_execute list match_fun nomatch_fun word released s
            ≡ elim (find_word_trie (list s) word) [
              | none ↦ run_nomatch
              | some n ↦ run_match node_held n
            ])
          × (list_find_and_execute_globalock list match_fun nomatch_fun word released s
              ≡ elim (find_word_trie (list s) word) [
                | none ↦ run_nomatch
                | some n ↦ run_match list_held n
              ])
    unfolding list_find_and_execute list_find_and_execute_globalock look_up
    list_find_and_execute_lem s km kn = steps (find_word_trie (list s) word)
      where
        call : Option D → Locks → Option (Option R × Locks × S)
        call d l = call_match list match_fun nomatch_fun d l s

        absent :
            no_match list match_fun nomatch_fun list_held s
            ≡ finished false (call_nomatch list match_fun nomatch_fun list_held s)
        absent =
            then_unlock false (λ a. unlock_list >> pure (a, false)) list_held _ (λ a s. refl)
              (kn list_held s)

        steps :
            (found : Option (YaircdNode D))
            → ((elim found as (λ _. M S (Option R × Bool)) [
              | none ↦ no_match list match_fun nomatch_fun
              | some n ↦ do
                lock_node
                unlock_list
                ret ← call_match list match_fun nomatch_fun n.value
                unlock_node
                pure (ret, true)
            ])
                  list_held s
                ≡ elim found [
                  | none ↦ finished false (call_nomatch list match_fun nomatch_fun list_held s)
                  | some n ↦ finished true (call n.value node_held)
                ])
              × ((elim found as (λ _. M S (Option R × Bool)) [
                | none ↦ no_match list match_fun nomatch_fun
                | some n ↦ do
                  lock_node
                  unlock_node
                  ret ← call_match list match_fun nomatch_fun n.value
                  unlock_list
                  pure (ret, true)
              ])
                    list_held s
                  ≡ elim found [
                    | none ↦ finished false (call_nomatch list match_fun nomatch_fun list_held s)
                    | some n ↦ finished true (call n.value list_held)
                  ])
        steps none = (absent, absent)
        steps (some n) = (
          then_unlock true (λ a. unlock_node >> pure (a, true)) node_held _ (λ a s. refl)
              (km n.value node_held s),
          then_unlock true (λ a. unlock_list >> pure (a, true)) list_held _ (λ a s. refl)
              (km n.value list_held s),
        )

  -- A thread that holds the lock of the list, such as a callback of `list_for_each` or of
  -- `list_find_and_execute_globalock`, waits for itself for ever in `list_find_word`, in
  -- `list_find_and_execute`, in its variant with the global lock and in `list_for_each`.
  pub deadlocked :
      (match_fun : Option (Option D → M S (Option R))) (nomatch_fun : Option (M S (Option R)))
      (f : Option D → S → S) (l : Locks) (s : S)
      → l.list ≡ true
      → (list_find_word list word l s ≡ none)
        × (list_find_and_execute list match_fun nomatch_fun word l s ≡ none)
        × (list_find_and_execute_globalock list match_fun nomatch_fun word l s ≡ none)
        × (list_for_each list f l s ≡ none)
  unfolding list_find_word list_find_and_execute list_find_and_execute_globalock list_for_each
  deadlocked match_fun nomatch_fun f l s held =
      (blocked _ l s held, blocked _ l s held, blocked _ l s held, blocked _ l s held)
