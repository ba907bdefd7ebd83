-- ===== src/WordList.antt =====
-- src/lists/list.c: words with data, in a trie, behind one mutex for the list and one for each node.
pub mod Locking
pub mod Update
pub mod Map
pub mod Deletion
pub mod Destroy
mod Tests
use ya_ircd.Prelude.{
  ℕ, ◌+◌, ◌-◌, Bool, true, false, not, List, [], ◌∷◌, Option, none, some, if◌then◌else◌,
}
use ya_ircd.Memory.{Heap, malloc, mutex_init, free}
use ya_ircd.Trie
use ya_ircd.Trie.{
  Trie, Alphabet, Status, init_trie, find_word_trie, add_word_trie, delete_word_trie, trie_for_each,
  destroy_trie,
}

-- `struct yaircd_node`, without its mutex; `data` is a `void *`.
pub record YaircdNode (D : Type 0) : Type 0 where
  pub value : Option D

-- The mutexes that the running thread holds: that of the list, and that of the node it has found.
pub record Locks : Type 0 where
  pub list : Bool
  pub node : Bool

abbrev pub released : Locks
released = record { list = false; node = false }

abbrev pub list_held : Locks
list_held = record { list = true; node = false }

abbrev pub node_held : Locks
node_held = record { list = false; node = true }

-- A call of a thread. `none`: it waits for a mutex that it holds itself, or reads through `NULL`.
abbrev pub M : Type 0 → Type 0 → Type 0
M S A = Locks → S → Option (A × Locks × S)

infixl 5 ◌>>=◌ ◌>>◌
abbrev pub ◌>>=◌ : {S A B : Type 0} → M S A → (A → M S B) → M S B
◌>>=◌ m f l s = elim (m l s) [ none ↦ none | some (a, l', s') ↦ f a l' s' ]

abbrev pub ◌>>◌ : {S B : Type 0} → M S (Unit {0}) → M S B → M S B
m >> k = m >>= λ _. k

abbrev pub pure : {S A : Type 0} → A → M S A
pure a l s = some (a, l, s)

abbrev pub lock_list : {S : Type 0} → M S (Unit {0})
lock_list l s = if l.list then none else some (tt, record l { list = true }, s)

abbrev pub unlock_list : {S : Type 0} → M S (Unit {0})
unlock_list l s = some (tt, record l { list = false }, s)

abbrev pub lock_node : {S : Type 0} → M S (Unit {0})
lock_node l s = if l.node then none else some (tt, record l { node = true }, s)

abbrev pub unlock_node : {S : Type 0} → M S (Unit {0})
unlock_node l s = some (tt, record l { node = false }, s)

-- Searching. The list is a part `list` of the state on which the callbacks work; they are given
-- as `NULL` or a function, which holds its own arguments.
module _ {S D : Type 0} (list : S → Trie (YaircdNode D)) where
  unfoldable pub look_up : List ℕ → M S (Option (YaircdNode D))
  look_up word l s = some (find_word_trie (list s) word, l, s)

  -- `->data`, through a pointer that may be `NULL`.
  abbrev pub data_of : Option (YaircdNode D) → M S (Option D)
  data_of none l s = none
  data_of (some n) l s = some (n.value, l, s)

  unfoldable pub list_find_word_nolock : List ℕ → M S (Option D)
  unfolding look_up
  list_find_word_nolock word = do n ← look_up word; data_of n

  unfoldable pub list_find_word : List ℕ → M S (Option D)
  unfolding list_find_word_nolock
  list_find_word word = do lock_list; ret ← list_find_word_nolock word; unlock_list; pure ret

  module _ {R : Type 0} (match_fun : Option (Option D → M S (Option R)))
      (nomatch_fun : Option (M S (Option R))) where
    abbrev pub call_match : Option D → M S (Option R)
    call_match d = elim match_fun [ none ↦ pure none | some f ↦ f d ]

    abbrev pub call_nomatch : M S (Option R)
    call_nomatch = elim nomatch_fun [ none ↦ pure none | some g ↦ g ]

    abbrev pub no_match : M S (Option R × Bool)
    no_match = do ret ← call_nomatch; unlock_list; pure (ret, false)

    -- The flag is `*success`.
    unfoldable pub list_find_and_execute : List ℕ → M S (Option R × Bool)
    unfolding look_up
    list_find_and_execute word = do
      lock_list
      found ← look_up word
      elim found [
        | none ↦ no_match
        | some n ↦ do
          lock_node
          unlock_list
          ret ← call_match n.value
          unlock_node
          pure (ret, true)
      ]

    unfoldable pub list_find_and_execute_globalock : List ℕ → M S (Option R × Bool)
    unfolding look_up
    list_find_and_execute_globalock word = do
      lock_list
      found ← look_up word
      elim found [
        | none ↦ no_match
        | some n ↦ do
          lock_node
          unlock_node
          ret ← call_match n.value
          unlock_list
          pure (ret, true)
      ]

  -- `node->data` is handed to `f`; `none` once a node was read through `NULL`.
  unfoldable pub unpack_and_execute :
      (Option D → S → S) → Option (YaircdNode D) → Option S → Option S
  unpack_and_execute f n none = none
  unpack_and_execute f none (some s) = none
  unpack_and_execute f (some n) (some s) = some (f n.value s)

  unfoldable pub list_for_each : (Option D → S → S) → M S (Unit {0})
  list_for_each f = do
    lock_list
    λ l s. elim (trie_for_each (list s) (unpack_and_execute f) (some s)) [
      | none ↦ none
      | some s' ↦ some (tt, l, s')
    ]
    unlock_list
