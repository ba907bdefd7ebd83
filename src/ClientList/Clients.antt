-- ===== src/ClientList/Clients.antt =====
-- src/clients/client_list.c: the list of clients by nickname.
use ya_ircd.Prelude.{ℕ, ◌≡◌, ◌≢◌, refl, ◌∙◌, Bool, true, false, List, Option, none, some, map}
use ya_ircd.Memory.{Heap}
use ya_ircd.ClientList.{nick_alphabet}
use ya_ircd.ClientList.Nicks.{rfc_lower, same_key-rfc_lower}
use ya_ircd.Trie.{Trie, find_word_trie}
use ya_ircd.Trie.Keys.{is_word, same_key}
use ya_ircd.Trie.Laws.{IsTrie}
use ya_ircd.WordList.{YaircdNode, M, ◌>>=◌, pure, released, node_held, list_find_and_execute}
use ya_ircd.WordList.Locking.{KeepsLocks, finished, list_find_and_execute_lem}
use ya_ircd.WordList.Map.{Added, list_add-Added}
use ya_ircd.WordList.Update.{
  ListCode, ok, ListState, node_of, init_word_list, list_add, list_delete, destroy_word_list,
}

-- `Client` is `struct irc_client`; `clients` is the state.
module _ {Client : Type 0} where
  -- `none` is -1.
  unfoldable pub client_list_init : Heap → Option (Trie (YaircdNode Client)) × Heap
  client_list_init h = init_word_list nick_alphabet h

  unfoldable pub client_list_destroy : Trie (YaircdNode Client) → Heap → Option (Unit {0}) × Heap
  client_list_destroy clients h = destroy_word_list false (λ d h'. h') clients h

  unfoldable pub client_list_find_and_execute :
      {R : Type 0}
      → List ℕ
      → (Option Client → M (ListState Client) (Option R))
      → M (ListState Client) (Option R × Bool)
  client_list_find_and_execute nick f = list_find_and_execute (λ s. s.trie) (some f) none nick

  unfoldable pub client_list_add : Client → List ℕ → M (ListState Client) ListCode
  client_list_add client newnick = list_add client newnick

  -- `nick` reads `client->nick`.
  unfoldable pub client_list_delete : (Client → List ℕ) → Client → M (ListState Client) (Unit {0})
  client_list_delete nick client = do old ← list_delete (nick client); pure tt

  -- `Added` with the result that a call has returned.
  client_list_add-Added :
      (c : Client) (nick : List ℕ) (s : ListState Client) {ret : ListCode} {s' : ListState Client}
      → IsTrie (YaircdNode Client) s.trie
      → client_list_add c nick released s ≡ some (ret, released, s')
      → Added c nick s.trie ret s'.trie × IsTrie (YaircdNode Client) s'.trie
  unfolding client_list_add
  client_list_add-Added c nick s {ret} {s'} v e =
      let (ret1, s1, e1, added, still, _) = list_add-Added c nick s v in
      let same_code : ret1 ≡ ret = cc in
      let same_state : s1 ≡ s' = cc in rw (← same_code, ← same_state) (added, still)

  -- In a well-formed list over the alphabet of nicknames: when a client was added under a valid
  -- nickname, then under every valid spelling of that nickname that is the same up to the case
  -- mapping of RFC 1459, a function that gives back its locks runs on this client with the lock of
  -- its node, and no addition of another client returns 0.
  pub client_list_add-found :
      {R : Type 0} (c c2 : Client) (nick other : List ℕ) (s : ListState Client)
      {s' s2 : ListState Client} (f : Option Client → M (ListState Client) (Option R))
      {ret : ListCode}
      → IsTrie (YaircdNode Client) s.trie
      → s.trie.alphabet ≡ nick_alphabet
      → client_list_add c nick released s ≡ some (ok, released, s')
      → is_word nick_alphabet nick ≡ true
      → is_word nick_alphabet other ≡ true
      → map rfc_lower nick ≡ map rfc_lower other
      → ((d : Option Client) → KeepsLocks (f d))
      → client_list_add c2 other released s' ≡ some (ret, released, s2)
      → (client_list_find_and_execute other f released s' ≡ finished true (f (some c) node_held s'))
        × (ret ≢ ok)
  unfolding client_list_find_and_execute
  client_list_add-found c c2 nick other s {s'} {s2} f {ret} v a e good good2 same keeps e2 =
      let (added, still) = client_list_add-Added c nick s v e in
      let one_key : same_key nick_alphabet nick other ≡ true =
        (same_key-rfc_lower nick other).1 (good, good2, same) in
      let there : find_word_trie s'.trie other ≡ some (node_of c) =
        added.1 other ∙ rw (a, one_key) refl in
      let again = (client_list_add-Added c2 other s' still e2).0 in
      (
        (list_find_and_execute_lem (λ t. t.trie) other (some f) none s' keeps (λ l t. refl)).0
            ∙ rw there refl,
        λ is. let gone = (rw is at again).0 in cc,
      )
