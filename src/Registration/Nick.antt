-- ===== src/Registration/Nick.antt =====
-- `NICK` from a client that has not registered.
use ya_ircd.Prelude.{
  ℕ, ◌≡◌, refl, ap, ◌∙◌, inl, inr, true, false, List, [], ◌∷◌, ◌++◌, arith, Bool-cases, ltb, length,
  ◌<◌, ◌≤◌, ◌⊎◌, none, some,
}
use ya_ircd.Memory.{malloc}
use ya_ircd.Trie.{find_word_trie}
use ya_ircd.WordList.{YaircdNode, released}
use ya_ircd.ClientList.Clients.{client_list_add}
use ya_ircd.WordList.Update.{ListCode, ListState, ok, invalid_word, no_mem, already_exists}
use ya_ircd.WordList.Map.{Added}
use ya_ircd.Registration.{
  CString, strdup, State, Reply, send, Exit, returned, terminated, undefined, delete_at,
  delete_self, set_nick, Listed, over, ready, drop_nick, nick_added, list_nick,
  cmd_nick_unregistered, max_nick_length,
}
use ya_ircd.Registration.Owned.{client_list_add_lem, AddedSelf-Fresh}
use ya_ircd.Registration.Invariant.{IsClient, welcome_lem, Ready, DropsTo, drop_nick_lem}

-- The list was well formed, and a trie that is the same holds the client as before.
same_trie :
    (s : State) (list : ListState ℕ)
    → IsClient s
    → list.trie ≡ s.list.trie
    → IsClient (record s { list = list })
same_trie s list v e = record {
  registry = rw e v.registry;
  owned = rw e v.owned;
  user_there = v.user_there;
  real_there = v.real_there;
  registered = v.registered;
}

-- A reply changes nothing else.
pub send-IsClient : (r : Reply) (s : State) → IsClient s → IsClient (send r s)
send-IsClient r s v = record {
  registry = v.registry;
  owned = v.owned;
  user_there = v.user_there;
  real_there = v.real_there;
  registered = v.registered;
}

-- What `client_list_add` returns for the client under the nickname.
abbrev pub AddCode : State → List ℕ → ListCode → Type 0
AddCode s nick code =
    (list : ListState ℕ) × (client_list_add s.client.self nick released s.list
      ≡ some (code, released, list))

-- A nickname that is too long, that is not valid, or that is in use: the client gets the reply that
-- says so, and is as before.
abbrev pub Declined : State → List ℕ → State → Type 0
Declined s nick s' =
    (s'.client ≡ s.client)
    × (((s'.sent ≡ s.sent ++ (Reply.send_err_erroneusnickname nick ∷ []))
          × ((max_nick_length < length nick) ⊎ AddCode s nick invalid_word))
        ⊎ ((s'.sent ≡ s.sent ++ (Reply.send_err_nicknameinuse nick ∷ []))
            × ((n : YaircdNode ℕ) × (find_word_trie s.list.trie nick ≡ some n))))

-- A nickname that nobody has, of at most nine characters, and now the client's.
abbrev pub Taken : State → List ℕ → State → Type 0
Taken s nick s' =
    (s'.client.nick ≡ CString.string nick)
    × (length nick ≤ max_nick_length)
    × (find_word_trie s.list.trie nick ≡ none)
    × (s'.client.username ≡ s.client.username)
    × (s'.client.realname ≡ s.client.realname)

-- The list has no memory for the client.
abbrev pub NoRoom : State → List ℕ → State → Type 0
NoRoom s nick s' = IsClient s' × (s'.client ≡ s.client) × (s'.sent ≡ s.sent) × AddCode s nick no_mem

-- Until the copy of the nickname, nothing undefined happens.
abbrev ListsTo : State → List ℕ → Listed → Type 0
ListsTo s nick (over (returned s')) = IsClient s' × Declined s nick s'
ListsTo s nick (over (terminated s')) = NoRoom s nick s'
ListsTo s nick (over undefined) = ⊥
ListsTo s nick (ready s') =
    Ready s nick s' × (length nick ≤ max_nick_length) × (find_word_trie s.list.trie nick ≡ none)

DropsTo-ListsTo :
    (s : State) (nick : List ℕ) (l : Listed)
    → length nick ≤ max_nick_length
    → find_word_trie s.list.trie nick ≡ none
    → DropsTo s nick l
    → ListsTo s nick l
DropsTo-ListsTo s nick (over exit) short free h = absurd h
DropsTo-ListsTo s nick (ready s') short free h = (h, short, free)

nick_added_lem :
    (s : State) (nick : List ℕ) (ret : ListCode) (list : ListState ℕ)
    → IsClient s
    → length nick ≤ max_nick_length
    → client_list_add s.client.self nick released s.list ≡ some (ret, released, list)
    → Added s.client.self nick s.list.trie ret list.trie
    → (ret ≡ ok → DropsTo s nick (drop_nick (record s { list = list })))
    → ListsTo s nick (nick_added nick ret (record s { list = list }))
unfolding nick_added
nick_added_lem s nick ok list v short code effect drops =
    DropsTo-ListsTo s nick _ short effect.0 (drops refl)
nick_added_lem s nick invalid_word list v short code effect drops = (
  send-IsClient _ (record s { list = list }) (same_trie s list v effect),
  (refl, inl (refl, inr (list, code))),
)
nick_added_lem s nick no_mem list v short code effect drops =
    (same_trie s list v effect, refl, refl, (list, code))
nick_added_lem s nick already_exists list v short code effect drops = (
  send-IsClient _ (record s { list = list }) (same_trie s list v (effect.0)),
  (refl, inr (refl, (effect.1, effect.2))),
)

list_nick_lem : (s : State) (nick : List ℕ) → IsClient s → ListsTo s nick (list_nick nick s)
unfolding list_nick
list_nick_lem s nick v = elim (Bool-cases (ltb max_nick_length (length nick))) [
  | inl long ↦
      rw (list_nick, long)
        (
          send-IsClient (Reply.send_err_erroneusnickname nick) s v,
          (refl, inl (refl, inl (ground (arith, long)))),
        )
  | inr short ↦
      let added = client_list_add_lem s.client.self nick s.list v.registry in
      rw (list_nick, short, added.done)
        (nick_added_lem s nick added.ret added.after v (ground (arith, short)) added.done
          added.effect
          (λ e.
            drop_nick_lem s nick added.after v added.kept
              (AddedSelf-Fresh s.client.self nick s.list v.registry added e)))
]

-- How `NICK` may end. Undefined behaviour is only where the copy of the nickname finds no memory.
abbrev pub NickEnds : State → List ℕ → Exit → Type 0
NickEnds s nick (returned s') =
    IsClient s'
    × (s'.client.self ≡ s.client.self)
    × (s'.client.is_registered ≡ true
        → s'.sent ≡ (s.sent ++ (Reply.send_welcome ∷ [])) ++ (Reply.send_motd ∷ []))
    × (Declined s nick s' ⊎ Taken s nick s')
NickEnds s nick (terminated s') = NoRoom s nick s'
NickEnds s nick undefined =
    (s1 : State) × (list_nick nick s ≡ Listed.ready s1) × ((malloc s1.list.heap).0 ≡ false)

set_nick_lem :
    (s s1 : State) (nick : List ℕ)
    → IsClient s
    → s.client.is_registered ≡ false
    → list_nick nick s ≡ Listed.ready s1
    → Ready s nick s1
    → length nick ≤ max_nick_length
    → find_word_trie s.list.trie nick ≡ none
    → NickEnds s nick (set_nick nick s1)
unfolding set_nick strdup delete_self delete_at
set_nick_lem s s1 nick v new listed r short free = elim (Bool-cases (malloc s1.list.heap).0) [
  | inr none_left ↦ rw (set_nick, strdup, none_left) (s1, listed, none_left)
  | inl got ↦
      let s2 : State = record s1 {
        client = record s1.client { nick = CString.string nick };
        list = record s1.list { heap = (malloc s1.list.heap).1 };
      } in
      rw (set_nick, strdup, got, welcome_lem s2 (r.new ∙ new))
        (
          record {
            registry = r.registry;
            owned = rw r.self_same r.named;
            user_there = rw r.user_same v.user_there;
            real_there = rw r.real_same v.real_there;
            registered = refl;
          },
          r.self_same,
          λ all. rw (all, r.silent) refl,
          inr (refl, short, free, r.user_same, r.real_same),
        )
]

list_nick_ends :
    (s : State) (nick : List ℕ) (l : Listed)
    → IsClient s
    → s.client.is_registered ≡ false
    → list_nick nick s ≡ l
    → ListsTo s nick l
    → NickEnds s nick (elim l [ over exit ↦ exit | ready s' ↦ set_nick nick s' ])
list_nick_ends s nick (over (returned s')) v new e (kept, declined) =
    let still = ap (λ c. c.is_registered) declined.0 ∙ new in
    (kept, ap (λ c. c.self) declined.0, (λ all. absurd (ground (arith, still, all))), inl declined)
list_nick_ends s nick (over (terminated s')) v new e h = h
list_nick_ends s nick (over undefined) v new e h = absurd h
list_nick_ends s nick (ready s1) v new e h = set_nick_lem s s1 nick v new e h.0 h.1 h.2

-- `NICK` with a nickname, from a client that has not registered, on a well-formed state. If the
-- handler returns, there are two cases. Either the nickname was declined: it has more than nine
-- characters or the list does not take it, or somebody has it; then the client has been sent the
-- reply that says so, and is as before. Or nobody had it, it has at most nine characters, and it is
-- now the client's nickname, the other names being as before. In both the state is well formed
-- again, so that the list of clients holds the client under its nickname and under no other; the
-- client is registered if and only if it has now given its nickname and its names, and then it has
-- been sent the welcome and the message of the day. The handler ends the session only if the list
-- has no memory for the client, which is then as before. It does something undefined only if there
-- is no memory for the copy of the nickname.
pub cmd_nick_unregistered-NickEnds :
    (s : State) (nick : List ℕ) (params : List (List ℕ))
    → IsClient s
    → s.client.is_registered ≡ false
    → NickEnds s nick (cmd_nick_unregistered (nick ∷ params) s)
unfolding cmd_nick_unregistered
cmd_nick_unregistered-NickEnds s nick params v new =
    list_nick_ends s nick (list_nick nick s) v new refl (list_nick_lem s nick v)
