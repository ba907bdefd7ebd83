-- ===== src/Registration/Invariant.antt =====
-- What a client that registers keeps true, and how `NICK` and `USER` change it.
use ya_ircd.Prelude.{
  ℕ, ◌≡◌, ◌⊎◌, refl, ap, inl, inr, Bool, false, ◌&&◌, List, [], ◌∷◌, ◌++◌, none, some, Bool-cases,
  if◌then◌else◌,
}
use ya_ircd.Trie.{find_word_trie}
use ya_ircd.Trie.Keys.{same_key}
use ya_ircd.ClientList.{nick_alphabet}
use ya_ircd.WordList.Update.{ListState, node_of}
use ya_ircd.Registration.{
  CString, null, freed, string, not_null, free_string, State, IrcClient, Reply, delete_at,
  delete_self, welcome, Listed, over, ready, drop_nick,
}
use ya_ircd.Registration.Owned.{
  IsRegistry, Named, Owned, Fresh, client_list_delete_lem, Fresh-Named, Fresh-old, Fresh-renamed,
}

-- `nick`, `username` and `realname` are there.
abbrev pub complete : IrcClient → Bool
complete c = not_null c.nick && not_null c.username && not_null c.realname

abbrev pub NotFreed : CString → Type 0
NotFreed freed = ⊥
NotFreed _ = Unit

-- The list of clients is well formed and holds the client under its nickname, and under nothing
-- else; no field points at a freed block; and the client is registered if and only if it has
-- given its nickname and its names.
pub record IsClient (s : State) : Type 0 where
  pub registry : IsRegistry s.list.trie
  pub owned : Owned s.client.self s.client.nick s.list.trie
  pub user_there : NotFreed s.client.username
  pub real_there : NotFreed s.client.realname
  pub registered : s.client.is_registered ≡ complete s.client

-- What `welcome` leaves of a client that was not registered.
abbrev welcomed : State → State
welcomed s = record s {
  client = record s.client { is_registered = complete s.client };
  sent =
      if complete s.client
      then (s.sent ++ (Reply.send_welcome ∷ [])) ++ (Reply.send_motd ∷ [])
      else s.sent;
}

pub welcome_lem : (s : State) → s.client.is_registered ≡ false → welcome s ≡ welcomed s
unfolding welcome
welcome_lem s new = elim (Bool-cases (complete s.client)) [
  | inl all ↦ rw (welcome, all) refl
  | inr few ↦
      rw (welcome, few) (ap (λ b. record s { client = record s.client { is_registered = b } }) new)
]

-- Deleting a client that is found under its nickname.
pub record SelfDeleted (s : State) (nick : List ℕ) : Type 0 where
  pub list : ListState ℕ
  pub done : delete_self s ≡ some (record s { list = list })
  pub kept : IsRegistry list.trie
  pub others :
      (q : List ℕ)
      → find_word_trie list.trie q
        ≡ (if same_key nick_alphabet nick q then none else find_word_trie s.list.trie q)

pub delete_self_lem :
    (s : State) (nick : List ℕ)
    → IsRegistry s.list.trie
    → s.client.nick ≡ CString.string nick
    → find_word_trie s.list.trie nick ≡ some (node_of s.client.self)
    → SelfDeleted s nick
unfolding delete_self delete_at
delete_self_lem s nick v e there =
    let deleted = client_list_delete_lem s.client.self nick s.list v there in
    record {
      list = deleted.after;
      done = rw (delete_self, e, delete_at, deleted.done) refl;
      kept = deleted.kept;
      others = deleted.others;
    }

-- Before the copy of the new nickname: the list holds the client under it, and nothing else of the
-- client has changed but that its old nickname is freed.
pub record Ready (s : State) (nick : List ℕ) (s' : State) : Type 0 where
  pub registry : IsRegistry s'.list.trie
  pub named : Named s.client.self nick s'.list.trie
  pub self_same : s'.client.self ≡ s.client.self
  pub user_same : s'.client.username ≡ s.client.username
  pub real_same : s'.client.realname ≡ s.client.realname
  pub new : s'.client.is_registered ≡ s.client.is_registered
  pub silent : s'.sent ≡ s.sent

pub CString-cases :
    (c : CString)
    → (c ≡ CString.null) ⊎ ((c ≡ CString.freed) ⊎ ((str : List ℕ) × (c ≡ CString.string str)))
CString-cases null = inl refl
CString-cases freed = inr (inl refl)
CString-cases (string str) = inr (inr (str, refl))

abbrev pub DropsTo : State → List ℕ → Listed → Type 0
DropsTo s nick (over exit) = ⊥
DropsTo s nick (ready s') = Ready s nick s'

pub drop_nick_lem :
    (s : State) (nick : List ℕ) (list : ListState ℕ)
    → IsClient s
    → IsRegistry list.trie
    → Fresh s.client.self nick s.list.trie list.trie
    → DropsTo s nick (drop_nick (record s { list = list }))
unfolding drop_nick free_string
drop_nick_lem s nick list v kept fresh = elim (CString-cases s.client.nick) [
  | inl e ↦
      let absent = rw e at v.owned in
      rw (drop_nick, e)
        (record {
          registry = kept;
          named = Fresh-Named s.client.self nick s.list.trie list.trie absent fresh;
          self_same = refl;
          user_same = refl;
          real_same = refl;
          new = refl;
          silent = refl;
        })
  | inr (inl e) ↦ absurd (rw e at v.owned)
  | inr (inr (old, e)) ↦
      let named = rw e at v.owned in
      let deleted =
        delete_self_lem (record s { list = list }) old kept e
          (Fresh-old s.client.self nick old s.list.trie list.trie named fresh) in
      rw (drop_nick, deleted.done, e, free_string)
        (record {
          registry = deleted.kept;
          named =
              Fresh-renamed s.client.self nick old s.list.trie list.trie deleted.list.trie
                v.registry named fresh deleted.others;
          self_same = refl;
          user_same = refl;
          real_same = refl;
          new = refl;
          silent = refl;
        })
]
