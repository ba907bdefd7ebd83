-- ===== src/Registration/Destroy.antt =====
-- The end of a client's thread.
use ya_ircd.Prelude.{
  ℕ, ◌+◌, ◌≡◌, ◌≤◌, refl, sym, ap, ◌∙◌, inl, inr, Bool, true, false, List, [], Option, none, some,
  arith, Bool-cases, if◌then◌else◌, ltb, length,
}
use ya_ircd.Memory.{malloc, free}
use ya_ircd.Trie.{find_word_trie}
use ya_ircd.WordList.Update.{node_of}
use ya_ircd.Registration.{
  CString, null, freed, string, free_string, strdup, State, Exit, delete_self, after_free, set_user,
  user_failed, cmd_user_unregistered, free_names, destroy_client,
}
use ya_ircd.Registration.Owned.{Absent, deleted-Absent}
use ya_ircd.Registration.Invariant.{IsClient, NotFreed, CString-cases, delete_self_lem}
use ya_ircd.Registration.User.{free_string_lem, held, four_params}

-- A field that holds no block.
abbrev pub HoldsNone : CString → Type 0
HoldsNone (string str) = ⊥
HoldsNone _ = Unit

after_free-HoldsNone : (c : CString) → HoldsNone (after_free c)
after_free-HoldsNone null = tt
after_free-HoldsNone freed = tt
after_free-HoldsNone (string str) = tt

-- The names of the client have been freed, one block for each that was a string.
pub record NamesFreed (s s' : State) : Type 0 where
  pub nick : HoldsNone s'.client.nick
  pub username : HoldsNone s'.client.username
  pub realname : HoldsNone s'.client.realname
  pub blocks :
      s'.list.heap.frees
      ≡ s.list.heap.frees + held s.client.nick + held s.client.username + held s.client.realname
  pub kept : s'.list.heap.allocs ≡ s.list.heap.allocs

-- Freeing the names leaves the list.
free_names_lem :
    (s : State)
    → NotFreed s.client.nick
    → NotFreed s.client.username
    → NotFreed s.client.realname
    → (s' : State) × (free_names s ≡ some s') × (s'.list.trie ≡ s.list.trie) × NamesFreed s s'
unfolding free_names
free_names_lem s nick user real =
    let (h, e, _, f, k) = free_string_lem s.client.realname s.list.heap real in
    let (h1, e1, _, f1, k1) = free_string_lem s.client.nick h nick in
    let (h2, e2, _, f2, k2) = free_string_lem s.client.username h1 user in
    (
      record s {
        client = record s.client {
          nick = after_free s.client.nick;
          username = after_free s.client.username;
          realname = after_free s.client.realname;
        };
        list = record s.list { heap = h2 };
      },
      rw (free_names, e, e1, e2) refl,
      refl,
      record {
        nick = after_free-HoldsNone s.client.nick;
        username = after_free-HoldsNone s.client.username;
        realname = after_free-HoldsNone s.client.realname;
        blocks = omega (arith, f, f1, f2);
        kept = k2 ∙ k1 ∙ k;
      },
    )

-- Whether the list of clients is told.
destroy_by :
    (s : State) {b : Bool}
    → s.client.is_registered ≡ b
    → destroy_client s ≡ elim (if b then delete_self s else some s) as (λ _. Option State) [
      | none ↦ none
      | some s' ↦ free_names s'
    ]
unfolding destroy_client
destroy_by s e =
    ap
      (λ b. elim (if b then delete_self s else some s) as (λ _. Option State) [
        | none ↦ none
        | some s' ↦ free_names s'
      ])
      e

string-inj : {p q : List ℕ} → CString.string p ≡ CString.string q → p ≡ q
string-inj e = ap (λ c. elim c [ string x ↦ x | null ↦ [] | freed ↦ [] ]) e

-- Where the names are freed: behind the deletion of a registered client from the list.
abbrev pub Before : State → State → Type 0
Before s s1 =
    (s.client.is_registered ≡ true → delete_self s ≡ some s1)
    × (s.client.is_registered ≡ false → s1 ≡ s)
    × (s1.client ≡ s.client)

-- When the thread of a client ends in a well-formed state, a registered client is deleted from the
-- list, and then its names are freed: none of them is a string any more, and as many blocks are
-- freed as were strings. If the client was registered, no entry of the list of clients holds it any
-- more. If it was not, but had a nickname, the list still has the freed client under it.
pub destroy_client_lem :
    (s : State)
    → IsClient s
    → (s1 s' : State) × (destroy_client s ≡ some s')
      × Before s s1
      × NamesFreed s1 s'
      × (s.client.is_registered ≡ true → Absent s.client.self s'.list.trie)
      × (s.client.is_registered ≡ false
          → (nick : List ℕ) → s.client.nick ≡ CString.string nick
          → find_word_trie s'.list.trie nick ≡ some (node_of s.client.self))
unfolding destroy_client
destroy_client_lem s v = elim (CString-cases s.client.nick) [
  | inr (inl e) ↦ absurd (rw e at (v.owned))
  | inl e ↦
      let new : s.client.is_registered ≡ false = v.registered ∙ rw e refl in
      let (s', done, same, gone) = free_names_lem s (rw e tt) v.user_there v.real_there in
      (
        s,
        s',
        destroy_by s new ∙ done,
        ((λ all. absurd (ground arith)), (λ _. refl), refl),
        gone,
        λ all. absurd (ground arith),
        λ _ nick e'. absurd (ground arith),
      )
  | inr (inr (nick, e)) ↦
      let named = rw e at (v.owned) in
      elim (Bool-cases s.client.is_registered) [
        | inr new ↦
            let (s', done, same, gone) = free_names_lem s (rw e tt) v.user_there v.real_there in
            (
              s,
              s',
              destroy_by s new ∙ done,
              ((λ all. absurd (ground arith)), (λ _. refl), refl),
              gone,
              λ all. absurd (ground arith),
              λ _ n e'. rw (same, string-inj (sym e' ∙ e)) named.there,
            )
        | inl old ↦
            let deleted = delete_self_lem s nick v.registry e named.there in
            let s1 : State = record s { list = deleted.list } in
            let (s', done, same, gone) = free_names_lem s1 (rw e tt) v.user_there v.real_there in
            (
              s1,
              s',
              destroy_by s old ∙ rw deleted.done done,
              ((λ _. deleted.done), (λ new. absurd (ground arith)), refl),
              gone,
              λ _. rw same (
                  deleted-Absent s.client.self nick s.list.trie deleted.list.trie named
                    deleted.others),
              λ new. absurd (ground arith),
            )
      ]
]

-- A client without a nickname that has given its names, and gives them again when there is no memory
-- for the copy of the first: the handler ends the session, and the end of the thread frees the old
-- `realname` a second time.
pub user_twice-destroy_client :
    (s : State) (cmd : List ℕ) (params : List (List ℕ)) (user real : List ℕ)
    → s.client.nick ≡ CString.null
    → s.client.username ≡ CString.string user
    → s.client.realname ≡ CString.string real
    → s.client.is_registered ≡ false
    → 4 ≤ length params
    → (malloc (free (free s.list.heap))).0 ≡ false
    → (s' : State) × (cmd_user_unregistered cmd params s ≡ Exit.terminated s')
      × (destroy_client s' ≡ none)
unfolding cmd_user_unregistered set_user strdup user_failed free_string destroy_client free_names
user_twice-destroy_client s cmd params user real nick_null has_user has_real new enough no_memory =
    let given : ltb (length params) 4 ≡ false = ground arith in
    let (_, _, _, _, _, is) = four_params params given in
    (
      record s {
        client = record s.client { username = CString.null; realname = CString.freed };
        list = record s.list { heap = (malloc (free (free s.list.heap))).1 };
      },
      rw
          (
            cmd_user_unregistered, given, has_user, has_real, free_string, is, set_user, strdup,
            no_memory, user_failed, nick_null, has_real,
          )
          refl,
      rw (destroy_client, new, free_names, free_string) refl,
    )
