-- ===== src/Registration/User.antt =====
-- `USER` from a client that has not registered.
use ya_ircd.Prelude.{
  ℕ, ◌+◌, ◌≡◌, ◌<◌, ◌⊎◌, refl, ap, ◌∙◌, inl, inr, true, false, List, [], ◌∷◌, ◌++◌, some, arith,
  Bool-cases, ltb, length,
}
use ya_ircd.Memory.{Heap, malloc, free, Grants, Grants-malloc}
use ya_ircd.Registration.{
  CString, null, freed, string, not_null, free_string, strdup, State, Reply, Exit, returned,
  terminated, undefined, after_free, set_user, user_failed, cmd_user_unregistered,
}
use ya_ircd.Registration.Owned.{IsRegistry, Absent, Owned, deleted-Absent}
use ya_ircd.Registration.Invariant.{IsClient, NotFreed, welcome_lem, CString-cases, delete_self_lem}

-- The blocks that a field holds.
abbrev pub held : CString → ℕ
held (string str) = 1
held _ = 0

-- A string of its own, or `NULL`, can be freed.
pub free_string_lem :
    (c : CString) (h : Heap)
    → NotFreed c
    → (h' : Heap) × (free_string c h ≡ some h')
      × (h'.answers ≡ h.answers)
      × (h'.frees ≡ h.frees + held c)
      × (h'.allocs ≡ h.allocs)
unfolding free_string
free_string_lem null h v = (h, refl, refl, omega arith, refl)
free_string_lem freed h v = absurd v
free_string_lem (string str) h v = (free h, refl, refl, refl, refl)

-- How the copies of the names end: for want of memory, with the client off the list.
abbrev SetEnds : State → List ℕ → List ℕ → Exit → Type 0
SetEnds s user real (returned s') =
    IsClient s'
    × (s'.client.self ≡ s.client.self)
    × (s'.client.is_registered ≡ true
        → s'.sent ≡ (s.sent ++ (Reply.send_welcome ∷ [])) ++ (Reply.send_motd ∷ []))
    × (s'.client.username ≡ CString.string user)
    × (s'.client.realname ≡ CString.string real)
    × (s'.client.nick ≡ s.client.nick)
SetEnds s user real (terminated s') =
    IsRegistry s'.list.trie
    × Absent s.client.self s'.list.trie
    × (s'.client.is_registered ≡ false)
    × ¬ Grants 2 s.list.heap.answers
SetEnds s user real undefined = ⊥

-- Too few parameters: the client is told so, and is as before.
abbrev pub LacksParams : State → List ℕ → List (List ℕ) → Exit → Type 0
LacksParams s cmd params exit =
    (length params < 4)
    × (exit
        ≡ Exit.returned (record s { sent = s.sent ++ (Reply.send_err_needmoreparams cmd ∷ []) }))

-- The first and the fourth parameter are the names.
abbrev pub NamesSet : State → List (List ℕ) → Exit → Type 0
NamesSet s params exit =
    (user p1 p2 real : List ℕ) × (rest : List (List ℕ)) × (params ≡ user ∷ p1 ∷ p2 ∷ real ∷ rest)
    × SetEnds s user real exit

-- How `USER` may end.
abbrev pub UserEnds : State → List ℕ → List (List ℕ) → Exit → Type 0
UserEnds s cmd params exit = LacksParams s cmd params exit ⊎ NamesSet s params exit

user_failed_lem :
    (s0 s : State) (user real : List ℕ)
    → s0.client.self ≡ s.client.self
    → ¬ Grants 2 s0.list.heap.answers
    → IsRegistry s.list.trie
    → Owned s.client.self s.client.nick s.list.trie
    → s.client.is_registered ≡ false
    → SetEnds s0 user real (user_failed s)
unfolding user_failed
user_failed_lem s0 s user real self denied v owned new = elim (CString-cases s.client.nick) [
  | inl e ↦ rw (user_failed, e) (v, rw self (rw e at owned), new, denied)
  | inr (inl e) ↦ absurd (rw e at owned)
  | inr (inr (nick, e)) ↦
      let named = rw e at owned in
      let deleted = delete_self_lem s nick v e named.there in
      rw (user_failed, deleted.done, ap not_null e)
        (
          deleted.kept,
          rw self (
              deleted-Absent s.client.self nick s.list.trie deleted.list.trie named deleted.others),
          new,
          denied,
        )
]

-- An allocation that fails is not granted.
denied_first : (s : State) → Grants 2 s.list.heap.answers → (malloc s.list.heap).0 ≡ false → ⊥
denied_first s g failed = let got = (Grants-malloc 1 s.list.heap g).0 in ground (arith, got, failed)

denied_second :
    (s : State) → Grants 2 s.list.heap.answers → (malloc (malloc s.list.heap).1).0 ≡ false → ⊥
denied_second s g failed =
    let g1 = (Grants-malloc 1 s.list.heap g).1 in
    let got = (Grants-malloc 0 (malloc s.list.heap).1 g1).0 in ground (arith, got, failed)

set_user_lem :
    (s : State) (user real : List ℕ)
    → IsRegistry s.list.trie
    → Owned s.client.self s.client.nick s.list.trie
    → s.client.is_registered ≡ false
    → SetEnds s user real (set_user user real s)
unfolding set_user strdup
set_user_lem s user real v owned new = elim (Bool-cases (malloc s.list.heap).0) [
  | inr none_left ↦
      rw (set_user, strdup, none_left)
        (user_failed_lem s
          (record s {
            client = record s.client { username = CString.null };
            list = record s.list { heap = (malloc s.list.heap).1 };
          })
          user real refl (λ g. denied_first s g none_left) v owned new)
  | inl got ↦
      let h = (malloc s.list.heap).1 in
      elim (Bool-cases (malloc h).0) [
        | inr none_left ↦
            rw (set_user, strdup, got, none_left)
              (user_failed_lem s
                (record s {
                  client = record s.client {
                    username = CString.string user;
                    realname = CString.null;
                  };
                  list = record s.list { heap = (malloc h).1 };
                })
                user real refl (λ g. denied_second s g none_left) v owned new)
        | inl got2 ↦
            let s2 : State = record s {
              client = record s.client {
                username = CString.string user;
                realname = CString.string real;
              };
              list = record s.list { heap = (malloc h).1 };
            } in
            rw (set_user, strdup, got, got2, welcome_lem s2 new)
              (
                record {
                  registry = v;
                  owned = owned;
                  user_there = tt;
                  real_there = tt;
                  registered = refl;
                },
                refl,
                λ all. rw all refl,
                refl,
                refl,
                refl,
              )
      ]
]

-- The same from a state with other old names.
SetEnds-from :
    (s s1 : State) (user real : List ℕ) (exit : Exit)
    → s1.client.self ≡ s.client.self
    → s1.list.heap.answers ≡ s.list.heap.answers
    → s1.sent ≡ s.sent
    → s1.client.nick ≡ s.client.nick
    → SetEnds s1 user real exit
    → SetEnds s user real exit
SetEnds-from s s1 user real (returned s') self answers sent nick v = (
  v.0,
  v.1 ∙ self,
  λ all. v.2 all ∙ ap (λ l. (l ++ (Reply.send_welcome ∷ [])) ++ (Reply.send_motd ∷ [])) sent,
  v.3,
  v.4,
  v.5 ∙ nick,
)
SetEnds-from s s1 user real (terminated s') self answers sent nick v =
    (v.0, rw self at v.1, v.2, λ g. v.3 (rw answers g))
SetEnds-from s s1 user real undefined self answers sent nick v = v

-- The names behind the test of their number.
pub four_params :
    (params : List (List ℕ))
    → ltb (length params) 4 ≡ false
    → (user p1 p2 real : List ℕ) × (rest : List (List ℕ)) × (params ≡ user ∷ p1 ∷ p2 ∷ real ∷ rest)
four_params [] h = absurd (ground arith)
four_params (a ∷ []) h = absurd (ground arith)
four_params (a ∷ b ∷ []) h = absurd (ground arith)
four_params (a ∷ b ∷ c ∷ []) h = absurd (ground arith)
four_params (a ∷ b ∷ c ∷ d ∷ rest) h = (a, b, c, d, rest, refl)

-- `USER` from a client that has not registered, on a well-formed state: with fewer than four
-- parameters the client is told so and nothing else changes. Otherwise nothing undefined happens.
-- If the handler returns, the user's name is the first parameter and the real name the fourth, the
-- nickname is as before, and the state is well formed again; the client is registered if and only
-- if it has now given its nickname and its names, and then it has been sent the welcome and the
-- message of the day. The handler ends the session only if one of the next two allocations fails;
-- the list of clients is then well formed and no longer holds the client.
pub cmd_user_unregistered-UserEnds :
    (s : State) (cmd : List ℕ) (params : List (List ℕ))
    → IsClient s
    → s.client.is_registered ≡ false
    → UserEnds s cmd params (cmd_user_unregistered cmd params s)
unfolding cmd_user_unregistered
cmd_user_unregistered-UserEnds s cmd params v new = elim (Bool-cases (ltb (length params) 4)) [
  | inl few ↦ inl (ground (arith, few), rw (cmd_user_unregistered, few) refl)
  | inr enough ↦
      let (h, freed_user, same, _, _) =
        free_string_lem s.client.username s.list.heap v.user_there in
      let (h', freed_real, same', _, _) = free_string_lem s.client.realname h v.real_there in
      let (user, p1, p2, real, rest, is) = four_params params enough in
      let s1 : State = record s {
        client = record s.client {
          username = after_free s.client.username;
          realname = after_free s.client.realname;
        };
        list = record s.list { heap = h' };
      } in
      let run : cmd_user_unregistered cmd params s ≡ set_user user real s1 =
        rw (cmd_user_unregistered, enough, freed_user, freed_real, is) refl in
      let ends : SetEnds s1 user real (set_user user real s1) =
        set_user_lem s1 user real v.registry v.owned new in
      inr (
        user,
        p1,
        p2,
        real,
        rest,
        is,
        rw run (SetEnds-from s s1 user real _ refl (same' ∙ same) refl refl ends),
      )
]
