-- ===== src/Registration.antt =====
-- src/msg/interpretmsg.c: the handlers that register a client, and what src/clients/client.c does to
-- the list of clients when its thread ends.
pub mod Keys
pub mod Accepted
pub mod Owned
pub mod Invariant
pub mod Nick
pub mod User
pub mod Destroy
mod Tests
use ya_ircd.Prelude.{
  ℕ, zero, suc, Bool, true, false, not, ◌&&◌, List, [], ◌∷◌, ◌++◌, Option, none, some, ltb,
  if◌then◌else◌, length,
}
use ya_ircd.Memory.{Heap, malloc, free}
use ya_ircd.WordList.{released}
use ya_ircd.WordList.Update.{ListCode, ok, invalid_word, no_mem, already_exists, ListState}
use ya_ircd.ClientList.Clients.{client_list_add, client_list_delete}

abbrev pub max_nick_length : ℕ
max_nick_length = 9

-- A field `char *`: `NULL`, a string of its own, or a pointer to a block that was freed.
pub data CString : Type 0 where
  null freed : CString
  string : List ℕ → CString

abbrev pub not_null : CString → Bool
not_null null = false
not_null _ = true

-- `free`; `none` is a block that is freed twice.
unfoldable pub free_string : CString → Heap → Option Heap
free_string null h = some h
free_string freed h = none
free_string (string str) h = some (free h)

unfoldable pub strdup : List ℕ → Heap → CString × Heap
strdup str h = let (got, h') = malloc h in (if got then CString.string str else CString.null, h')

-- The fields of `struct irc_client` that registration concerns. `self` is the client's address,
-- which the list of clients holds.
pub record IrcClient : Type 0 where
  pub self : ℕ
  pub nick : CString
  pub username : CString
  pub realname : CString
  pub is_registered : Bool

-- The messages that are sent to the client, each by the function of its name.
pub data Reply : Type 0 where
  send_err_nonicknamegiven send_err_alreadyregistred send_err_noorigin send_welcome send_motd :
      Reply
  send_err_erroneusnickname send_err_nicknameinuse send_err_needmoreparams : List ℕ → Reply

-- A client, the list of clients with the heap, and what was sent to the client, the last at the end.
pub record State : Type 0 where
  pub client : IrcClient
  pub list : ListState ℕ
  pub sent : List Reply

-- How a handler ends: it returns; it calls `terminate_session`; it waits for a lock of its own,
-- reads through `NULL` or a pointer that was freed, or frees a block twice.
pub data Exit : Type 0 where
  returned terminated : State → Exit
  undefined : Exit

abbrev pub send : Reply → State → State
send r s = record s { sent = s.sent ++ (r ∷ []) }

-- `client_list_delete(client)`, which reads `client->nick`.
unfoldable pub delete_at : CString → State → Option State
delete_at null s = none
delete_at freed s = none
delete_at (string nick) s = elim (client_list_delete (λ c. nick) s.client.self released s.list) [
  | none ↦ none
  | some (_, _, list) ↦ some (record s { list = list })
]

unfoldable pub delete_self : State → Option State
unfolding delete_at
delete_self s = delete_at s.client.nick s

-- The end of both handlers of an unregistered client.
unfoldable pub welcome : State → State
welcome s =
    if not_null s.client.nick && not_null s.client.username && not_null s.client.realname
    then send Reply.send_motd
        (send Reply.send_welcome (record s { client = record s.client { is_registered = true } }))
    else s

-- `client->nick = strdup(...)`, and the rest of `cmd_nick_unregistered`.
unfoldable pub set_nick : List ℕ → State → Exit
unfolding strdup delete_self welcome
set_nick nick s =
    let (copy, h) = strdup nick s.list.heap in
    let s' = record s {
      client = record s.client { nick = copy };
      list = record s.list { heap = h };
    } in
    if not_null copy
    then Exit.returned (welcome s')
    else elim (delete_self s') [ none ↦ Exit.undefined | some s'' ↦ Exit.terminated s'' ]

-- Where `cmd_nick_unregistered` is before it copies the new nickname: it has ended, or goes on.
pub data Listed : Type 0 where
  over : Exit → Listed
  ready : State → Listed

-- The old nickname leaves the list.
unfoldable pub drop_nick : State → Listed
unfolding delete_self free_string
drop_nick s =
    let dropped : Listed = elim (delete_self s) [
      | none ↦ Listed.over Exit.undefined
      | some s' ↦ elim (free_string s'.client.nick s'.list.heap) [
        | none ↦ Listed.over Exit.undefined
        | some h ↦ Listed.ready (record s' {
          client = record s'.client { nick = CString.freed };
          list = record s'.list { heap = h };
        })
      ]
    ] in
    if not_null s.client.nick then dropped else Listed.ready s

-- On what `client_list_add` has returned.
unfoldable pub nick_added : List ℕ → ListCode → State → Listed
unfolding drop_nick
nick_added nick invalid_word s =
    Listed.over (Exit.returned (send (Reply.send_err_erroneusnickname nick) s))
nick_added nick no_mem s = Listed.over (Exit.terminated s)
nick_added nick already_exists s =
    Listed.over (Exit.returned (send (Reply.send_err_nicknameinuse nick) s))
nick_added nick ok s = drop_nick s

unfoldable pub list_nick : List ℕ → State → Listed
unfolding nick_added
list_nick nick s =
    let added : Listed = elim (client_list_add s.client.self nick released s.list) [
      | none ↦ Listed.over Exit.undefined
      | some (ret, _, list) ↦ nick_added nick ret (record s { list = list })
    ] in
    if ltb max_nick_length (length nick)
    then Listed.over (Exit.returned (send (Reply.send_err_erroneusnickname nick) s))
    else added

unfoldable pub cmd_nick_unregistered : List (List ℕ) → State → Exit
unfolding list_nick set_nick
cmd_nick_unregistered [] s = Exit.returned (send Reply.send_err_nonicknamegiven s)
cmd_nick_unregistered (nick ∷ _) s = elim (list_nick nick s) [
  | over exit ↦ exit
  | ready s' ↦ set_nick nick s'
]

-- Without memory for the user's names.
unfoldable pub user_failed : State → Exit
unfolding delete_self
user_failed s =
    let deleted : Exit = elim (delete_self s) [
      | none ↦ Exit.undefined
      | some s' ↦ Exit.terminated s'
    ] in
    if not_null s.client.nick then deleted else Exit.terminated s

-- The old names are freed, and `username` and `realname` are the copies of the new ones.
unfoldable pub set_user : List ℕ → List ℕ → State → Exit
unfolding strdup welcome user_failed
set_user user real s =
    let (copy, h) = strdup user s.list.heap in
    let (copy2, h2) = strdup real h in
    if not (not_null copy)
    then user_failed (record s {
      client = record s.client { username = copy };
      list = record s.list { heap = h };
    })
    else if not (not_null copy2)
    then user_failed (record s {
      client = record s.client { username = copy; realname = copy2 };
      list = record s.list { heap = h2 };
    })
    else Exit.returned (
        welcome (record s {
          client = record s.client { username = copy; realname = copy2 };
          list = record s.list { heap = h2 };
        }))

-- `params[i]`; `none` is a read behind the parameters that were filled.
abbrev pub param : List (List ℕ) → ℕ → Option (List ℕ)
param [] i = none
param (p ∷ ps) zero = some p
param (p ∷ ps) (suc i) = param ps i

abbrev pub set_params : Option (List ℕ) → Option (List ℕ) → State → Exit
set_params (some user) (some real) s = set_user user real s
set_params _ _ s = Exit.undefined

-- A field behind `free`.
abbrev pub after_free : CString → CString
after_free null = CString.null
after_free _ = CString.freed

unfoldable pub cmd_user_unregistered : List ℕ → List (List ℕ) → State → Exit
unfolding free_string set_user
cmd_user_unregistered cmd params s =
    let given : Exit = elim (free_string s.client.username s.list.heap) [
      | none ↦ Exit.undefined
      | some h ↦ elim (free_string s.client.realname h) [
        | none ↦ Exit.undefined
        | some h' ↦ set_params (param params 0) (param params 3) (record s {
          client = record s.client {
            username = after_free s.client.username;
            realname = after_free s.client.realname;
          };
          list = record s.list { heap = h' };
        })
      ]
    ] in
    if ltb (length params) 4
    then Exit.returned (send (Reply.send_err_needmoreparams cmd) s)
    else given

unfoldable pub cmd_pong : List (List ℕ) → State → Exit
cmd_pong params s =
    Exit.returned (if ltb (length params) 1 then send Reply.send_err_noorigin s else s)

unfoldable pub cmd_nick_registered : State → Exit
cmd_nick_registered s = Exit.returned s

unfoldable pub cmd_user_registered : State → Exit
cmd_user_registered s = Exit.returned (send Reply.send_err_alreadyregistred s)

-- The names that `free_client` frees.
unfoldable pub free_names : State → Option State
unfolding free_string
free_names s = elim (free_string s.client.realname s.list.heap) [
  | none ↦ none
  | some h ↦ elim (free_string s.client.nick h) [
    | none ↦ none
    | some h1 ↦ elim (free_string s.client.username h1) [
      | none ↦ none
      | some h2 ↦ some (record s {
        client = record s.client {
          nick = after_free s.client.nick;
          username = after_free s.client.username;
          realname = after_free s.client.realname;
        };
        list = record s.list { heap = h2 };
      })
    ]
  ]
]

-- The cleanup handler of a client's thread; `none` is a call that is not defined, as above.
unfoldable pub destroy_client : State → Option State
unfolding delete_self free_names
destroy_client s =
    let deleted : Option State = delete_self s in
    elim (if s.client.is_registered then deleted else some s) [
      | none ↦ none
      | some s' ↦ free_names s'
    ]
