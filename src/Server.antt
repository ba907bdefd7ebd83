-- ===== src/Server.antt =====
-- src/yaircd.c: accepting connections, and setting up the data structures.
pub mod Accept
pub mod Boot
mod Tests
use ya_ircd.Prelude.{
  ℕ, zero, suc, ◌+◌, ◌-◌, ℤ, pos, is_negative, Bool, true, false, not, ◌&&◌, ◌||◌, List, [], ◌∷◌,
  Option, none, some, if◌then◌else◌,
}
use ya_ircd.Memory.{Heap, malloc, free}
use ya_ircd.Trie.{Trie}
use ya_ircd.WordList.{YaircdNode}
use ya_ircd.ClientList.Clients.{client_list_init}
use ya_ircd.Channels.{chan_init}
use ya_ircd.Commands.{CmdFunc, cmds_init}
use ya_ircd.Connection.{ArgsWrapper}

-- The heap, the sockets and the SSL objects of clients that are open, and the arguments of the
-- threads that were started, the newest first.
pub record Server : Type 0 where
  pub heap : Heap
  pub sockets : ℕ
  pub ssls : ℕ
  pub threads : List ArgsWrapper

-- What the calls outside the program report: the socket that `accept` opened, whether its address
-- is of IPv4, whether the SSL handshake failed, and the result of `pthread_create`. `SSL_new`
-- succeeds.
pub record Incoming : Type 0 where
  pub accepted : Option ℕ
  pub inet : Bool
  pub handshake_failed : Bool
  pub created : ℤ

abbrev pub is_zero : ℤ → Bool
is_zero (pos zero) = true
is_zero _ = false

-- `SSL_shutdown` and `SSL_free` where there is an SSL object, `close`, and the arguments freed.
abbrev pub hang_up : Bool → Server → Server
hang_up ssl s = record s {
  heap = free s.heap;
  sockets = s.sockets - 1;
  ssls = if ssl then s.ssls - 1 else s.ssls;
}

-- `pthread_create`, and what follows it.
unfoldable pub create_thread : Bool → ArgsWrapper → ℤ → Server → Server
create_thread ssl args result s =
    let s' = if is_zero result then record s { threads = args ∷ s.threads } else s in
    if is_negative result then hang_up ssl s' else s'

-- `ssl` is the flag `SSL_SOCK`.
unfoldable pub accept_connection : Bool → Bool → Bool → Incoming → Server → Server
unfolding create_thread
accept_connection ev_error ev_read ssl w s =
    let (got, h) = malloc s.heap in
    let opened : ℕ → Server = λ socket.
      let s1 = record s {
        heap = h;
        sockets = s.sockets + 1;
        ssls = if ssl then s.ssls + 1 else s.ssls;
      } in
      let refused : Server = record s { heap = free h } in
      if not w.inet
      then refused
      else if ssl && w.handshake_failed
      then hang_up ssl s1
      else create_thread ssl (record { socket = socket; is_ipv6 = false; ssl = ssl }) w.created
          s1 in
    if ev_error || not ev_read
    then s
    else if not got
    then record s { heap = h }
    else elim w.accepted [ none ↦ record s { heap = free h } | some socket ↦ opened socket ]

-- The lists of clients and of channels, and the commands of clients that have registered and of
-- those that have not.
pub record Structures : Type 0 where
  pub clients : Trie (YaircdNode ℕ)
  pub channels : Trie (YaircdNode ℕ)
  pub commands_registered : Trie CmdFunc
  pub commands_unregistered : Trie CmdFunc

-- What has been set up if 0 is returned; `none` is -1.
unfoldable pub init_data_structures : Heap → Option Structures × Heap
init_data_structures h =
    let (clients, h1) = client_list_init h in
    let (channels, h2) = chan_init h1 in
    let (commands, h3) = cmds_init h2 in
    elim clients [
      | none ↦ (none, h1)
      | some t ↦ elim channels [
        | none ↦ (none, h2)
        | some t' ↦ elim commands [
          | none ↦ (none, h3)
          | some (false, _, _) ↦ (none, h3)
          | some (true, registered, unregistered) ↦ (
            some (record {
              clients = t;
              channels = t';
              commands_registered = registered;
              commands_unregistered = unregistered;
            }),
            h3,
          )
        ]
      ]
    ]
