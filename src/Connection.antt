-- ===== src/Connection.antt =====
-- src/clients/client.c: how the thread of a client begins.
pub mod Created
pub mod Begin
mod Tests
use ya_ircd.Prelude.{
  ℕ, zero, suc, ◌+◌, ◌-◌, Bool, true, false, not, List, [], ◌∷◌, Option, none, some, if◌then◌else◌,
}
use ya_ircd.Memory.{Heap, malloc, free, ready}
use ya_ircd.ReadMsgs.{IrcMessage, initialize_irc_message, Connection, ConnectionStatus, ok}
use ya_ircd.WriteQueue.{MsgQueue, client_queue_init}
use ya_ircd.Registration.{CString, IrcClient}
use ya_ircd.Cloak.{CloaksInfo, hide_ipv4, hide_host}
use ya_ircd.Client.Ping.{PingConfig, Timed, Fired, reset, pinged, terminated, ping_timer_cb}

-- The fields of `struct irc_client_args_wrapper` that are read, the address apart.
pub record ArgsWrapper : Type 0 where
  pub socket : ℕ
  pub is_ipv6 : Bool
  pub ssl : Bool

-- The heap, the event loops that exist, and the mutexes of write queues that exist.
pub record Resources : Type 0 where
  pub heap : Heap
  pub loops : ℕ
  pub queues : ℕ

-- What the calls outside the program report: the address of the new block, whether the first and the
-- second notice are written, the name that `getnameinfo` finds, and the text of `inet_ntop`; and
-- what the new block holds before it is written.
pub record World : Type 0 where
  pub self : ℕ
  pub sent : Bool
  pub sent_again : Bool
  pub name : Option (List ℕ)
  pub ip : Option (List ℕ)
  pub last_msg : IrcMessage
  pub write_queue : MsgQueue
  pub host_reversed : Bool

pub record NewClient : Type 0 where
  pub names : IrcClient
  pub hostname : CString
  pub public_host : CString
  pub channels : List (Option (List ℕ))
  pub channels_count : ℕ
  pub write_queue : MsgQueue
  pub last_msg : IrcMessage
  pub connection_status : ConnectionStatus
  pub host_reversed : Bool
  pub uses_ssl : Bool
  pub socket_fd : ℕ

-- The client; `NULL`; the end of the thread by `terminate_session`; a use of a block that was freed,
-- or of memory outside a string.
pub data Outcome : Type 0 where
  created : NewClient → Resources → Outcome
  refused ended : Resources → Outcome
  undefined : Outcome

unfoldable pub ev_loop_new : Heap → Bool × Heap
ev_loop_new h = ready h.answers h

-- `calloc`: each place is `NULL`.
abbrev pub calloc_channels : ℕ → List (Option (List ℕ))
calloc_channels zero = []
calloc_channels (suc n) = none ∷ calloc_channels n

-- `ev_loop_destroy(new_client->ev_loop)`, `free(new_client)` and `free_thread_arguments(args)`.
abbrev pub give_up : Resources → Resources
give_up r = record r { heap = free (free r.heap); loops = r.loops - 1 }

abbrev pub new_fields : ℕ → World → ArgsWrapper → NewClient
new_fields chanlimit w args = record {
  names = record {
    self = w.self;
    nick = CString.null;
    username = CString.null;
    realname = CString.null;
    is_registered = false;
  };
  hostname = CString.null;
  public_host = CString.null;
  channels = calloc_channels chanlimit;
  channels_count = 0;
  write_queue = w.write_queue;
  last_msg = initialize_irc_message w.last_msg;
  connection_status = ConnectionStatus.ok;
  host_reversed = w.host_reversed;
  uses_ssl = args.ssl;
  socket_fd = args.socket;
}

-- How `new_client` runs up to the event loop: with its timer started, or as `create_client` ended.
pub data Begun : Type 0 where
  running : NewClient → Timed → Resources → Begun
  gone : Outcome → Begun

module _ (sha1 md5 : List ℕ → List ℕ) (info : CloaksInfo) where
  unfoldable pub hide : Bool → List ℕ → Heap → Option (Option (List ℕ) × Heap)
  hide true hostname h = some (hide_host sha1 md5 info hostname h)
  hide false hostname h = hide_ipv4 sha1 md5 info hostname h

  -- From `strdup` of the name or of the address on.
  unfoldable pub set_host : Bool → List ℕ → NewClient → Resources → Outcome
  unfolding hide
  set_host reversed host c r =
      let (got, h) = malloc r.heap in
      let hidden : Outcome = elim (hide reversed host h) [
        | none ↦ Outcome.undefined
        | some (none, h') ↦ Outcome.refused (give_up (record r { heap = free h' }))
        | some (some public_host, h') ↦
            Outcome.created
              (record c {
                hostname = CString.string host;
                public_host = CString.string public_host;
                host_reversed = reversed;
              })
              (record r { heap = free h' })
      ] in
      if got then hidden else Outcome.refused (give_up (record r { heap = h }))

  -- From the first notice on.
  unfoldable pub look_up_host : World → ArgsWrapper → NewClient → Resources → Outcome
  unfolding set_host
  look_up_host w args c r =
      let by_address : Outcome = elim w.ip [
        | none ↦ Outcome.refused (give_up r)
        | some ip ↦ set_host false ip c r
      ] in
      let looked_up : Outcome = elim w.name [
        | none ↦ by_address
        | some hostbuf ↦ set_host true hostbuf c r
      ] in
      if not w.sent
      then Outcome.ended r
      else if args.is_ipv6
      then Outcome.created c (record r { heap = free r.heap })
      else if not w.sent_again
      then Outcome.ended r
      else looked_up

  -- With the limit on channels of the configuration. The branch of `calloc` does not return, so that
  -- the freed block is written.
  unfoldable pub create_client : ℕ → World → ArgsWrapper → Resources → Outcome
  unfolding look_up_host ev_loop_new
  create_client chanlimit w args r =
      let (got, h1) = malloc r.heap in
      let (loop, h2) = ev_loop_new h1 in
      let (queue, write_queue, h3) = client_queue_init w.write_queue h2 in
      let (array, h4) = malloc h3 in
      let c = record (new_fields chanlimit w args) { write_queue = write_queue } in
      let rest =
        look_up_host w args c (record { heap = h4; loops = r.loops + 1; queues = r.queues + 1 }) in
      if not got
      then Outcome.refused (record r { heap = free h1 })
      else if not loop
      then Outcome.refused (record r { heap = free (free h2) })
      else if not queue
      then Outcome.refused (record r { heap = free (free h3) })
      else if not array
      then Outcome.undefined
      else rest

  unfoldable pub new_client : ℕ → PingConfig → ℕ → World → ArgsWrapper → Resources → Begun
  unfolding create_client
  new_client chanlimit config now w args r = elim (create_client chanlimit w args r) [
    | created c r' ↦
        elim (ping_timer_cb config now (record {
          last_msg = c.last_msg;
          last_activity = now;
          connection_status = c.connection_status;
        })) [
          | reset s ↦ Begun.running c s r'
          | pinged s ↦ Begun.running c s r'
          | terminated ↦ Begun.gone (Outcome.ended r')
        ]
    | refused r' ↦ Begun.gone (Outcome.refused r')
    | ended r' ↦ Begun.gone (Outcome.ended r')
    | undefined ↦ Begun.gone Outcome.undefined
  ]
