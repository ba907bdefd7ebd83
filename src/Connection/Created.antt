-- ===== src/Connection/Created.antt =====
-- What the beginning of a client's thread leaves behind.
use ya_ircd.Prelude.{
  ℕ, zero, suc, ◌+◌, ◌≡◌, ◌⊎◌, refl, sym, ap, inl, inr, arith, Bool, true, false, List, [], Option,
  none, some, length, Bool-cases, Option-cases, if◌then◌else◌,
}
use ya_ircd.Memory.{Heap, malloc, malloc_lem, mutex_init, mutex_init_lem, free}
use ya_ircd.WordList.Update.{ListState}
use ya_ircd.ReadMsgs.{ConnectionStatus, initialize_irc_message, max_msg_size}
use ya_ircd.ReadMsgs.NextMsg.{IsMessage}
use ya_ircd.WriteQueue.{write_queue_size, client_queue_init}
use ya_ircd.WriteQueue.Refine.{IsQueue}
use ya_ircd.Registration.Owned.{IsRegistry, Absent}
use ya_ircd.Registration.Invariant.{IsClient}
use ya_ircd.Channels.Places.{IsMember, taken}
use ya_ircd.Cloak.{CloaksInfo, hide_host}
use ya_ircd.Cloak.Address.{NoDots, dotted, cloaked, hide_ipv4-cloaked}
use ya_ircd.Connection.{
  ArgsWrapper, Resources, World, NewClient, Outcome, created, refused, ended, undefined,
  ev_loop_new, calloc_channels, give_up, new_fields, hide, set_host, look_up_host, create_client,
}

-- What `inet_ntop` reports of an IPv4 address: two dots at least, and no more behind them.
abbrev pub IsAddress : Option (List ℕ) → Type 0
IsAddress none = Unit
IsAddress (some ip) = (net c d : List ℕ) × (ip ≡ dotted (dotted net c) d) × NoDots c × NoDots d

-- `plus` blocks more than `minus` are allocated and not freed.
abbrev pub Blocks : ℕ → ℕ → Heap → Heap → Type 0
Blocks plus minus h h' = h'.allocs + h.frees + minus ≡ h.allocs + h'.frees + plus

-- A client that can begin: what `read_data`, the write queue, `JOIN` and registration rely on.
pub record IsNew (chanlimit : ℕ) (list : ListState ℕ) (c : NewClient) : Type 0 where
  pub message : IsMessage c.last_msg
  pub queue : IsQueue c.write_queue
  pub status : c.connection_status ≡ ConnectionStatus.ok
  pub places :
      (nick : List ℕ)
      → IsMember chanlimit (record {
        self = c.names.self;
        nick = nick;
        channels = c.channels;
        channels_count = c.channels_count;
      })
  pub registers : IsClient (record { client = c.names; list = list; sent = [] })

calloc_channels_lem : (n : ℕ) → (length (calloc_channels n) ≡ n) × (taken (calloc_channels n) ≡ 0)
calloc_channels_lem zero = (refl, refl)
calloc_channels_lem (suc n) = (ap suc (calloc_channels_lem n).0, (calloc_channels_lem n).1)

ev_loop_new_lem :
    (h : Heap) → ((ev_loop_new h).1.allocs ≡ h.allocs) × ((ev_loop_new h).1.frees ≡ h.frees)
unfolding ev_loop_new mutex_init
ev_loop_new_lem h = mutex_init_lem h

module _ (sha1 md5 : List ℕ → List ℕ) (info : CloaksInfo) where
  -- Hiding allocates the copy, and is defined on what the network reports.
  hide_lem :
      (reversed : Bool) (host : List ℕ) (h : Heap)
      → (reversed ≡ true) ⊎ IsAddress (some host)
      → (shown : List ℕ) × (hide sha1 md5 info reversed host h
          ≡ some (if (malloc h).0 then some shown else none, (malloc h).1))
  unfolding hide hide_host
  hide_lem true host h v = (_, refl)
  hide_lem false host h (inl e) = absurd (ground arith)
  hide_lem false host h (inr (net, c, d, text, vc, vd)) =
      (cloaked sha1 md5 info net c d, rw text (hide_ipv4-cloaked sha1 md5 info net c d h vc vd).0)

module _ (sha1 md5 : List ℕ → List ℕ) (info : CloaksInfo) (chanlimit : ℕ) (list : ListState ℕ) where
  -- How `create_client` ends. A client has its block, the array of its channels, and its two names
  -- unless it came over IPv6, an event loop and a write queue, and can begin; the arguments are
  -- freed. Without a client, the arguments are freed and either nothing else is left, or the array
  -- and the mutex of the queue are. If the thread ends at once, nothing is freed. The freed block is
  -- written exactly if the array of channels could not be allocated.
  abbrev pub CreateEnds : World → ArgsWrapper → Resources → Outcome → Type 0
  CreateEnds w args r (created c r') =
      IsNew chanlimit list c
      × (r'.loops ≡ r.loops + 1)
      × (r'.queues ≡ r.queues + 1)
      × Blocks (if args.is_ipv6 then 2 else 4) 1 r.heap r'.heap
  CreateEnds w args r (refused r') =
      (r'.loops ≡ r.loops)
      × (((r'.queues ≡ r.queues) × Blocks 0 1 r.heap r'.heap)
          ⊎ ((r'.queues ≡ r.queues + 1) × Blocks 1 1 r.heap r'.heap))
  CreateEnds w args r (ended r') =
      (r'.loops ≡ r.loops + 1) × (r'.queues ≡ r.queues + 1) × Blocks 2 0 r.heap r'.heap
  CreateEnds w args r undefined =
      let (_, h1) = malloc r.heap in
      let (_, h2) = ev_loop_new h1 in
      let (_, _, h3) = client_queue_init w.write_queue h2 in (malloc h3).0 ≡ false

  module _ (w : World) (args : ArgsWrapper) where
    new_fields-IsNew :
        length w.last_msg.msg ≡ max_msg_size
        → length w.write_queue.messages ≡ write_queue_size
        → IsRegistry list.trie
        → Absent w.self list.trie
        → IsNew chanlimit list (record (new_fields chanlimit w args) {
          write_queue = record w.write_queue { top = 0; bottom = 0; elements = 0 };
        })
    unfolding initialize_irc_message
    new_fields-IsNew msg slots registry absent = record {
      message = record {
        size = msg;
        begun = omega arith;
        stopped = omega arith;
        inside = omega arith;
        seen = tt;
      };
      queue = record { slots = slots; bottom_in = omega arith; room = omega arith; top_at = refl };
      status = refl;
      places = λ nick. record {
        places = (calloc_channels_lem chanlimit).0;
        counted = sym (calloc_channels_lem chanlimit).1;
      };
      registers = record {
        registry = registry;
        owned = absent;
        user_there = tt;
        real_there = tt;
        registered = refl;
      };
    }

    -- From the two blocks, the loop and the queue on.
    abbrev Begun : Resources → Resources → Type 0
    Begun r r1 = (r1.loops ≡ r.loops + 1) × (r1.queues ≡ r.queues + 1) × Blocks 2 0 r.heap r1.heap

    set_host-CreateEnds :
        (reversed : Bool) (host : List ℕ) (c : NewClient) (r r1 : Resources)
        → (reversed ≡ true) ⊎ IsAddress (some host)
        → args.is_ipv6 ≡ false
        → IsNew chanlimit list c
        → Begun r r1
        → CreateEnds w args r (set_host sha1 md5 info reversed host c r1)
    unfolding set_host
    set_host-CreateEnds reversed host c r r1 v ipv4 new (loops, queues, blocks) =
        let (shown, hidden) = hide_lem sha1 md5 info reversed host (malloc r1.heap).1 v in
        let first = malloc_lem r1.heap in
        let second = malloc_lem (malloc r1.heap).1 in
        elim (Bool-cases (malloc r1.heap).0) [
          | inr no_host ↦
              rw (set_host, no_host)
                (omega (arith, loops), inr (queues, ground (arith, first, blocks, no_host)))
          | inl host_got ↦ elim (Bool-cases (malloc (malloc r1.heap).1).0) [
            | inr no_copy ↦
                rw (set_host, host_got, hidden, no_copy)
                  (
                    omega (arith, loops),
                    inr (queues, ground (arith, first, second, blocks, host_got, no_copy)),
                  )
            | inl copy_got ↦
                rw (set_host, host_got, hidden, copy_got, ipv4)
                  (
                    record {
                      message = new.message;
                      queue = new.queue;
                      status = new.status;
                      places = new.places;
                      registers = new.registers;
                    },
                    loops,
                    queues,
                    ground (arith, first, second, blocks, host_got, copy_got),
                  )
          ]
        ]

    look_up_host-CreateEnds :
        (c : NewClient) (r r1 : Resources)
        → IsAddress w.ip
        → IsNew chanlimit list c
        → Begun r r1
        → CreateEnds w args r (look_up_host sha1 md5 info w args c r1)
    unfolding look_up_host
    look_up_host-CreateEnds c r r1 v new begun =
        let look : Outcome = look_up_host sha1 md5 info w args c r1 in
        elim (Bool-cases w.sent) [
          | inr unsent ↦
              let e : look ≡ Outcome.ended r1 = rw (look_up_host, unsent) refl in rw e begun
          | inl sent ↦ elim (Bool-cases args.is_ipv6) [
            | inl ipv6 ↦
                let e : look ≡ Outcome.created c (record r1 { heap = free r1.heap }) =
                  rw (look_up_host, sent, ipv6) refl in
                rw (e, ipv6) (new, begun.0, begun.1, omega (arith, begun.2))
            | inr ipv4 ↦ elim (Bool-cases w.sent_again) [
              | inr unsent ↦
                  let e : look ≡ Outcome.ended r1 = rw (look_up_host, sent, ipv4, unsent) refl in
                  rw e begun
              | inl again ↦ elim (Option-cases w.name) [
                | inr (name, found) ↦
                    let e : look ≡ set_host sha1 md5 info true name c r1 =
                      rw (look_up_host, sent, ipv4, again, found) refl in
                    rw e (set_host-CreateEnds true name c r r1 (inl refl) ipv4 new begun)
                | inl unnamed ↦ elim (Option-cases w.ip) [
                  | inr (ip, known) ↦
                      let e : look ≡ set_host sha1 md5 info false ip c r1 =
                        rw (look_up_host, sent, ipv4, again, unnamed, known) refl in
                      rw e
                        (set_host-CreateEnds false ip c r r1 (inr (rw known at v)) ipv4 new begun)
                  | inl unknown ↦
                      let e : look ≡ Outcome.refused (give_up r1) =
                        rw (look_up_host, sent, ipv4, again, unnamed, unknown) refl in
                      rw e (omega (arith, begun.0), inr (begun.1, omega (arith, begun.2)))
                ]
              ]
            ]
          ]
        ]

    -- If the arrays that the block of a client embeds have their sizes, an IPv4 address is printed
    -- with its dots, and the list of clients is well formed and does not hold the new address:
    -- `create_client` ends as `CreateEnds` says.
    pub create_client-CreateEnds :
        (r : Resources)
        → length w.last_msg.msg ≡ max_msg_size
        → length w.write_queue.messages ≡ write_queue_size
        → IsAddress w.ip
        → IsRegistry list.trie
        → Absent w.self list.trie
        → CreateEnds w args r (create_client sha1 md5 info chanlimit w args r)
    unfolding create_client client_queue_init
    create_client-CreateEnds r msg slots v registry absent =
        let h1 = (malloc r.heap).1 in
        let h2 = (ev_loop_new h1).1 in
        let h3 = (mutex_init h2).1 in
        let h4 = (malloc h3).1 in
        let m1 = malloc_lem r.heap in
        let m2 = ev_loop_new_lem h1 in
        let m3 = mutex_init_lem h2 in
        let m4 = malloc_lem h3 in
        elim (Bool-cases (malloc r.heap).0) [
          | inr no_client ↦
              rw (create_client, no_client) (refl, inl (refl, ground (arith, m1, no_client)))
          | inl client_got ↦ elim (Bool-cases (ev_loop_new h1).0) [
            | inr no_loop ↦
                rw (create_client, client_got, no_loop)
                  (refl, inl (refl, ground (arith, m1, m2, client_got)))
            | inl loop_got ↦ elim (Bool-cases (mutex_init h2).0) [
              | inr no_queue ↦
                  rw (create_client, client_got, loop_got, no_queue)
                    (refl, inl (refl, ground (arith, m1, m2, m3, client_got)))
              | inl queue_got ↦ elim (Bool-cases (malloc h3).0) [
                | inr no_array ↦
                    rw (create_client, client_got, loop_got, queue_got, no_array) no_array
                | inl array_got ↦
                    rw (create_client, client_got, loop_got, queue_got, array_got)
                      (look_up_host-CreateEnds _ r
                        (record { heap = h4; loops = r.loops + 1; queues = r.queues + 1 }) v
                        (new_fields-IsNew msg slots registry absent)
                        (refl, refl, ground (arith, m1, m2, m3, m4, client_got, array_got)))
              ]
            ]
          ]
        ]
