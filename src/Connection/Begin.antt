-- ===== src/Connection/Begin.antt =====
-- The beginning of a client's thread, up to its event loop.
use ya_ircd.Prelude.{ℕ, ◌+◌, ◌≡◌, ◌≢◌, refl, arith, false, ltb, length, List, []}
use ya_ircd.WordList.Update.{ListState}
use ya_ircd.ReadMsgs.{max_msg_size, Connection}
use ya_ircd.WriteQueue.{write_queue_size}
use ya_ircd.Registration.Owned.{IsRegistry, Absent}
use ya_ircd.Cloak.{CloaksInfo}
use ya_ircd.Client.Ping.{PingConfig, Fired, ping_timer_cb, Reached}
use ya_ircd.Connection.{
  ArgsWrapper, Resources, World, NewClient, Outcome, created, refused, ended, undefined,
  create_client, Begun, running, gone, new_client,
}
use ya_ircd.Connection.Created.{IsAddress, CreateEnds, create_client-CreateEnds}

first_timer :
    (config : PingConfig) (now : ℕ) (c : Connection ℕ)
    → c.last_activity ≡ now
    → ping_timer_cb config now c
      ≡ Fired.reset (record { connection = c; due = now + config.ping_freq })
unfolding ping_timer_cb
first_timer config now c fresh =
    let recent : ltb (c.last_activity + config.ping_freq) now ≡ false = ground (arith, fresh) in
    rw (ping_timer_cb, recent) refl

module _ (sha1 md5 : List ℕ → List ℕ) (info : CloaksInfo) (chanlimit : ℕ) (list : ListState ℕ)
    (config : PingConfig) (now : ℕ) (w : World) (args : ArgsWrapper) (r : Resources) where
  -- A thread that runs has a client as `create_client` makes it, and its timer is in the first of
  -- the states that it can reach; any other thread has ended without a client.
  abbrev pub BeginEnds : Begun → Type 0
  BeginEnds (running c s r') =
      CreateEnds sha1 md5 info chanlimit list w args r (created c r') × Reached config now now [] s
  BeginEnds (gone o) =
      CreateEnds sha1 md5 info chanlimit list w args r o
      × ((c : NewClient) (r' : Resources) → o ≢ created c r')

  begun_as :
      (o : Outcome)
      → create_client sha1 md5 info chanlimit w args r ≡ o
      → CreateEnds sha1 md5 info chanlimit list w args r o
      → BeginEnds (new_client sha1 md5 info chanlimit config now w args r)
  unfolding new_client
  begun_as (created c r') e ends =
      let connection : Connection ℕ = record {
        last_msg = c.last_msg;
        last_activity = now;
        connection_status = c.connection_status;
      } in
      let timer = first_timer config now connection refl in
      rw (new_client, e, timer)
        (
          ends,
          Reached.start connection refl ends.0.status
              (record { connection = connection; due = now + config.ping_freq }) timer,
        )
  begun_as (refused r') e ends = rw (new_client, e) (ends, λ c r'' eq. absurd (ground arith))
  begun_as (ended r') e ends = rw (new_client, e) (ends, λ c r'' eq. absurd (ground arith))
  begun_as undefined e ends = rw (new_client, e) (ends, λ c r'' eq. absurd (ground arith))

  -- If the arrays that the block of a client embeds have their sizes, an IPv4 address is printed
  -- with its dots, and the list of clients is well formed and does not hold the new address: the
  -- thread ends without a client, or it runs with a client for which all that the reader, the write
  -- queue, `JOIN` and registration rely on is true, and with its timer started. It has then all of
  -- its blocks, an event loop and a queue, and the arguments are freed; without a client the
  -- arguments are freed and at most the array of channels and the mutex of the queue are left; if
  -- the thread ends by `terminate_session`, nothing is freed; and a block that was freed is written
  -- only if the array of channels could not be allocated.
  pub new_client-BeginEnds :
      length w.last_msg.msg ≡ max_msg_size
      → length w.write_queue.messages ≡ write_queue_size
      → IsAddress w.ip
      → IsRegistry list.trie
      → Absent w.self list.trie
      → BeginEnds (new_client sha1 md5 info chanlimit config now w args r)
  new_client-BeginEnds msg slots v registry absent =
      begun_as _ refl
        (create_client-CreateEnds sha1 md5 info chanlimit list w args r msg slots v registry absent)
