-- ===== src/Client/Ping.antt =====
-- `ping_timer_cb` of src/clients/client.c. Times are whole numbers of a unit of the clock.
pub mod Safety
pub mod Liveness
use ya_ircd.Prelude.{ℕ, ◌+◌, ◌<◌, ◌≤◌, ◌≡◌, ◌⊎◌, refl, inl, inr, List, [], ◌∷◌, ltb, if◌then◌else◌}
use ya_ircd.ReadMsgs.{Connection, ConnectionStatus, ok, timeout}

-- `get_ping_freq()` and `get_timeout()`.
pub record PingConfig : Type 0 where
  pub ping_freq : ℕ
  pub timeout : ℕ

-- A connection, and the time at which its timer expires.
pub record Timed : Type 0 where
  pub connection : Connection ℕ
  pub due : ℕ

-- The timer is started again, after a `PING` or without one; or the session is terminated.
pub data Fired : Type 0 where
  reset pinged : Timed → Fired
  terminated : Fired

unfoldable pub ping_timer_cb : PingConfig → ℕ → Connection ℕ → Fired
ping_timer_cb config now c =
    let silent : Fired = elim c.connection_status [
      | ok ↦ Fired.pinged (record {
        connection = record c { connection_status = ConnectionStatus.timeout };
        due = now + config.timeout;
      })
      | timeout ↦ Fired.terminated
    ] in
    if ltb (c.last_activity + config.ping_freq) now
    then silent
    else Fired.reset (record { connection = c; due = now + config.ping_freq })

-- To split on a status, and keep the equation.
pub Status-cases :
    (s : ConnectionStatus) → (s ≡ ConnectionStatus.ok) ⊎ (s ≡ ConnectionStatus.timeout)
Status-cases ok = inl refl
Status-cases timeout = inr refl

-- What has happened to a connection, and when.
pub data Event : Type 0 where
  received resetting pinging : ℕ → Event

-- The states of the connection of a thread that was started at `begin`, the time of the last event,
-- and the events, the newest first. Data may arrive at any time; libev calls the timer's callback
-- when the timer has expired, or later.
pub data Reached (config : PingConfig) (begin : ℕ) : ℕ → List Event → Timed → Type 0 where
  start :
      (c : Connection ℕ)
      → c.last_activity ≡ begin
      → c.connection_status ≡ ConnectionStatus.ok
      → (s : Timed) → ping_timer_cb config begin c ≡ Fired.reset s
      → Reached config begin begin [] s
  receive :
      {now : ℕ} {history : List Event} {s : Timed}
      → Reached config begin now history s
      → {t : ℕ} → now ≤ t
      → (c : Connection ℕ) → c.last_activity ≡ t
      → c.connection_status ≡ ConnectionStatus.ok
      → Reached config begin t (Event.received t ∷ history) (record s { connection = c })
  fire_reset :
      {now : ℕ} {history : List Event} {s s' : Timed}
      → Reached config begin now history s
      → {t : ℕ} → now ≤ t
      → s.due ≤ t
      → ping_timer_cb config t s.connection ≡ Fired.reset s'
      → Reached config begin t (Event.resetting t ∷ history) s'
  fire_ping :
      {now : ℕ} {history : List Event} {s s' : Timed}
      → Reached config begin now history s
      → {t : ℕ} → now ≤ t
      → s.due ≤ t
      → ping_timer_cb config t s.connection ≡ Fired.pinged s'
      → Reached config begin t (Event.pinging t ∷ history) s'
