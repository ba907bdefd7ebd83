-- ===== src/Client/Ping/Safety.antt =====
-- The timer never ends the session of a client that was not asked, or that has answered.
use ya_ircd.Prelude.{ℕ, ◌+◌, ◌<◌, ◌≤◌, ◌≡◌, refl, ap, ◌∙◌, inl, inr, List, [], ◌∷◌, arith}
use ya_ircd.ReadMsgs.{Connection, ConnectionStatus, ok, timeout}
use ya_ircd.Client.Ping.{
  PingConfig, Timed, Fired, ping_timer_cb, Event, received, resetting, pinging, Reached,
  Status-cases, start, receive, fire_reset, fire_ping,
}

-- When data last arrived, in a thread that was started at `begin`.
abbrev pub last_received : ℕ → List Event → ℕ
last_received begin [] = begin
last_received begin (received t ∷ history) = t
last_received begin (resetting t ∷ history) = last_received begin history
last_received begin (pinging t ∷ history) = last_received begin history

-- A `PING` was the last event; it was sent after a silence of more than the ping frequency, and the
-- timer gives the client the time of the timeout to answer.
pub record Asked (config : PingConfig) (begin : ℕ) (history : List Event) (due : ℕ) : Type 0 where
  pub at : ℕ
  pub before : List Event
  pub newest : history ≡ Event.pinging at ∷ before
  pub silent : last_received begin before + config.ping_freq < at
  pub waits : due ≡ at + config.timeout

abbrev StatusKnown : PingConfig → ℕ → ℕ → List Event → ℕ → ConnectionStatus → Type 0
StatusKnown config begin now history due ok = Unit
StatusKnown config begin now history due timeout = Asked config begin history due

record Known (config : PingConfig) (begin now : ℕ) (history : List Event) (s : Timed) : Type 0 where
  activity : s.connection.last_activity ≡ last_received begin history
  past : last_received begin history ≤ now
  status : StatusKnown config begin now history s.due s.connection.connection_status

module _ (config : PingConfig) (begin : ℕ) where
  fired_reset :
      (now : ℕ) (c : Connection ℕ) (s : Timed)
      → ping_timer_cb config now c ≡ Fired.reset s
      → (s.connection ≡ c) × (now ≤ c.last_activity + config.ping_freq)
  unfolding ping_timer_cb
  fired_reset now c s e = grind arith

  fired_pinged :
      (now : ℕ) (c : Connection ℕ) (s : Timed)
      → ping_timer_cb config now c ≡ Fired.pinged s
      → (c.last_activity + config.ping_freq < now)
        × (s.connection ≡ record c { connection_status = ConnectionStatus.timeout })
        × (s.due ≡ now + config.timeout)
  unfolding ping_timer_cb
  fired_pinged now c s e = grind arith

  -- A timer that was started by a `PING` does not find new activity.
  Asked-due :
      {history : List Event} {due now active : ℕ}
      → active ≡ last_received begin history
      → Asked config begin history due
      → due ≤ now
      → ¬ (now ≤ active + config.ping_freq)
  Asked-due {history} e asked late within =
      let same = ap (last_received begin) asked.newest in omega (arith, asked.silent, asked.waits)

  Reached-Known :
      {now : ℕ} {history : List Event} {s : Timed}
      → Reached config begin now history s
      → Known config begin now history s
  Reached-Known (start c active live s e) =
      let (same, within) = fired_reset begin c s e in
      record {
        activity = ap (λ c. c.last_activity) same ∙ active;
        past = omega arith;
        status = rw (ap (λ c. c.connection_status) same ∙ live) tt;
      }
  Reached-Known (receive {s} r {t} h c active live) = record {
    activity = active;
    past = omega arith;
    status = rw live tt;
  }
  Reached-Known (fire_reset {now} {history} {s} {s'} r {t} h due e) =
      let known = Reached-Known r in
      let (same, within) = fired_reset t s.connection s' e in
      record {
        activity = ap (λ c. c.last_activity) same ∙ known.activity;
        past = omega (arith, known.past);
        status = elim (Status-cases s.connection.connection_status) [
          | inl live ↦ rw (ap (λ c. c.connection_status) same ∙ live) tt
          | inr owes ↦
              let asked = rw owes at known.status in
              absurd (Asked-due known.activity asked due within)
        ];
      }
  Reached-Known (fire_ping {now} {history} {s} {s'} r {t} h due e) =
      let known = Reached-Known r in
      let (silent, same, waits) = fired_pinged t s.connection s' e in
      record {
        activity = ap (λ c. c.last_activity) same ∙ known.activity;
        past = omega (arith, known.past);
        status = rw (ap (λ c. c.connection_status) same) (record {
          at = t;
          before = history;
          newest = refl;
          silent = omega (arith, known.activity);
          waits = waits;
        });
      }

  fired_terminated :
      (now : ℕ) (c : Connection ℕ)
      → ping_timer_cb config now c ≡ Fired.terminated
      → (c.last_activity + config.ping_freq < now)
        × (c.connection_status ≡ ConnectionStatus.timeout)
  unfolding ping_timer_cb
  fired_terminated now c e = grind arith

  -- In every run of a connection, with data and expiries of its timer in any order: if the timer
  -- ends the session, the last event was that the server sent a `PING`, so that nothing arrived
  -- after it; the client had been silent for more than the ping frequency before it, and since
  -- then at least the time of the timeout has passed.
  pub terminated-Asked :
      {now : ℕ} {history : List Event} {s : Timed} {t : ℕ}
      → Reached config begin now history s
      → s.due ≤ t
      → ping_timer_cb config t s.connection ≡ Fired.terminated
      → (asked : Asked config begin history s.due) × (asked.at + config.timeout ≤ t)
  terminated-Asked {s = s} {t = t} r late e =
      let known = Reached-Known r in
      let asked = rw (fired_terminated t s.connection e).1 at known.status in
      (asked, omega (arith, asked.waits))
