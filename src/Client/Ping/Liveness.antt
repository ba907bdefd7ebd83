-- ===== src/Client/Ping/Liveness.antt =====
-- The session of a client that stays silent ends.
use ya_ircd.Prelude.{ℕ, ◌+◌, ◌<◌, ◌≤◌, ◌≡◌, refl, inl, inr, List, [], ◌∷◌, ltb, arith, Bool-cases}
use ya_ircd.ReadMsgs.{Connection, ConnectionStatus}
use ya_ircd.Client.Ping.{
  Status-cases, PingConfig, Timed, Fired, reset, pinged, terminated, ping_timer_cb,
}

-- The timer expires at these times, and nothing else happens.
unfoldable pub fires : PingConfig → List ℕ → Timed → Fired
fires config [] s = Fired.reset s
fires config (t ∷ ts) s = elim (ping_timer_cb config t s.connection) [
  | reset s' ↦ fires config ts s'
  | pinged s' ↦ fires config ts s'
  | terminated ↦ Fired.terminated
]

abbrev Next : (Timed → Type 0) → Fired → Type 0
Next P (reset s) = P s
Next P (pinged s) = P s
Next P terminated = Unit

-- The timer never expires before it is due.
abbrev pub OnTime : PingConfig → List ℕ → Timed → Type 0
OnTime config [] s = Unit
OnTime config (t ∷ ts) s =
    (s.due ≤ t) × Next (OnTime config ts) (ping_timer_cb config t s.connection)

module _ (config : PingConfig) where
  at_once :
      (t : ℕ) (ts : List ℕ) (c : Connection ℕ) (due : ℕ)
      → c.last_activity + config.ping_freq < t
      → c.connection_status ≡ ConnectionStatus.timeout
      → fires config (t ∷ ts) (record { connection = c; due = due }) ≡ Fired.terminated
  unfolding fires ping_timer_cb
  at_once t ts c due silent owes = ground arith

  early :
      (t : ℕ) (c : Connection ℕ)
      → t ≤ c.last_activity + config.ping_freq
      → ping_timer_cb config t c
        ≡ Fired.reset (record { connection = c; due = t + config.ping_freq })
  unfolding ping_timer_cb
  early t c h = ground arith

  asks :
      (t : ℕ) (c : Connection ℕ)
      → c.last_activity + config.ping_freq < t
      → c.connection_status ≡ ConnectionStatus.ok
      → ping_timer_cb config t c
        ≡ Fired.pinged (record {
          connection = record c { connection_status = ConnectionStatus.timeout };
          due = t + config.timeout;
        })
  unfolding ping_timer_cb
  asks t c silent live = ground arith

  -- Once the silence is longer than the ping frequency, the timer ends the session when it expires
  -- for the second time at the latest.
  after_two :
      (t t' : ℕ) (ts : List ℕ) (s : Timed)
      → s.connection.last_activity + config.ping_freq < t
      → OnTime config (t ∷ t' ∷ ts) s
      → fires config (t ∷ t' ∷ ts) s ≡ Fired.terminated
  unfolding fires
  after_two t t' ts s silent timely = elim (Status-cases s.connection.connection_status) [
    | inr owes ↦ at_once t (t' ∷ ts) s.connection s.due silent owes
    | inl live ↦
        let asked = asks t s.connection silent live in
        let (due, _) = rw asked at (timely.1) in
        rw (fires, asked)
          (at_once t' ts (record s.connection { connection_status = ConnectionStatus.timeout })
            (t + config.timeout) (omega arith) refl)
  ]

  -- If the ping frequency is not 0: of a client that has been active no later than when its timer
  -- next expires, and that stays silent, the timer ends the session when it expires for the fourth
  -- time at the latest, whatever the client's status is and however late libev calls.
  pub silent-terminated :
      (t1 t2 t3 t4 : ℕ) (ts : List ℕ) (s : Timed)
      → 0 < config.ping_freq
      → s.connection.last_activity ≤ t1
      → OnTime config (t1 ∷ t2 ∷ t3 ∷ t4 ∷ ts) s
      → fires config (t1 ∷ t2 ∷ t3 ∷ t4 ∷ ts) s ≡ Fired.terminated
  unfolding fires
  silent-terminated t1 t2 t3 t4 ts s positive past timely =
      let limit = s.connection.last_activity + config.ping_freq in
      elim (Bool-cases (ltb limit t1)) [
        | inl late ↦ after_two t1 t2 (t3 ∷ t4 ∷ ts) s (ground arith) timely
        | inr soon ↦
            let again = early t1 s.connection (ground arith) in
            let timely2 = rw again at (timely.1) in
            elim (Bool-cases (ltb limit t2)) [
              | inl late ↦ rw (fires, again) (after_two t2 t3 (t4 ∷ ts) _ (ground arith) timely2)
              | inr soon2 ↦
                  let again2 = early t2 s.connection (ground arith) in
                  let (due2, _) = timely2 in
                  let timely3 = rw again2 at (timely2.1) in
                  let (due3, _) = timely3 in
                  rw (fires, again, again2) (after_two t3 t4 ts _ (ground arith) timely3)
            ]
      ]
