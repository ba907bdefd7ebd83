-- ===== src/Client/Session.antt =====
-- A client's session: the handlers see the lines of the stream, however it is delivered.
use ya_ircd.Prelude.{
  ℕ, ◌-◌, ◌≤◌, ◌<◌, ◌≡◌, refl, true, false, List, [], ◌∷◌, ◌++◌, Option, none, some, arith, length,
  append-nil, append_assoc,
}
use ya_ircd.ReadMsgs.{Connection, ConnectionStatus, read_data, max_msg_size}
use ya_ircd.ReadMsgs.Slices.{length-slice}
use ya_ircd.ReadMsgs.Lines.{lines, lines-append, lines-rest, rest-NoNewline, NoNewline}
use ya_ircd.ReadMsgs.NextMsg.{pending, IsMessage}
use ya_ircd.ReadMsgs.Stream.{read_data_lem}
use ya_ircd.ReadMsgs.Session.{received, Fits}
use ya_ircd.Client.{Handlers, Outcome, running, ended, no_fuel, handle_msgs, manage_client_messages}
use ya_ircd.Client.Messages.{handle_lines, handle_lines-append}
use ya_ircd.Client.Loop.{Waits, Reached, manage-Managed}

-- The input of a connection behind an event at time `now`.
pub record Live {Time : Type 0} (rest : List ℕ) (now : Time) (c : Connection Time) : Type 0 where
  pub input : Waits rest c.last_msg
  pub active : c.last_activity ≡ now
  pub status : c.connection_status ≡ ConnectionStatus.ok

abbrev pub EventReached :
    {S Time : Type 0} → Option S → List ℕ → Time → Outcome S (Connection Time) → Type 0
EventReached none rest now out = out ≡ Outcome.ended
EventReached {Time = Time} (some s) rest now out =
    (c : Connection Time) × (out ≡ Outcome.running s c) × Live rest now c

module _ {S Time : Type 0} (handlers : Handlers S) where
  event_handled :
      (recv : ℕ → Option (List ℕ)) (now : Time) (c c1 : Connection Time) (s : S) (r : Option S)
      (rest : List ℕ)
      → read_data recv now c ≡ some c1
      → c1.last_activity ≡ now
      → c1.connection_status ≡ ConnectionStatus.ok
      → Reached r rest (handle_msgs handlers 513 c1.last_msg s)
      → EventReached r rest now (manage_client_messages handlers false true recv now c s)
  unfolding manage_client_messages
  event_handled recv now c c1 s none rest read active status e = rw (read, e) refl
  event_handled recv now c c1 s (some s') rest read active status (m, e, waits) =
      rw (read, e)
        (
          record c1 { last_msg = m },
          refl,
          record { input = waits; active = active; status = status },
        )

  -- If `recv` delivers at most what it is offered to a well-formed buffer that is not full, an
  -- event handles the lines that this completes, each on its own and in order. If none of them
  -- ends the session, the rest waits in a well-formed buffer, the time of the last activity is
  -- that of the event, and the client no longer owes a `PONG`.
  pub manage_client_messages_lem :
      (recv : ℕ → Option (List ℕ)) (now : Time) (c : Connection Time) (s : S) {bytes : List ℕ}
      → IsMessage c.last_msg
      → c.last_msg.index < max_msg_size
      → recv (max_msg_size - c.last_msg.index) ≡ some bytes
      → length bytes ≤ max_msg_size - c.last_msg.index
      → let whole = lines (pending c.last_msg ++ bytes) in
        EventReached
          (handle_lines handlers whole.0 s)
          whole.1
          now
          (manage_client_messages handlers false true recv now c s)
  manage_client_messages_lem recv now c s {bytes} v space got fits =
      let (c1, read, v1, waits, active, status) = read_data_lem recv now c v space got fits in
      let few : length (pending c1.last_msg) < 513 = omega (
        arith,
        length-slice c1.last_msg.msg c1.last_msg.msg_begin
            (c1.last_msg.index - c1.last_msg.msg_begin),
        v1.inside,
      ) in
      let reached = manage-Managed handlers 513 c1.last_msg s v1 few in
      event_handled recv now c c1 s _ _ read active status (rw waits at reached)

  -- An event for each delivery, until the session ends.
  unfoldable pub events : List (List ℕ × Time) → Connection Time → S → Outcome S (Connection Time)
  events [] c s = Outcome.running s c
  events ((bytes, now) ∷ ds) c s =
      elim (manage_client_messages handlers false true (λ n. some bytes) now c s) [
        | running s' c' ↦ events ds c' s'
        | ended ↦ Outcome.ended
        | no_fuel ↦ Outcome.no_fuel
      ]

  -- What a session comes to, from the state in which its lines leave it.
  abbrev pub SessionReached : Option S → List ℕ → Outcome S (Connection Time) → Type 0
  SessionReached none rest out = out ≡ Outcome.ended
  SessionReached (some s) rest out =
      (c : Connection Time) × (out ≡ Outcome.running s c) × Waits rest c.last_msg

  events_cons :
      (bytes : List ℕ) (now : Time) (ds : List (List ℕ × Time)) (rest : List ℕ)
      (c : Connection Time) (s : S) (r : Option S)
      → let part = lines (rest ++ bytes) in
        let whole = lines (part.1 ++ received ds) in
        handle_lines handlers part.0 s ≡ r
        → EventReached r part.1 now
            (manage_client_messages handlers false true (λ n. some bytes) now c s)
        → ((c' : Connection Time) (s' : S)
            → Waits part.1 c'.last_msg
            → SessionReached (handle_lines handlers whole.0 s') whole.1 (events ds c' s'))
        → SessionReached
            (handle_lines handlers (part.0 ++ whole.0) s)
            whole.1
            (events ((bytes, now) ∷ ds) c s)
  unfolding events
  events_cons bytes now ds rest c s none first e later =
      let part = lines (rest ++ bytes) in
      rw (handle_lines-append handlers part.0 (lines (part.1 ++ received ds)).0 s, first, events, e)
        refl
  events_cons bytes now ds rest c s (some s') first (c', e, live) later =
      let part = lines (rest ++ bytes) in
      rw (handle_lines-append handlers part.0 (lines (part.1 ++ received ds)).0 s, first, events, e)
        (later c' s' live.input)

  -- If `recv` delivers no more than it is offered and every unfinished line leaves space in the
  -- buffer: a session comes to what the complete lines of the whole stream come to when they are
  -- handled on their own, one after the other, up to one that ends it. How the network cuts the
  -- stream into deliveries does not matter, and the unfinished line at the end waits.
  pub events-SessionReached :
      (ds : List (List ℕ × Time)) (rest : List ℕ) (c : Connection Time) (s : S)
      → Waits rest c.last_msg
      → NoNewline rest
      → Fits rest ds
      → let whole = lines (rest ++ received ds) in
        SessionReached (handle_lines handlers whole.0 s) whole.1 (events ds c s)
  unfolding events handle_lines
  events-SessionReached [] rest c s waits none_yet fits =
      rw (append-nil rest, lines-rest rest none_yet) (c, refl, waits)
  events-SessionReached ((bytes, now) ∷ ds) rest c s waits none_yet fits =
      let event =
        manage_client_messages_lem (λ n. some bytes) now c s {bytes = bytes} waits.valid
          (omega (arith, waits.filled)) refl (omega (arith, waits.filled)) in
      let event' = rw waits.rest_waits at event in
      rw (← append_assoc rest bytes (received ds), lines-append (rest ++ bytes) (received ds))
        (events_cons bytes now ds rest c s _ refl event' (λ c' s' waits'.
          events-SessionReached ds (lines (rest ++ bytes)).1 c' s' waits'
            (rest-NoNewline (rest ++ bytes)) fits.2))
