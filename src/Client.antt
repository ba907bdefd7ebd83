-- ===== src/Client.antt =====
-- src/clients/client.c: what one client's thread does with the messages that arrive.
pub mod Strings
pub mod Messages
pub mod Loop
pub mod Session
pub mod Ping
mod Tests
use ya_ircd.Prelude.{
  ℕ, zero, suc, ◌+◌, ◌-◌, Bool, true, false, not, ◌&&◌, ◌||◌, List, [], ◌∷◌, ◌++◌, map, Option,
  none, some, ◌==◌, leb, if◌then◌else◌, set,
}
use ya_ircd.ReadMsgs.{IrcMessage, next_msg, Connection, read_data}
use ya_ircd.ReadMsgs.Slices.{slice}
use ya_ircd.ParseMsg.{char_at, skip, Parsed, parse_msg}

-- The string that a pointer points at.
unfoldable pub c_str : List ℕ → ℕ → List ℕ
c_str buf i = slice buf i (skip (λ c. true) buf i - i)

-- What the handler of a command is given: its arguments, read as strings.
pub record Message : Type 0 where
  pub prefix : Option (List ℕ)
  pub cmd : List ℕ
  pub params : List (List ℕ)

unfoldable pub read_prefix : List ℕ → Option ℕ → Option (List ℕ)
read_prefix buf none = none
read_prefix buf (some i) = some (c_str buf i)

unfoldable pub read_message : List ℕ → Parsed → Message
read_message buf r = record {
  prefix = read_prefix buf r.prefix;
  cmd = c_str buf r.cmd;
  params = map (c_str buf) r.params;
}

-- The handlers, on the state `S` of everything but the client's input buffer. `none` is a session
-- that `terminate_session` ends: `pthread_exit` does not return.
pub record Handlers (S : Type 0) : Type 0 where
  pub send_err_unknowncommand : S → Option S
  pub interpret_msg : Message → S → Option S

-- How an event ends: the thread goes on with its state and its input buffer or connection, or it
-- has ended; `no_fuel` is a loop that did not end.
pub data Outcome (S C : Type 0) : Type 0 where
  running : S → C → Outcome S C
  ended no_fuel : Outcome S C

module _ {S : Type 0} (handlers : Handlers S) where
  -- A result of `parse_msg`, and the array that it leaves.
  unfoldable pub handle_parsed : Option Parsed × List ℕ → S → Option S
  handle_parsed (none, buf) s = handlers.send_err_unknowncommand s
  handle_parsed (some r, buf) s = handlers.interpret_msg (read_message buf r) s

  -- The body of the loop of `manage_client_messages`, on a message of `msg_size` characters at
  -- index `msg_in`.
  unfoldable pub handle_msg : List ℕ → ℕ → ℕ → S → Option S × List ℕ
  handle_msg buf msg_size msg_in s =
      let last = msg_in + (msg_size - 1) in
      let stop =
        if leb 1 msg_size && (char_at buf last == b'\r') then last else msg_in + msg_size in
      let parsed = parse_msg (set buf stop 0) msg_in in
      if msg_size == 0 || (msg_size == 1 && (char_at buf last == b'\r'))
      then (some s, buf)
      else (handle_parsed parsed s, parsed.1)

  -- The loop, with so many rounds at most.
  unfoldable pub handle_msgs : ℕ → IrcMessage → S → Outcome S IrcMessage
  unfolding handle_msg
  handle_msgs zero m s = Outcome.no_fuel
  handle_msgs (suc fuel) m s =
      let (r, m') = next_msg m in
      elim r [
        | none ↦ Outcome.running s m'
        | some (msg_size, msg_in) ↦
            let (s', buf) = handle_msg m'.msg msg_size msg_in s in
            elim s' [
              | none ↦ Outcome.ended
              | some s'' ↦ handle_msgs fuel (record m' { msg = buf }) s''
            ]
      ]

  -- The callback, with what libev reports, what `recv` delivers and what `ev_now` returns. An error
  -- of `recv` ends the session inside `read_data`. 513 rounds are enough for a buffer of 512
  -- characters.
  unfoldable pub manage_client_messages :
      {Time : Type 0}
      → (ev_error ev_read : Bool) → (ℕ → Option (List ℕ))
      → Time
      → Connection Time
      → S
      → Outcome S (Connection Time)
  unfolding handle_msgs read_data
  manage_client_messages ev_error ev_read recv now c s =
      let read = read_data recv now c in
      let served : Outcome S (Connection _) = elim read [
        | none ↦ Outcome.ended
        | some c1 ↦ elim (handle_msgs 513 c1.last_msg s) [
          | running s' m ↦ Outcome.running s' (record c1 { last_msg = m })
          | ended ↦ Outcome.ended
          | no_fuel ↦ Outcome.no_fuel
        ]
      ] in
      if ev_error || not ev_read then Outcome.running s c else served
