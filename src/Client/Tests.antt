-- ===== src/Client/Tests.antt =====
-- Runs of a client's session.
use ya_ircd.Prelude.{
  ℕ, zero, suc, ◌+◌, ◌≤◌, ◌≡◌, refl, List, [], ◌∷◌, ◌++◌, Option, none, some, arith, ◌==◌, get_or,
  if◌then◌else◌,
}
use ya_ircd.ReadMsgs.{IrcMessage, Connection, ConnectionStatus}
use ya_ircd.ReadMsgs.Lines.{lines, line_cons}
use ya_ircd.ReadMsgs.NextMsg.{pending, IsMessage}
use ya_ircd.ReadMsgs.Session.{received}
use ya_ircd.Client.{Message, Handlers, handle_msgs}
use ya_ircd.Client.Messages.{handle_lines}
use ya_ircd.Client.Loop.{Waits, Managed, manage-Managed}
use ya_ircd.Client.Session.{SessionReached, events, events-SessionReached}
use ya_ircd.Client.Ping.{PingConfig, Timed, Fired, ping_timer_cb, Event, Reached}
use ya_ircd.Client.Ping.Safety.{Asked, terminated-Asked}
use ya_ircd.Client.Ping.Liveness.{fires, silent-terminated}

abbrev zeros : ℕ → List ℕ
zeros zero = []
zeros (suc n) = 0 ∷ zeros n

-- Handlers that note the commands, and end the session at one that begins with `Q`.
abbrev note : Message → List (List ℕ) → Option (List (List ℕ))
note m seen = if get_or m.cmd 0 0 == b'Q' then none else some (seen ++ (m.cmd ∷ []))

abbrev recorder : Handlers (List (List ℕ))
recorder = record {
  send_err_unknowncommand = λ seen. some (seen ++ ([] ∷ []));
  interpret_msg = note;
}

-- `HI\r\nYO` has been received.
abbrev greeting : IrcMessage
greeting = record {
  msg = b'H' ∷ b'I' ∷ b'\r' ∷ b'\n' ∷ b'Y' ∷ b'O' ∷ zeros 506;
  index = 6;
  last_stop = 0;
  msg_begin = 0;
}

greeting-IsMessage : IsMessage greeting
greeting-IsMessage = record {
  size = refl;
  begun = omega arith;
  stopped = omega arith;
  inside = omega arith;
  seen = tt;
}

manage-Managed_example : Managed recorder (pending greeting) [] (handle_msgs recorder 7 greeting [])
manage-Managed_example = manage-Managed recorder 7 greeting [] greeting-IsMessage (omega arith)

-- A connection whose clock counts.
abbrev quiet : Connection ℕ
quiet = record {
  last_msg = record { msg = zeros 512; index = 0; last_stop = 0; msg_begin = 0 };
  last_activity = 0;
  connection_status = ConnectionStatus.ok;
}

quiet-Waits : Waits [] quiet.last_msg
quiet-Waits = record {
  valid = record {
    size = refl;
    begun = omega arith;
    stopped = omega arith;
    inside = omega arith;
    seen = tt;
  };
  rest_waits = refl;
  front = refl;
  filled = refl;
}

abbrev hi : List ℕ
hi = b'H' ∷ b'I' ∷ []

abbrev newline_quit : List ℕ
newline_quit = b'\n' ∷ b'Q' ∷ []

abbrev two_deliveries : List (List ℕ × ℕ)
two_deliveries = (hi, 1) ∷ (newline_quit, 2) ∷ []

events-SessionReached_example :
    let whole = lines ([] ++ received two_deliveries) in
    SessionReached recorder
      (handle_lines recorder whole.0 [])
      whole.1
      (events recorder two_deliveries quiet [])
unfolding lines line_cons
events-SessionReached_example =
    events-SessionReached recorder two_deliveries [] quiet [] quiet-Waits tt
      (omega arith, omega arith, (omega arith, omega arith, tt))

abbrev config : PingConfig
config = record { ping_freq = 10; timeout = 3 }

abbrev started : Timed
started = record { connection = quiet; due = 10 }

abbrev asked_at_11 : Timed
asked_at_11 = record {
  connection = record quiet { connection_status = ConnectionStatus.timeout };
  due = 14;
}

run : Reached config 0 11 (Event.pinging 11 ∷ []) asked_at_11
unfolding ping_timer_cb
run =
    Reached.fire_ping (Reached.start quiet refl refl started refl) (omega arith) (omega arith) refl

terminated-Asked_example : (asked : Asked config 0 (Event.pinging 11 ∷ []) 14) × (asked.at + 3 ≤ 14)
unfolding ping_timer_cb
terminated-Asked_example = terminated-Asked config 0 run (omega arith) refl

silent-terminated_example : fires config (10 ∷ 20 ∷ 23 ∷ 30 ∷ []) started ≡ Fired.terminated
unfolding ping_timer_cb
silent-terminated_example =
    silent-terminated config 10 20 23 30 [] started (omega arith) (omega arith)
      (omega arith, (omega arith, (omega arith, tt)))
