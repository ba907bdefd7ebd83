-- ===== src/ReadMsgs/Tests.antt =====
-- Runs of the reader.
use ya_ircd.Prelude.{ℕ, zero, suc, ◌≡◌, refl, List, [], ◌∷◌, some, arith}
use ya_ircd.ReadMsgs.{IrcMessage, next_msg, Connection, ConnectionStatus, scan}
use ya_ircd.ReadMsgs.Lines.{lines, line_cons}
use ya_ircd.ReadMsgs.NextMsg.{IsMessage}
use ya_ircd.ReadMsgs.Session.{serve, received, Served, serve-Served}

abbrev zeros : ℕ → List ℕ
zeros zero = []
zeros (suc n) = 0 ∷ zeros n

-- `HI\nYO` has been received.
abbrev waiting : IrcMessage
waiting = record {
  msg = b'H' ∷ b'I' ∷ b'\n' ∷ b'Y' ∷ b'O' ∷ zeros 507;
  index = 5;
  last_stop = 0;
  msg_begin = 0;
}

waiting-IsMessage : IsMessage waiting
waiting-IsMessage = record {
  size = refl;
  begun = omega arith;
  stopped = omega arith;
  inside = omega arith;
  seen = tt;
}

first_line : (next_msg waiting).0 ≡ some (2, 0)
unfolding next_msg scan
first_line = refl

-- A connection whose clock counts.
abbrev fresh : Connection ℕ
fresh = record {
  last_msg = record { msg = zeros 512; index = 0; last_stop = 0; msg_begin = 0 };
  last_activity = 0;
  connection_status = ConnectionStatus.timeout;
}

fresh-IsMessage : IsMessage fresh.last_msg
fresh-IsMessage = record {
  size = refl;
  begun = omega arith;
  stopped = omega arith;
  inside = omega arith;
  seen = tt;
}

abbrev first : List ℕ
first = b'H' ∷ []

abbrev second : List ℕ
second = b'I' ∷ b'\n' ∷ b'Y' ∷ []

abbrev deliveries : List (List ℕ × ℕ)
deliveries = (first, 1) ∷ (second, 2) ∷ []

first_rest : lines first ≡ ([], first)
unfolding lines line_cons
first_rest = refl

serve-Served_example : Served (received deliveries) (serve deliveries fresh)
unfolding lines line_cons
serve-Served_example =
    serve-Served deliveries fresh fresh-IsMessage refl tt
      (omega arith, omega arith, (omega arith, omega arith, tt))
