-- ===== src/ParseMsg/Tests.antt =====
-- Runs of the parser.
use ya_ircd.Prelude.{ℕ, ◌≡◌, refl, List, [], ◌∷◌, ◌++◌, some, inl, arith}
use ya_ircd.ParseMsg.{
  parse_msg, parse_command, parse_params, read_params, read_params_from, read_trailing, command_end,
  skipspaces, skipnonspaces, skip_while,
}
use ya_ircd.ParseMsg.Scan.{IsBuffer, Kept}
use ya_ircd.ParseMsg.Placed.{placed, shift_result}
use ya_ircd.ParseMsg.Placed.Message.{parse_msg-placed}
use ya_ircd.ParseMsg.Printed.{Message, IsMessage, print, strings, strings_of}
use ya_ircd.ParseMsg.Printed.Whole.{parse_msg-print}
use ya_ircd.ParseMsg.Bounds.{IsParsed, parse_msg-IsParsed}

-- `:a GO x :y z`.
abbrev message : List ℕ
message = b':' ∷ b'a' ∷ b' ' ∷ b'G' ∷ b'O' ∷ b' ' ∷ b'x' ∷ b' ' ∷ b':' ∷ b'y' ∷ b' ' ∷ b'z' ∷ 0 ∷ []

message-IsBuffer : IsBuffer 13 message
message-IsBuffer = record { fits = omega arith; ended = refl }

parse_msg-IsParsed_example :
    IsParsed 13 (parse_msg message 0).0 × Kept 13 message (parse_msg message 0).1
parse_msg-IsParsed_example = parse_msg-IsParsed message 0 message-IsBuffer (omega arith)

-- Behind two characters and in front of one.
parse_msg-placed_example :
    parse_msg (placed (7 ∷ 8 ∷ []) (9 ∷ []) message) 2
    ≡ shift_result (7 ∷ 8 ∷ []) (9 ∷ []) (parse_msg message 0)
parse_msg-placed_example =
    parse_msg-placed (7 ∷ 8 ∷ []) (9 ∷ []) message 0 message-IsBuffer refl (omega arith)

parsed : parse_msg message 0 ≡ (
  some (record { prefix = some 1; cmd = 3; params = 6 ∷ 9 ∷ [] }),
  b':' ∷ b'a' ∷ 0 ∷ b'G' ∷ b'O' ∷ 0 ∷ b'x' ∷ 0 ∷ b':' ∷ b'y' ∷ b' ' ∷ b'z' ∷ 0 ∷ [],
)
unfolding parse_msg parse_command parse_params read_params read_params_from read_trailing
    command_end skipspaces skipnonspaces skip_while
parsed = refl

-- `:a GO x :y z`.
abbrev printed : Message
printed = record {
  prefix = some (b'a' ∷ []);
  command = b'G' ∷ b'O' ∷ [];
  words = (b'x' ∷ []) ∷ [];
  trailing = some (b'y' ∷ b' ' ∷ b'z' ∷ []);
}

printed-IsMessage : IsMessage printed
printed-IsMessage = record {
  prefix_ok = (ground arith, ground arith, tt);
  command_ok = inl (refl, (refl, tt));
  words_ok = ((ground arith, (ground arith, ground arith, tt)), tt);
  trailing_ok = (ground arith, (ground arith, (ground arith, (ground arith, tt))));
  few = omega arith;
}

printed_text : print printed ++ (0 ∷ []) ≡ message
printed_text = refl

parse_msg-print_example :
    strings (parse_msg (print printed ++ (0 ∷ 7 ∷ [])) 0) ≡ some (strings_of printed)
parse_msg-print_example = parse_msg-print printed (7 ∷ []) printed-IsMessage
