-- ===== src/Whois.antt =====
-- src/msg/interpretmsg.c: the channels of a client in the reply to `WHOIS`, and the function of
-- src/msg/msgio.c that prints into a buffer.
pub mod Bounds
mod Tests
use ya_ircd.Prelude.{
  ℕ, zero, suc, ◌+◌, ◌-◌, ◌%◌, ◌^◌, Bool, true, false, List, [], ◌∷◌, ◌++◌, Option, none, some,
  ◌==◌, ltb, if◌then◌else◌, length, take,
}
use ya_ircd.ReadMsgs.{max_msg_size}

abbrev pub crlf : List ℕ
crlf = b'\r' ∷ b'\n' ∷ []

-- What `cmd_print_reply` leaves in a buffer of `size` characters, where `text` is what `vsnprintf`
-- would print without a limit: its last two characters are the end of the line if it is cut.
unfoldable pub cmd_print_reply : ℕ → List ℕ → List ℕ
cmd_print_reply size text = if ltb (length text) size then text else take (size - 3) text ++ crlf

-- `buffer+sizeof(buffer)-buf_ptr-2`, compared as a `size_t` of 64 bits.
unfoldable pub space_left : List ℕ → ℕ
space_left buffer = (2 ^ 64 + max_msg_size - length buffer - 2) % 2 ^ 64

-- The loop over the places, with the characters in front of `buf_ptr`: the messages written, and
-- the characters that are left.
unfoldable pub write_channels : List ℕ → List ℕ → List (Option (List ℕ)) → List (List ℕ) × List ℕ
unfolding space_left cmd_print_reply
write_channels header buffer [] = ([], buffer)
write_channels header buffer (none ∷ rest) = write_channels header buffer rest
write_channels header buffer (some channel ∷ rest) =
    let flushed = write_channels header header rest in
    let printed =
      write_channels header
        (buffer ++ cmd_print_reply (max_msg_size - length buffer) (channel ++ (b' ' ∷ []))) rest in
    if ltb (space_left buffer) (length channel + 1)
    then ((buffer ++ crlf) ∷ flushed.0, flushed.1)
    else printed

-- The messages for a target with these places, where `text` is what is printed in front of them.
unfoldable pub cmd_whois_aux_channels : List ℕ → List (Option (List ℕ)) → List (List ℕ)
unfolding write_channels cmd_print_reply
cmd_whois_aux_channels text channels =
    let header = cmd_print_reply max_msg_size text in
    let (written, buffer) = write_channels header header channels in
    if length buffer == length header then written else written ++ ((buffer ++ crlf) ∷ [])
