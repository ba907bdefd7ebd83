-- ===== src/Whois/Bounds.antt =====
-- How long the messages about the channels of a client are, and what they hold.
use ya_ircd.Prelude.{
  ℕ, ◌+◌, ◌-◌, ◌≤◌, ◌<◌, ◌≡◌, refl, sym, ap, ◌∙◌, inl, inr, false, List, [], ◌∷◌, ◌++◌, Option,
  none, some, ◌==◌, ltb, arith, Bool-cases, if◌then◌else◌, length, length-append, append_assoc,
  append-nil,
}
use ya_ircd.ReadMsgs.{max_msg_size}
use ya_ircd.Whois.{crlf, cmd_print_reply, space_left, write_channels, cmd_whois_aux_channels}

-- The names in the places, with a space behind each.
abbrev pub joined : List (Option (List ℕ)) → List ℕ
joined [] = []
joined (none ∷ rest) = joined rest
joined (some channel ∷ rest) = (channel ++ (b' ' ∷ [])) ++ joined rest

-- Messages that are no longer than a message may be.
abbrev pub AreShort : List (List ℕ) → Type 0
AreShort [] = Unit
AreShort (m ∷ ms) = (length m ≤ max_msg_size) × AreShort ms

AreShort-append :
    (ms : List (List ℕ)) (m : List ℕ)
    → AreShort ms
    → length m ≤ max_msg_size
    → AreShort (ms ++ (m ∷ []))
AreShort-append [] m v h = (h, tt)
AreShort-append (a ∷ ms) m v h = (v.0, AreShort-append ms m v.1 h)

space_left_lem : (buffer : List ℕ) → length buffer ≤ 510 → space_left buffer ≡ 510 - length buffer
unfolding space_left
space_left_lem buffer h = omega (arith, h)

cmd_print_reply-fits :
    (size : ℕ) (text : List ℕ) → length text < size → cmd_print_reply size text ≡ text
unfolding cmd_print_reply
cmd_print_reply-fits size text h = ground (arith, h)

-- A name that fits is printed whole, with the space.
printed_lem :
    (buffer channel : List ℕ)
    → length buffer + length channel + 1 ≤ 510
    → (cmd_print_reply (max_msg_size - length buffer) (channel ++ (b' ' ∷ []))
        ≡ channel ++ (b' ' ∷ []))
      × (length (buffer ++ (channel ++ (b' ' ∷ []))) ≡ length buffer + length channel + 1)
printed_lem buffer channel h =
    let one = length-append channel (b' ' ∷ []) in
    let all = length-append buffer (channel ++ (b' ' ∷ [])) in
    (
      cmd_print_reply-fits (max_msg_size - length buffer) (channel ++ (b' ' ∷ []))
          (omega (arith, one, h)),
      omega (arith, one, all),
    )

write_channels-AreShort :
    (header buffer : List ℕ) (channels : List (Option (List ℕ)))
    → length header ≤ 510
    → length buffer ≤ 510
    → AreShort (write_channels header buffer channels).0
      × (length (write_channels header buffer channels).1 ≤ 510)
unfolding write_channels
write_channels-AreShort header buffer [] hh hb = (tt, hb)
write_channels-AreShort header buffer (none ∷ rest) hh hb =
    write_channels-AreShort header buffer rest hh hb
write_channels-AreShort header buffer (some channel ∷ rest) hh hb =
    let space = space_left_lem buffer hb in
    elim (Bool-cases (ltb (space_left buffer) (length channel + 1))) [
      | inl full ↦
          let (short, left) = write_channels-AreShort header header rest hh hh in
          let ended = length-append buffer crlf in
          rw (write_channels, full) ((omega (arith, ended, hb), short), left)
      | inr fits ↦
          let room : length buffer + length channel + 1 ≤ 510 = ground (arith, space, fits, hb) in
          let (whole, more) = printed_lem buffer channel room in
          rw (write_channels, fits, whole)
            (write_channels-AreShort header (buffer ++ (channel ++ (b' ' ∷ []))) rest hh
              (omega (arith, more, room)))
    ]

write_channels-joined :
    (header buffer : List ℕ) (channels : List (Option (List ℕ)))
    → length buffer + length (joined channels) ≤ 510
    → write_channels header buffer channels ≡ ([], buffer ++ joined channels)
unfolding write_channels
write_channels-joined header buffer [] h = ap (λ b. ([], b)) (sym (append-nil buffer))
write_channels-joined header buffer (none ∷ rest) h = write_channels-joined header buffer rest h
write_channels-joined header buffer (some channel ∷ rest) h =
    let one = length-append channel (b' ' ∷ []) in
    let all = length-append (channel ++ (b' ' ∷ [])) (joined rest) in
    let room : length buffer + length channel + 1 ≤ 510 = omega (arith, one, all, h) in
    let space = space_left_lem buffer (omega (arith, room)) in
    let fits : ltb (space_left buffer) (length channel + 1) ≡ false = ground (arith, space, room) in
    let (whole, more) = printed_lem buffer channel room in
    let ih =
      write_channels-joined header (buffer ++ (channel ++ (b' ' ∷ []))) rest
        (omega (arith, more, one, all, h)) in
    rw (write_channels, fits, whole)
      (ih ∙ ap (λ b. ([], b)) (append_assoc buffer (channel ++ (b' ' ∷ [])) (joined rest)))

-- If what is printed in front leaves room for the end of the line, then no message is longer than
-- a message may be, whatever the channels.
pub cmd_whois_aux_channels-AreShort :
    (text : List ℕ) (channels : List (Option (List ℕ)))
    → length text ≤ 510
    → AreShort (cmd_whois_aux_channels text channels)
unfolding cmd_whois_aux_channels
cmd_whois_aux_channels-AreShort text channels h =
    let whole = cmd_print_reply-fits max_msg_size text (omega (arith, h)) in
    let (short, left) = write_channels-AreShort text text channels h h in
    let last = (write_channels text text channels).1 in
    let ended = length-append last crlf in
    elim (Bool-cases (length last == length text)) [
      | inl same ↦ rw (cmd_whois_aux_channels, whole, same) short
      | inr more ↦
          rw (cmd_whois_aux_channels, whole, more)
            (AreShort-append (write_channels text text channels).0 (last ++ crlf) short
              (omega (arith, ended, left)))
    ]

longer_by : (a b c : ℕ) → a ≡ b + c → (a == b) ≡ (c == 0)
longer_by a b c e = ground (arith, e)

-- If the names of all channels fit in one message, with a space behind each and the text in
-- front, then that one message is written, or none if the client has no channel.
pub cmd_whois_aux_channels-joined :
    (text : List ℕ) (channels : List (Option (List ℕ)))
    → length text + length (joined channels) ≤ 510
    → cmd_whois_aux_channels text channels
      ≡ (if length (joined channels) == 0 then [] else ((text ++ joined channels) ++ crlf) ∷ [])
unfolding cmd_whois_aux_channels
cmd_whois_aux_channels-joined text channels h =
    let whole = cmd_print_reply-fits max_msg_size text (omega (arith, h)) in
    let once = write_channels-joined text text channels h in
    let all = length-append text (joined channels) in
    let longer = longer_by _ (length text) (length (joined channels)) all in
    elim (Bool-cases (length (joined channels) == 0)) [
      | inl nothing ↦ rw (cmd_whois_aux_channels, whole, once, longer, nothing) refl
      | inr something ↦ rw (cmd_whois_aux_channels, whole, once, longer, something) refl
    ]
