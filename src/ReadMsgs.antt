-- ===== src/ReadMsgs.antt =====
-- src/msg/read_msgs.c: from what a socket delivers, in pieces, to single IRC messages.
pub mod Slices
pub mod Lines
pub mod NextMsg
pub mod Behind
pub mod Stream
pub mod Session
mod Tests
use ya_ircd.Prelude.{
  ℕ, zero, suc, ◌+◌, ◌-◌, Bool, true, false, List, [], ◌∷◌, Option, none, some, ◌==◌, leb,
  if◌then◌else◌, get_or, set, length,
}

abbrev pub max_msg_size : ℕ
max_msg_size = 512

-- `struct irc_message`.
pub record IrcMessage : Type 0 where
  pub msg : List ℕ
  pub index : ℕ
  pub last_stop : ℕ
  pub msg_begin : ℕ

unfoldable pub initialize_irc_message : IrcMessage → IrcMessage
initialize_irc_message m = record m { index = 0; last_stop = 0; msg_begin = 0 }

-- The loop of `bring_to_top`: `length` characters, one by one, as the two places may overlap.
unfoldable pub copy : List ℕ → ℕ → ℕ → ℕ → List ℕ
copy chars to from zero = chars
copy chars to from (suc n) = copy (set chars to (get_or chars from 0)) (to + 1) (from + 1) n

-- `to` and `buf` are indices into one array.
unfoldable pub bring_to_top : List ℕ → ℕ → ℕ → ℕ → List ℕ
unfolding copy
bring_to_top chars to buf length = if buf == to then chars else copy chars to buf length

-- The loop of `next_msg` at index `i`, with `n` characters left before `index`.
unfoldable pub scan : List ℕ → ℕ → ℕ → ℕ
scan buf i zero = i
scan buf i (suc n) = let rest = scan buf (i + 1) n in if get_or buf i 0 == b'\n' then i else rest

-- `none` is `MSG_CONTINUE`; otherwise the length of the message and the index where it begins.
unfoldable pub next_msg : IrcMessage → Option (ℕ × ℕ) × IrcMessage
next_msg m =
    let i = scan m.msg m.last_stop (m.index - m.last_stop) in
    let left = m.index - m.msg_begin in
    let ended = record m { last_stop = i + 1; msg_begin = i + 1 } in
    if i == m.index
    then (
      none,
      record m {
        msg = bring_to_top m.msg 0 m.msg_begin left;
        index = left;
        last_stop = left;
        msg_begin = 0;
      },
    )
    else (
      some (i - m.msg_begin, m.msg_begin),
      if i + 1 == max_msg_size then initialize_irc_message ended else ended,
    )

-- What `recv` writes: the characters that it returns, from an index on.
unfoldable pub fill : List ℕ → ℕ → List ℕ → List ℕ
fill chars i [] = chars
fill chars i (b ∷ bs) = fill (set chars i b) (i + 1) bs

-- `STATUS_OK` and `STATUS_TIMEOUT`.
pub data ConnectionStatus : Type 0 where
  ok timeout : ConnectionStatus

-- The fields of `struct irc_client` that reading concerns. `Time` is libev's `ev_tstamp`.
pub record Connection (Time : Type 0) : Type 0 where
  pub last_msg : IrcMessage
  pub last_activity : Time
  pub connection_status : ConnectionStatus

-- The buffer that `read_data` reads into: one that is full is thrown away.
unfoldable pub room : IrcMessage → IrcMessage
unfolding initialize_irc_message
room m = if leb max_msg_size m.index then initialize_irc_message m else m

-- `recv` is asked for at most so many characters, and `none` is an error or a closed connection,
-- in which case `read_from_noerr` ends the session and does not return. `now` is `ev_now`.
unfoldable pub read_data :
    {Time : Type 0} → (ℕ → Option (List ℕ)) → Time → Connection Time → Option (Connection Time)
unfolding room fill
read_data recv now c =
    let m = room c.last_msg in
    elim (recv (max_msg_size - m.index)) [
      | none ↦ none
      | some bytes ↦ some (record {
        last_msg = record m { msg = fill m.msg m.index bytes; index = m.index + length bytes };
        last_activity = now;
        connection_status = ok;
      })
    ]
