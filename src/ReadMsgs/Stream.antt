-- ===== src/ReadMsgs/Stream.antt =====
-- Reading and draining: the loop of `manage_client_messages` (src/clients/client.c) around
-- `read_data` and `next_msg`, as far as it takes messages off the buffer.
use ya_ircd.Prelude.{
  ℕ, zero, suc, ◌+◌, ◌-◌, ◌<◌, ◌≤◌, ◌≡◌, refl, sym, ◌∙◌, ap, List, [], ◌∷◌, ◌++◌, arith, length,
  length-append, Option, none, some, inl, inr, Option-cases,
}
use ya_ircd.ReadMsgs.{
  IrcMessage, max_msg_size, next_msg, Connection, ConnectionStatus, read_data, fill,
}
use ya_ircd.ReadMsgs.Slices.{slice, slice-append, length-fill, slice-fill, slice-fill_before}
use ya_ircd.ReadMsgs.Lines.{lines, lines-rest, lines-line}
use ya_ircd.ReadMsgs.NextMsg.{pending, IsMessage, Took, next_msg-Took}

-- `while ((msg_size = next_msg(...)) != MSG_CONTINUE)`: the messages, in order. `none` means that
-- the fuel ran out.
pub drain : ℕ → IrcMessage → Option (List (List ℕ) × IrcMessage)
drain zero m = none
drain (suc fuel) m =
    let (r, m') = next_msg m in
    elim r [
      | none ↦ some ([], m')
      | some (len, at) ↦ elim (drain fuel m') [
        | none ↦ none
        | some (ls, m'') ↦ some (slice m'.msg at len ∷ ls, m'')
      ]
    ]

-- What is left is moved to the front of the buffer.
pub record IsDrained (waited : List ℕ) (out : Option (List (List ℕ) × IrcMessage)) : Type 0 where
  pub last : IrcMessage
  pub done : out ≡ some ((lines waited).0, last)
  pub rest : pending last ≡ (lines waited).1
  pub valid : IsMessage last
  pub front : last.msg_begin ≡ 0
  pub filled : last.index ≡ length (pending last)

module _ (fuel : ℕ) (m m' : IrcMessage) (v : IsMessage m') where
  drain_stop : Took m none m' → next_msg m ≡ (none, m') → IsDrained (pending m) (drain (suc fuel) m)
  unfolding drain
  drain_stop (none_left, same, front, filled) e = record {
    last = m';
    done = ground (arith, lines-rest (pending m) none_left);
    rest = rw (lines-rest (pending m) none_left) same;
    valid = v;
    front = front;
    filled = filled ∙ ap length (sym same);
  }

  drain_more :
      (len at : ℕ)
      → Took m (some (len, at)) m'
      → next_msg m ≡ (some (len, at), m')
      → IsDrained (pending m') (drain fuel m')
      → IsDrained (pending m) (drain (suc fuel) m)
  unfolding drain
  drain_more len at (line, parts, _, _) e ih =
      let all = ap lines parts ∙ lines-line (slice m'.msg at len) (pending m') line in
      record {
        last = ih.last;
        done = ground (arith, ih.done);
        rest = rw all ih.rest;
        valid = ih.valid;
        front = ih.front;
        filled = ih.filled;
      }

-- On a well-formed buffer, and with more rounds than characters waiting, the loop ends and has
-- reported exactly the complete lines that waited, in order; the characters behind the last
-- newline stay, at the front of the buffer.
pub drain-IsDrained :
    (fuel : ℕ) (m : IrcMessage)
    → IsMessage m
    → length (pending m) < fuel
    → IsDrained (pending m) (drain fuel m)
drain-IsDrained zero m v h = absurd (omega arith)
drain-IsDrained (suc fuel) m v h =
    let (took, valid) = next_msg-Took m v in
    let later = drain-IsDrained fuel (next_msg m).1 valid in
    elim (Option-cases (next_msg m).0) [
      | inl e ↦ drain_stop fuel m (next_msg m).1 valid (rw e at took) (ground arith)
      | inr ((len, at), e) ↦
          let line = rw e at took in
          let shorter = ap length line.1 ∙ length-append (slice (next_msg m).1.msg at len) _ in
          drain_more fuel m (next_msg m).1 valid len at line (ground arith) (later (omega arith))
    ]

-- A delivery of at most the offered number of characters into a well-formed buffer that is not
-- full is appended to what waits, keeps the buffer well formed, and sets the time of the last
-- activity and the connection's status.
pub read_data_lem :
    {Time : Type 0} (recv : ℕ → Option (List ℕ)) (now : Time) (c : Connection Time) {bytes : List ℕ}
    → IsMessage c.last_msg
    → c.last_msg.index < max_msg_size
    → recv (max_msg_size - c.last_msg.index) ≡ some bytes
    → length bytes ≤ max_msg_size - c.last_msg.index
    → (c' : Connection Time) × (read_data recv now c ≡ some c')
      × IsMessage c'.last_msg
      × (pending c'.last_msg ≡ pending c.last_msg ++ bytes)
      × (c'.last_activity ≡ now)
      × (c'.connection_status ≡ ConnectionStatus.ok)
unfolding read_data
read_data_lem recv now c {bytes} v space got fits =
    let m = c.last_msg in
    (
      record {
        last_msg = record m { msg = fill m.msg m.index bytes; index = m.index + length bytes };
        last_activity = now;
        connection_status = ConnectionStatus.ok;
      },
      ground arith,
      record {
        size = length-fill m.msg m.index bytes ∙ v.size;
        begun = v.begun;
        stopped = omega (arith, v.stopped);
        inside = omega arith;
        seen =
            rw
              (slice-fill_before m.msg m.msg_begin (m.last_stop - m.msg_begin) m.index bytes
                (omega (arith, v.begun, v.stopped)))
              v.seen;
      },
      slice-append (fill m.msg m.index bytes) m.msg_begin (m.index - m.msg_begin) (length bytes)
            m.index (m.index + length bytes - m.msg_begin) (omega (arith, v.begun, v.stopped))
            (omega (arith, v.begun, v.stopped))
          ∙ rw
              (
                slice-fill m.msg m.index bytes (omega (arith, v.size)),
                slice-fill_before m.msg m.msg_begin (m.index - m.msg_begin) m.index bytes
                    (omega (arith, v.begun, v.stopped)),
              )
              refl,
      refl,
      refl,
    )
