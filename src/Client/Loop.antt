-- ===== src/Client/Loop.antt =====
-- What an event on a client's socket comes to: the lines that are complete are handled.
use ya_ircd.Prelude.{
  ℕ, zero, suc, ◌+◌, ◌-◌, ◌<◌, ◌≡◌, refl, ap, ◌∙◌, inl, inr, List, Option, none, some, get_or,
  arith, length, length-append, Option-cases,
}
use ya_ircd.ReadMsgs.{IrcMessage, next_msg}
use ya_ircd.ReadMsgs.Slices.{slice, slice-ext}
use ya_ircd.ReadMsgs.Lines.{lines, lines-rest, lines-line}
use ya_ircd.ReadMsgs.NextMsg.{pending, IsMessage, Took, next_msg-Took}
use ya_ircd.ReadMsgs.Behind.{Behind, next_msg-Behind}
use ya_ircd.Client.{Handlers, Outcome, handle_msg, handle_msgs}
use ya_ircd.Client.Messages.{drop_cr, handle_text, handle_lines, handle_msg-Handled}

-- The reader's buffer behind an event: well formed, with `rest` at its front.
pub record Waits (rest : List ℕ) (m : IrcMessage) : Type 0 where
  pub valid : IsMessage m
  pub rest_waits : pending m ≡ rest
  pub front : m.msg_begin ≡ 0
  pub filled : m.index ≡ length rest

-- The outcome of an event, from that of handling the lines.
abbrev pub Reached : {S : Type 0} → Option S → List ℕ → Outcome S IrcMessage → Type 0
Reached none rest out = out ≡ Outcome.ended
Reached (some s) rest out = (m : IrcMessage) × (out ≡ Outcome.running s m) × Waits rest m

-- Writes to a message leave what waits behind it.
Behind-IsMessage :
    (m : IrcMessage) (len at : ℕ) (buf : List ℕ)
    → IsMessage m
    → Behind m len at
    → length buf ≡ length m.msg
    → ((j : ℕ) → at + len < j → get_or buf j 0 ≡ get_or m.msg j 0)
    → let m' = record m { msg = buf } in IsMessage m' × (pending m' ≡ pending m)
Behind-IsMessage m len at buf v (stopped, place) size same =
    let none_seen : m.last_stop - m.msg_begin ≡ 0 = omega arith in
    (
      record {
        size = size ∙ v.size;
        begun = v.begun;
        stopped = v.stopped;
        inside = v.inside;
        seen = rw none_seen tt;
      },
      elim place [
        | inl before ↦
            slice-ext buf m.msg m.msg_begin (m.index - m.msg_begin) (λ j h. same j (omega arith))
        | inr empty ↦ let none_left : m.index - m.msg_begin ≡ 0 = omega arith in rw none_left refl
      ],
    )

module _ {S : Type 0} (handlers : Handlers S) where
  -- What an event with these characters waiting has to come to.
  abbrev pub Managed : List ℕ → S → Outcome S IrcMessage → Type 0
  Managed waited s out = Reached (handle_lines handlers (lines waited).0 s) (lines waited).1 out

  Managed-more :
      (fuel : ℕ) (m m' : IrcMessage) (len at : ℕ) (s : S)
      → IsMessage m'
      → Took m (some (len, at)) m'
      → Behind m' len at
      → next_msg m ≡ (some (len, at), m')
      → ((m'' : IrcMessage) (s' : S)
          → IsMessage m''
          → pending m'' ≡ pending m'
          → Managed (pending m') s' (handle_msgs handlers fuel m'' s'))
      → Managed (pending m) s (handle_msgs handlers (suc fuel) m s)
  unfolding handle_msgs handle_lines
  Managed-more fuel m m' len at s v (line, parts, inside, newline) place e later =
      let handled = handle_msg-Handled handlers m'.msg len at s (omega (arith, v.size)) in
      let buf = (handle_msg handlers m'.msg len at s).1 in
      let (valid, waits) =
        Behind-IsMessage m' len at buf v place handled.same_length handled.beyond in
      let all = ap lines parts ∙ lines-line (slice m'.msg at len) (pending m') line in
      elim (Option-cases (handle_text handlers (drop_cr (slice m'.msg at len)) s)) [
        | inl over ↦ rw (all, handle_lines, handle_msgs, over, e, e, handled.result ∙ over) refl
        | inr (s', next) ↦
            rw (all, handle_lines, handle_msgs, next, e, e, handled.result ∙ next, e)
              (later (record m' { msg = buf }) s' valid waits)
      ]

  -- On a well-formed buffer, and with more rounds than characters waiting, the loop of
  -- `manage_client_messages` ends, and it has come to what the complete lines that waited come to
  -- when each is taken on its own, in order: the carriage return at its end is dropped, an empty
  -- line is ignored, and any other is parsed and handled, until one ends the session. Neither the
  -- other lines nor the writes of the parser change what a handler is given; the characters
  -- behind the last newline wait at the front of a well-formed buffer.
  pub manage-Managed :
      (fuel : ℕ) (m : IrcMessage) (s : S)
      → IsMessage m
      → length (pending m) < fuel
      → Managed (pending m) s (handle_msgs handlers fuel m s)
  unfolding handle_msgs handle_lines
  manage-Managed zero m s v h = absurd (omega arith)
  manage-Managed (suc fuel) m s v h =
      let (took, valid) = next_msg-Took m v in
      elim (Option-cases (next_msg m).0) [
        | inl e ↦
            let (none_left, same, front, filled) = rw e at took in
            rw (lines-rest (pending m) none_left, handle_msgs, e)
              (
                (next_msg m).1,
                refl,
                record { valid = valid; rest_waits = same; front = front; filled = filled },
              )
        | inr ((len, at), e) ↦
            let line = rw e at took in
            let shorter = ap length line.1 ∙ length-append (slice (next_msg m).1.msg at len) _ in
            Managed-more fuel m (next_msg m).1 len at s valid line (next_msg-Behind m v e)
              (ground arith)
              (λ m'' s' v'' waits.
                let h'' : length (pending m'') < fuel = rw waits (omega arith) in
                let ih = manage-Managed fuel m'' s' v'' h'' in rw waits at ih)
      ]
