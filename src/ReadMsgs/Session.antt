-- ===== src/ReadMsgs/Session.antt =====
-- A whole session: however the network cuts the stream of characters into deliveries, the messages
-- reported are the lines of the stream.
use ya_ircd.Prelude.{
  ℕ, ◌+◌, ◌-◌, ◌<◌, ◌≤◌, ◌≡◌, refl, sym, ◌∙◌, ap, List, [], ◌∷◌, ◌++◌, arith, length, Option, none,
  some, append-nil, append_assoc,
}
use ya_ircd.ReadMsgs.{Connection, max_msg_size, read_data}
use ya_ircd.ReadMsgs.Lines.{lines, lines-append, lines-rest, rest-NoNewline, NoNewline}
use ya_ircd.ReadMsgs.NextMsg.{pending, IsMessage}
use ya_ircd.ReadMsgs.Slices.{length-slice}
use ya_ircd.ReadMsgs.Stream.{drain, drain-IsDrained, IsDrained, read_data_lem}

module _ {Time : Type 0} where
  -- One event of the loop for each delivery: `read_data`, then the messages that are complete.
  -- 513 rounds are enough for a buffer of 512 characters.
  pub serve : List (List ℕ × Time) → Connection Time → Option (List (List ℕ) × Connection Time)
  serve [] c = some ([], c)
  serve ((bytes, now) ∷ ds) c = elim (read_data (λ n. some bytes) now c) [
    | none ↦ none
    | some c1 ↦ elim (drain 513 c1.last_msg) [
      | none ↦ none
      | some (ls, m) ↦ elim (serve ds (record c1 { last_msg = m })) [
        | none ↦ none
        | some (ls', c') ↦ some (ls ++ ls', c')
      ]
    ]
  ]

  abbrev pub received : List (List ℕ × Time) → List ℕ
  received [] = []
  received ((bytes, now) ∷ ds) = bytes ++ received ds

  -- `recv` delivers no more than the space that it is offered, and no unfinished line fills the
  -- buffer: behind `rest`, the characters of the line that has begun.
  abbrev pub Fits : List ℕ → List (List ℕ × Time) → Type 0
  Fits rest [] = Unit
  Fits rest ((bytes, now) ∷ ds) =
      (length rest < max_msg_size)
      × (length rest + length bytes ≤ max_msg_size)
      × Fits (lines (rest ++ bytes)).1 ds

  -- What a session has reported, and what it still holds.
  pub record Served (stream : List ℕ) (out : Option (List (List ℕ) × Connection Time))
      : Type 0 where
    pub last : Connection Time
    pub done : out ≡ some ((lines stream).0, last)
    pub rest : pending last.last_msg ≡ (lines stream).1

  -- One event in front of a session that goes on from what the event leaves.
  serve_cons :
      (bytes : List ℕ) (now : Time) (ds : List (List ℕ × Time)) (c c1 : Connection Time)
      → read_data (λ n. some bytes) now c ≡ some c1
      → pending c1.last_msg ≡ pending c.last_msg ++ bytes
      → (drained : IsDrained (pending c1.last_msg) (drain 513 c1.last_msg))
      → Served
          (pending drained.last ++ received ds)
          (serve ds (record c1 { last_msg = drained.last }))
      → Served (pending c.last_msg ++ received ((bytes, now) ∷ ds)) (serve ((bytes, now) ∷ ds) c)
  unfolding serve
  serve_cons bytes now ds c c1 read waits drained later =
      let whole = lines (pending drained.last ++ received ds) in
      let all : lines (pending c.last_msg ++ (bytes ++ received ds))
          ≡ ((lines (pending c1.last_msg)).0 ++ whole.0, whole.1) =
        ap lines (sym (append_assoc (pending c.last_msg) bytes (received ds)))
        ∙ ap (λ p. lines (p ++ received ds)) (sym waits)
        ∙ rw drained.rest (lines-append (pending c1.last_msg) (received ds)) in
      record {
        last = later.last;
        done = rw all (ground (arith, drained.done, later.done));
        rest = rw all later.rest;
      }

  -- From a well-formed buffer that holds an unfinished line at its beginning, and if `recv`
  -- delivers no more than it is offered and every unfinished line leaves space in the buffer: no
  -- cutting of the stream into deliveries changes the messages. They are the complete lines of the
  -- whole stream, each once and in order, and the characters behind the last newline wait in the
  -- buffer.
  pub serve-Served :
      (ds : List (List ℕ × Time)) (c : Connection Time)
      → IsMessage c.last_msg
      → c.last_msg.msg_begin ≡ 0
      → NoNewline (pending c.last_msg)
      → Fits (pending c.last_msg) ds
      → Served (pending c.last_msg ++ received ds) (serve ds c)
  unfolding serve
  serve-Served [] c v front none_yet fits =
      let e =
        ap lines (append-nil (pending c.last_msg)) ∙ lines-rest (pending c.last_msg) none_yet in
      record { last = c; done = rw e refl; rest = rw e refl }
  serve-Served ((bytes, now) ∷ ds) c v front none_yet fits =
      let filled =
        length-slice c.last_msg.msg c.last_msg.msg_begin
          (c.last_msg.index - c.last_msg.msg_begin) in
      let (c1, read, v1, waits, _, _) =
        read_data_lem (λ n. some bytes) now c {bytes = bytes} v (omega (arith, fits.0)) refl
          (omega (arith, fits.1)) in
      let drained = drain-IsDrained 513 c1.last_msg v1 (
        omega (
          arith,
          length-slice c1.last_msg.msg c1.last_msg.msg_begin
              (c1.last_msg.index - c1.last_msg.msg_begin),
          v1.inside,
        )) in
      let rest : pending drained.last ≡ (lines (pending c.last_msg ++ bytes)).1 =
        drained.rest ∙ ap (λ p. (lines p).1) waits in
      serve_cons bytes now ds c c1 read waits drained (
        serve-Served ds (record c1 { last_msg = drained.last }) drained.valid drained.front
          (rw rest (rest-NoNewline (pending c.last_msg ++ bytes))) (rw rest fits.2))
