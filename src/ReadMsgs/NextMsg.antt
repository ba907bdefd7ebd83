-- ===== src/ReadMsgs/NextMsg.antt =====
-- `next_msg` takes one line off the characters that are waiting.
use ya_ircd.Prelude.{
  ℕ, zero, suc, ◌+◌, ◌-◌, ◌<◌, ◌≤◌, ◌≡◌, ◌≢◌, refl, sym, ◌∙◌, ap, List, [], ◌∷◌, ◌++◌, ◌==◌, ==_iff,
  arith, length, Bool-cases, inl, inr, ◌⊎◌, get_or, Option, none, some,
}
use ya_ircd.ReadMsgs.{
  IrcMessage, max_msg_size, scan, next_msg, bring_to_top, initialize_irc_message,
}
use ya_ircd.ReadMsgs.Slices.{slice, length-slice, slice-append, length-copy, slice-copy}
use ya_ircd.ReadMsgs.Lines.{NoNewline}

-- The received characters that belong to no reported message.
abbrev pub pending : IrcMessage → List ℕ
pending m = slice m.msg m.msg_begin (m.index - m.msg_begin)

-- `msg_begin`, `last_stop` and `index` stand in this order in the buffer, and no newline lies
-- between the first two: `next_msg` has looked at those characters before.
pub record IsMessage (m : IrcMessage) : Type 0 where
  pub size : length m.msg ≡ max_msg_size
  pub begun : m.msg_begin ≤ m.last_stop
  pub stopped : m.last_stop ≤ m.index
  pub inside : m.index ≤ max_msg_size
  pub seen : NoNewline (slice m.msg m.msg_begin (m.last_stop - m.msg_begin))

pub NoNewline-append : (p q : List ℕ) → NoNewline p → NoNewline q → NoNewline (p ++ q)
NoNewline-append [] q v w = w
NoNewline-append (c ∷ p) q v w = (v.0, NoNewline-append p q v.1 w)

-- Where the loop stops, and what it has passed over.
pub record Scanned (buf : List ℕ) (i n j : ℕ) : Type 0 where
  pub low : i ≤ j
  high : j ≤ i + n
  passed : NoNewline (slice buf i (j - i))
  found : (j ≡ i + n) ⊎ (get_or buf j 0 ≡ b'\n')

scan-Scanned : (buf : List ℕ) (i n : ℕ) → Scanned buf i n (scan buf i n)
unfolding scan
scan-Scanned buf i zero =
    let e : i - i ≡ 0 = omega arith in
    record { low = omega arith; high = omega arith; passed = rw e tt; found = inl (omega arith) }
scan-Scanned buf i (suc n) = elim (Bool-cases (get_or buf i 0 == b'\n')) [
  | inl here ↦ rw here (
      let e : i - i ≡ 0 = omega arith in
      record {
        low = omega arith;
        high = omega arith;
        passed = rw e tt;
        found = inr ((==_iff _ _).0 here);
      })
  | inr more ↦ rw more (
      let j = scan buf (i + 1) n in
      let ih = scan-Scanned buf (i + 1) n in
      let e : j - i ≡ suc (j - (i + 1)) = omega (arith, ih.low) in
      record {
        low = omega (arith, ih.low);
        high = omega (arith, ih.high);
        passed = rw e ((λ nl. cc ((==_iff (get_or buf i 0) b'\n').1 nl)), ih.passed);
        found = ground (arith, ih.found);
      })
]

-- What a call of `next_msg` returned, and how it changed what is waiting. Either no line is
-- complete and nothing is lost; or the line lies where it is reported, inside the buffer, with a
-- newline behind it and none in it, and the line and its newline are off the front of what waits.
abbrev pub Took : IrcMessage → Option (ℕ × ℕ) → IrcMessage → Type 0
Took m none m' =
    NoNewline (pending m)
    × (pending m' ≡ pending m)
    × (m'.msg_begin ≡ 0)
    × (m'.index ≡ length (pending m))
Took m (some (len, at)) m' =
    NoNewline (slice m'.msg at len)
    × (pending m ≡ slice m'.msg at len ++ (b'\n' ∷ pending m'))
    × (at + len < max_msg_size)
    × (get_or m'.msg (at + len) 0 ≡ b'\n')

module _ (m : IrcMessage) (v : IsMessage m) where
  pub stop : ℕ
  stop = scan m.msg m.last_stop (m.index - m.last_stop)

  pub scanned : Scanned m.msg m.last_stop (m.index - m.last_stop) stop
  unfolding stop
  scanned = scan-Scanned m.msg m.last_stop (m.index - m.last_stop)

  -- No newline stands between the beginning of the message and the place where the loop stops.
  line-NoNewline : NoNewline (slice m.msg m.msg_begin (stop - m.msg_begin))
  line-NoNewline =
      let low = scanned.low in
      let before = v.begun in
      rw
        (slice-append m.msg m.msg_begin (m.last_stop - m.msg_begin) (stop - m.last_stop) m.last_stop
          (stop - m.msg_begin) (omega arith) (omega arith))
        (NoNewline-append _ _ v.seen scanned.passed)

  moved :
      slice (bring_to_top m.msg 0 m.msg_begin (m.index - m.msg_begin)) 0 (m.index - m.msg_begin - 0)
      ≡ pending m
  unfolding bring_to_top
  moved =
      let e : m.index - m.msg_begin - 0 ≡ m.index - m.msg_begin = omega arith in
      rw e (elim (Bool-cases (m.msg_begin == 0)) [
        | inl first ↦
            rw first (
              ap (λ k. slice m.msg k (m.index - m.msg_begin))
                (sym ((==_iff m.msg_begin 0).0 first)))
        | inr later ↦ rw later (
            slice-copy m.msg 0 m.msg_begin (m.index - m.msg_begin) (ground arith)
              (omega (arith, v.size, v.inside, v.begun, v.stopped)))
      ])

  -- The array that `bring_to_top` leaves has its size.
  length-moved : length (bring_to_top m.msg 0 m.msg_begin (m.index - m.msg_begin)) ≡ max_msg_size
  unfolding bring_to_top
  length-moved = ground (arith, length-copy m.msg 0 m.msg_begin (m.index - m.msg_begin))

  pub next_msg-none :
      stop ≡ m.index
      → Took m none (next_msg m).1 × IsMessage (next_msg m).1 × ((next_msg m).0 ≡ none)
  unfolding next_msg stop
  next_msg-none e =
      let whole = rw e at line-NoNewline in
      rw ((==_iff stop m.index).1 e) (
        (whole, moved, refl, sym (length-slice _ _ _)),
        record {
          size = length-moved;
          begun = omega arith;
          stopped = omega arith;
          inside = omega (arith, v.inside);
          seen = rw moved whole;
        },
        refl,
      )

  -- What waits is the line that ends at `stop`, its newline, and the rest.
  cut :
      stop ≢ m.index
      → (stop < m.index)
        × (get_or m.msg stop 0 ≡ b'\n')
        × (pending m
            ≡ slice m.msg m.msg_begin (stop - m.msg_begin)
              ++ (b'\n' ∷ slice m.msg (stop + 1) (m.index - (stop + 1))))
  cut ne =
      let low = scanned.low in
      let high = scanned.high in
      let before = v.begun in
      let within = v.stopped in
      let newline : get_or m.msg stop 0 ≡ b'\n' = ground (arith, scanned.found) in
      let here : stop < m.index = omega arith in
      let some_left : m.index - stop ≡ suc (m.index - (stop + 1)) = omega arith in
      (
        here,
        newline,
        slice-append m.msg m.msg_begin (stop - m.msg_begin) (m.index - stop) stop
              (m.index - m.msg_begin) (omega arith) (omega arith)
            ∙ rw (some_left, newline) refl,
      )

  abbrev pub reported : Option (ℕ × ℕ)
  reported = some (stop - m.msg_begin, m.msg_begin)

  -- At the end of the array it starts over at its beginning.
  pub ended_wrap :
      stop ≢ m.index
      → stop + 1 ≡ 512
      → next_msg m ≡ (reported, record m { index = 0; last_stop = 0; msg_begin = 0 })
  unfolding next_msg stop initialize_irc_message
  ended_wrap ne wrap = ground arith

  pub ended_more :
      stop ≢ m.index
      → stop + 1 ≢ 512
      → next_msg m ≡ (reported, record m { last_stop = stop + 1; msg_begin = stop + 1 })
  unfolding next_msg stop
  ended_more ne more = ground arith

  next_msg-some :
      stop ≢ m.index
      → Took m reported (next_msg m).1 × IsMessage (next_msg m).1 × ((next_msg m).0 ≡ reported)
  next_msg-some ne =
      let (here, newline, parts) = cut ne in
      let low = scanned.low in
      let at : m.msg_begin + (stop - m.msg_begin) ≡ stop = omega (arith, v.begun) in
      let inside : stop < 512 = omega (arith, v.inside) in
      elim (Bool-cases (stop + 1 == 512)) [
        | inl wrap ↦
            let full : stop + 1 ≡ 512 = (==_iff _ _).0 wrap in
            let none_left : m.index - (stop + 1) ≡ 0 = omega (arith, v.inside) in
            rw (ended_wrap ne full) (
              (line-NoNewline, rw none_left at parts, rw at inside, rw at newline),
              record {
                size = v.size;
                begun = omega arith;
                stopped = omega arith;
                inside = omega arith;
                seen = tt;
              },
              refl,
            )
        | inr more ↦
            let same : stop + 1 - (stop + 1) ≡ 0 = omega arith in
            rw (ended_more ne (ground arith)) (
              (line-NoNewline, parts, rw at inside, rw at newline),
              record {
                size = v.size;
                begun = omega arith;
                stopped = omega arith;
                inside = v.inside;
                seen = rw same tt;
              },
              refl,
            )
      ]

-- On a well-formed buffer, one call of `next_msg` reports the first complete line that waits, or,
-- exactly when none does, that there is none; in both cases no other character is lost or
-- reordered, and the buffer stays well formed.
pub next_msg-Took :
    (m : IrcMessage) → IsMessage m → Took m (next_msg m).0 (next_msg m).1 × IsMessage (next_msg m).1
next_msg-Took m v = elim (Bool-cases (stop m v == m.index)) [
  | inl end ↦ let (took, valid, e) = next_msg-none m v ((==_iff _ _).0 end) in rw e (took, valid)
  | inr more ↦ let (took, valid, e) = next_msg-some m v (ground arith) in rw e (took, valid)
]
