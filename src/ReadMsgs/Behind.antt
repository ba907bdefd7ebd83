-- ===== src/ReadMsgs/Behind.antt =====
-- Where a message that `next_msg` reports stands: before the characters that still wait, which
-- writes to the message therefore leave.
use ya_ircd.Prelude.{
  ℕ, ◌+◌, ◌-◌, ◌<◌, ◌≡◌, ◌⊎◌, inl, inr, refl, ap, none, some, ◌==◌, ==_iff, arith, Bool-cases,
}
use ya_ircd.ReadMsgs.{IrcMessage, next_msg}
use ya_ircd.ReadMsgs.NextMsg.{
  IsMessage, stop, scanned, next_msg-none, reported, ended_wrap, ended_more,
}

-- The message at `at` lies before what waits, unless nothing waits.
abbrev pub Behind : IrcMessage → ℕ → ℕ → Type 0
Behind m len at = (m.last_stop ≡ m.msg_begin) × ((at + len < m.msg_begin) ⊎ (m.index ≡ m.msg_begin))

reported-stop :
    (m : IrcMessage) (v : IsMessage m) {len at : ℕ}
    → reported m v ≡ some (len, at)
    → at + len ≡ stop m v
reported-stop m v {len} {at} e =
    let low = (scanned m v).low in
    let begun = v.begun in
    let len_same : stop m v - m.msg_begin ≡ len = ap (λ o. elim o [ none ↦ 0 | some p ↦ p.0 ]) e in
    let at_same : m.msg_begin ≡ at = ap (λ o. elim o [ none ↦ 0 | some p ↦ p.1 ]) e in omega arith

pub next_msg-Behind :
    (m : IrcMessage) {len at : ℕ}
    → IsMessage m
    → (next_msg m).0 ≡ some (len, at)
    → Behind (next_msg m).1 len at
next_msg-Behind m {len} {at} v e = elim (Bool-cases (stop m v == m.index)) [
  | inl end ↦
      let (took, valid, none_left) = next_msg-none m v ((==_iff _ _).0 end) in absurd (ground arith)
  | inr more ↦ elim (Bool-cases (stop m v + 1 == 512)) [
    | inl wrap ↦ let full = ended_wrap m v (ground arith) (ground arith) in rw full (refl, inr refl)
    | inr short ↦
        let part = ended_more m v (ground arith) (ground arith) in
        let here = reported-stop m v (rw part at e) in rw part (refl, inl (omega arith))
  ]
]
