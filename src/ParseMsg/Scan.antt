-- ===== src/ParseMsg/Scan.antt =====
-- The loops over the characters of a buffer stay inside it.
use ya_ircd.Prelude.{
  ℕ, zero, suc, ◌+◌, ◌-◌, ◌≤◌, ◌<◌, ◌≡◌, ◌≢◌, refl, inl, inr, ◌∙◌, Bool, false, not, ◌&&◌, List,
  ◌==◌, ==_iff, arith, length, get_or, set, length-set, get_or-set_self, get_or-set_ne, Bool-cases,
}
use ya_ircd.ParseMsg.{char_at, skip_while, skip}

-- An array whose first `size` characters end with `NUL`, so that every string that begins among
-- them ends among them.
pub record IsBuffer (size : ℕ) (buf : List ℕ) : Type 0 where
  pub fits : size ≤ length buf
  pub ended : get_or buf (size - 1) 0 ≡ 0

-- Where a loop stops: inside the buffer, at a `NUL` or a character that it does not pass over.
pub record Stopped (p : ℕ → Bool) (size : ℕ) (buf : List ℕ) (i j : ℕ) : Type 0 where
  pub low : i ≤ j
  pub high : j < size
  pub here : (not (char_at buf j == 0) && p (char_at buf j)) ≡ false

-- A character that is not `NUL` is not the last.
pub next_in :
    {size : ℕ} {buf : List ℕ} {i : ℕ}
    → IsBuffer size buf
    → i < size
    → char_at buf i ≢ 0
    → i + 1 < size
next_in {size = size} {buf = buf} {i = i} v h ne = elim (Bool-cases (i == size - 1)) [
  | inl e ↦ absurd (ne (rw ((==_iff i (size - 1)).0 e) v.ended))
  | inr other ↦ ground arith
]

skip_while-Stopped :
    (p : ℕ → Bool) (size : ℕ) (buf : List ℕ) (i n : ℕ)
    → IsBuffer size buf
    → size ≤ i + n
    → i < size
    → Stopped p size buf i (skip_while p buf i n)
unfolding skip_while
skip_while-Stopped p size buf i zero v e h = absurd (omega arith)
skip_while-Stopped p size buf i (suc n) v e h =
    elim (Bool-cases (not (char_at buf i == 0) && p (char_at buf i))) [
      | inr stop ↦ rw stop (record { low = omega arith; high = h; here = stop })
      | inl more ↦
          let last : i + 1 < size = next_in v h (ground arith) in
          let ih = skip_while-Stopped p size buf (i + 1) n v (omega arith) (omega arith) in
          rw more (record { low = omega (arith, ih.low); high = ih.high; here = ih.here })
    ]

pub skip-Stopped :
    (p : ℕ → Bool) {size : ℕ} {buf : List ℕ} {i : ℕ}
    → IsBuffer size buf
    → i < size
    → Stopped p size buf i (skip p buf i)
skip-Stopped p {size = size} {buf = buf} {i = i} v h =
    skip_while-Stopped p size buf i (length buf - i) v (omega (arith, v.fits)) h

-- Ending a string at a place keeps the last `NUL`.
pub set-IsBuffer :
    {size : ℕ} {buf : List ℕ} (j : ℕ) → IsBuffer size buf → j < size → IsBuffer size (set buf j 0)
set-IsBuffer {size = size} {buf = buf} j v h = record {
  fits = omega (arith, length-set buf j 0, v.fits);
  ended = elim (Bool-cases (j == size - 1)) [
    | inl e ↦ rw (← (==_iff _ _).0 e) (get_or-set_self buf j 0 0 (omega (arith, v.fits)))
    | inr ne ↦ get_or-set_ne buf 0 0 (ground arith) ∙ v.ended
  ];
}

-- The writes of a parse: the first `size` characters still end with `NUL`, and those behind them
-- are as they were.
pub record Kept (size : ℕ) (buf buf' : List ℕ) : Type 0 where
  pub still : IsBuffer size buf'
  pub same_length : length buf' ≡ length buf
  pub beyond : (k : ℕ) → get_or buf' (size + k) 0 ≡ get_or buf (size + k) 0

pub Kept-refl : {size : ℕ} {buf : List ℕ} → IsBuffer size buf → Kept size buf buf
Kept-refl v = record { still = v; same_length = refl; beyond = λ k. refl }

pub Kept-trans :
    {size : ℕ} {buf buf' buf'' : List ℕ}
    → Kept size buf buf'
    → Kept size buf' buf''
    → Kept size buf buf''
Kept-trans p q = record {
  still = q.still;
  same_length = q.same_length ∙ p.same_length;
  beyond = λ k. q.beyond k ∙ p.beyond k;
}

pub set-Kept :
    {size : ℕ} {buf : List ℕ} (j : ℕ) → IsBuffer size buf → j < size → Kept size buf (set buf j 0)
set-Kept {buf = buf} j v h = record {
  still = set-IsBuffer j v h;
  same_length = length-set buf j 0;
  beyond = λ k. get_or-set_ne buf 0 0 (omega arith);
}
