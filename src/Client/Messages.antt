-- ===== src/Client/Messages.antt =====
-- The loop of `manage_client_messages` handles the lines that wait, one by one.
use ya_ircd.Prelude.{
  ℕ, zero, suc, ◌+◌, ◌-◌, ◌≤◌, ◌<◌, ◌≡◌, refl, sym, ap, ◌∙◌, inl, inr, true, false, ◌&&◌, ◌||◌,
  List, [], ◌∷◌, ◌++◌, Option, none, some, ◌==◌, leb, if◌then◌else◌, arith, length, length-set,
  get_or, get_or-set_ne, get_or-set_self, set, Bool-cases, Option-cases,
}
use ya_ircd.ReadMsgs.Slices.{slice, length-slice}
use ya_ircd.ParseMsg.{char_at, parse_msg}
use ya_ircd.ParseMsg.Scan.{IsBuffer, Kept}
use ya_ircd.ParseMsg.Bounds.{parse_msg-IsParsed}
use ya_ircd.ParseMsg.Placed.{placed}
use ya_ircd.ParseMsg.Placed.Message.{parse_msg-placed}
use ya_ircd.Client.{Handlers, handle_parsed, handle_msg}
use ya_ircd.Client.Strings.{set-placed-slice, nul-IsString, handle_parsed-placed}

-- A line without the carriage return at its end, if there is one.
unfoldable pub drop_cr : List ℕ → List ℕ
drop_cr [] = []
drop_cr (c ∷ []) = if c == b'\r' then [] else c ∷ []
drop_cr (c ∷ d ∷ cs) = c ∷ drop_cr (d ∷ cs)

module _ {S : Type 0} (handlers : Handlers S) where
  -- A text on its own: an empty one is ignored, another is parsed and handled.
  unfoldable pub handle_text : List ℕ → S → Option S
  handle_text [] s = some s
  handle_text (c ∷ cs) s = handle_parsed handlers (parse_msg (c ∷ (cs ++ (0 ∷ []))) 0) s

  -- Lines, one after the other, until one ends the session.
  unfoldable pub handle_lines : List (List ℕ) → S → Option S
  unfolding handle_text
  handle_lines [] s = some s
  handle_lines (l ∷ ls) s = elim (handle_text (drop_cr l) s) [
    | none ↦ none
    | some s' ↦ handle_lines ls s'
  ]

drop_cr-slice :
    (buf : List ℕ) (at n : ℕ) {last : ℕ}
    → last ≡ at + n
    → drop_cr (slice buf at (suc n))
      ≡ (if get_or buf last 0 == b'\r' then slice buf at n else slice buf at (suc n))
unfolding drop_cr
drop_cr-slice buf at zero {last} e = let e' : last ≡ at = omega arith in rw e' refl
drop_cr-slice buf at (suc n) {last} e =
    ap (λ l. get_or buf at 0 ∷ l) (drop_cr-slice buf (at + 1) n {last = last} (omega arith))
    ∙ elim (Bool-cases (get_or buf last 0 == b'\r')) [ inl y ↦ rw y refl | inr y ↦ rw y refl ]

-- The body of the loop, on a message of the buffer.
pub record Handled {S : Type 0} (handlers : Handlers S) (buf : List ℕ) (size at : ℕ) (s : S)
    (out : Option S × List ℕ) : Type 0 where
  pub result : out.0 ≡ handle_text handlers (drop_cr (slice buf at size)) s
  pub same_length : length out.1 ≡ length buf
  pub beyond : (j : ℕ) → at + size < j → get_or out.1 j 0 ≡ get_or buf j 0

module _ {S : Type 0} (handlers : Handlers S) where
  -- The text that ends in front of `stop`, where the handler puts its `NUL`.
  parsed_text :
      (buf : List ℕ) (at n : ℕ) {stop : ℕ} (s : S)
      → stop ≡ at + suc n
      → stop < length buf
      → handle_parsed handlers (parse_msg (set buf stop 0) at) s
        ≡ handle_text handlers (slice buf at (suc n)) s
  unfolding handle_text
  parsed_text buf at n {stop} s e h =
      let pre = slice buf 0 at in
      let post = slice buf (stop + 1) (length buf - (stop + 1)) in
      let str = slice buf at (suc n) ++ (0 ∷ []) in
      let size : stop - at ≡ suc n = omega arith in
      let whole = set-placed-slice buf at stop (omega arith) h in
      let cut : set buf stop 0 ≡ placed pre post str = rw size at whole in
      let there : at ≡ length pre + 0 = omega (arith, length-slice buf 0 at) in
      let v = nul-IsString (slice buf at (suc n)) in
      let inside : 0 < length str = omega arith in
      let (parsed, kept) = parse_msg-IsParsed str 0 v inside in
      rw (cut, parse_msg-placed pre post str 0 v there inside)
        (handle_parsed-placed pre post handlers (parse_msg str 0).0 (parse_msg str 0).1 s
          (rw kept.same_length kept.still) (rw kept.same_length parsed))

  -- Nothing behind that `NUL` is written.
  parsed-Kept :
      (buf : List ℕ) (at : ℕ) {stop : ℕ}
      → at ≤ stop
      → stop < length buf
      → Kept (stop + 1) (set buf stop 0) (parse_msg (set buf stop 0) at).1
  parsed-Kept buf at {stop} e h =
      let here : stop + 1 - 1 ≡ stop = omega arith in
      let v : IsBuffer (stop + 1) (set buf stop 0) = record {
        fits = omega (arith, length-set buf stop 0);
        ended = rw here (get_or-set_self buf stop 0 0 h);
      } in
      (parse_msg-IsParsed (set buf stop 0) at v (omega arith)).1

  parsed_beyond :
      (buf : List ℕ) (at : ℕ) {stop : ℕ}
      → at ≤ stop
      → stop < length buf
      → (j : ℕ) → stop < j
      → get_or (parse_msg (set buf stop 0) at).1 j 0 ≡ get_or buf j 0
  parsed_beyond buf at {stop} e h j behind =
      let there : stop + 1 + (j - (stop + 1)) ≡ j = omega arith in
      let same = (parsed-Kept buf at e h).beyond (j - (stop + 1)) in
      (rw there at same) ∙ get_or-set_ne buf 0 0 (omega arith)

  handle_text_at :
      (buf : List ℕ) (at n size : ℕ) {stop : ℕ} (s : S)
      → stop ≡ at + suc n
      → stop ≤ at + size
      → stop < length buf
      → drop_cr (slice buf at size) ≡ slice buf at (suc n)
      → let parsed = parse_msg (set buf stop 0) at in
        Handled handlers buf size at s (handle_parsed handlers parsed s, parsed.1)
  handle_text_at buf at n size {stop} s e within h text = record {
    result = parsed_text buf at n s e h ∙ ap (λ l. handle_text handlers l s) (sym text);
    same_length =
        (parsed-Kept buf at {stop = stop} (omega arith) h).same_length ∙ length-set buf stop 0;
    beyond = λ j behind. parsed_beyond buf at {stop = stop} (omega arith) h j (omega arith);
  }

  handle_msg-cr :
      (buf : List ℕ) (n at : ℕ) (s : S)
      → at + suc n < length buf
      → (char_at buf (at + n) == b'\r') ≡ true
      → Handled handlers buf (suc n) at s (handle_msg handlers buf (suc n) at s)
  unfolding handle_msg handle_text
  handle_msg-cr buf zero at s h cr =
      let last : at + (1 - 1) ≡ at + 0 = omega arith in
      let text = drop_cr-slice buf at 0 refl in
      let gone = rw cr at text in
      rw (last, cr)
        (record { result = rw gone refl; same_length = refl; beyond = λ j behind. refl })
  handle_msg-cr buf (suc m) at s h cr =
      let last : at + (suc (suc m) - 1) ≡ at + suc m = omega arith in
      let text = drop_cr-slice buf at (suc m) refl in
      let longer : leb 1 (suc (suc m)) ≡ true = ground arith in
      let go : (suc (suc m) == 0 || (suc (suc m) == 1 && true)) ≡ false = ground arith in
      rw (last, cr, go, longer)
        (handle_text_at buf at m (suc (suc m)) s refl (omega arith) (omega arith) (rw cr at text))

  pub handle_msg-Handled :
      (buf : List ℕ) (size at : ℕ) (s : S)
      → at + size < length buf
      → Handled handlers buf size at s (handle_msg handlers buf size at s)
  unfolding handle_msg handle_text drop_cr
  handle_msg-Handled buf zero at s h = record {
    result = refl;
    same_length = refl;
    beyond = λ j behind. refl;
  }
  handle_msg-Handled buf (suc n) at s h =
      let last : at + (suc n - 1) ≡ at + n = omega arith in
      let text = drop_cr-slice buf at n refl in
      let longer : leb 1 (suc n) ≡ true = ground arith in
      elim (Bool-cases (char_at buf (at + n) == b'\r')) [
        | inr plain ↦
            let go : (suc n == 0 || (suc n == 1 && false)) ≡ false = ground arith in
            rw (last, plain, go, longer)
              (handle_text_at buf at n (suc n) s refl (omega arith) h (rw plain at text))
        | inl cr ↦ handle_msg-cr buf n at s h cr
      ]

  -- A session over more lines goes on where the first lines leave it.
  pub handle_lines-append :
      (ls ls' : List (List ℕ)) (s : S)
      → handle_lines handlers (ls ++ ls') s
        ≡ elim (handle_lines handlers ls s) [ none ↦ none | some s' ↦ handle_lines handlers ls' s' ]
  unfolding handle_lines
  handle_lines-append [] ls' s = refl
  handle_lines-append (l ∷ ls) ls' s = elim (Option-cases (handle_text handlers (drop_cr l) s)) [
    | inl over ↦ rw (handle_lines, over) refl
    | inr (s', next) ↦ rw (handle_lines, next) (handle_lines-append ls ls' s')
  ]
