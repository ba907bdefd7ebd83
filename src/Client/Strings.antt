-- ===== src/Client/Strings.antt =====
-- Strings that stand in the input buffer, as the handlers read them.
use ya_ircd.Prelude.{
  ℕ, zero, suc, ◌+◌, ◌-◌, ◌≤◌, ◌<◌, ◌≡◌, refl, sym, ap, ap₂, ◌∙◌, inl, inr, true, List, [], ◌∷◌,
  ◌++◌, map, Option, none, some, arith, length, length-append, length-set, get_or, set,
  append_assoc, get_or-append_right, get_or-set_self,
}
use ya_ircd.ReadMsgs.Slices.{slice, slice-append, slice-set}
use ya_ircd.ParseMsg.{skip, Parsed}
use ya_ircd.ParseMsg.Scan.{skip-Stopped}
use ya_ircd.ParseMsg.Bounds.{AllBelow, InPrefix, IsParsed}
use ya_ircd.ParseMsg.Placed.{IsString, k, placed, char_at-placed, skip-placed, shift, shift_result}
use ya_ircd.Client.{c_str, read_prefix, read_message, Handlers, handle_parsed}

slice-cons : (x : ℕ) (xs : List ℕ) (i n : ℕ) → slice (x ∷ xs) (suc i) n ≡ slice xs i n
slice-cons x xs i zero = refl
slice-cons x xs i (suc n) =
    let e : suc i + 1 ≡ suc (i + 1) = omega arith in
    rw e (ap (λ l. get_or xs i 0 ∷ l) (slice-cons x xs (i + 1) n))

slice-whole : (xs : List ℕ) → slice xs 0 (length xs) ≡ xs
slice-whole [] = refl
slice-whole (x ∷ xs) = ap (λ l. x ∷ l) (slice-cons x xs 0 (length xs) ∙ slice-whole xs)

-- An array with a `NUL` written behind a stretch of it.
pub set-placed-slice :
    (buf : List ℕ) (at stop : ℕ)
    → at ≤ stop
    → stop < length buf
    → set buf stop 0
      ≡ placed
          (slice buf 0 at)
          (slice buf (stop + 1) (length buf - (stop + 1)))
          (slice buf at (stop - at) ++ (0 ∷ []))
set-placed-slice buf at stop h inside =
    let cut = set buf stop 0 in
    let rest = length buf - (stop + 1) in
    let all : length cut ≡ at + suc (stop - at + rest) = omega (arith, length-set buf stop 0) in
    let tail : slice cut stop (suc rest) ≡ 0 ∷ slice buf (stop + 1) rest =
      ap₂ ◌∷◌ (get_or-set_self buf stop 0 0 inside)
        (slice-set buf (stop + 1) rest stop 0 (inl (omega arith))) in
    sym (slice-whole cut)
    ∙ ap (slice cut 0) all
    ∙ slice-append cut 0 at (suc (stop - at + rest)) at (at + suc (stop - at + rest)) (omega arith)
        refl
    ∙ ap₂ ◌++◌ (slice-set buf 0 at stop 0 (inr (omega arith))) (
        slice-append cut at (stop - at) (suc rest) stop (suc (stop - at + rest)) (omega arith)
          (omega arith)
        ∙ ap₂ ◌++◌ (slice-set buf at (stop - at) stop 0 (inr (omega arith))) tail
        ∙ sym (append_assoc (slice buf at (stop - at)) (0 ∷ []) (slice buf (stop + 1) rest)))

-- A `NUL` behind characters makes a string of them.
pub nul-IsString : (cs : List ℕ) → IsString (cs ++ (0 ∷ []))
nul-IsString cs =
    let all = length-append cs (0 ∷ []) in
    let last : length (cs ++ (0 ∷ [])) - 1 ≡ length cs + 0 = omega arith in
    record { fits = omega arith; ended = rw last (get_or-append_right cs (0 ∷ []) 0 0) }

module _ (pre post : List ℕ) where
  slice-placed :
      (str : List ℕ) (i n : ℕ) {j : ℕ}
      → j ≡ k pre post + i
      → i + n ≤ length str
      → slice (placed pre post str) j n ≡ slice str i n
  slice-placed str i zero e h = refl
  slice-placed str i (suc n) e h =
      ap₂ ◌∷◌ (char_at-placed pre post str i e (omega arith))
        (slice-placed str (i + 1) n (omega arith) (omega arith))

  c_str-placed :
      (str : List ℕ) (i : ℕ)
      → IsString str
      → i < length str
      → c_str (placed pre post str) (k pre post + i) ≡ c_str str i
  unfolding c_str
  c_str-placed str i v h =
      let stop = skip-Stopped (λ c. true) {i = i} v h in
      let n = skip (λ c. true) str i in
      let size : k pre post + n - (k pre post + i) ≡ n - i = omega arith in
      rw (skip-placed pre post (λ c. true) str i v refl h, size)
        (slice-placed str i (n - i) refl (omega (arith, stop.low, stop.high)))

  map-c_str-placed :
      (str : List ℕ) (ps : List ℕ)
      → IsString str
      → AllBelow (length str) ps
      → map (c_str (placed pre post str)) (map (λ i. k pre post + i) ps) ≡ map (c_str str) ps
  map-c_str-placed str [] v h = refl
  map-c_str-placed str (p ∷ ps) v h =
      ap₂ ◌∷◌ (c_str-placed str p v h.0) (map-c_str-placed str ps v h.1)

  read_prefix-placed :
      (str : List ℕ) (p : Option ℕ)
      → IsString str
      → InPrefix (length str) p
      → read_prefix (placed pre post str) (shift pre post p) ≡ read_prefix str p
  unfolding read_prefix
  read_prefix-placed str none v h = refl
  read_prefix-placed str (some i) v h = ap some (c_str-placed str i v h)

  -- What a handler is given does not depend on where in the buffer the message stands.
  pub handle_parsed-placed :
      {S : Type 0} (handlers : Handlers S) (r : Option Parsed) (str : List ℕ) (s : S)
      → IsString str
      → IsParsed (length str) r
      → handle_parsed handlers (shift_result pre post (r, str)) s
        ≡ handle_parsed handlers (r, str) s
  unfolding handle_parsed read_message
  handle_parsed-placed handlers none str s v h = refl
  handle_parsed-placed handlers (some r) str s v (prefix, cmd, params, few) =
      rw
        (
          read_prefix-placed str r.prefix v prefix,
          c_str-placed str r.cmd v cmd,
          map-c_str-placed str r.params v params,
        )
        refl
