-- ===== src/ClientList/Nicks.antt =====
-- Which nicknames are one.
use ya_ircd.Prelude.{
  ℕ, zero, suc, not, ==_iff, ◌+◌, ◌<◌, ◌≡◌, ◌↔◌, refl, sym, ap, ◌∙◌, Bool, true, ◌&&◌, ◌||◌, ◌==◌,
  leb, if◌then◌else◌, arith, List, [], ◌∷◌, map,
}
use ya_ircd.Trie.Invariant.{IsAlphabet}
use ya_ircd.Trie.Keys.{is_word, same_key}
use ya_ircd.ClientList.{nick_is_valid, nick_char_to_pos, nick_pos_to_char, nick_alphabet}

-- RFC 1459, section 2.2: `{ } |` are the lower case of `[ ] \`.
abbrev pub rfc_lower : ℕ → ℕ
rfc_lower c =
    if leb b'A' c && leb c b'Z'
    then c + 32
    else if c == b'['
    then b'{'
    else if c == b']'
    then b'}'
    else if c == b'\\'
    then b'|'
    else c

nick_char_to_pos-lt : (c : ℕ) → nick_is_valid c ≡ true → nick_char_to_pos c < 35
unfolding nick_is_valid nick_char_to_pos
nick_char_to_pos-lt c h = ground arith

nick_pos_to_char-nick_char_to_pos :
    (c : ℕ) → nick_is_valid c ≡ true → nick_pos_to_char (nick_char_to_pos c) ≡ rfc_lower c
unfolding nick_is_valid nick_char_to_pos nick_pos_to_char
nick_pos_to_char-nick_char_to_pos c h = ground arith

-- Checked at each of the 128 values that a valid character may have.
holds_to : (ℕ → Bool) → ℕ → Bool
holds_to test zero = true
holds_to test (suc top) = holds_to test top && test top

holds_to_at : (test : ℕ → Bool) (top c : ℕ) → c < top → holds_to test top ≡ true → test c ≡ true
unfolding holds_to
holds_to_at test zero c small all = absurd (omega arith)
holds_to_at test (suc top) c small all =
    let earlier = holds_to_at test top c in ground (arith, earlier)

abbrev lower_keeps : ℕ → Bool
lower_keeps c = not (nick_is_valid c) || nick_char_to_pos (rfc_lower c) == nick_char_to_pos c

lower_table : holds_to lower_keeps 128 ≡ true
unfolding holds_to nick_is_valid nick_char_to_pos
lower_table = refl

nick_is_valid-lt : (c : ℕ) → nick_is_valid c ≡ true → c < 128
unfolding nick_is_valid
nick_is_valid-lt c h = ground arith

nick_char_to_pos-rfc_lower :
    (c : ℕ) → nick_is_valid c ≡ true → nick_char_to_pos (rfc_lower c) ≡ nick_char_to_pos c
nick_char_to_pos-rfc_lower c h =
    (==_iff _ _).0 (rw h at (holds_to_at lower_keeps 128 c (nick_is_valid-lt c h) lower_table))

-- The position of every valid character of a nickname is less than the 35 edges of a node, a
-- number that fits in an `unsigned char`.
pub nick_alphabet-IsAlphabet : IsAlphabet nick_alphabet
nick_alphabet-IsAlphabet = record { in_range = nick_char_to_pos-lt; small = omega arith }

-- For valid characters of nicknames: going to the position and back gives the lower case by the
-- case mapping of RFC 1459, and two of them have one position exactly when they have the same
-- lower case.
pub nick_pos_to_char-rfc_lower :
    (c d : ℕ)
    → nick_is_valid c ≡ true
    → nick_is_valid d ≡ true
    → (nick_pos_to_char (nick_char_to_pos c) ≡ rfc_lower c)
      × ((nick_char_to_pos c ≡ nick_char_to_pos d) ↔ (rfc_lower c ≡ rfc_lower d))
nick_pos_to_char-rfc_lower c d hc hd =
    let back = nick_pos_to_char-nick_char_to_pos in
    let there = nick_char_to_pos-rfc_lower in
    (
      back c hc,
      (
        (λ e. sym (back c hc) ∙ ap nick_pos_to_char e ∙ back d hd),
        (λ e. sym (there c hc) ∙ ap nick_char_to_pos e ∙ there d hd),
      ),
    )

-- Two nicknames are one key of the list of clients exactly when both are made of valid characters
-- and they agree up to the case mapping of RFC 1459.
pub same_key-rfc_lower :
    (v w : List ℕ)
    → (same_key nick_alphabet v w ≡ true) ↔ (
        (is_word nick_alphabet v ≡ true)
        × (is_word nick_alphabet w ≡ true)
        × (map rfc_lower v ≡ map rfc_lower w))
same_key-rfc_lower [] [] = ((λ _. (refl, refl, refl)), (λ _. refl))
same_key-rfc_lower [] (d ∷ w) = ((λ e. cc), (λ e. cc (e.2)))
same_key-rfc_lower (c ∷ v) [] = ((λ e. cc), (λ e. cc (e.2)))
same_key-rfc_lower (c ∷ v) (d ∷ w) =
    let ih = same_key-rfc_lower v w in
    let lower = nick_pos_to_char-rfc_lower c d in
    (ground (arith, ih, lower), ground (arith, ih, lower))
