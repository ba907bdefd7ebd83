-- ===== src/Trie/Keys.antt =====
-- The abstract view of a word: the positions of its characters. Two words that have the same
-- positions are one key (the nicknames `Foo` and `foo`).
use ya_ircd.Prelude.{ℕ, Bool, true, false, ◌&&◌, List, [], ◌∷◌, ◌==◌}
use ya_ircd.Trie.{Alphabet}

-- Every character belongs to the alphabet.
abbrev pub is_word : Alphabet → List ℕ → Bool
is_word a [] = true
is_word a (c ∷ cs) = a.is_valid c && is_word a cs

-- Both are words of the alphabet, of one length, with the same positions.
abbrev pub same_key : Alphabet → List ℕ → List ℕ → Bool
same_key a [] [] = true
same_key a (c ∷ cs) (d ∷ ds) =
    a.is_valid c && (a.is_valid d && (a.char_to_pos c == a.char_to_pos d && same_key a cs ds))
same_key a _ _ = false
