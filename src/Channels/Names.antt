-- ===== src/Channels/Names.antt =====
-- The names of channels as keys of the list of channels.
use ya_ircd.Prelude.{◌≢◌, ℕ, List, [], ◌∷◌, arith}
use ya_ircd.Trie.{Trie}
use ya_ircd.Trie.Invariant.{IsAlphabet}
use ya_ircd.Channels.{chan_char_to_pos, channel_alphabet}

pub channel_alphabet-IsAlphabet : IsAlphabet channel_alphabet
unfolding chan_char_to_pos
channel_alphabet-IsAlphabet = record { in_range = λ c h. omega arith; small = omega arith }

-- The names that the protocol allows: no `NUL`, bell, `CR`, `LF`, space, comma or colon.
abbrev pub IsChannelName : List ℕ → Type 0
IsChannelName [] = Unit
IsChannelName (c ∷ cs) =
    (c ≢ 0)
    × (c ≢ 7)
    × (c ≢ b'\r')
    × (c ≢ b'\n')
    × (c ≢ b' ')
    × (c ≢ b',')
    × (c ≢ b':')
    × IsChannelName cs
