-- ===== src/Channels/Quit/All.antt =====
-- All the departures of `QUIT`.
use ya_ircd.Prelude.{ℕ, ◌≡◌, false, List, [], ◌∷◌, Option, none, some}
use ya_ircd.Trie.{find_word_trie}
use ya_ircd.Trie.Keys.{same_key}
use ya_ircd.Channels.{Member, Net}
use ya_ircd.Channels.Quit.{IsWorld}
use ya_ircd.Channels.Quit.Onward.{Onward, GoneFrom}

-- The channels of some places.
abbrev pub GoneFromAll : List ℕ → List (Option (List ℕ)) → Net → Net → Type 0
GoneFromAll nick [] s s' = Unit
GoneFromAll nick (none ∷ rest) s s' = GoneFromAll nick rest s s'
GoneFromAll nick (some name ∷ rest) s s' = GoneFrom nick name s s' × GoneFromAll nick rest s s'

abbrev Quits : List ℕ → List (Option (List ℕ)) → Net → Option Net → Type 0
Quits nick places s out =
    (s' : Net) × (out ≡ some s') × Onward nick s s' × GoneFromAll nick places s s'

abbrev without_count : Member → Member
without_count c = record c { channels_count = 0 }

-- What a client that quits leaves: it is a user of none of the channels that its places name, no
-- other user is gone from any channel, and the list is well formed.
pub record HasQuit (s s' : Net) : Type 0 where
  pub gone : GoneFromAll s.client.nick s.client.channels s s'
  pub others :
      (i : ℕ) (q : List ℕ)
      → same_key (s.chans i).users.alphabet s.client.nick q ≡ false
      → find_word_trie (s'.chans i).users q ≡ find_word_trie (s.chans i).users q
  pub world : IsWorld s'
  pub same_places : s'.client.channels ≡ s.client.channels
  pub count : s'.client ≡ record s.client { channels_count = 0 }
