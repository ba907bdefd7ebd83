-- ===== src/Channels/Delivery.antt =====
-- Messages to a channel, and who gets them.
use ya_ircd.Prelude.{ℕ, ◌≡◌, ◌≢◌, List, [], ◌∷◌, ◌++◌, Option, none, some}
use ya_ircd.Trie.{Trie, find_word_trie}
use ya_ircd.Trie.Filled.{IsFilled}
use ya_ircd.Channels.{ChanUser, Net}
use ya_ircd.Channels.Handlers.{Refusal, Handled}

-- Messages with the text, none of them for the client at the address.
abbrev pub ForOthers : ℕ → List ℕ → List (ℕ × List ℕ) → Type 0
ForOthers self text [] = Unit
ForOthers self text ((to, msg) ∷ rest) = (to ≢ self) × (msg ≡ text) × ForOthers self text rest

-- The state but for the queues of other clients is as before, and the messages that they got have
-- the text.
pub record Delivered (text : List ℕ) (s s' : Net) : Type 0 where
  pub same_list : s'.list ≡ s.list
  pub same_chans : s'.chans ≡ s.chans
  pub same_client : s'.client ≡ s.client
  pub same_acks : s'.acks ≡ s.acks
  pub sent :
      (more : List (ℕ × List ℕ)) × (s'.queued ≡ s.queued ++ more)
      × ForOthers s.client.self text more

-- A message with the text is among those for a user, behind those that were there.
abbrev pub Got : ChanUser → List ℕ → Net → Net → Type 0
Got u text s s' =
    (mid rest : List (ℕ × List ℕ)) × (s'.queued ≡ s.queued ++ (mid ++ ((u.user, text) ∷ rest)))

-- Every user but the sender has got the message.
abbrev pub AllGot : List ℕ → Trie ChanUser → Net → Net → Type 0
AllGot text users s s' =
    (nick : List ℕ) (u : ChanUser)
    → find_word_trie users nick ≡ some u
    → u.user ≢ s.client.self
    → Got u text s s'

abbrev net_or : Net → Option Net → Net
net_or s none = s
net_or s (some s') = s'

module _ (text : List ℕ) (s0 : Net) where
  abbrev Both : ChanUser → Net → Type 0
  Both to s = Delivered text s0 s × Got to text s0 s

module _ (msg_text : List ℕ → List ℕ → List ℕ → List ℕ) (target msg : List ℕ) (s : Net) where
  abbrev text : List ℕ
  text = msg_text s.client.nick target msg

  -- How `PRIVMSG` to a channel ends, by what the list holds for it.
  abbrev pub Talked : Option ℕ → Handled → Type 0
  Talked none out = out ≡ some (some (Refusal.send_err_nosuchnick target), s)
  Talked (some at) out =
      (s' : Net) × (out ≡ some (none, s'))
      × Delivered text s s'
      × AllGot text (s.chans at).users s s'

  -- The users of the channel at an address, if there is one, have data.
  abbrev pub AreThere : Option ℕ → Type 0
  AreThere none = Unit
  AreThere (some at) = IsFilled (s.chans at).users.root
