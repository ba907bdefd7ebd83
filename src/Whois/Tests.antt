-- ===== src/Whois/Tests.antt =====
-- The channels of a client with two names.
use ya_ircd.Prelude.{ℕ, List, [], ◌∷◌, Option, none, some, arith}
use ya_ircd.Whois.{cmd_whois_aux_channels}
use ya_ircd.Whois.Bounds.{AreShort, cmd_whois_aux_channels-AreShort}

abbrev front : List ℕ
front = b':' ∷ b's' ∷ b':' ∷ []

abbrev places : List (Option (List ℕ))
places = some (b'#' ∷ b'a' ∷ []) ∷ none ∷ some (b'#' ∷ b'b' ∷ []) ∷ []

cmd_whois_aux_channels-AreShort_example : AreShort (cmd_whois_aux_channels front places)
cmd_whois_aux_channels-AreShort_example = cmd_whois_aux_channels-AreShort front places (omega arith)
