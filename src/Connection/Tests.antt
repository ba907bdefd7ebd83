-- ===== src/Connection/Tests.antt =====
-- The beginning of a client's thread at a concrete address.
use ya_ircd.Prelude.{ℕ, zero, suc, ◌≡◌, refl, Bool, true, false, List, [], ◌∷◌, none, some, arith}
use ya_ircd.Memory.{Heap, malloc, answer}
use ya_ircd.Trie.{init_trie, init_node}
use ya_ircd.Trie.Laws.{init_trie-IsTrie}
use ya_ircd.Trie.Invariant.{fresh_node}
use ya_ircd.WordList.{YaircdNode}
use ya_ircd.WordList.Update.{ListState}
use ya_ircd.ClientList.{nick_alphabet}
use ya_ircd.ClientList.Nicks.{nick_alphabet-IsAlphabet}
use ya_ircd.Registration.Owned.{IsRegistry, Absent}
use ya_ircd.Cloak.{CloaksInfo}
use ya_ircd.Cloak.Address.{dotted}
use ya_ircd.Client.Ping.{PingConfig}
use ya_ircd.Connection.{ArgsWrapper, Resources, World, new_client}
use ya_ircd.Connection.Begin.{BeginEnds, new_client-BeginEnds}

abbrev yes : ℕ → List Bool
yes zero = []
yes (suc n) = true ∷ yes n

abbrev memory : Heap
memory = record { answers = yes 8; allocs = 1; frees = 0 }

abbrev resources : Resources
resources = record { heap = memory; loops = 0; queues = 0 }

abbrev nobody : ListState ℕ
nobody = record {
  trie = record { root = fresh_node (YaircdNode ℕ) 35; alphabet = nick_alphabet };
  heap = memory;
}

nobody_made : (init_trie {V = YaircdNode ℕ} nick_alphabet memory).0 ≡ some nobody.trie
unfolding init_trie init_node malloc answer
nobody_made = refl

nobody-IsRegistry : IsRegistry nobody.trie
nobody-IsRegistry = record {
  trie = (init_trie-IsTrie nick_alphabet memory nick_alphabet-IsAlphabet nobody_made).0;
  nicks = refl;
}

nobody-Absent : Absent 7 nobody.trie
nobody-Absent = λ q found.
    let gone = (init_trie-IsTrie nick_alphabet memory nick_alphabet-IsAlphabet nobody_made).1 q in
    absurd (ground arith)

abbrev zeros : ℕ → List ℕ
zeros zero = []
zeros (suc n) = 0 ∷ zeros n

abbrev empties : ℕ → List (List ℕ)
empties zero = []
empties (suc n) = [] ∷ empties n

abbrev net : List ℕ
net = b'1' ∷ b'0' ∷ b'.' ∷ b'2' ∷ []

abbrev c : List ℕ
c = b'3' ∷ []

abbrev d : List ℕ
d = b'4' ∷ []

abbrev world : World
world = record {
  self = 7;
  sent = true;
  sent_again = true;
  name = none;
  ip = some (dotted (dotted net c) d);
  last_msg = record { msg = zeros 512; index = 3; last_stop = 2; msg_begin = 1 };
  write_queue = record { messages = empties 512; top = 4; bottom = 5; elements = 6 };
  host_reversed = true;
}

abbrev args : ArgsWrapper
args = record { socket = 3; is_ipv6 = false; ssl = false }

abbrev sha1 : List ℕ → List ℕ
sha1 text = text

abbrev info : CloaksInfo
info = record { net_prefix = []; keys = [] ∷ [] ∷ [] ∷ [] }

abbrev config : PingConfig
config = record { ping_freq = 60; timeout = 10 }

new_client-BeginEnds_example :
    BeginEnds sha1 sha1 info 2 nobody config 100 world args resources
      (new_client sha1 sha1 info 2 config 100 world args resources)
new_client-BeginEnds_example =
    new_client-BeginEnds sha1 sha1 info 2 nobody config 100 world args resources refl refl
      (net, c, d, refl, omega arith, omega arith) nobody-IsRegistry nobody-Absent
