-- ===== src/Server/Accept.antt =====
-- What accepting a connection leaves behind.
use ya_ircd.Prelude.{
  ℕ, suc, ◌+◌, ◌≡◌, ◌⊎◌, pos, is_negative, Bool, true, false, not, ◌&&◌, ◌||◌, ◌∷◌, none, some,
  if◌then◌else◌,
}
use ya_ircd.Memory.{malloc}
use ya_ircd.Connection.Created.{Blocks}
use ya_ircd.Server.{Server, Incoming}

-- Nothing is kept of the connection.
abbrev pub GivenBack : Server → Server → Type 0
GivenBack s s' =
    (s'.sockets ≡ s.sockets)
    × (s'.ssls ≡ s.ssls)
    × (s'.threads ≡ s.threads)
    × Blocks 0 0 s.heap s'.heap

-- The block of the arguments, the socket and the SSL object are kept.
abbrev pub Held : Bool → Server → Server → Type 0
Held ssl s s' =
    (s'.sockets ≡ s.sockets + 1)
    × (s'.ssls ≡ s.ssls + (if ssl then 1 else 0))
    × Blocks 1 0 s.heap s'.heap

abbrev pub Threaded : Bool → Incoming → Server → Server → Type 0
Threaded ssl w s s' =
    (w.created ≡ pos 0)
    × ((socket : ℕ) × (w.accepted ≡ some socket)
        × (s'.threads ≡ record { socket = socket; is_ipv6 = false; ssl = ssl } ∷ s.threads))
    × Held ssl s s'

abbrev pub Lost : Bool → Incoming → Server → Server → Type 0
Lost ssl w s s' = ((n : ℕ) × (w.created ≡ pos (suc n))) × (s'.threads ≡ s.threads) × Held ssl s s'

-- Nothing came, there is no memory for the arguments, or one of the calls failed.
pub data Refused (ev_error ev_read ssl : Bool) (w : Incoming) (s : Server) : Type 0 where
  nothing_came : (ev_error || not ev_read) ≡ true → Refused ev_error ev_read ssl w s
  no_memory : (malloc s.heap).0 ≡ false → Refused ev_error ev_read ssl w s
  not_accepted : w.accepted ≡ none → Refused ev_error ev_read ssl w s
  other_family : w.inet ≡ false → Refused ev_error ev_read ssl w s
  no_handshake : (ssl && w.handshake_failed) ≡ true → Refused ev_error ev_read ssl w s
  no_thread : is_negative w.created ≡ true → Refused ev_error ev_read ssl w s

abbrev pub AcceptEnds : Bool → Bool → Bool → Incoming → Server → Server → Type 0
AcceptEnds ev_error ev_read ssl w s s' =
    (Refused ev_error ev_read ssl w s × GivenBack s s')
    ⊎ (¬ Refused ev_error ev_read ssl w s × Threaded ssl w s s')
    ⊎ (¬ Refused ev_error ev_read ssl w s × Lost ssl w s s')

-- With what belongs to the connection open.
abbrev opened : Bool → Server → Server
opened ssl s = record s {
  heap = (malloc s.heap).1;
  sockets = s.sockets + 1;
  ssls = if ssl then s.ssls + 1 else s.ssls;
}
