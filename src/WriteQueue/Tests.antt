-- ===== src/WriteQueue/Tests.antt =====
-- Runs of the write queue.
use ya_ircd.Prelude.{ℕ, zero, suc, ◌≡◌, refl, true, List, [], ◌∷◌, some, arith}
use ya_ircd.Memory.{Heap, malloc, answer}
use ya_ircd.WriteQueue.{MsgQueue, error, write_queue_size, client_enqueue}
use ya_ircd.WriteQueue.Fifo
use ya_ircd.WriteQueue.Fifo.{Op, put, get, flush, Reply, accepted, got, wrote}
use ya_ircd.WriteQueue.Refine.{IsQueue, contents, run, run_refines}
use ya_ircd.WriteQueue.Blocks.{client_enqueue-full_leak}

abbrev no_slots : ℕ → List (List ℕ)
no_slots zero = []
no_slots (suc n) = [] ∷ no_slots n

abbrev granted : Heap
granted = record { answers = true ∷ true ∷ true ∷ true ∷ true ∷ []; allocs = 0; frees = 0 }

-- Its next slot is the last of the array.
abbrev at_end : MsgQueue
at_end = record { messages = no_slots 512; top = 511; bottom = 511; elements = 0 }

abbrev full : MsgQueue
full = record { messages = no_slots 512; top = 3; bottom = 3; elements = 512 }

at_end-IsQueue : IsQueue at_end
at_end-IsQueue = record { slots = refl; bottom_in = omega arith; room = omega arith; top_at = refl }

full-IsQueue : IsQueue full
full-IsQueue = record { slots = refl; bottom_in = omega arith; room = omega arith; top_at = refl }

first_granted : (malloc granted).0 ≡ true
unfolding malloc answer
first_granted = refl

abbrev nick : List ℕ
nick = b'N' ∷ b'I' ∷ []

abbrev calls : List Op
calls = put nick ∷ put [] ∷ get ∷ put nick ∷ flush ∷ []

run_refines_example : run calls at_end granted ≡ Fifo.run write_queue_size (contents at_end) calls
run_refines_example = run_refines calls at_end granted at_end-IsQueue tt

replies :
    Fifo.run write_queue_size [] calls
    ≡ accepted ∷ accepted ∷ got (some nick) ∷ accepted ∷ wrote ([] ∷ nick ∷ []) ∷ []
unfolding Fifo.run Fifo.step
replies = refl

client_enqueue-full_leak_example :
    let (r, q', h') = client_enqueue full nick granted in
    (r ≡ error) × (q' ≡ full) × (h'.allocs ≡ 1) × (h'.frees ≡ 0)
client_enqueue-full_leak_example = client_enqueue-full_leak full nick granted refl first_granted
