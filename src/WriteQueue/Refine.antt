-- ===== src/WriteQueue/Refine.antt =====
-- The ring of messages implements the bounded queue.
use ya_ircd.Prelude.{
  ℕ, zero, suc, ◌+◌, ◌-◌, ◌%◌, ◌≤◌, ◌<◌, ◌≡◌, ◌≢◌, refl, sym, ap, ap₂, ◌∙◌, List, [], ◌∷◌, ◌++◌,
  arith, true, length, get_or, set, length-set, get_or-set_self, get_or-set_ne, append_assoc,
  append-nil,
}
use ya_ircd.Memory.{Heap, malloc, free, Grants, Grants-malloc, Grants-pred}
use ya_ircd.WriteQueue.{
  MsgQueue, Code, ok, error, after, write_queue_size, client_enqueue, client_dequeue, flush_from,
  flush_queue, client_queue_init,
}
use ya_ircd.WriteQueue.Fifo.{Op, put, get, flush, Reply, accepted, refused, got, wrote}
use ya_ircd.WriteQueue.Fifo

-- The indices lie in the array, and `top` is `elements` slots behind `bottom`.
pub record IsQueue (q : MsgQueue) : Type 0 where
  pub slots : length q.messages ≡ write_queue_size
  pub bottom_in : q.bottom < write_queue_size
  pub room : q.elements ≤ write_queue_size
  pub top_at : q.top ≡ (q.bottom + q.elements) % write_queue_size

-- The `n` messages from slot `i` on.
abbrev pub waiting : List (List ℕ) → ℕ → ℕ → List (List ℕ)
waiting ms i zero = []
waiting ms i (suc n) = get_or ms i [] ∷ waiting ms (after i) n

abbrev pub contents : MsgQueue → List (List ℕ)
contents q = waiting q.messages q.bottom q.elements

length-waiting : (ms : List (List ℕ)) (i n : ℕ) → length (waiting ms i n) ≡ n
length-waiting ms i zero = refl
length-waiting ms i (suc n) = ap suc (length-waiting ms (after i) n)

-- A write to the slot behind the waiting messages.
waiting-set :
    (ms : List (List ℕ)) (m : List ℕ) (n i top : ℕ)
    → length ms ≡ 512
    → i < 512
    → n < 512
    → top ≡ (i + n) % 512
    → waiting (set ms top m) i (suc n) ≡ waiting ms i n ++ (m ∷ [])
waiting-set ms m zero i top len h k e =
    let at : top ≡ i = omega arith in rw (at, get_or-set_self ms i m [] (omega arith)) refl
waiting-set ms m (suc n) i top len h k e =
    ap₂ ◌∷◌ (get_or-set_ne ms m [] (omega arith))
      (waiting-set ms m n (after i) top len (omega arith) (omega arith) (omega arith))

pub flush_from-waiting :
    (ms : List (List ℕ)) (n i : ℕ) (out : List (List ℕ)) (h : Heap)
    → ((flush_from ms i n out h).0 ≡ out ++ waiting ms i n)
      × ((flush_from ms i n out h).1.frees ≡ h.frees + n)
      × ((flush_from ms i n out h).1.allocs ≡ h.allocs)
unfolding flush_from
flush_from-waiting ms zero i out h = (sym (append-nil out), omega arith, refl)
flush_from-waiting ms (suc n) i out h =
    let (sent, freed, same) =
      flush_from-waiting ms n (after i) (out ++ (get_or ms i [] ∷ [])) (free h) in
    (sent ∙ append_assoc out _ _, omega arith, same)

answers_kept :
    (ms : List (List ℕ)) (n i : ℕ) (out : List (List ℕ)) (h : Heap)
    → (flush_from ms i n out h).1.answers ≡ h.answers
unfolding flush_from
answers_kept ms zero i out h = refl
answers_kept ms (suc n) i out h =
    answers_kept ms n (after i) (out ++ (get_or ms i [] ∷ [])) (free h)

waiting_of_ne_zero :
    (ms : List (List ℕ)) (i n : ℕ)
    → n ≢ 0
    → waiting ms i n ≡ get_or ms i [] ∷ waiting ms (after i) (n - 1)
waiting_of_ne_zero ms i zero p = absurd (p refl)
waiting_of_ne_zero ms i (suc n) p = ap (λ k. waiting ms i (suc k)) (omega arith)

-- From a valid queue: an initialised queue is valid, and enqueueing, dequeueing and flushing keep
-- the indices in the array and `top` in step with `elements`.
pub msg_queue-IsQueue :
    (q : MsgQueue) (m : List ℕ) (h : Heap)
    → IsQueue q
    → IsQueue (client_queue_init q h).1
      × IsQueue (client_enqueue q m h).1
      × IsQueue (client_dequeue q).1
      × IsQueue (flush_queue q h).1
unfolding client_queue_init client_enqueue client_dequeue flush_queue
msg_queue-IsQueue q m h v =
    (omega arith, ground (arith, length-set q.messages q.top m), ground arith, omega arith)

abbrev pub reply : Code → Reply
reply ok = accepted
reply error = refused

-- A call as its caller sees it.
pub call : Op → MsgQueue → Heap → Reply × MsgQueue × Heap
call (put m) q h = let (r, q', h') = client_enqueue q m h in (reply r, q', h')
call get q h = let (m, q') = client_dequeue q in (got m, q', h)
call flush q h = let (out, q', h') = flush_queue q h in (wrote out, q', h')

-- On a valid queue, if `strdup` has memory, each call does to the waiting messages what the
-- bounded FIFO does, and returns what it returns: enqueueing appends, or is refused when 512
-- messages wait; dequeueing takes the oldest; flushing writes all of them, oldest first.
pub call_refines :
    (op : Op) (q : MsgQueue) (h : Heap)
    → IsQueue q
    → (malloc h).0 ≡ true
    → let (r, q', _) = call op q h in (r, contents q') ≡ Fifo.step write_queue_size (contents q) op
unfolding call client_enqueue client_dequeue flush_queue Fifo.step
call_refines (put m) q h v granted =
    let size = length-waiting q.messages q.bottom q.elements in
    let more = waiting-set q.messages m q.elements q.bottom q.top v.slots v.bottom_in in
    ground arith
call_refines get q h v granted =
    let oldest = waiting_of_ne_zero q.messages q.bottom q.elements in ground arith
call_refines flush q h v granted =
    let sent = flush_from-waiting q.messages q.elements q.bottom [] h in ground arith

call-IsQueue : (op : Op) (q : MsgQueue) (h : Heap) → IsQueue q → IsQueue (call op q h).1
unfolding call
call-IsQueue (put m) q h v = (msg_queue-IsQueue q m h v).1
call-IsQueue get q h v = (msg_queue-IsQueue q [] h v).2
call-IsQueue flush q h v = (msg_queue-IsQueue q [] h v).3

call-Grants :
    (n : ℕ) (op : Op) (q : MsgQueue) (h : Heap)
    → Grants (suc n) h.answers
    → Grants n (call op q h).2.answers
unfolding call client_enqueue flush_queue
call-Grants n (put m) q h g = let later = (Grants-malloc n h g).1 in ground arith
call-Grants n get q h g = Grants-pred n h.answers g
call-Grants n flush q h g =
    rw (answers_kept q.messages q.elements q.bottom [] h) (Grants-pred n h.answers g)

-- The replies to a sequence of calls.
pub run : List Op → MsgQueue → Heap → List Reply
run [] q h = []
run (op ∷ ops) q h = let (r, q', h') = call op q h in r ∷ run ops q' h'

-- From a valid queue, and with memory for as many messages as there are calls, no sequence of
-- calls tells the ring from the bounded FIFO of the messages that it holds.
pub run_refines :
    (ops : List Op) (q : MsgQueue) (h : Heap)
    → IsQueue q
    → Grants (length ops) h.answers
    → run ops q h ≡ Fifo.run write_queue_size (contents q) ops
unfolding run Fifo.run
run_refines [] q h v g = refl
run_refines (op ∷ ops) q h v g =
    let now = call_refines op q h v (Grants-malloc (length ops) h g).0 in
    let (_, q', h') = call op q h in
    let later = run_refines ops q' h' (call-IsQueue op q h v) (call-Grants (length ops) op q h g) in
    rw (later, ← now) refl
