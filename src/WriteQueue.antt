-- ===== src/WriteQueue.antt =====
-- src/msg/write_msgs_queue.c: the messages that wait to be written to a client's socket.
-- Each function holds the queue's mutex from its first access to its last, so a call is one step.
pub mod Fifo
pub mod Refine
pub mod Blocks
mod Tests
use ya_ircd.Prelude.{
  ℕ, zero, suc, ◌+◌, ◌-◌, ◌%◌, Bool, true, false, not, ◌||◌, List, [], ◌∷◌, ◌++◌, Option, none,
  some, ◌==◌, if◌then◌else◌, get_or, set,
}
use ya_ircd.Memory.{Heap, malloc, free, mutex_init}

abbrev pub write_queue_size : ℕ
write_queue_size = 512

-- `struct msg_queue`; a message is its characters. What a slot holds before its first write is
-- arbitrary.
pub record MsgQueue : Type 0 where
  pub messages : List (List ℕ)
  pub top : ℕ
  pub bottom : ℕ
  pub elements : ℕ

-- `ok` is 0, `error` is -1.
pub data Code : Type 0 where
  ok error : Code

-- Whether it returns 0, which is what `pthread_mutex_init` returns.
unfoldable pub client_queue_init : MsgQueue → Heap → Bool × MsgQueue × Heap
client_queue_init q h =
    let (init, h') = mutex_init h in (init, record q { top = 0; bottom = 0; elements = 0 }, h')

-- The slot behind slot `i`.
abbrev pub after : ℕ → ℕ
after i = (i + 1) % write_queue_size

-- The loop of `client_queue_destroy`, at index `i` with so many rounds left.
unfoldable pub destroy_from : ℕ → ℕ → Heap → Heap
destroy_from i zero h = h
destroy_from i (suc n) h = destroy_from (after i) n (free h)

-- Apart from the mutex, and what destroying it returns.
unfoldable pub client_queue_destroy : MsgQueue → Heap → Heap
client_queue_destroy q h = destroy_from q.bottom q.elements h

-- `strdup` runs before the queue is found to be full.
unfoldable pub client_enqueue : MsgQueue → List ℕ → Heap → Code × MsgQueue × Heap
client_enqueue q message h =
    let (got, h') = malloc h in
    if not got || q.elements == write_queue_size then (error, q, h') else (
      ok,
      record q {
        messages = set q.messages q.top message;
        top = after q.top;
        elements = q.elements + 1;
      },
      h',
    )

-- `none` is `NULL`; the caller frees the message.
unfoldable pub client_dequeue : MsgQueue → Option (List ℕ) × MsgQueue
client_dequeue q = if q.elements == 0 then (none, q) else (
  some (get_or q.messages q.bottom []),
  record q { bottom = after q.bottom; elements = q.elements - 1 },
)

unfoldable pub client_is_queue_empty : MsgQueue → Bool
client_is_queue_empty q = q.elements == 0

-- The loop of `flush_queue`: what is written to the socket, in order. Errors of a write are ignored.
unfoldable pub flush_from : List (List ℕ) → ℕ → ℕ → List (List ℕ) → Heap → List (List ℕ) × Heap
flush_from messages i zero out h = (out, h)
flush_from messages i (suc n) out h =
    flush_from messages (after i) n (out ++ (get_or messages i [] ∷ [])) (free h)

unfoldable pub flush_queue : MsgQueue → Heap → List (List ℕ) × MsgQueue × Heap
unfolding flush_from
flush_queue q h =
    let (out, h') = flush_from q.messages q.bottom q.elements [] h in
    (out, record q { bottom = 0; top = 0; elements = 0 }, h')
