-- ===== src/WriteQueue/Blocks.antt =====
-- The heap blocks of the write queue.
use ya_ircd.Prelude.{ℕ, zero, suc, ◌+◌, ◌≡◌, ◌≢◌, refl, true, List, [], arith}
use ya_ircd.Memory.{Heap, malloc, malloc_lem, free}
use ya_ircd.WriteQueue.{
  MsgQueue, error, after, write_queue_size, client_enqueue, flush_queue, destroy_from,
  client_queue_destroy,
}
use ya_ircd.WriteQueue.Refine.{flush_from-waiting}

destroy_from_frees :
    (n i : ℕ) (h : Heap)
    → ((destroy_from i n h).allocs ≡ h.allocs) × ((destroy_from i n h).frees ≡ h.frees + n)
unfolding destroy_from
destroy_from_frees zero i h = (refl, omega arith)
destroy_from_frees (suc n) i h =
    let (same, freed) = destroy_from_frees n (after i) (free h) in (same, omega arith)

-- A message that is refused because the queue is full, though `strdup` had memory, is never freed:
-- the queue is as before, and the copy is an allocated block which neither the queue nor the
-- caller knows of.
pub client_enqueue-full_leak :
    (q : MsgQueue) (m : List ℕ) (h : Heap)
    → q.elements ≡ write_queue_size
    → (malloc h).0 ≡ true
    → let (r, q', h') = client_enqueue q m h in
      (r ≡ error) × (q' ≡ q) × (h'.allocs ≡ h.allocs + 1) × (h'.frees ≡ h.frees)
unfolding client_enqueue
client_enqueue-full_leak q m h full granted = ground (arith, malloc_lem h)

-- In a queue that is not full the blocks are the waiting messages: a call of `client_enqueue`
-- allocates what the queue grows by and frees nothing; `flush_queue` and `client_queue_destroy`
-- free one block for each waiting message, and flushing leaves none.
pub msg_queue_balance :
    (q : MsgQueue) (m : List ℕ) (h : Heap)
    → q.elements ≢ write_queue_size
    → (let (_, q', h') = client_enqueue q m h in
        (h'.allocs + q.elements ≡ h.allocs + q'.elements) × (h'.frees ≡ h.frees))
      × (let (_, q', h') = flush_queue q h in
          (h'.allocs ≡ h.allocs)
          × (h'.frees + q'.elements ≡ h.frees + q.elements)
          × (q'.elements ≡ 0))
      × (let h' = client_queue_destroy q h in
          (h'.allocs ≡ h.allocs) × (h'.frees ≡ h.frees + q.elements))
unfolding client_enqueue flush_queue client_queue_destroy
msg_queue_balance q m h room =
    let (_, freed, same) = flush_from-waiting q.messages q.elements q.bottom [] h in
    let (same', freed') = destroy_from_frees q.elements q.bottom h in
    (ground (arith, malloc_lem h), (same, omega arith, refl), (same', freed'))
