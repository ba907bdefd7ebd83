-- ===== src/WriteQueue/Fifo.antt =====
-- The specification of the write queue: the waiting messages, oldest first, at most `cap` of them.
use ya_ircd.Prelude.{ℕ, List, [], ◌∷◌, ◌++◌, Option, none, some, ◌==◌, if◌then◌else◌, length}

-- A call of a client of the queue, and what it sees of the call.
pub data Op : Type 0 where
  put : List ℕ → Op
  get : Op
  flush : Op

pub data Reply : Type 0 where
  accepted refused : Reply
  got : Option (List ℕ) → Reply
  wrote : List (List ℕ) → Reply

unfoldable pub step : ℕ → List (List ℕ) → Op → Reply × List (List ℕ)
step cap q (put m) = if length q == cap then (refused, q) else (accepted, q ++ (m ∷ []))
step cap [] get = (got none, [])
step cap (m ∷ q) get = (got (some m), q)
step cap q flush = (wrote q, [])

unfoldable pub run : ℕ → List (List ℕ) → List Op → List Reply
run cap q [] = []
run cap q (op ∷ ops) = let (r, q') = step cap q op in r ∷ run cap q' ops
