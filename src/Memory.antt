-- ===== src/Memory.antt =====
-- The C heap, as far as the program sees it: whether an allocation succeeds, and how many blocks
-- have been allocated and freed. It stands for `malloc`, `strdup`, `calloc` and `free`.
use ya_ircd.Prelude.{
  ℕ, zero, suc, ◌+◌, ◌≡◌, refl, if◌then◌else◌, arith, Bool, true, false, List, [], ◌∷◌,
}

-- `answers` says of each allocation to come whether it succeeds; past its end all of them fail.
pub record Heap : Type 0 where
  pub answers : List Bool
  pub allocs : ℕ
  pub frees : ℕ

unfoldable pub answer : List Bool → Heap → Bool × Heap
answer [] h = (false, h)
answer (true ∷ rest) h = (true, record h { answers = rest; allocs = h.allocs + 1 })
answer (false ∷ rest) h = (false, record h { answers = rest })

-- One allocation: whether the pointer is not `NULL`, and the heap behind the call.
unfoldable pub malloc : Heap → Bool × Heap
unfolding answer
malloc h = answer h.answers h

-- `free` of one allocated block.
abbrev pub free : Heap → Heap
free h = record h { frees = h.frees + 1 }

answer_lem :
    (l : List Bool) (h : Heap)
    → let (got, h') = answer l h in
      (h'.allocs ≡ h.allocs + (if got then 1 else 0)) × (h'.frees ≡ h.frees)
unfolding answer
answer_lem [] h = (omega arith, refl)
answer_lem (true ∷ l) h = (refl, refl)
answer_lem (false ∷ l) h = (omega arith, refl)

pub malloc_lem :
    (h : Heap)
    → let (got, h') = malloc h in
      (h'.allocs ≡ h.allocs + (if got then 1 else 0)) × (h'.frees ≡ h.frees)
unfolding malloc
malloc_lem h = answer_lem h.answers h

-- The next `n` allocations succeed.
abbrev pub Grants : ℕ → List Bool → Type 0
Grants zero l = Unit
Grants (suc n) [] = ⊥
Grants (suc n) (true ∷ l) = Grants n l
Grants (suc n) (false ∷ l) = ⊥

pub Grants-malloc :
    (n : ℕ) (h : Heap)
    → Grants (suc n) h.answers
    → ((malloc h).0 ≡ true) × Grants n (malloc h).1.answers
unfolding malloc answer
Grants-malloc n h g = granted h.answers g
  where
    granted :
        (l : List Bool)
        → Grants (suc n) l
        → ((answer l h).0 ≡ true) × Grants n (answer l h).1.answers
    granted [] g = absurd g
    granted (true ∷ l) g = (refl, g)
    granted (false ∷ l) g = absurd g

pub Grants-pred : (n : ℕ) (l : List Bool) → Grants (suc n) l → Grants n l
Grants-pred zero l g = tt
Grants-pred (suc n) [] g = absurd g
Grants-pred (suc n) (true ∷ l) g = Grants-pred n l g
Grants-pred (suc n) (false ∷ l) g = absurd g

unfoldable pub ready : List Bool → Heap → Bool × Heap
ready [] h = (false, h)
ready (b ∷ rest) h = (b, record h { answers = rest })

-- `pthread_mutex_init`: whether it succeeds. It holds no block.
unfoldable pub mutex_init : Heap → Bool × Heap
unfolding ready
mutex_init h = ready h.answers h

pub mutex_init_lem :
    (h : Heap) → ((mutex_init h).1.allocs ≡ h.allocs) × ((mutex_init h).1.frees ≡ h.frees)
unfolding mutex_init
mutex_init_lem h = kept h.answers
  where
    kept : (l : List Bool) → ((ready l h).1.allocs ≡ h.allocs) × ((ready l h).1.frees ≡ h.frees)
    kept [] = (refl, refl)
    kept (b ∷ l) = (refl, refl)
