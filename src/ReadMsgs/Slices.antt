-- ===== src/ReadMsgs/Slices.antt =====
-- Stretches of a character array.
use ya_ircd.Prelude.{
  ℕ, zero, suc, ◌+◌, ◌-◌, ◌<◌, ◌≤◌, ◌≡◌, ◌⊎◌, inl, inr, refl, ◌∙◌, ap, ap₂, List, [], ◌∷◌, ◌++◌,
  arith, length, get_or, set, length-set, get_or-set_self, get_or-set_ne,
}
use ya_ircd.ReadMsgs.{copy, fill}

-- The `n` characters from index `i` on.
abbrev pub slice : List ℕ → ℕ → ℕ → List ℕ
slice chars i zero = []
slice chars i (suc n) = get_or chars i 0 ∷ slice chars (i + 1) n

pub length-slice : (cs : List ℕ) (i n : ℕ) → length (slice cs i n) ≡ n
length-slice cs i zero = refl
length-slice cs i (suc n) = ap suc (length-slice cs (i + 1) n)

pub slice-append :
    (cs : List ℕ) (i m n j k : ℕ)
    → j ≡ i + m
    → k ≡ m + n
    → slice cs i k ≡ slice cs i m ++ slice cs j n
slice-append cs i zero n j k e f =
    let e' : j ≡ i = omega arith in let f' : k ≡ n = omega arith in rw (e', f')
slice-append cs i (suc m) n j k e f =
    let f' : k ≡ suc (k - 1) = omega arith in
    rw f' (
      ap (λ l. get_or cs i 0 ∷ l)
        (slice-append cs (i + 1) m n j (k - 1) (omega arith) (omega arith)))

-- A write outside a stretch leaves it.
pub slice-set :
    (cs : List ℕ) (i n k c : ℕ) → (k < i) ⊎ (i + n ≤ k) → slice (set cs k c) i n ≡ slice cs i n
slice-set cs i zero k c h = refl
slice-set cs i (suc n) k c h =
    ap₂ ◌∷◌ (get_or-set_ne cs c 0 (ground arith)) (slice-set cs (i + 1) n k c (ground arith))

pub length-copy : (cs : List ℕ) (to from n : ℕ) → length (copy cs to from n) ≡ length cs
unfolding copy
length-copy cs to from zero = refl
length-copy cs to from (suc n) =
    length-copy (set cs to (get_or cs from 0)) (to + 1) (from + 1) n ∙ length-set cs to _

-- Characters in front of the place that `copy` writes to stay.
get_or-copy :
    (cs : List ℕ) (j to from n : ℕ) → j < to → get_or (copy cs to from n) j 0 ≡ get_or cs j 0
unfolding copy
get_or-copy cs j to from zero h = refl
get_or-copy cs j to from (suc n) h =
    get_or-copy (set cs to (get_or cs from 0)) j (to + 1) (from + 1) n (omega arith)
    ∙ get_or-set_ne cs _ 0 (omega arith)

-- Copying down moves a stretch, whether or not the two places overlap.
pub slice-copy :
    (cs : List ℕ) (to from n : ℕ)
    → to < from
    → from + n ≤ length cs
    → slice (copy cs to from n) to n ≡ slice cs from n
unfolding copy
slice-copy cs to from zero h r = refl
slice-copy cs to from (suc n) h r =
    let c = get_or cs from 0 in
    ap₂ ◌∷◌
      (get_or-copy (set cs to c) to (to + 1) (from + 1) n (omega arith)
        ∙ get_or-set_self cs to c 0 (omega arith))
      (slice-copy (set cs to c) (to + 1) (from + 1) n (omega arith)
          (omega (arith, length-set cs to c))
        ∙ slice-set cs (from + 1) n to c (inl (omega arith)))

pub length-fill : (cs : List ℕ) (i : ℕ) (bs : List ℕ) → length (fill cs i bs) ≡ length cs
unfolding fill
length-fill cs i [] = refl
length-fill cs i (b ∷ bs) = length-fill (set cs i b) (i + 1) bs ∙ length-set cs i b

pub slice-fill_before :
    (cs : List ℕ) (i m k : ℕ) (bs : List ℕ) → i + m ≤ k → slice (fill cs k bs) i m ≡ slice cs i m
unfolding fill
slice-fill_before cs i m k [] h = refl
slice-fill_before cs i m k (b ∷ bs) h =
    slice-fill_before (set cs k b) i m (k + 1) bs (omega arith) ∙ slice-set cs i m k b (inr h)

get_or-fill :
    (cs : List ℕ) (j i : ℕ) (bs : List ℕ) → j < i → get_or (fill cs i bs) j 0 ≡ get_or cs j 0
unfolding fill
get_or-fill cs j i [] h = refl
get_or-fill cs j i (b ∷ bs) h =
    get_or-fill (set cs i b) j (i + 1) bs (omega arith) ∙ get_or-set_ne cs b 0 (omega arith)

pub slice-fill :
    (cs : List ℕ) (i : ℕ) (bs : List ℕ)
    → i + length bs ≤ length cs
    → slice (fill cs i bs) i (length bs) ≡ bs
unfolding fill
slice-fill cs i [] h = refl
slice-fill cs i (b ∷ bs) h =
    ap₂ ◌∷◌
      (get_or-fill (set cs i b) i (i + 1) bs (omega arith) ∙ get_or-set_self cs i b 0 (omega arith))
      (slice-fill (set cs i b) (i + 1) bs (omega (arith, length-set cs i b)))

-- Equal characters make equal stretches.
pub slice-ext :
    (xs ys : List ℕ) (i n : ℕ)
    → ((j : ℕ) → i ≤ j → get_or xs j 0 ≡ get_or ys j 0)
    → slice xs i n ≡ slice ys i n
slice-ext xs ys i zero same = refl
slice-ext xs ys i (suc n) same =
    ap₂ ◌∷◌ (same i (omega arith)) (slice-ext xs ys (i + 1) n (λ j h. same j (omega arith)))
