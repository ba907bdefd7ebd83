-- ===== src/Trie/Reached.antt =====
-- A walk over a trie comes to the data of every word.
use ya_ircd.Prelude.{
  ℕ, zero, suc, ◌≡◌, refl, ap, ◌∙◌, inl, inr, Bool, true, false, List, [], ◌∷◌, Option, none, some,
  arith, Bool-cases, if◌then◌else◌,
}
use ya_ircd.Trie.{
  Trie, Alphabet, Node, node, Edges, end, null, link, get_edge, find_word_trie_aux, find_word_trie,
  trie_for_each_aux, for_each_edge, trie_for_each,
}
use ya_ircd.Trie.Filled.{IsFilled, AllFilled, visit, walk_node, walk_edges}

-- A function that keeps `P`, and keeps `Q` once `x` has been seen.
module _ {V S : Type 0} (a : Alphabet) (x : V) (f : Option V → Option S → Option S)
    (P Q : S → Type 0)
    (keeps : (v : V) (s : S) → P s → (s' : S) × (f (some v) (some s) ≡ some s') × P s')
    (keeps_both : (v : V) (s : S)
      → P s × Q s
      → (s' : S) × (f (some v) (some s) ≡ some s') × (P s' × Q s'))
    (sees : (s : S) → P s → (s' : S) × (f (some x) (some s) ≡ some s') × (P s' × Q s')) where
  abbrev Both : S → Type 0
  Both s = P s × Q s

  abbrev found_at : List ℕ → Option (Node V) → Option V
  found_at cs none = none
  found_at cs (some child) = find_word_trie_aux a cs child

  step_to_edge :
      (c : ℕ) (cs : List ℕ) (w : Bool) (d : Option V) (k : ℕ) (es : Edges V)
      → find_word_trie_aux a (c ∷ cs) (node w d k es) ≡ some x
      → found_at cs (get_edge es (a.char_to_pos c)) ≡ some x
  unfolding find_word_trie_aux
  step_to_edge c cs w d k es e = elim (Bool-cases (a.is_valid c)) [
    | inr bad ↦
        let gone : none ≡ some x = rw (find_word_trie_aux, bad) at e in
        absurd (ground (arith, gone))
    | inl good ↦ on_edge (get_edge es (a.char_to_pos c)) (rw (find_word_trie_aux, good) at e)
  ]
    where
      on_edge :
          (o : Option (Node V))
          → (elim o as (λ _. Option V) [ none ↦ none | some child ↦ find_word_trie_aux a cs child ])
            ≡ some x
          → found_at cs o ≡ some x
      on_edge none e = e
      on_edge (some child) e = e

  word_here :
      (w : Bool) (d : Option V) (k : ℕ) (es : Edges V)
      → find_word_trie_aux a [] (node w d k es) ≡ some x
      → (w ≡ true) × (d ≡ some x)
  unfolding find_word_trie_aux
  word_here true d k es e = (refl, e)
  word_here false d k es e = absurd (ground (arith, e))

  mutual
    unfolding trie_for_each_aux for_each_edge get_edge

    reach_node :
        (word : List ℕ) (n : Node V) (s : S)
        → IsFilled n
        → P s
        → find_word_trie_aux a word n ≡ some x
        → (s' : S) × (trie_for_each_aux f n (some s) ≡ some s') × Both s'
    reach_node [] (node w d k es) s v p e =
        let (here, there) = word_here w d k es e in
        let (s1, e1, b1) = sees s p in
        let (s2, e2, b2) = walk_edges f Both keeps_both es s1 v.1 b1 in
        let visited : (if w then f d (some s) else some s) ≡ some s1 = rw (here, there) e1 in
        (s2, ap (for_each_edge f es) visited ∙ e2, b2)
    reach_node (c ∷ cs) (node w d k es) s v p e =
        let (s1, e1, p1) = visit f P keeps w d s v.0 p in
        let (s2, e2, b2) =
          reach_edge cs es (a.char_to_pos c) s1 v.1 p1 (step_to_edge c cs w d k es e) in
        (s2, ap (for_each_edge f es) e1 ∙ e2, b2)

    reach_edge :
        (cs : List ℕ) (es : Edges V) (i : ℕ) (s : S)
        → AllFilled es
        → P s
        → found_at cs (get_edge es i) ≡ some x
        → (s' : S) × (for_each_edge f es (some s) ≡ some s') × Both s'
    reach_edge cs end i s v p e = absurd (ground (arith, e))
    reach_edge cs (null es) zero s v p e = absurd (ground (arith, e))
    reach_edge cs (null es) (suc i) s v p e = reach_edge cs es i s v p e
    reach_edge cs (link n es) zero s v p e =
        let (s1, e1, b1) = reach_node cs n s v.0 p e in
        let (s2, e2, b2) = walk_edges f Both keeps_both es s1 v.1 b1 in
        (s2, ap (for_each_edge f es) e1 ∙ e2, b2)
    reach_edge cs (link n es) (suc i) s v p e =
        let (s1, e1, p1) = walk_node f P keeps n s v.0 p in
        let (s2, e2, b2) = reach_edge cs es i s1 v.1 p1 e in
        (s2, ap (for_each_edge f es) e1 ∙ e2, b2)

-- Behind the walk `Q` holds, if `x` is the data of a word.
pub trie_for_each-reaches :
    {V S : Type 0} (t : Trie V) (x : V) (f : Option V → Option S → Option S) (P Q : S → Type 0)
    → ((v : V) (s : S) → P s → (s' : S) × (f (some v) (some s) ≡ some s') × P s')
    → ((v : V) (s : S) → P s × Q s → (s' : S) × (f (some v) (some s) ≡ some s') × (P s' × Q s'))
    → ((s : S) → P s → (s' : S) × (f (some x) (some s) ≡ some s') × (P s' × Q s'))
    → (word : List ℕ) (s : S) → IsFilled t.root
    → P s
    → find_word_trie t word ≡ some x
    → (s' : S) × (trie_for_each t f (some s) ≡ some s') × (P s' × Q s')
unfolding trie_for_each find_word_trie
trie_for_each-reaches t x f P Q keeps keeps_both sees word s v p e =
    reach_node t.alphabet x f P Q keeps keeps_both sees word t.root s v p e
