-- ===== src/Cloak/Address.antt =====
-- The cloaked name of an IPv4 address.
use ya_ircd.Prelude.{
  ℕ, zero, suc, ◌+◌, ◌≤◌, ◌<◌, ◌≡◌, ◌≢◌, refl, sym, ap, ◌∙◌, arith, true, false, List, [], ◌∷◌,
  ◌++◌, none, some, ◌==◌, length, get_or, take-all, take-append, length-append, append_assoc,
  append-nil, get_or-append_left, get_or-append_right, if◌then◌else◌,
}
use ya_ircd.Memory.{Heap, malloc}
use ya_ircd.Cloak.{CloaksInfo, get_cloak_key, downsample, print_hex, last_dot, do_md5, hide_ipv4}
use ya_ircd.Cloak.Hex.{length-print_hex}

abbrev pub NoDots : List ℕ → Type 0
NoDots [] = Unit
NoDots (c ∷ cs) = (c ≢ b'.') × NoDots cs

get_or-NoDots : (cs : List ℕ) (i : ℕ) → NoDots cs → i < length cs → get_or cs i 0 ≢ b'.'
get_or-NoDots [] i v h = absurd (omega arith)
get_or-NoDots (c ∷ cs) zero v h = v.0
get_or-NoDots (c ∷ cs) (suc i) v h = get_or-NoDots cs i v.1 (omega arith)

-- A text, a dot and a text.
abbrev pub dotted : List ℕ → List ℕ → List ℕ
dotted front back = front ++ (b'.' ∷ back)

module _ (front mid back : List ℕ) (v : NoDots mid) where
  last_dot_within :
      (k : ℕ)
      → k ≤ length mid
      → last_dot (dotted front (mid ++ back)) (length front + 1 + k) ≡ some (length front)
  unfolding last_dot
  last_dot_within zero h =
      let at : length front + 1 + 0 ≡ suc (length front) = omega arith in
      let dot = get_or-append_right front (b'.' ∷ (mid ++ back)) 0 0 in
      let found : (get_or (dotted front (mid ++ back)) (length front) 0 == b'.') ≡ true =
        ground (arith, dot) in
      rw (at, last_dot, found) refl
  last_dot_within (suc k) h =
      let at : length front + 1 + suc k ≡ suc (length front + 1 + k) = omega arith in
      let here = get_or-append_right front (b'.' ∷ (mid ++ back)) (suc k) 0 in
      let here_at : length front + suc k ≡ length front + 1 + k = omega arith in
      let inside = get_or-append_left mid back k 0 h in
      let other = get_or-NoDots mid k v h in
      let passed : (get_or (dotted front (mid ++ back)) (length front + 1 + k) 0 == b'.') ≡ false =
        ground
          (arith, ap (λ i. get_or (dotted front (mid ++ back)) i 0) here_at, here, inside, other) in
      rw (at, last_dot, passed) (last_dot_within k (omega (arith, h)))

module _ (sha1 md5 : List ℕ → List ℕ) where
  -- The digits for a text and three keys.
  abbrev pub masked : List ℕ → List ℕ → List ℕ → List ℕ → List ℕ
  masked salt1 salt2 salt3 text =
      print_hex (downsample (do_md5 sha1 md5 salt1 salt2 salt3 text (length text)))

  do_md5-prefix :
      (salt1 salt2 salt3 text rest : List ℕ)
      → do_md5 sha1 md5 salt1 salt2 salt3 (text ++ rest) (length text)
        ≡ do_md5 sha1 md5 salt1 salt2 salt3 text (length text)
  unfolding do_md5
  do_md5-prefix salt1 salt2 salt3 text rest =
      ap (λ t. md5 (sha1 (salt1 ++ ((b':' ∷ []) ++ (t ++ ((b':' ∷ []) ++ salt2)))) ++ salt3))
        (take-append text rest ∙ sym (take-all (length text) text (omega arith)))

  abbrev pub cloaked : CloaksInfo → List ℕ → List ℕ → List ℕ → List ℕ
  cloaked info net c d =
      let key = get_cloak_key info in
      masked (key 2) (key 3) (key 1) (dotted (dotted net c) d)
      ++ ((b'.' ∷ [])
          ++ (masked (key 3) (key 1) (key 2) (dotted net c)
              ++ ((b'.' ∷ [])
                  ++ (masked (key 1) (key 2) (key 3) net ++ (b'.' ∷ b'I' ∷ b'P' ∷ [])))))

  length-cloaked : (info : CloaksInfo) (net c d : List ℕ) → length (cloaked info net c d) ≤ 29
  length-cloaked info net c d =
      let key = get_cloak_key info in
      let alpha = masked (key 2) (key 3) (key 1) (dotted (dotted net c) d) in
      let beta = masked (key 3) (key 1) (key 2) (dotted net c) in
      let gamma = masked (key 1) (key 2) (key 3) net in
      let tail = gamma ++ (b'.' ∷ b'I' ∷ b'P' ∷ []) in
      omega (
        arith,
        length-append alpha ((b'.' ∷ []) ++ (beta ++ ((b'.' ∷ []) ++ tail))),
        length-append beta ((b'.' ∷ []) ++ tail),
        length-append gamma (b'.' ∷ b'I' ∷ b'P' ∷ []),
        length-print_hex _,
        length-print_hex _,
        length-print_hex _,
      )

  module _ (info : CloaksInfo) (net c d : List ℕ) (h : Heap) where
    dots :
        NoDots c
        → NoDots d
        → let host = dotted (dotted net c) d in
          (last_dot host (length host) ≡ some (length (dotted net c)))
          × (last_dot host (length (dotted net c)) ≡ some (length net))
    dots vc vd =
        let host = dotted (dotted net c) d in
        let all : length host ≡ length (dotted net c) + 1 + length d =
          omega (arith, length-append (dotted net c) (b'.' ∷ d)) in
        let front : length (dotted net c) ≡ length net + 1 + length c =
          omega (arith, length-append net (b'.' ∷ c)) in
        let host1 : dotted (dotted net c) (d ++ []) ≡ host =
          ap (dotted (dotted net c)) (append-nil d) in
        let host2 : dotted net (c ++ (b'.' ∷ d)) ≡ host =
          sym (append_assoc net (b'.' ∷ c) (b'.' ∷ d)) in
        (
          ap (last_dot host) all
              ∙ ap (λ t. last_dot t (length (dotted net c) + 1 + length d)) (sym host1)
              ∙ last_dot_within (dotted net c) d [] vd (length d) (omega arith),
          ap (last_dot host) front
              ∙ ap (λ t. last_dot t (length net + 1 + length c)) (sym host2)
              ∙ last_dot_within net c (b'.' ∷ d) vc (length c) (omega arith),
        )

    -- An address that ends in two parts with a dot before each, `net.c.d`, is hidden, or is `NULL`
    -- if there is no memory for the copy, as three masks and `IP`: the first mask is that of the whole address, the second
    -- that of `net.c` and the third that of `net`, each with the keys in another order. Addresses
    -- with a common front thus have the masks behind the first, or behind the second, in common.
    -- The result fits in the buffer of 30 characters with the `'\0'` at its end.
    pub hide_ipv4-cloaked :
        NoDots c
        → NoDots d
        → (hide_ipv4 sha1 md5 info (dotted (dotted net c) d) h
            ≡ some (if (malloc h).0 then some (cloaked info net c d) else none, (malloc h).1))
          × (length (cloaked info net c d) + 1 ≤ 30)
    unfolding hide_ipv4
    hide_ipv4-cloaked vc vd =
        let (last, before) = dots vc vd in
        let key = get_cloak_key info in
        let host2 : dotted net (c ++ (b'.' ∷ d)) ≡ dotted (dotted net c) d =
          sym (append_assoc net (b'.' ∷ c) (b'.' ∷ d)) in
        let beta = do_md5-prefix (key 3) (key 1) (key 2) (dotted net c) (b'.' ∷ d) in
        let gamma : do_md5 sha1 md5 (key 1) (key 2) (key 3) (dotted (dotted net c) d) (length net)
            ≡ do_md5 sha1 md5 (key 1) (key 2) (key 3) net (length net) =
          ap (λ t. do_md5 sha1 md5 (key 1) (key 2) (key 3) t (length net)) (sym host2)
          ∙ do_md5-prefix (key 1) (key 2) (key 3) net (b'.' ∷ (c ++ (b'.' ∷ d))) in
        (rw (hide_ipv4, last, before, beta, gamma) refl, omega (arith, length-cloaked info net c d))
