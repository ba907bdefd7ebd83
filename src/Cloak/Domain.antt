-- ===== src/Cloak/Domain.antt =====
-- The cloaked name of a host that has a name.
use ya_ircd.Prelude.{
  ℕ, ◌+◌, ◌≤◌, ◌≡◌, refl, ap, arith, true, false, ◌&&◌, List, [], ◌∷◌, ◌++◌, some, ◌==◌, length,
  take-all, length-append,
}
use ya_ircd.Memory.{Heap, malloc}
use ya_ircd.Cloak.{
  CloaksInfo, get_cloak_key, downsample, print_hex, do_md5, starts_alpha, domain_of, hide_host,
}
use ya_ircd.Cloak.Hex.{length-print_hex}

-- No dot of the label has a letter behind it, where `back` is what follows the label.
abbrev pub NoDomain : List ℕ → List ℕ → Type 0
NoDomain [] back = Unit
NoDomain (c ∷ label) back =
    ((c == b'.' && starts_alpha (label ++ back)) ≡ false) × NoDomain label back

domain_of-label :
    (label domain : List ℕ)
    → NoDomain label (b'.' ∷ domain)
    → starts_alpha domain ≡ true
    → domain_of (label ++ (b'.' ∷ domain)) ≡ b'.' ∷ domain
unfolding domain_of
domain_of-label [] domain v h = rw (domain_of, h) refl
domain_of-label (c ∷ label) domain v h = rw (domain_of, v.0) (domain_of-label label domain v.1 h)

module _ (sha1 md5 : List ℕ → List ℕ) (info : CloaksInfo) (label domain : List ℕ) where
  abbrev pub host : List ℕ
  host = label ++ (b'.' ∷ domain)

  abbrev pub unique : List ℕ
  unique =
      let key = get_cloak_key info in
      print_hex (downsample (do_md5 sha1 md5 (key 1) (key 2) (key 3) host (length host)))

  -- A name whose domain begins at the first dot with a letter behind it: given memory for the copy,
  -- and if prefix and domain are together at most 117 characters long, the result is the prefix, a
  -- hyphen, the mask of the name, and the whole domain. So the hosts of a domain have it in common.
  pub hide_host-domain :
      (h : Heap)
      → NoDomain label (b'.' ∷ domain)
      → starts_alpha domain ≡ true
      → length info.net_prefix + length domain ≤ 117
      → (malloc h).0 ≡ true
      → hide_host sha1 md5 info host h
        ≡ (some (info.net_prefix ++ ((b'-' ∷ []) ++ (unique ++ (b'.' ∷ domain)))), (malloc h).1)
  unfolding hide_host
  hide_host-domain h v letter short got =
      let back = domain_of-label label domain v letter in
      let size : length (info.net_prefix ++ ((b'-' ∷ []) ++ (unique ++ (b'.' ∷ domain)))) ≤ 127 =
        omega (
          arith,
          length-append info.net_prefix ((b'-' ∷ []) ++ (unique ++ (b'.' ∷ domain))),
          length-append unique (b'.' ∷ domain),
          length-print_hex _,
          short,
        ) in
      rw (hide_host, got, back) (ap (λ t. (some t, (malloc h).1)) (take-all 127 _ size))
