-- ===== src/Cloak/Tests.antt =====
-- Cloaked names for concrete keys; the functions in the place of SHA1 and MD5 hash nothing.
use ya_ircd.Prelude.{
  ℕ, ◌+◌, ◌*◌, ◌^◌, ◌≤◌, ◌≡◌, refl, true, List, [], ◌∷◌, ◌++◌, none, some, arith, length, take,
  if◌then◌else◌,
}
use ya_ircd.Memory.{Heap, malloc, answer}
use ya_ircd.Cloak.{
  CloaksInfo, downsample, print_hex, hex_digits, xor_bytes, pack_rounds, skip_bytes, hide_ipv4,
  hide_host, last_dot,
}
use ya_ircd.Cloak.Sample.{Quad, folded, downsample_lem}
use ya_ircd.Cloak.Address.{dotted, cloaked, hide_ipv4-cloaked}
use ya_ircd.Cloak.Domain.{unique, hide_host-domain}

abbrev sha1 : List ℕ → List ℕ
sha1 text = take 20 text

abbrev md5 : List ℕ → List ℕ
md5 text = take 16 text

abbrev info : CloaksInfo
info = record { net_prefix = b'e' ∷ b'x' ∷ []; keys = (b'x' ∷ []) ∷ (b'y' ∷ []) ∷ (b'z' ∷ []) ∷ [] }

abbrev memory : Heap
memory = record { answers = true ∷ []; allocs = 0; frees = 0 }

copy_got : (malloc memory).0 ≡ true
unfolding malloc answer
copy_got = refl

abbrev ones : List ℕ
ones = 1 ∷ 2 ∷ 4 ∷ 8 ∷ []

abbrev bytes : List ℕ
bytes = 0xf0 ∷ 0x0f ∷ 0x00 ∷ 0xff ∷ []

ones-Quad : Quad ones
ones-Quad = record { four = refl; bytes = omega arith }

bytes-Quad : Quad bytes
bytes-Quad = record { four = refl; bytes = omega arith }

downsample_lem_example :
    downsample (bytes ++ (ones ++ (bytes ++ ones)))
    ≡ folded ones * 2 ^ 24 + folded bytes * 2 ^ 8 + folded ones
downsample_lem_example =
    downsample_lem bytes ones bytes ones bytes-Quad ones-Quad bytes-Quad ones-Quad

-- The first byte of the sample is that of the second group.
sample_run :
    print_hex (downsample (bytes ++ (ones ++ (bytes ++ ones))))
    ≡ b'F' ∷ b'0' ∷ b'0' ∷ b'0' ∷ b'0' ∷ b'0' ∷ b'F' ∷ []
unfolding downsample pack_rounds xor_bytes skip_bytes print_hex hex_digits
sample_run = refl

abbrev net : List ℕ
net = b'1' ∷ b'0' ∷ b'.' ∷ b'2' ∷ []

abbrev c : List ℕ
c = b'3' ∷ []

abbrev d : List ℕ
d = b'4' ∷ b'5' ∷ []

hide_ipv4-cloaked_example :
    (hide_ipv4 sha1 md5 info (dotted (dotted net c) d) memory
      ≡ some (
        if (malloc memory).0 then some (cloaked sha1 md5 info net c d) else none,
        (malloc memory).1,
      ))
    × (length (cloaked sha1 md5 info net c d) + 1 ≤ 30)
hide_ipv4-cloaked_example =
    hide_ipv4-cloaked sha1 md5 info net c d memory (omega arith) (omega arith)

-- Without a dot the search leaves the array.
no_dot_run : hide_ipv4 sha1 md5 info d memory ≡ none
unfolding hide_ipv4 last_dot
no_dot_run = refl

abbrev label : List ℕ
label = b'a' ∷ b'.' ∷ b'7' ∷ []

abbrev domain : List ℕ
domain = b'p' ∷ b't' ∷ []

hide_host-domain_example : hide_host sha1 md5 info (label ++ (b'.' ∷ domain)) memory ≡ (
  some (info.net_prefix ++ ((b'-' ∷ []) ++ (unique sha1 md5 info label domain ++ (b'.' ∷ domain)))),
  (malloc memory).1,
)
hide_host-domain_example =
    hide_host-domain sha1 md5 info label domain memory (refl, (refl, (refl, tt))) refl (omega arith)
      copy_got
