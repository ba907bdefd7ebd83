-- ===== src/Cloak.antt =====
-- src/cloak/cloak.c: the names that hide the addresses of the clients.
pub mod Bits
pub mod Sample
pub mod Hex
pub mod Address
pub mod Domain
mod Tests
use ya_ircd.Prelude.{
  ℕ, zero, suc, ◌+◌, ◌-◌, ◌*◌, ◌/◌, ◌%◌, ◌^◌, Bool, true, false, not, ◌&&◌, ◌||◌, List, [], ◌∷◌,
  ◌++◌, Option, none, some, ◌==◌, ltb, leb, if◌then◌else◌, length, get_or, take,
}
use Prim.Native.Nat.{bit_or, bit_xor}
use ya_ircd.Memory.{Heap, malloc}

abbrev pub max_host_len : ℕ
max_host_len = 128

-- An `unsigned int` has 32 bits, an MD5 hash 16 bytes.
abbrev pub int_len : ℕ
int_len = 32

abbrev pub md5_digest_length : ℕ
md5_digest_length = 16

-- The configuration of the cloaks: `keys` are three.
pub record CloaksInfo : Type 0 where
  pub net_prefix : List ℕ
  pub keys : List (List ℕ)

-- Keys are numbered from 1.
abbrev pub get_cloak_key : CloaksInfo → ℕ → List ℕ
get_cloak_key info i = get_or info.keys (i - 1) []

-- The bytes of one round, from the place where it starts.
unfoldable pub xor_bytes : ℕ → ℕ → List ℕ → ℕ
xor_bytes zero tmp hash = tmp
xor_bytes (suc n) tmp [] = tmp
xor_bytes (suc n) tmp (b ∷ hash) = xor_bytes n (bit_xor tmp b) hash

unfoldable pub skip_bytes : ℕ → List ℕ → List ℕ
skip_bytes zero hash = hash
skip_bytes (suc n) [] = []
skip_bytes (suc n) (b ∷ hash) = skip_bytes n hash

-- The rounds that are left, on the bytes that are left; a shift of an `unsigned int` drops what
-- leaves its 32 bits.
unfoldable pub pack_rounds : ℕ → ℕ → ℕ → List ℕ → ℕ
unfolding xor_bytes skip_bytes
pack_rounds zero sample mask hash = sample
pack_rounds (suc n) sample mask hash =
    pack_rounds n ((bit_or sample (xor_bytes 4 0 hash) * 2 ^ mask) % 2 ^ int_len)
      (mask - int_len / (md5_digest_length / 4)) (skip_bytes 4 hash)

unfoldable pub downsample : List ℕ → ℕ
unfolding pack_rounds
downsample hash =
    pack_rounds (md5_digest_length / 4) 0 (int_len - int_len / (md5_digest_length / 4)) hash

-- `%X` of an `unsigned int`, which has at most 8 digits.
abbrev pub hex_digit : ℕ → ℕ
hex_digit d = if ltb d 10 then b'0' + d else b'A' + (d - 10)

unfoldable pub hex_digits : ℕ → ℕ → List ℕ → List ℕ
hex_digits zero n digits = digits
hex_digits (suc k) n digits =
    let more = hex_digits k (n / 16) (hex_digit (n % 16) ∷ digits) in
    if ltb n 16 then hex_digit n ∷ digits else more

unfoldable pub print_hex : ℕ → List ℕ
unfolding hex_digits
print_hex n = hex_digits 8 n []

-- The place of the last dot in front of a place; `none` is a search that leaves the array.
unfoldable pub last_dot : List ℕ → ℕ → Option ℕ
last_dot host zero = none
last_dot host (suc len) =
    let before = last_dot host len in if get_or host len 0 == b'.' then some len else before

-- `isalpha` in the C locale, and at the end of a string, which is `'\0'`.
abbrev pub isalpha : ℕ → Bool
isalpha c = (leb b'A' c && leb c b'Z') || (leb b'a' c && leb c b'z')

abbrev pub starts_alpha : List ℕ → Bool
starts_alpha [] = false
starts_alpha (c ∷ _) = isalpha c

-- What is behind `p` at the end of the loop of `hide_host`.
unfoldable pub domain_of : List ℕ → List ℕ
domain_of [] = []
domain_of (c ∷ rest) =
    let later = domain_of rest in if c == b'.' && starts_alpha rest then c ∷ rest else later

-- SHA1 and MD5 of OpenSSL.
module _ (sha1 md5 : List ℕ → List ℕ) where
  -- On the first `text_len` characters of a text; the lengths of the keys are those of the strings.
  unfoldable pub do_md5 : List ℕ → List ℕ → List ℕ → List ℕ → ℕ → List ℕ
  do_md5 salt1 salt2 salt3 text text_len =
      md5 (sha1 (salt1 ++ ((b':' ∷ []) ++ (take text_len text ++ ((b':' ∷ []) ++ salt2)))) ++ salt3)

  -- A copy of the result, or `NULL`; the outcome `none` is a search for a dot that leaves the array.
  unfoldable pub hide_ipv4 : CloaksInfo → List ℕ → Heap → Option (Option (List ℕ) × Heap)
  unfolding do_md5 last_dot downsample print_hex
  hide_ipv4 info host h =
      let key = get_cloak_key info in
      let (got, h') = malloc h in
      let alpha = do_md5 (key 2) (key 3) (key 1) host (length host) in
      elim (last_dot host (length host)) [
        | none ↦ none
        | some dot ↦
            let beta = do_md5 (key 3) (key 1) (key 2) host dot in
            elim (last_dot host dot) [
              | none ↦ none
              | some dot' ↦
                  let gamma = do_md5 (key 1) (key 2) (key 3) host dot' in
                  let result =
                    print_hex (downsample alpha)
                    ++ ((b'.' ∷ [])
                        ++ (print_hex (downsample beta)
                            ++ ((b'.' ∷ [])
                                ++ (print_hex (downsample gamma) ++ (b'.' ∷ b'I' ∷ b'P' ∷ []))))) in
                  some (if got then some result else none, h')
            ]
      ]

  -- `snprintf` cuts the result at the size of the buffer.
  unfoldable pub hide_host : CloaksInfo → List ℕ → Heap → Option (List ℕ) × Heap
  unfolding do_md5 domain_of downsample print_hex
  hide_host info host h =
      let key = get_cloak_key info in
      let (got, h') = malloc h in
      let alpha = do_md5 (key 1) (key 2) (key 3) host (length host) in
      let result =
        take (max_host_len - 1)
          (info.net_prefix ++ ((b'-' ∷ []) ++ (print_hex (downsample alpha) ++ domain_of host))) in
      (if got then some result else none, h')
