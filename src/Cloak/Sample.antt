-- ===== src/Cloak/Sample.antt =====
-- What `downsample` keeps of a hash.
use ya_ircd.Prelude.{
  ℕ, zero, suc, ◌+◌, ◌-◌, ◌*◌, ◌%◌, ◌^◌, ◌<◌, ◌≡◌, refl, sym, ap, ◌∙◌, arith, List, [], ◌∷◌, ◌++◌,
  length, append-nil, Bytes,
}
use Prim.Native.Nat.{bit_or, bit_xor}
use ya_ircd.Cloak.{xor_bytes, skip_bytes, pack_rounds, downsample}
use ya_ircd.Cloak.Bits.{zero-bit_or, bit_or_disjoint, bit_xor_below}

-- Four bytes.
pub record Quad (q : List ℕ) : Type 0 where
  pub four : length q ≡ 4
  pub bytes : Bytes q

xor_bytes-append :
    (n t : ℕ) (xs ys : List ℕ) → length xs ≡ n → xor_bytes n t (xs ++ ys) ≡ xor_bytes n t xs
unfolding xor_bytes
xor_bytes-append zero t xs ys h = refl
xor_bytes-append (suc n) t [] ys h = absurd (omega arith)
xor_bytes-append (suc n) t (x ∷ xs) ys h = xor_bytes-append n (bit_xor t x) xs ys (omega arith)

skip_bytes-append : (n : ℕ) (xs ys : List ℕ) → length xs ≡ n → skip_bytes n (xs ++ ys) ≡ ys
unfolding skip_bytes
skip_bytes-append zero [] ys h = refl
skip_bytes-append zero (x ∷ xs) ys h = absurd (omega arith)
skip_bytes-append (suc n) [] ys h = absurd (omega arith)
skip_bytes-append (suc n) (x ∷ xs) ys h = skip_bytes-append n xs ys (omega arith)

xor_bytes_below : (n t : ℕ) (xs : List ℕ) → t < 256 → Bytes xs → xor_bytes n t xs < 256
unfolding xor_bytes
xor_bytes_below zero t xs ht hx = ht
xor_bytes_below (suc n) t [] ht hx = ht
xor_bytes_below (suc n) t (x ∷ xs) ht hx =
    xor_bytes_below n (bit_xor t x) xs (bit_xor_below 8 t x ht hx.0) hx.1

-- The byte that a round packs.
abbrev pub folded : List ℕ → ℕ
folded q = xor_bytes 4 0 q

folded_below : (q : List ℕ) → Quad q → folded q < 256
folded_below q v = xor_bytes_below 4 0 q (omega arith) v.bytes

-- One round on the next four bytes.
round_lem :
    (n sample mask : ℕ) (q rest : List ℕ)
    → Quad q
    → pack_rounds (suc n) sample mask (q ++ rest)
      ≡ pack_rounds n ((bit_or sample (folded q) * 2 ^ mask) % 2 ^ 32) (mask - 8) rest
unfolding pack_rounds
round_lem n sample mask q rest v =
    rw (pack_rounds, xor_bytes-append 4 0 q rest v.four, skip_bytes-append 4 q rest v.four) refl

-- Of a hash of sixteen bytes, the sample keeps the second, the third and the fourth group of four,
-- each folded to one byte by `^`, in its bytes 3, 1 and 0; it does not depend on the first group,
-- and its byte 2 is always 0.
pub downsample_lem :
    (first second third fourth : List ℕ)
    → Quad first
    → Quad second
    → Quad third
    → Quad fourth
    → downsample (first ++ (second ++ (third ++ fourth)))
      ≡ folded second * 2 ^ 24 + folded third * 2 ^ 8 + folded fourth
unfolding downsample
downsample_lem first second third fourth v1 v2 v3 v4 =
    let f1 = folded_below first v1 in
    let f2 = folded_below second v2 in
    let f3 = folded_below third v3 in
    let f4 = folded_below fourth v4 in
    let t1 = folded first in
    let t2 = folded second in
    let t3 = folded third in
    let t4 = folded fourth in
    let s1 : (bit_or 0 t1 * 2 ^ 24) % 2 ^ 32 ≡ (t1 * 2 ^ 16) * 2 ^ 8 =
      omega (arith, zero-bit_or t1, f1) in
    let s2 : (bit_or ((t1 * 2 ^ 16) * 2 ^ 8) t2 * 2 ^ 16) % 2 ^ 32 ≡ (t2 * 2 ^ 8) * 2 ^ 8 =
      omega (arith, bit_or_disjoint 8 (t1 * 2 ^ 16) t2 f2, f1, f2) in
    let s3 : (bit_or ((t2 * 2 ^ 8) * 2 ^ 8) t3 * 2 ^ 8) % 2 ^ 32 ≡ (t2 * 2 ^ 16 + t3) * 2 ^ 8 =
      omega (arith, bit_or_disjoint 8 (t2 * 2 ^ 8) t3 f3, f2, f3) in
    let s4 : (bit_or ((t2 * 2 ^ 16 + t3) * 2 ^ 8) t4 * 2 ^ 0) % 2 ^ 32
        ≡ t2 * 2 ^ 24 + t3 * 2 ^ 8 + t4 =
      omega (arith, bit_or_disjoint 8 (t2 * 2 ^ 16 + t3) t4 f4, f2, f3, f4) in
    ap (λ t. downsample (first ++ (second ++ (third ++ t)))) (sym (append-nil fourth))
    ∙ round_lem 3 0 24 first (second ++ (third ++ (fourth ++ []))) v1
    ∙ ap (λ s. pack_rounds 3 s 16 (second ++ (third ++ (fourth ++ [])))) s1
    ∙ round_lem 2 ((t1 * 2 ^ 16) * 2 ^ 8) 16 second (third ++ (fourth ++ [])) v2
    ∙ ap (λ s. pack_rounds 2 s 8 (third ++ (fourth ++ []))) s2
    ∙ round_lem 1 ((t2 * 2 ^ 8) * 2 ^ 8) 8 third (fourth ++ []) v3
    ∙ ap (λ s. pack_rounds 1 s 0 (fourth ++ [])) s3
    ∙ round_lem 0 ((t2 * 2 ^ 16 + t3) * 2 ^ 8) 0 fourth [] v4
    ∙ s4

pack_rounds_below :
    (n sample mask : ℕ) (hash : List ℕ) → sample < 2 ^ 32 → pack_rounds n sample mask hash < 2 ^ 32
unfolding pack_rounds
pack_rounds_below zero sample mask hash h = h
pack_rounds_below (suc n) sample mask hash h =
    pack_rounds_below n _ (mask - 8) (skip_bytes 4 hash) (omega arith)

pub downsample_below : (hash : List ℕ) → downsample hash < 2 ^ 32
unfolding downsample
downsample_below hash = pack_rounds_below 4 0 24 hash (omega arith)
