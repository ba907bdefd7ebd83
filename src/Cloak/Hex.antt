-- ===== src/Cloak/Hex.antt =====
-- Reading back what `%X` prints.
use ya_ircd.Prelude.{
  ℕ, zero, suc, ◌+◌, ◌-◌, ◌*◌, ◌/◌, ◌%◌, ◌^◌, ◌≤◌, ◌<◌, ◌≡◌, refl, ap, ◌∙◌, arith, inl, inr, List,
  [], ◌∷◌, ltb, leb, if◌then◌else◌, length, Bool-cases,
}
use native.Mathlib.Nat.{pow-suc}
use ya_ircd.Cloak.{hex_digit, hex_digits, print_hex, downsample}
use ya_ircd.Cloak.Sample.{downsample_below}

abbrev pub digit_value : ℕ → ℕ
digit_value c = if leb c b'9' then c - b'0' else c - b'A' + 10

-- The number behind some digits that have been read.
abbrev read_hex : ℕ → List ℕ → ℕ
read_hex n [] = n
read_hex n (c ∷ cs) = read_hex (n * 16 + digit_value c) cs

digit_value-hex_digit : (d : ℕ) → d < 16 → digit_value (hex_digit d) ≡ d
digit_value-hex_digit d h = ground (arith, h)

read_hex-hex_digits :
    (k n : ℕ) (digits : List ℕ)
    → n < 16 ^ k
    → read_hex 0 (hex_digits k n digits) ≡ read_hex n digits
unfolding hex_digits
read_hex-hex_digits zero zero digits h = refl
read_hex-hex_digits zero (suc n) digits h = absurd (omega arith)
read_hex-hex_digits (suc k) n digits h = elim (Bool-cases (ltb n 16)) [
  | inl last ↦
      let small : n < 16 = ground (arith, last) in
      let whole : 0 * 16 + digit_value (hex_digit n) ≡ n =
        omega (arith, digit_value-hex_digit n small) in
      rw (hex_digits, last) (ap (λ v. read_hex v digits) whole)
  | inr more ↦
      let low = digit_value-hex_digit (n % 16) (omega arith) in
      let whole : n / 16 * 16 + digit_value (hex_digit (n % 16)) ≡ n = omega (arith, low) in
      rw (hex_digits, more)
        (read_hex-hex_digits k (n / 16) (hex_digit (n % 16) ∷ digits)
            (omega (arith, h, pow-suc 16 k))
          ∙ ap (λ v. read_hex v digits) whole)
]

length-hex_digits : (k n : ℕ) (digits : List ℕ) → length (hex_digits k n digits) ≤ k + length digits
unfolding hex_digits
length-hex_digits zero n digits = omega arith
length-hex_digits (suc k) n digits = elim (Bool-cases (ltb n 16)) [
  | inl last ↦ rw (hex_digits, last) (omega arith)
  | inr more ↦
      rw (hex_digits, more)
        (omega (arith, length-hex_digits k (n / 16) (hex_digit (n % 16) ∷ digits)))
]

pub length-print_hex : (n : ℕ) → length (print_hex n) ≤ 8
unfolding print_hex
length-print_hex n = length-hex_digits 8 n []

-- The digits that a cloaked name shows are, read as a number, the whole sample of the hash.
read_hex-print_hex : (hash : List ℕ) → read_hex 0 (print_hex (downsample hash)) ≡ downsample hash
unfolding print_hex
read_hex-print_hex hash = read_hex-hex_digits 8 (downsample hash) [] (downsample_below hash)
