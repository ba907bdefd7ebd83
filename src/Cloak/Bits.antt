-- ===== src/Cloak/Bits.antt =====
-- `|` of disjoint bits as a sum, and `^` within a width.
use ya_ircd.Prelude.{
  ℕ, zero, suc, ◌+◌, ◌*◌, ◌/◌, ◌%◌, ◌^◌, ◌≤◌, ◌<◌, ◌≡◌, refl, sym, ap, ◌∙◌, arith,
}
use Prim.Native.Nat.{max, differ, digits, bitwise, bit_or, bit_xor, bit_or-bitwise, bit_xor-bitwise}
use native.Mathlib.Nat.{pow-suc}

module _ (f : ℕ → ℕ → ℕ) where
  abbrev rest : ℕ → ℕ → ℕ → ℕ
  rest = digits (λ b. b) f

  -- The fuel does not matter, as long as it is enough.
  rest_enough : (n m a b : ℕ) → a ≤ n → a ≤ m → rest n a b ≡ rest m a b
  rest_enough n m zero b p q = at_zero n m
    where
      at_zero : (n m : ℕ) → rest n zero b ≡ rest m zero b
      at_zero zero zero = refl
      at_zero zero (suc m) = refl
      at_zero (suc n) zero = refl
      at_zero (suc n) (suc m) = refl
  rest_enough zero m (suc a) b p q = absurd (omega arith)
  rest_enough (suc n) zero (suc a) b p q = absurd (omega arith)
  rest_enough (suc n) (suc m) (suc a) b p q =
      ap (λ t. t * 2 + f (suc a % 2) (b % 2))
        (rest_enough n m (suc a / 2) (b / 2) (omega arith) (omega arith))

  bitwise_halved :
      (a b : ℕ)
      → bitwise (λ b. b) f (suc a) b
        ≡ bitwise (λ b. b) f (suc a / 2) (b / 2) * 2 + f (suc a % 2) (b % 2)
  bitwise_halved a b =
      ap (λ t. t * 2 + f (suc a % 2) (b % 2))
        (rest_enough a (suc a / 2) (suc a / 2) (b / 2) (omega arith) (omega arith))

bit_or_halved : (a b : ℕ) → bit_or a b ≡ bit_or (a / 2) (b / 2) * 2 + max (a % 2) (b % 2)
bit_or_halved zero b = omega (arith, bit_or-bitwise 0 b, bit_or-bitwise 0 (b / 2))
bit_or_halved (suc a) b =
    bit_or-bitwise (suc a) b
    ∙ bitwise_halved max a b
    ∙ ap (λ t. t * 2 + max (suc a % 2) (b % 2)) (sym (bit_or-bitwise (suc a / 2) (b / 2)))

bit_xor_halved : (a b : ℕ) → bit_xor a b ≡ bit_xor (a / 2) (b / 2) * 2 + differ (a % 2) (b % 2)
bit_xor_halved zero b = omega (arith, bit_xor-bitwise 0 b, bit_xor-bitwise 0 (b / 2))
bit_xor_halved (suc a) b =
    bit_xor-bitwise (suc a) b
    ∙ bitwise_halved differ a b
    ∙ ap (λ t. t * 2 + differ (suc a % 2) (b % 2)) (sym (bit_xor-bitwise (suc a / 2) (b / 2)))

pub zero-bit_or : (b : ℕ) → bit_or 0 b ≡ b
zero-bit_or b = bit_or-bitwise 0 b

bit_or-zero_below : (n a : ℕ) → a ≤ n → bit_or a 0 ≡ a
bit_or-zero_below n zero h = refl
bit_or-zero_below zero (suc a) h = absurd (omega arith)
bit_or-zero_below (suc n) (suc a) h =
    omega (arith, bit_or_halved (suc a) 0, bit_or-zero_below n (suc a / 2) (omega arith))

-- The low `k` bits of the one and the rest of the other.
pub bit_or_disjoint : (k q r : ℕ) → r < 2 ^ k → bit_or (q * 2 ^ k) r ≡ q * 2 ^ k + r
bit_or_disjoint zero q r h = ground (arith, bit_or-zero_below q q (omega arith))
bit_or_disjoint (suc k) q r h =
    let double : q * 2 ^ suc k ≡ 2 * (q * 2 ^ k) = omega (arith, ap (λ t. q * t) (pow-suc 2 k)) in
    let half : q * 2 ^ suc k / 2 ≡ q * 2 ^ k = omega (arith, double) in
    let low : r / 2 < 2 ^ k = omega (arith, pow-suc 2 k, h) in
    let ih = ap (λ t. bit_or t (r / 2)) half ∙ bit_or_disjoint k q (r / 2) low in
    omega (arith, bit_or_halved (q * 2 ^ suc k) r, double, ih)

differ_bit : (a b : ℕ) → differ (a % 2) (b % 2) < 2
differ_bit a b = bit (a % 2) (b % 2) (omega arith) (omega arith)
  where
    bit : (x y : ℕ) → x < 2 → y < 2 → differ x y < 2
    bit zero y hx hy = hy
    bit (suc zero) zero hx hy = omega arith
    bit (suc zero) (suc y) hx hy = omega arith
    bit (suc (suc x)) y hx hy = absurd (omega arith)

pub bit_xor_below : (k a b : ℕ) → a < 2 ^ k → b < 2 ^ k → bit_xor a b < 2 ^ k
bit_xor_below zero zero zero ha hb = omega arith
bit_xor_below zero zero (suc b) ha hb = absurd (omega arith)
bit_xor_below zero (suc a) b ha hb = absurd (omega arith)
bit_xor_below (suc k) a b ha hb = omega (
  arith,
  pow-suc 2 k,
  bit_xor_halved a b,
  differ_bit a b,
  bit_xor_below k (a / 2) (b / 2) (omega (arith, pow-suc 2 k, ha)) (omega (arith, pow-suc 2 k, hb)),
)
