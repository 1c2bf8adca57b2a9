-- ===== src/Prelude/Xor.antt =====
-- Exclusive or of words.
use Prim.Native.Nat.{
  ℕ, zero, suc, ◌+◌, ◌*◌, ◌/◌, ◌%◌, ◌^◌, ◌≤◌, ◌<◌, bit_xor, bit_xor-bitwise, digits, differ,
}
use mathlib.Core.Path.{◌≡◌, refl, ap, ap₂, ◌∙◌}
use native.Mathlib.Omega.{arith}
use native.Mathlib.Nat.{pow-suc}

abbrev xor_digits : ℕ → ℕ → ℕ → ℕ
xor_digits n a b = digits (λ b. b) differ n a b

differ_bits : (x y : ℕ) → x < 2 → y < 2 → (differ x y < 2) × (differ x (differ x y) ≡ y)
differ_bits zero y h h' = (h', refl)
differ_bits (suc zero) zero h h' = (omega arith, refl)
differ_bits (suc zero) (suc zero) h h' = (omega arith, refl)
differ_bits (suc (suc x)) y h h' = absurd (omega arith)
differ_bits (suc zero) (suc (suc y)) h h' = absurd (omega arith)

xor_digits_cancel : (n a b : ℕ) → xor_digits n a (xor_digits n a b) ≡ b
xor_digits_cancel zero a b = refl
xor_digits_cancel (suc n) zero b = refl
xor_digits_cancel (suc n) (suc a) b =
    let d = differ (suc a % 2) (b % 2) in
    let (bit, back) = differ_bits (suc a % 2) (b % 2) (omega arith) (omega arith) in
    let r = xor_digits n (suc a / 2) (b / 2) in
    let half : (r * 2 + d) / 2 ≡ r = omega (arith, bit) in
    let low : (r * 2 + d) % 2 ≡ d = omega (arith, bit) in
    ap₂ (λ (x y : ℕ). x * 2 + y)
      (ap (xor_digits n (suc a / 2)) half ∙ xor_digits_cancel n (suc a / 2) (b / 2))
      (ap (differ (suc a % 2)) low ∙ back)
    ∙ omega arith

-- `a ^ (a ^ b)` is `b`.
pub bit_xor_cancel : (a b : ℕ) → bit_xor a (bit_xor a b) ≡ b
bit_xor_cancel a b =
    bit_xor-bitwise a (bit_xor a b)
    ∙ ap (xor_digits a a) (bit_xor-bitwise a b)
    ∙ xor_digits_cancel a a b

xor_digits_lt : (k n a b : ℕ) → a ≤ n → a < 2 ^ k → b < 2 ^ k → xor_digits n a b < 2 ^ k
xor_digits_lt k zero a b le h h' = h'
xor_digits_lt k (suc n) zero b le h h' = h'
xor_digits_lt zero (suc n) (suc a) b le h h' = absurd (omega arith)
xor_digits_lt (suc k) (suc n) (suc a) b le h h' =
    let (bit, _) = differ_bits (suc a % 2) (b % 2) (omega arith) (omega arith) in
    omega (
      arith,
      bit,
      pow-suc 2 k,
      xor_digits_lt k n (suc a / 2) (b / 2) (omega arith) (omega (arith, pow-suc 2 k))
          (omega (arith, pow-suc 2 k)),
    )

pub bit_xor_lt : (k a b : ℕ) → a < 2 ^ k → b < 2 ^ k → bit_xor a b < 2 ^ k
bit_xor_lt k a b h h' = omega (arith, bit_xor-bitwise a b, xor_digits_lt k a a b (omega arith) h h')

xor_digits_zero : (n a : ℕ) → a ≤ n → xor_digits n a 0 ≡ a
xor_digits_zero zero a h = omega arith
xor_digits_zero (suc n) zero h = refl
xor_digits_zero (suc n) (suc a) h =
    let bit : differ (suc a % 2) 0 ≡ suc a % 2 = differ_zero (suc a % 2) in
    omega (arith, bit, xor_digits_zero n (suc a / 2) (omega arith))
  where
    differ_zero : (x : ℕ) → differ x 0 ≡ x
    differ_zero zero = refl
    differ_zero (suc x) = refl

pub bit_xor_zero : (a : ℕ) → bit_xor a 0 ≡ a
bit_xor_zero a = bit_xor-bitwise a 0 ∙ xor_digits_zero a a (omega arith)
