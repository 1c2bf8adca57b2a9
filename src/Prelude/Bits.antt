-- ===== src/Prelude/Bits.antt =====
-- Masking the low bits of a word.
use Prim.Native.Nat.{
  ℕ, zero, suc, ◌+◌, ◌-◌, ◌*◌, ◌/◌, ◌%◌, ◌^◌, ◌≤◌, ◌<◌, min, bit_and, digits, bit_and-bitwise,
  bit_or, bit_or-bitwise, max,
}
use mathlib.Core.Path.{◌≡◌, refl, sym, ap, ap₂, ◌∙◌}
use native.Mathlib.Omega.{arith}
use native.Mathlib.Nat.{
  pow-suc, zero-mod, zero-div, add-mul-mod_self_right, mod-eq_of_lt, mod-lt, div-add-mod',
  div-div-eq-div-mul,
}

abbrev and_digits : ℕ → ℕ → ℕ → ℕ
and_digits n a b = digits (λ b. zero) min n a b

and_digits-zero : (n a : ℕ) → and_digits n a 0 ≡ 0
and_digits-zero zero a = refl
and_digits-zero (suc n) zero = refl
and_digits-zero (suc n) (suc a) = omega (arith, and_digits-zero n (suc a / 2))

pow-pos : (k : ℕ) → 0 < 2 ^ k
pow-pos zero = omega arith
pow-pos (suc k) = omega (arith, pow-pos k, pow-suc 2 k)

halve_mask : (k : ℕ) → (2 ^ suc k - 1) / 2 ≡ 2 ^ k - 1
halve_mask k = omega (arith, pow-pos k, pow-suc 2 k)

regroup : (a m : ℕ) → a ≡ a / 2 % m * 2 + a % 2 + a / 2 / m * (m * 2)
regroup a m = omega (arith, ap (λ (t : ℕ). t * 2) (div-add-mod' (a / 2) m))

mod_double : (a m : ℕ) → 0 < m → a % (m * 2) ≡ (a / 2) % m * 2 + a % 2
mod_double a m h = omega (
  arith,
  add-mul-mod_self_right (a / 2 % m * 2 + a % 2) (a / 2 / m) (m * 2),
  mod-eq_of_lt {n = a / 2 % m * 2 + a % 2} {m = m * 2} (omega (arith, mod-lt (a / 2) h)),
  ap (λ (t : ℕ). t % (m * 2)) (regroup a m),
)

and_digits-mask : (k n a : ℕ) → a ≤ n → and_digits n a (2 ^ k - 1) ≡ a % 2 ^ k
and_digits-mask zero n a h = omega (arith, and_digits-zero n a)
and_digits-mask (suc k) zero zero h = sym (zero-mod (2 ^ suc k))
and_digits-mask (suc k) zero (suc a) h = absurd (omega arith)
and_digits-mask (suc k) (suc n) zero h = sym (zero-mod (2 ^ suc k))
and_digits-mask (suc k) (suc n) (suc a) h = omega (
  arith,
  mod_double (suc a) (2 ^ k) (pow-pos k),
  pow-pos k,
  and_digits-mask k n (suc a / 2) (omega arith),
  ap (λ (t : ℕ). suc a % t) (pow-suc 2 k),
  ap (λ (t : ℕ). and_digits n (suc a / 2) t) (halve_mask k),
  halve_mask k,
  pow-suc 2 k,
)

-- `a & (2^k - 1)` keeps the low `k` bits of `a`.
pub bit_and-mask : (k a : ℕ) → bit_and a (2 ^ k - 1) ≡ a % 2 ^ k
bit_and-mask k a = bit_and-bitwise a (2 ^ k - 1) ∙ and_digits-mask k a a (omega arith)

abbrev or_digits : ℕ → ℕ → ℕ → ℕ
or_digits n a b = digits (λ b. b) max n a b

or_digits-zero : (n a : ℕ) → a ≤ n → or_digits n a 0 ≡ a
or_digits-zero n zero h = or_zero n
  where
    or_zero : (n : ℕ) → or_digits n 0 0 ≡ 0
    or_zero zero = refl
    or_zero (suc n) = refl
or_digits-zero zero (suc a) h = absurd (omega arith)
or_digits-zero (suc n) (suc a) h = omega (arith, or_digits-zero n (suc a / 2) (omega arith))

or_digits-shifted : (k n a x b : ℕ) → x ≡ a * 2 ^ k → x ≤ n → b < 2 ^ k → or_digits n x b ≡ x + b
or_digits-shifted zero n a x b e h lt =
    let z : b ≡ 0 = omega arith in rw z (or_digits-zero n x h ∙ omega arith)
or_digits-shifted (suc k) zero a zero b e h lt = omega arith
or_digits-shifted (suc k) (suc n) a zero b e h lt = omega arith
or_digits-shifted (suc k) zero a (suc x) b e h lt = absurd (omega arith)
or_digits-shifted (suc k) (suc n) a (suc x) b e h lt = omega (
  arith,
  or_digits-shifted k n a (suc x / 2) (b / 2)
      (omega (arith, pow-suc 2 k, ap (λ (t : ℕ). a * t) (pow-suc 2 k))) (omega arith)
      (omega (arith, pow-suc 2 k)),
  ap (λ (t : ℕ). a * t) (pow-suc 2 k),
)

-- `(a << k) | b` is a sum where `b` has at most `k` bits.
pub bit_or-shifted : (k a b : ℕ) → b < 2 ^ k → bit_or (a * 2 ^ k) b ≡ a * 2 ^ k + b
bit_or-shifted k a b h =
    bit_or-bitwise (a * 2 ^ k) b
    ∙ or_digits-shifted k (a * 2 ^ k) a (a * 2 ^ k) b refl (omega arith) h

or_digits-above : (k n x b y : ℕ) → y ≡ b * 2 ^ k → x ≤ n → x < 2 ^ k → or_digits n x y ≡ x + y
or_digits-above k zero zero b y e h lt = omega arith
or_digits-above k (suc n) zero b y e h lt = omega arith
or_digits-above k zero (suc x) b y e h lt = absurd (omega arith)
or_digits-above zero (suc n) (suc x) b y e h lt = absurd (omega arith)
or_digits-above (suc k) (suc n) (suc x) b y e h lt = omega (
  arith,
  or_digits-above k n (suc x / 2) b (y / 2) (omega (arith, ap (λ (t : ℕ). b * t) (pow-suc 2 k)))
      (omega arith) (omega (arith, pow-suc 2 k)),
  ap (λ (t : ℕ). b * t) (pow-suc 2 k),
)

-- `a | (b << k)` is a sum where `a` has at most `k` bits.
pub bit_or-above : (k a b : ℕ) → a < 2 ^ k → bit_or a (b * 2 ^ k) ≡ a + b * 2 ^ k
bit_or-above k a b h =
    bit_or-bitwise a (b * 2 ^ k) ∙ or_digits-above k a a b (b * 2 ^ k) refl (omega arith) h

zero_field : (k j : ℕ) → 0 / 2 ^ k % 2 ^ j * 2 ^ k ≡ 0
zero_field k j = omega (
  arith,
  zero-div (2 ^ k),
  zero-mod (2 ^ j),
  ap (λ (t : ℕ). t % 2 ^ j * 2 ^ k) (zero-div (2 ^ k)),
  ap (λ (t : ℕ). t * 2 ^ k) (zero-mod (2 ^ j)),
)

and_digits-field :
    (k j n x y : ℕ) → y ≡ (2 ^ j - 1) * 2 ^ k → x ≤ n → and_digits n x y ≡ x / 2 ^ k % 2 ^ j * 2 ^ k
and_digits-field zero j n x y e h =
    let e' : y ≡ 2 ^ j - 1 = omega arith in
    let one : x ≡ x / 1 = omega arith in
    let unit : x / 1 % 2 ^ j ≡ x / 1 % 2 ^ j * 1 = omega arith in
    ap (and_digits n x) e' ∙ and_digits-mask j n x h ∙ ap (λ (t : ℕ). t % 2 ^ j) one ∙ unit
and_digits-field (suc k) j zero zero y e h = omega (arith, zero_field (suc k) j)
and_digits-field (suc k) j (suc n) zero y e h = omega (arith, zero_field (suc k) j)
and_digits-field (suc k) j zero (suc x) y e h = absurd (omega arith)
and_digits-field (suc k) j (suc n) (suc x) y e h =
    let p : 2 ^ suc k ≡ 2 * 2 ^ k = omega (arith, pow-suc 2 k) in
    let q : suc x / 2 ^ suc k % 2 ^ j ≡ suc x / 2 / 2 ^ k % 2 ^ j =
      ap (λ (t : ℕ). suc x / t % 2 ^ j) p
      ∙ ap (λ (t : ℕ). t % 2 ^ j) (sym (div-div-eq-div-mul (suc x) 2 (2 ^ k))) in
    let r : suc x / 2 ^ suc k % 2 ^ j * 2 ^ suc k ≡ suc x / 2 / 2 ^ k % 2 ^ j * (2 * 2 ^ k) =
      ap₂ (λ (s t : ℕ). s * t) q p in
    let y2 : y ≡ (2 ^ j - 1) * 2 ^ k * 2 = omega (arith, e, ap (λ (t : ℕ). (2 ^ j - 1) * t) p) in
    let ih = and_digits-field k j n (suc x / 2) (y / 2) (omega (arith, y2)) (omega arith) in
    omega (arith, ih, r, y2)

-- `a & mask` with a mask of `j` ones above `k` zeros.
pub bit_and-field : (k j a : ℕ) → bit_and a ((2 ^ j - 1) * 2 ^ k) ≡ a / 2 ^ k % 2 ^ j * 2 ^ k
bit_and-field k j a =
    bit_and-bitwise a ((2 ^ j - 1) * 2 ^ k)
    ∙ and_digits-field k j a a ((2 ^ j - 1) * 2 ^ k) refl (omega arith)
