-- ===== src/Prelude/Decimal.antt =====
-- Numbers in decimal, and how a loop over digits reads them.
use Prim.Native.Nat.{ℕ, zero, suc, ◌+◌, ◌-◌, ◌*◌, ◌/◌, ◌%◌, ◌≤◌, ◌<◌}
use mathlib.Core.Path.{◌≡◌, refl, ap, ap₂, ◌∙◌}
use mathlib.Core.Logic.{inl, inr}
use mathlib.Core.Bool.{Bool, true, false, ◌&&◌}
use mathlib.Core.List.{List, [], ◌∷◌, ◌++◌}
use native.Mathlib.Omega.{arith}
use vmodem.Prelude.Tests.{ltb, leb, Bool-cases}

abbrev pub is_decimal : ℕ → Bool
is_decimal c = leb b'0' c && leb c b'9'

-- The decimal digits of a number below ten to the fuel, without leading zeros.
unfoldable pub decimal_digits : ℕ → ℕ → List ℕ
decimal_digits zero n = (b'0' + n % 10) ∷ []
decimal_digits (suc fuel) n = elim (ltb n 10) [
  | true ↦ (b'0' + n) ∷ []
  | false ↦ decimal_digits fuel (n / 10) ++ ((b'0' + n % 10) ∷ [])
]

abbrev pub decimal : ℕ → List ℕ
decimal n = decimal_digits n n

-- The value modulo `m` and the number of digits after more digits.
abbrev pub fold_digits : ℕ → List ℕ → ℕ × ℕ → ℕ × ℕ
fold_digits m [] s = s
fold_digits m (c ∷ cs) s = fold_digits m cs ((s.0 * 10 + (c - b'0')) % m, s.1 + 1)

abbrev pub AllDigits : List ℕ → Type 0
AllDigits [] = Unit {0}
AllDigits (c ∷ cs) = (is_decimal c ≡ true) × AllDigits cs

AllDigits-append : (ds es : List ℕ) → AllDigits ds → AllDigits es → AllDigits (ds ++ es)
AllDigits-append [] es h h' = h'
AllDigits-append (d ∷ ds) es (h, hs) h' = (h, AllDigits-append ds es hs h')

digit_is_digit : (n : ℕ) → n < 10 → is_decimal (b'0' + n) ≡ true
digit_is_digit n h = ground arith

pub decimal_digits-AllDigits : (fuel n : ℕ) → n ≤ fuel → AllDigits (decimal_digits fuel n)
unfolding decimal_digits
decimal_digits-AllDigits zero n h = (digit_is_digit (n % 10) (omega arith), tt)
decimal_digits-AllDigits (suc fuel) n h = elim (Bool-cases (ltb n 10)) [
  | inl e ↦ rw (e, decimal_digits) (digit_is_digit n (ground arith), tt)
  | inr e ↦
      rw (e, decimal_digits)
        (AllDigits-append (decimal_digits fuel (n / 10)) ((b'0' + n % 10) ∷ [])
          (decimal_digits-AllDigits fuel (n / 10) (ground arith))
          (digit_is_digit (n % 10) (omega arith), tt))
]

-- The digits read back are the number modulo `m`, and there is one at least.
module _ (m : ℕ) (keeps : (n : ℕ) → (n / 10 % m * 10 + n % 10) % m ≡ n % m) where
  fold_digits-append :
      (ds es : List ℕ) (s : ℕ × ℕ)
      → fold_digits m (ds ++ es) s ≡ fold_digits m es (fold_digits m ds s)
  fold_digits-append [] es s = refl
  fold_digits-append (d ∷ ds) es s = fold_digits-append ds es ((s.0 * 10 + (d - b'0')) % m, s.1 + 1)

  pub fold_digits-decimal :
      (fuel n : ℕ)
      → n ≤ fuel
      → ((fold_digits m (decimal_digits fuel n) (0, 0)).0 ≡ n % m)
        × (0 < (fold_digits m (decimal_digits fuel n) (0, 0)).1)
  unfolding decimal_digits
  fold_digits-decimal zero n h =
      let z : n % 10 ≡ n = omega arith in (ap (λ (t : ℕ). t % m) (omega arith), omega arith)
  fold_digits-decimal (suc fuel) n h = elim (Bool-cases (ltb n 10)) [
    | inl e ↦ rw (e, decimal_digits) (ap (λ (t : ℕ). t % m) (omega arith), omega arith)
    | inr e ↦
        let (v, k) = fold_digits-decimal fuel (n / 10) (ground arith) in
        let last = (b'0' + n % 10) ∷ [] in
        let f = fold_digits-append (decimal_digits fuel (n / 10)) last (0, 0) in
        let c : b'0' + n % 10 - b'0' ≡ n % 10 = omega arith in
        rw (e, decimal_digits)
          (
            ap (λ (s : ℕ × ℕ). s.0) f ∙ ap₂ (λ (t u : ℕ). (t * 10 + u) % m) v c ∙ keeps n,
            omega (arith, ap (λ (s : ℕ × ℕ). s.1) f),
          )
  ]
