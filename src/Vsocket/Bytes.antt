-- ===== src/Vsocket/Bytes.antt =====
-- The byte orders of src/lib/vsocket.c: `htons`, `ntohs`, `htonl` and `ntohl`.
use vmodem.Prelude.{
  ℕ, ◌+◌, ◌*◌, ◌/◌, ◌%◌, ◌^◌, ◌<◌, ◌≡◌, arith, bit_and, bit_or, bit_and-mask, bit_or-shifted,
  bit_and-field, bit_or-above, ◌∙◌, ap, ap₂,
}

unfoldable pub htons : ℕ → ℕ
htons x = bit_or (x / 2 ^ 8) (x * 2 ^ 8 % 2 ^ 16)

unfoldable pub ntohs : ℕ → ℕ
ntohs x = bit_or (x / 2 ^ 8) (x * 2 ^ 8 % 2 ^ 16)

unfoldable pub htonl : ℕ → ℕ
htonl x =
    bit_or
      (bit_or (bit_or (bit_and x 0xff * 2 ^ 24) (bit_and x 0xff00 * 2 ^ 8))
        (bit_and x 0xff_0000 / 2 ^ 8))
      (bit_and x 0xff00_0000 / 2 ^ 24)

unfoldable pub ntohl : ℕ → ℕ
unfolding htonl
ntohl x = htonl x

-- The two bytes change places.
htons_bytes : (x : ℕ) → x < 65536 → htons x ≡ x % 256 * 256 + x / 256
unfolding htons
htons_bytes x h =
    let e : x * 2 ^ 8 % 2 ^ 16 ≡ x % 256 * 2 ^ 8 = omega arith in
    ap (bit_or (x / 2 ^ 8)) e ∙ bit_or-above 8 (x / 2 ^ 8) (x % 256) (omega arith) ∙ omega arith

-- The four bytes in the opposite order.
abbrev reversed : ℕ → ℕ
reversed x = x % 256 * 2 ^ 24 + x / 2 ^ 8 % 256 * 2 ^ 16 + x / 2 ^ 16 % 256 * 2 ^ 8 + x / 2 ^ 24

htonl_bytes : (x : ℕ) → x < 0x1_0000_0000 → htonl x ≡ reversed x
unfolding htonl
htonl_bytes x h =
    let a = x % 256 in
    let b = x / 2 ^ 8 % 256 in
    let c = x / 2 ^ 16 % 256 in
    let d = x / 2 ^ 24 in
    let fa : bit_and x 0xff * 2 ^ 24 ≡ a * 2 ^ 8 * 2 ^ 16 = omega (arith, bit_and-mask 8 x) in
    let fb : bit_and x 0xff00 * 2 ^ 8 ≡ b * 2 ^ 16 = omega (arith, bit_and-field 8 8 x) in
    let fc : bit_and x 0xff_0000 / 2 ^ 8 ≡ c * 2 ^ 8 = omega (arith, bit_and-field 16 8 x) in
    let fd : bit_and x 0xff00_0000 / 2 ^ 24 ≡ d = omega (arith, bit_and-field 24 8 x) in
    let ab : bit_or (a * 2 ^ 8 * 2 ^ 16) (b * 2 ^ 16) ≡ (a * 2 ^ 8 + b) * 2 ^ 16 =
      let e : a * 2 ^ 8 * 2 ^ 16 ≡ a * 2 ^ 24 = omega arith in
      ap (λ t. bit_or t (b * 2 ^ 16)) e
      ∙ bit_or-shifted 24 a (b * 2 ^ 16) (omega arith)
      ∙ omega arith in
    ap₂ bit_or (ap₂ bit_or (ap₂ bit_or fa fb ∙ ab) fc) fd
    ∙ ap (λ t. bit_or t d)
        (bit_or-shifted 16 (a * 2 ^ 8 + b) (c * 2 ^ 8) (omega arith)
          ∙ (let e : (a * 2 ^ 8 + b) * 2 ^ 16 + c * 2 ^ 8 ≡ ((a * 2 ^ 8 + b) * 2 ^ 8 + c) * 2 ^ 8 =
                omega arith in
              e))
    ∙ bit_or-shifted 8 ((a * 2 ^ 8 + b) * 2 ^ 8 + c) d (omega arith)
    ∙ omega arith

-- `ntohs` undoes `htons` on 16 bits and `ntohl` undoes `htonl` on 32 bits; both reverse the bytes.
ntohl-htonl :
    (x y : ℕ)
    → x < 65536
    → y < 0x1_0000_0000
    → (ntohs (htons x) ≡ x)
      × (htons x ≡ x % 256 * 256 + x / 256)
      × (ntohl (htonl y) ≡ y)
      × (htonl y ≡ reversed y)
unfolding ntohs ntohl htons
ntohl-htonl x y h h' =
    let s = htons_bytes x h in
    let l = htonl_bytes y h' in
    (
      htons_bytes (htons x) (omega (arith, s)) ∙ omega (arith, s),
      s,
      htonl_bytes (htonl y) (omega (arith, l)) ∙ omega (arith, l),
      l,
    )
