-- ===== src/Tls/Cbc/Inverse.antt =====
-- CBC decryption undoes CBC encryption (src/lib/vtls.c).
use vmodem.Prelude.{
  take_add, ℕ, zero, suc, ◌+◌, ◌*◌, ◌/◌, ◌%◌, ◌^◌, ◌≤◌, ◌<◌, ◌≡◌, refl, sym, ap, ap₂, ◌∙◌, arith,
  bit_or, bit_or-shifted, bit_xor_cancel, bit_xor_lt, true, inl, inr, Bool-cases, leb, leb→le, List,
  [], ◌∷◌, ◌++◌, length, take, drop, length-drop, take-append-drop, drop-drop,
}
use vmodem.Tls.{
  get32_be, put32_be, Quad, get_quad, put_quad, xor_quad, IsQuad, AllBytes, Aes, AesLaws,
}
use vmodem.Tls.Cbc.{aes_cbc_encrypt, aes_cbc_decrypt}

-- Four bytes as a number.
get32_be_lem :
    (a b c d : ℕ) (r : List ℕ)
    → a < 256
    → b < 256
    → c < 256
    → d < 256
    → get32_be (a ∷ b ∷ c ∷ d ∷ r) ≡ a * 2 ^ 24 + b * 2 ^ 16 + c * 2 ^ 8 + d
unfolding get32_be
get32_be_lem a b c d r ha hb hc hd =
    let ab : bit_or (a * 2 ^ 24) (b * 2 ^ 16) ≡ (a * 2 ^ 8 + b) * 2 ^ 16 =
      bit_or-shifted 24 a (b * 2 ^ 16) (omega arith) ∙ omega arith in
    let abc : bit_or ((a * 2 ^ 8 + b) * 2 ^ 16) (c * 2 ^ 8)
        ≡ ((a * 2 ^ 8 + b) * 2 ^ 8 + c) * 2 ^ 8 =
      bit_or-shifted 16 (a * 2 ^ 8 + b) (c * 2 ^ 8) (omega arith) ∙ omega arith in
    ap (λ t. bit_or (bit_or t (c * 2 ^ 8)) d) ab
    ∙ ap (λ t. bit_or t d) abc
    ∙ bit_or-shifted 8 ((a * 2 ^ 8 + b) * 2 ^ 8 + c) d (omega arith)
    ∙ omega arith

put32_be-get32_be :
    (bs : List ℕ)
    → AllBytes bs
    → 4 ≤ length bs
    → (put32_be (get32_be bs) ≡ take 4 bs) × (get32_be bs < 2 ^ 32)
unfolding put32_be
put32_be-get32_be [] h le = absurd (omega arith)
put32_be-get32_be (a ∷ []) h le = absurd (omega arith)
put32_be-get32_be (a ∷ b ∷ []) h le = absurd (omega arith)
put32_be-get32_be (a ∷ b ∷ c ∷ []) h le = absurd (omega arith)
put32_be-get32_be (a ∷ b ∷ c ∷ d ∷ r) (ha, (hb, (hc, (hd, hr)))) le =
    let e = get32_be_lem a b c d r ha hb hc hd in
    let v = get32_be (a ∷ b ∷ c ∷ d ∷ r) in
    let ea : v / 2 ^ 24 % 256 ≡ a = omega (arith, e) in
    let eb : v / 2 ^ 16 % 256 ≡ b = omega (arith, e) in
    let ec : v / 2 ^ 8 % 256 ≡ c = omega (arith, e) in
    let ed : v % 256 ≡ d = omega (arith, e) in
    (
      ap₂ (λ x l. x ∷ l) ea (ap₂ (λ x l. x ∷ l) eb (ap₂ (λ x y. x ∷ y ∷ []) ec ed)),
      omega (arith, e),
    )

get32_be-put32_be : (v : ℕ) (r : List ℕ) → v < 2 ^ 32 → get32_be (put32_be v ++ r) ≡ v
unfolding put32_be
get32_be-put32_be v r h =
    get32_be_lem (v / 2 ^ 24 % 256) (v / 2 ^ 16 % 256) (v / 2 ^ 8 % 256) (v % 256) r (omega arith)
      (omega arith) (omega arith) (omega arith)
    ∙ omega arith

drop-AllBytes : (n : ℕ) (bs : List ℕ) → AllBytes bs → AllBytes (drop n bs)
drop-AllBytes zero bs h = h
drop-AllBytes (suc n) [] h = tt
drop-AllBytes (suc n) (b ∷ bs) (_, h) = drop-AllBytes n bs h

take-drop_add :
    (m n k : ℕ) (bs : List ℕ)
    → take n (drop m bs) ++ take k (drop (m + n) bs) ≡ take (n + k) (drop m bs)
take-drop_add m n k bs =
    ap (λ l. take n (drop m bs) ++ take k l) (sym (drop-drop m n bs)) ∙ take_add n k (drop m bs)

pub get_quad_lem :
    (bs : List ℕ)
    → AllBytes bs
    → 16 ≤ length bs
    → (put_quad (get_quad bs) ≡ take 16 bs) × IsQuad (get_quad bs)
unfolding get_quad put_quad
get_quad_lem bs h le =
    let (e0, q0) = put32_be-get32_be bs h (omega arith) in
    let (e1, q1) =
      put32_be-get32_be (drop 4 bs) (drop-AllBytes 4 bs h) (omega (arith, length-drop 4 bs)) in
    let (e2, q2) =
      put32_be-get32_be (drop 8 bs) (drop-AllBytes 8 bs h) (omega (arith, length-drop 8 bs)) in
    let (e3, q3) =
      put32_be-get32_be (drop 12 bs) (drop-AllBytes 12 bs h) (omega (arith, length-drop 12 bs)) in
    (
      ap₂ (λ x y. x ++ y) e0
            (ap₂ (λ x y. x ++ y) e1 (ap₂ (λ x y. x ++ y) e2 e3 ∙ take-drop_add 8 4 4 bs)
              ∙ take-drop_add 4 4 8 bs)
          ∙ take-drop_add 0 4 12 bs,
      record { q0 = q0; q1 = q1; q2 = q2; q3 = q3 },
    )

pub get_quad-put_quad : (q : Quad) (r : List ℕ) → IsQuad q → get_quad (put_quad q ++ r) ≡ q
unfolding get_quad put_quad put32_be
get_quad-put_quad q r h = λ i. record {
  w0 = get32_be-put32_be q.w0 (put32_be q.w1 ++ (put32_be q.w2 ++ (put32_be q.w3 ++ r))) h.q0 i;
  w1 = get32_be-put32_be q.w1 (put32_be q.w2 ++ (put32_be q.w3 ++ r)) h.q1 i;
  w2 = get32_be-put32_be q.w2 (put32_be q.w3 ++ r) h.q2 i;
  w3 = get32_be-put32_be q.w3 r h.q3 i;
}

pub xor_quad-IsQuad : (p q : Quad) → IsQuad p → IsQuad q → IsQuad (xor_quad p q)
unfolding xor_quad
xor_quad-IsQuad p q h h' = record {
  q0 = bit_xor_lt 32 p.w0 q.w0 h.q0 h'.q0;
  q1 = bit_xor_lt 32 p.w1 q.w1 h.q1 h'.q1;
  q2 = bit_xor_lt 32 p.w2 q.w2 h.q2 h'.q2;
  q3 = bit_xor_lt 32 p.w3 q.w3 h.q3 h'.q3;
}

pub xor_quad_cancel : (p q : Quad) → xor_quad p (xor_quad p q) ≡ q
unfolding xor_quad
xor_quad_cancel p q = λ i. record {
  w0 = bit_xor_cancel p.w0 q.w0 i;
  w1 = bit_xor_cancel p.w1 q.w1 i;
  w2 = bit_xor_cancel p.w2 q.w2 i;
  w3 = bit_xor_cancel p.w3 q.w3 i;
}

module _ {K : Type 0} (aes : Aes K) (k : K) where
  encrypt_step :
      (fuel : ℕ) (iv : Quad) (bs : List ℕ)
      → leb 16 (length bs) ≡ true
      → let c = aes.encrypt_block k (xor_quad iv (get_quad bs)) in
        (aes_cbc_encrypt aes k (suc fuel) iv bs).1
        ≡ put_quad c ++ (aes_cbc_encrypt aes k fuel c (drop 16 bs)).1
  unfolding aes_cbc_encrypt
  encrypt_step fuel iv bs e = rw (e, aes_cbc_encrypt) refl

  decrypt_step :
      (fuel : ℕ) (iv c : Quad) (r : List ℕ)
      → IsQuad c
      → (aes_cbc_decrypt aes k (suc fuel) iv (put_quad c ++ r)).1
        ≡ put_quad (xor_quad iv (aes.decrypt_block k c)) ++ (aes_cbc_decrypt aes k fuel c r).1
  unfolding aes_cbc_decrypt put_quad put32_be
  decrypt_step fuel iv c r h =
      let e : leb 16 (length (put_quad c ++ r)) ≡ true = ground arith in
      rw (e, aes_cbc_decrypt)
        (ap
          (λ q.
            put_quad (xor_quad iv (aes.decrypt_block k q)) ++ (aes_cbc_decrypt aes k fuel q r).1)
          (get_quad-put_quad c r h))

module _ {K : Type 0} {aes : Aes K} (laws : AesLaws aes) (k : K) where
  -- Where both ends start with the same vector, decryption gives the bytes back.
  pub aes_cbc_decrypt-encrypt :
      (fuel : ℕ) (iv : Quad) (bs : List ℕ)
      → IsQuad iv
      → AllBytes bs
      → (aes_cbc_decrypt aes k fuel iv (aes_cbc_encrypt aes k fuel iv bs).1).1 ≡ bs
  unfolding aes_cbc_encrypt aes_cbc_decrypt
  aes_cbc_decrypt-encrypt zero iv bs hiv h = refl
  aes_cbc_decrypt-encrypt (suc fuel) iv bs hiv h = elim (Bool-cases (leb 16 (length bs))) [
    | inr e ↦ rw (e, aes_cbc_encrypt) (rw (e, aes_cbc_decrypt) refl)
    | inl e ↦
        let (whole, quad) = get_quad_lem bs h (leb→le 16 (length bs) e) in
        let x = xor_quad iv (get_quad bs) in
        let hx = xor_quad-IsQuad iv (get_quad bs) hiv quad in
        let c = aes.encrypt_block k x in
        let hc = laws.encrypt-IsQuad k x hx in
        let r = (aes_cbc_encrypt aes k fuel c (drop 16 bs)).1 in
        ap (λ l. (aes_cbc_decrypt aes k (suc fuel) iv l).1) (encrypt_step aes k fuel iv bs e)
        ∙ decrypt_step aes k fuel iv c r hc
        ∙ ap₂ (λ q l. put_quad (xor_quad iv q) ++ l) (laws.decrypt-encrypt k x hx)
            (aes_cbc_decrypt-encrypt fuel c (drop 16 bs) hc (drop-AllBytes 16 bs h))
        ∙ ap (λ q. put_quad q ++ drop 16 bs) (xor_quad_cancel iv (get_quad bs))
        ∙ ap (λ l. l ++ drop 16 bs) whole
        ∙ take-append-drop 16 bs
  ]

pub length-put_quad : (q : Quad) (r : List ℕ) → length (put_quad q ++ r) ≡ 16 + length r
unfolding put_quad put32_be
length-put_quad q r = omega arith

-- The bytes stay as many.
pub length-aes_cbc_encrypt :
    {K : Type 0} (aes : Aes K) (k : K) (fuel : ℕ) (iv : Quad) (bs : List ℕ)
    → length (aes_cbc_encrypt aes k fuel iv bs).1 ≡ length bs
unfolding aes_cbc_encrypt
length-aes_cbc_encrypt aes k zero iv bs = refl
length-aes_cbc_encrypt aes k (suc fuel) iv bs = elim (Bool-cases (leb 16 (length bs))) [
  | inr e ↦ rw (e, aes_cbc_encrypt) refl
  | inl e ↦
      let c = aes.encrypt_block k (xor_quad iv (get_quad bs)) in
      let r = (aes_cbc_encrypt aes k fuel c (drop 16 bs)).1 in
      ap length (encrypt_step aes k fuel iv bs e)
      ∙ omega (
        arith,
        length-put_quad c r,
        length-aes_cbc_encrypt aes k fuel c (drop 16 bs),
        length-drop 16 bs,
        leb→le 16 (length bs) e,
      )
]
