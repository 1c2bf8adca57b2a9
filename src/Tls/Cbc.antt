-- ===== src/Tls/Cbc.antt =====
-- `aes_cbc_encrypt` and `aes_cbc_decrypt` of src/lib/vtls.c.
pub mod Inverse
use vmodem.Prelude.{
  ℕ, zero, suc, ◌+◌, ◌-◌, ◌*◌, ◌/◌, ◌%◌, ◌^◌, ◌≤◌, ◌<◌, ◌≡◌, refl, sym, ap, ap₂, ◌∙◌, subst, arith,
  bit_or, bit_xor, bit_or-shifted, bit_xor_cancel, bit_xor_lt, true, false, inl, inr, Bool-cases,
  leb, leb→le, List, [], ◌∷◌, ◌++◌, append_assoc, length, take, drop, length-append, length-drop,
  take-append-drop,
}
use vmodem.Tls.{
  get32_be, put32_be, Quad, get_quad, put_quad, xor_quad, IsQuad, AllBytes, Aes, AesLaws,
}

module _ {K : Type 0} (aes : Aes K) (k : K) where
  -- `while (len >= 16)`: the vector left and the bytes. Every round takes 16 bytes, so their number is
  -- enough fuel.
  unfoldable pub aes_cbc_encrypt : ℕ → Quad → List ℕ → Quad × List ℕ
  unfolding get_quad put_quad xor_quad
  aes_cbc_encrypt zero iv blk = (iv, blk)
  aes_cbc_encrypt (suc fuel) iv blk = elim (leb 16 (length blk)) [
    | true ↦
        let c = aes.encrypt_block k (xor_quad iv (get_quad blk)) in
        let (iv', rest) = aes_cbc_encrypt fuel c (drop 16 blk) in (iv', put_quad c ++ rest)
    | false ↦ (iv, blk)
  ]

  unfoldable pub aes_cbc_decrypt : ℕ → Quad → List ℕ → Quad × List ℕ
  unfolding get_quad put_quad xor_quad
  aes_cbc_decrypt zero iv blk = (iv, blk)
  aes_cbc_decrypt (suc fuel) iv blk = elim (leb 16 (length blk)) [
    | true ↦
        let c = get_quad blk in
        let x = aes.decrypt_block k c in
        let (iv', rest) = aes_cbc_decrypt fuel c (drop 16 blk) in
        (iv', put_quad (xor_quad iv x) ++ rest)
    | false ↦ (iv, blk)
  ]
